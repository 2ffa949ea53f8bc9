-- ===== src/Config/Steps.antt =====
-- What each step of `Validate` accepts.
use proxygate.Prelude.{
  ℕ, String, Bool, true, false, ◌&&◌, ◌||◌, not, List, [], ◌∷◌, Option, none, some, Result, ok, err,
  ◌≡◌, ◌≢◌, ◌≤◌, ◌<◌, ◌⊎◌, ◌↔◌, inl, inr, refl, ap, sym, subst, ◌∙◌, str_eq, eq_iff, arith,
  Bool-cases, both, either, chain, test-&&, test-||, test-not, test-str_eq, leb,
}
use proxygate.Prelude.Int.{ℤ, pos, negsuc}
use proxygate.Config.{
  Parsers, positive, positive_duration, duration_or, ◌and_then◌, require, within, is_http,
  same_blank, is_http_with_host, is_empty_list,
}
use proxygate.Config.Validity.{IsHttp, IsDuration, IsAddress, IsUrl}

pub require-none : (t : Bool) (m : String) → (require t m ≡ none) ↔ (t ≡ true)
unfolding require
require-none true m = (λ h. refl, λ h. refl)
require-none false m = (λ h. absurd (ground (arith, h)), λ h. absurd (ground (arith, h)))

and_then-none : (a b : Option String) → ((a and_then b) ≡ none) ↔ ((a ≡ none) × (b ≡ none))
unfolding ◌and_then◌
and_then-none none b = (λ h. (refl, h), λ h. h.1)
and_then-none (some e) b = (λ h. absurd (ground (arith, h)), λ h. absurd (ground (arith, h.0)))

module _ {P Q : Type 0} where
  -- A step and what follows it.
  infixr 4 ◌then◌
  pub ◌then◌ :
      {a b : Option String} → (a ≡ none) ↔ P → (b ≡ none) ↔ Q → ((a and_then b) ≡ none) ↔ (P × Q)
  ◌then◌ {a} {b} f g = chain (and_then-none a b) (both f g)

module _ {P : Type 0} where
  pub requires : {t : Bool} (m : String) → (t ≡ true) ↔ P → (require t m ≡ none) ↔ P
  requires {t} m f = chain (require-none t m) f

pub within-none {ℓ} :
    {A : Type ℓ} (field : String) (r : Result String A)
    → (within field r ≡ none) ↔ ((a : A) × (r ≡ ok a))
unfolding within
within-none field (ok a) = (λ h. (a, refl), λ h. refl)
within-none field (err e) = (λ h. absurd (ground (arith, h)), λ h. absurd (ground (arith, h.1)))

positive-ok :
    (r : Result String ℤ) → ((d : ℕ) × (positive r ≡ ok d)) ↔ ((d : ℕ) × (r ≡ ok (pos d)) × (0 < d))
unfolding positive
positive-ok (err e) = (λ h. absurd (ground (arith, h.1)), λ h. absurd (ground (arith, h.1)))
positive-ok (ok (negsuc n)) = (λ h. absurd (ground (arith, h.1)), λ h. absurd (ground (arith, h.1)))
positive-ok (ok (pos n)) = (λ h. (n, refl, ground (arith, h.1)), λ h. (n, ground (arith, h.1, h.2)))

pub duration-IsDuration :
    (p : Parsers) (field value : String)
    → (within field (positive_duration p value) ≡ none) ↔ IsDuration p value
unfolding positive_duration
duration-IsDuration p field value =
    chain (within-none field (positive (p.duration value))) (positive-ok (p.duration value))

duration_or-set :
    (p : Parsers) (default : ℕ) (value : String)
    → str_eq value "" ≡ false
    → duration_or p default value ≡ positive_duration p value
unfolding duration_or
duration_or-set p default value e = ground (arith, e)

duration_or-blank :
    (p : Parsers) (default : ℕ) (value : String)
    → str_eq value "" ≡ true
    → duration_or p default value ≡ ok default
unfolding duration_or
duration_or-blank p default value e = ground (arith, e)

pub duration_or-IsDuration :
    (p : Parsers) (field : String) (default : ℕ) (value : String)
    → (within field (duration_or p default value) ≡ none) ↔ ((value ≡ "") ⊎ IsDuration p value)
duration_or-IsDuration p field default value = elim (Bool-cases (str_eq value "")) [
  | inl e ↦ (
    λ h. inl ((eq_iff value "").0 e),
    λ h.
        (within-none field (duration_or p default value)).1
          (default, duration_or-blank p default value e),
  )
  | inr e ↦
      let same : within field (duration_or p default value)
          ≡ within field (positive_duration p value) =
        ap (within field) (duration_or-set p default value e) in
      (
        λ h. inr ((duration-IsDuration p field value).0 (sym same ∙ h)),
        λ h. same ∙ (elim h [
          | inl blank ↦ absurd ((test-str_eq value "").0 e blank)
          | inr d ↦ (duration-IsDuration p field value).1 d
        ]),
      )
]

pub split_host_port-IsAddress :
    (p : Parsers) (field value : String)
    → (within field (p.split_host_port value) ≡ none) ↔ IsAddress p value
split_host_port-IsAddress p field value = within-none field (p.split_host_port value)

scheme-IsHttp :
    (scheme : String) → ((str_eq scheme "http" || str_eq scheme "https") ≡ true) ↔ IsHttp scheme
scheme-IsHttp scheme =
    chain (test-|| (str_eq scheme "http") (str_eq scheme "https"))
      (either (eq_iff scheme "http") (eq_iff scheme "https"))

is_http-IsHttp :
    (u : Option (String × String))
    → (is_http u ≡ true) ↔ ((scheme host : String) × (u ≡ some (scheme, host)) × IsHttp scheme)
unfolding is_http
is_http-IsHttp none = (λ h. absurd (ground (arith, h)), λ h. absurd (ground (arith, h.2)))
is_http-IsHttp (some (scheme, host)) = (
  λ h. (scheme, host, refl, (scheme-IsHttp scheme).0 h),
  λ h.
      let same : scheme ≡ h.0 = ground (arith, h.2) in
      (scheme-IsHttp scheme).1 (subst IsHttp (sym same) h.3),
)

pub request_uri-IsUrl :
    (p : Parsers) (url : String) → (is_http (p.request_uri url) ≡ true) ↔ IsUrl p url
request_uri-IsUrl p url = is_http-IsHttp (p.request_uri url)

pub not-blank : (s : String) → (not (str_eq s "") ≡ true) ↔ (s ≢ "")
not-blank s = chain (test-not (str_eq s "")) (test-str_eq s "")

pub request_uri-IsUrlWithHost :
    (u : Option (String × String))
    → (is_http_with_host u ≡ true)
      ↔ ((scheme host : String) × (u ≡ some (scheme, host)) × (host ≢ "") × IsHttp scheme)
unfolding is_http_with_host
request_uri-IsUrlWithHost none =
    (λ h. absurd (ground (arith, h)), λ h. absurd (ground (arith, h.2)))
request_uri-IsUrlWithHost (some (scheme, host)) =
    let parts : ((not (str_eq host "") && (str_eq scheme "http" || str_eq scheme "https")) ≡ true)
        ↔ ((host ≢ "") × IsHttp scheme) =
      chain (test-&& (not (str_eq host "")) (str_eq scheme "http" || str_eq scheme "https"))
        (both (not-blank host) (scheme-IsHttp scheme)) in
    (
      λ h. let r = parts.0 h in (scheme, host, refl, r.0, r.1),
      λ h.
          let same : scheme ≡ h.0 = ground (arith, h.2) in
          let same_host : host ≡ h.1 = ground (arith, h.2) in
          parts.1 (λ e. h.3 (sym same_host ∙ e), subst IsHttp (sym same) h.4),
    )

-- The two texts are both empty or both not.
pub same_blank-paired : (s t : String) → (same_blank s t ≡ true) ↔ ((s ≡ "") ↔ (t ≡ ""))
same_blank-paired s t = elim (Bool-cases (str_eq s "")) [
  | inl a ↦ (
    λ h. (λ _. (eq_iff t "").0 (ground (arith, a, h)), λ _. (eq_iff s "").0 a),
    λ h. ground (arith, a, (eq_iff t "").1 (h.0 ((eq_iff s "").0 a))),
  )
  | inr a ↦ (
    λ h. (
      λ e. absurd ((test-str_eq s "").0 a e),
      λ e. absurd (ground (arith, a, h, (eq_iff t "").1 e)),
    ),
    λ h.
        let b : str_eq t "" ≡ false = (test-str_eq t "").1 (λ e. (test-str_eq s "").0 a (h.1 e)) in
        ground (arith, a, b),
  )
]

pub fits : (a b : ℕ) → ((leb a 255 && leb b 255) ≡ true) ↔ ((a ≤ 255) × (b ≤ 255))
fits a b = (λ h. (ground (arith, h), ground (arith, h)), λ h. ground (arith, h.0, h.1))

pub list-filled : (xs : List String) → (not (is_empty_list xs) ≡ true) ↔ (xs ≢ [])
list-filled [] = (λ h. absurd (ground (arith, h)), λ h. absurd (h refl))
list-filled (x ∷ xs) = (λ h e. ground (arith, e), λ h. refl)
