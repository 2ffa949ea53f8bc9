-- ===== src/Web/Saving.antt =====
-- What `putConfig` leaves of the secrets and of the session.
use proxygate.Prelude.{
  ℕ, ◌+◌, ◌≤◌, String, Bool, Option, none, some, Result, ok, err, ◌≡◌, ◌⊎◌, inl, inr, refl, ap, sym,
  subst, ◌∙◌, arith, str_eq, eq_iff, ltb, Bool-cases,
}
use Prim.Native.String.{len}
use proxygate.Config.{Config}
use proxygate.Config.Store.{Platform, save, resolve, Store as Settings}
use proxygate.Config.Store.Saving.{IsSaved, IsUntouched, save-IsAtomic}
use proxygate.Web.{
  Site, Outside, Response, answer, problem, with_secrets, hash_or, new_hash, hashed, saved_answer,
  save_filtered, save_hashed, save_settings, session_cookie, restart_required,
}
use proxygate.Web.Session.{sign_session}

-- A password hash that stays, or the hash of a new password of eight characters at least.
abbrev pub IsNewHash : Outside → String → String → String → Type 0
IsNewHash o password old new =
    ((password ≡ "") × (new ≡ old)) ⊎ ((8 ≤ len password) × (o.hash password ≡ ok new))

-- Settings that took effect: they are those of the request but for the secrets, valid and in the file;
-- the secret is the old one, and the cookie is a session for them.
pub record IsStored (o : Outside) (input : Config) (password : String) (s : Site)
    (result : Response × Site) : Type 0 where
  pub secret :
      result.1.settings.settings.web.session_secret ≡ s.settings.settings.web.session_secret
  pub username : result.1.settings.settings.web.username ≡ input.web.username
  pub hash :
      IsNewHash o password s.settings.settings.web.password_hash
        result.1.settings.settings.web.password_hash
  pub saved :
      IsSaved o.platform
        (resolve o.platform (record input {
          web = record input.web {
            password_hash = result.1.settings.settings.web.password_hash;
            session_secret = s.settings.settings.web.session_secret;
          };
        }))
        result.1.settings
  pub cookie : result.0.cookie ≡ some (session_cookie o result.1.settings.settings)

-- Settings that were refused: those in force are what they were.
pub record IsRefused (s : Site) (result : Response × Site) : Type 0 where
  pub same_settings : result.1.settings.settings ≡ s.settings.settings
  pub same_file : result.1.settings.stored.file ≡ s.settings.stored.file
  pub no_cookie : result.0.cookie ≡ none

abbrev pub IsAnswered : Outside → Config → String → Site → Response × Site → Type 0
IsAnswered o input password s result = IsStored o input password s result ⊎ IsRefused s result

refused_before :
    (o : Outside) (input : Config) (password e : String) (code : ℕ) (s : Site)
    → IsAnswered o input password s (answer code (problem e), s)
refused_before o input password e code s =
    inr (record { same_settings = refl; same_file = refl; no_cookie = refl })

-- `resolve` changes the database's path only.
resolve-web : (h : Platform) (c : Config) → (resolve h c).web ≡ c.web
unfolding resolve
resolve-web h c = elim (Bool-cases (h.is_abs c.database_path)) [
  | inl e ↦ rw e refl
  | inr e ↦ rw e refl
]

saved_answer-IsAnswered :
    (o : Outside) (required : Bool) (input : Config) (password hash : String) (s : Site)
    (r : Option String × Settings)
    → IsNewHash o password s.settings.settings.web.password_hash hash
    → ((r.0 ≡ none)
        × IsSaved o.platform
            (resolve o.platform (with_secrets input hash s.settings.settings.web.session_secret))
            r.1)
      ⊎ IsUntouched s.settings r
    → IsAnswered o input password s (
        saved_answer o required
          (with_secrets input hash s.settings.settings.web.session_secret)
          s
          r)
unfolding saved_answer sign_session
saved_answer-IsAnswered o required input password hash s (some e, settings) h (inl (k, t)) =
    absurd (ground (arith, k))
saved_answer-IsAnswered o required input password hash s (some e, settings) h (inr u) =
    inr (record { same_settings = u.same_settings; same_file = u.same_file; no_cookie = refl })
saved_answer-IsAnswered o required input password hash s (none, settings) h (inl (k, t)) =
    let value : Config = with_secrets input hash s.settings.settings.web.session_secret in
    let same : settings.settings.web ≡ value.web =
      ap (λ (c : Config). c.web) t.in_force ∙ resolve-web o.platform value in
    inl (record {
      secret = ap (λ w. w.session_secret) same;
      username = ap (λ w. w.username) same;
      hash =
          subst (IsNewHash o password s.settings.settings.web.password_hash)
            (sym (ap (λ w. w.password_hash) same)) h;
      saved =
          subst
            (λ x.
              IsSaved o.platform
                (resolve o.platform (with_secrets input x s.settings.settings.web.session_secret))
                settings)
            (sym (ap (λ w. w.password_hash) same)) t;
      cookie =
          ap (λ w. some (sign_session o.crypto (record value { web = w }) (o.now + 43200)))
            (sym same);
    })
saved_answer-IsAnswered o required input password hash s (none, settings) h (inr u) =
    absurd (ground (arith, u.failed))

save_filtered-IsAnswered :
    (o : Outside) (input : Config) (password hash : String) (s : Site) (filter : Option String)
    → IsNewHash o password s.settings.settings.web.password_hash hash
    → IsAnswered o input password s
        (save_filtered o (with_secrets input hash s.settings.settings.web.session_secret) s filter)
unfolding save_filtered
save_filtered-IsAnswered o input password hash s (some e) h =
    refused_before o input password e 400 s
save_filtered-IsAnswered o input password hash s none h =
    let value : Config = with_secrets input hash s.settings.settings.web.session_secret in
    saved_answer-IsAnswered o (restart_required s.settings.settings value) input password hash s
      (save o.platform o.faults value s.settings) h
      (save-IsAtomic o.platform o.faults value s.settings)

-- What `new_hash` gives is a new hash.
abbrev IsHashed : Outside → String → String → Result (ℕ × String) (Option String) → Type 0
IsHashed o password old (err e) = Unit {0}
IsHashed o password old (ok new) = IsNewHash o password old (hash_or old new)

new_hash-IsHashed :
    (o : Outside) (password old : String) → IsHashed o password old (new_hash o password)
unfolding new_hash hashed
new_hash-IsHashed o password old = elim (Bool-cases (str_eq password "")) [
  | inl e ↦ rw e (inl ((eq_iff password "").0 e, refl))
  | inr e ↦ elim (Bool-cases (ltb (len password) 8)) [
    | inl t ↦ rw (e, t) tt
    | inr t ↦ rw (e, t) (given (o.hash password) refl (ground (arith, t)))
  ]
]
  where
    given :
        (r : Result String String)
        → o.hash password ≡ r
        → 8 ≤ len password
        → IsHashed o password old (hashed r)
    given (err e) same long = tt
    given (ok new) same long = inr (long, same)

save_hashed-IsAnswered :
    (o : Outside) (input : Config) (password : String) (s : Site)
    (new : Result (ℕ × String) (Option String))
    → IsHashed o password s.settings.settings.web.password_hash new
    → IsAnswered o input password s (save_hashed o input s new)
unfolding save_hashed
save_hashed-IsAnswered o input password s (err (code, e)) h =
    refused_before o input password e code s
save_hashed-IsAnswered o input password s (ok new) h =
    save_filtered-IsAnswered o input password (hash_or s.settings.settings.web.password_hash new) s
      (o.filter_error input.filter_expression) h

-- Settings that the web interface sends take effect as a whole or not at all. When they do, every setting
-- in force is that of the request, with the paths resolved, but for the two secrets: the session secret
-- is the old one whatever the request says, and the password hash is the old one or the hash of the new
-- password, which has at least eight bytes. These settings are valid, the file has their text, and the
-- response's cookie is a session for their user. When they do not, the settings in force and their file
-- are what they were, and no cookie is set.
pub save_settings-IsAnswered :
    (o : Outside) (input : Config) (password : String) (s : Site)
    → IsAnswered o input password s (save_settings o (ok (input, password)) s)
unfolding save_settings
save_settings-IsAnswered o input password s =
    save_hashed-IsAnswered o input password s (new_hash o password)
      (new_hash-IsHashed o password s.settings.settings.web.password_hash)
