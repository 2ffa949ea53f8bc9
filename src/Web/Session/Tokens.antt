-- ===== src/Web/Session/Tokens.antt =====
-- Which tokens `verifySession` takes.
use proxygate.Prelude.{
  ℕ, ◌≤◌, true, false, ◌&&◌, not, List, [], ◌∷◌, some, Bytes, ◌≡◌, refl, ap, ◌∙◌, arith, bytes_eq,
  bytes_eq_sound, bytes_eq_refl, contains, codes, ltb, Bool-cases, inl, inr,
}
use proxygate.Config.{Config}
use proxygate.Text.{split, format_int, max_int64}
use proxygate.Text.Splitting.{split-append, split-last, first_part, first_part-split}
use proxygate.Text.Decimal.{atoi-format_int, contains-format_int}
use proxygate.Web.Session.{
  Crypto, payload, sign_session, is_before, check_parts, check_signature, check_token,
  verify_session,
}

-- `base64.RawURLEncoding`: a text is read back, and its letters have no dot.
pub record IsCodec (k : Crypto) : Type 0 where
  pub decode-encode : (text : Bytes) → k.decode (k.encode text) ≡ some text
  pub no_dot : (text : Bytes) → contains 46 (k.encode text) ≡ false

abbrev secret : Config → Bytes
secret c = codes c.web.session_secret

split-sign_session :
    (k : Crypto) (c : Config) (expires : ℕ)
    → IsCodec k
    → split 46 (sign_session k c expires)
      ≡ k.encode (payload c expires) ∷ k.encode (k.mac (secret c) (payload c expires)) ∷ []
unfolding sign_session
split-sign_session k c expires h =
    split-append 46 (k.encode (payload c expires)) (k.encode (k.mac (secret c) (payload c expires)))
      (h.no_dot (payload c expires))
    ∙ ap (◌∷◌ (k.encode (payload c expires))) (
        split-last 46 (k.encode (k.mac (secret c) (payload c expires)))
          (h.no_dot (k.mac (secret c) (payload c expires))))

-- The signature of one's own token holds.
check-sign_session :
    (k : Crypto) (c : Config) (expires now : ℕ)
    → IsCodec k
    → verify_session k c (sign_session k c expires) now
      ≡ check_parts c now (split 124 (payload c expires))
unfolding verify_session check_token check_signature
check-sign_session k c expires now h =
    ap (check_token k c now) (split-sign_session k c expires h)
    ∙ (λ i.
        check_signature k c now (h.decode-encode (payload c expires) i)
          (h.decode-encode (k.mac (secret c) (payload c expires)) i))
    ∙ ap (λ b. b && check_parts c now (split 124 (payload c expires)))
        (bytes_eq_refl (k.mac (secret c) (payload c expires)))

-- A bar in the user name cuts it.
check_parts-bar :
    (c : Config) (now : ℕ) (parts : List Bytes)
    → contains 124 (first_part parts) ≡ false
    → contains 124 (codes c.web.username) ≡ true
    → check_parts c now parts ≡ false
unfolding check_parts
check_parts-bar c now [] h k = refl
check_parts-bar c now (u ∷ []) h k = refl
check_parts-bar c now (u ∷ e ∷ []) h k = elim (Bool-cases (bytes_eq u (codes c.web.username))) [
  | inl t ↦
      let same : contains 124 u ≡ contains 124 (codes c.web.username) =
        ap (contains 124) (bytes_eq_sound u (codes c.web.username) t) in
      absurd (ground (arith, same, h, k))
  | inr t ↦ ground (arith, t)
]
check_parts-bar c now (u ∷ e ∷ x ∷ xs) h k = refl

check_parts-payload :
    (c : Config) (expires now : ℕ)
    → expires ≤ max_int64
    → check_parts c now (split 124 (payload c expires))
      ≡ (not (contains 124 (codes c.web.username)) && ltb now expires)
unfolding check_parts is_before payload
check_parts-payload c expires now h = elim (Bool-cases (contains 124 (codes c.web.username))) [
  | inl e ↦
      check_parts-bar c now (split 124 (payload c expires))
        (first_part-split 124 (payload c expires)) e
      ∙ ground (arith, e)
  | inr e ↦
      let parts : split 124 (payload c expires) ≡ codes c.web.username ∷ format_int expires ∷ [] =
        split-append 124 (codes c.web.username) (format_int expires) e
        ∙ ap (◌∷◌ (codes c.web.username))
            (split-last 124 (format_int expires) (contains-format_int 124 expires (omega arith))) in
      ap (check_parts c now) parts
      ∙ (λ i. bytes_eq_refl (codes c.web.username) i && is_before now (atoi-format_int expires h i))
      ∙ ground (arith, e)
]

-- If base64 reads back what it wrote and writes no dot, a token that `signSession` made for a time of 63
-- bits is taken, with the same settings, exactly before that time if the user name has no bar, and never
-- if it has one.
pub verify_session-sign_session :
    (k : Crypto) (c : Config) (expires now : ℕ)
    → IsCodec k
    → expires ≤ max_int64
    → verify_session k c (sign_session k c expires) now
      ≡ (not (contains 124 (codes c.web.username)) && ltb now expires)
verify_session-sign_session k c expires now h small =
    check-sign_session k c expires now h ∙ check_parts-payload c expires now small
