-- ===== src/Web/Session/Genuine.antt =====
-- What a token that `verifySession` takes is.
use proxygate.Prelude.{
  ℕ, ◌<◌, true, List, [], ◌∷◌, ◌++◌, Option, none, some, Bytes, ◌≡◌, refl, ap, sym, ◌∙◌, arith,
  bytes_eq_sound, codes,
}
use proxygate.Prelude.Int.{ℤ, pos, negsuc}
use proxygate.Config.{Config}
use proxygate.Text.{split, atoi}
use proxygate.Text.Splitting.{joined, joined-split}
use proxygate.Web.Session.{
  Crypto, is_before, check_parts, check_signature, check_token, verify_session,
}

-- A payload of the user that has not expired.
pub record IsPayload (c : Config) (now : ℕ) (text : Bytes) : Type 0 where
  pub number : Bytes
  pub expires : ℕ
  pub for_user : text ≡ codes c.web.username ++ 124 ∷ number
  pub is_number : atoi number ≡ some (pos expires)
  pub in_time : now < expires

-- The two parts of a token, the second a signature of the first with the secret in force.
pub record IsGenuine (k : Crypto) (c : Config) (now : ℕ) (token : Bytes) : Type 0 where
  pub left : Bytes
  pub right : Bytes
  pub text : Bytes
  pub parts : token ≡ left ++ 46 ∷ right
  pub text_read : k.decode left ≡ some text
  pub signed : k.decode right ≡ some (k.mac (codes c.web.session_secret) text)
  pub holds : IsPayload c now text

is_before-pos :
    (now : ℕ) (o : Option ℤ) → is_before now o ≡ true → (n : ℕ) × (o ≡ some (pos n)) × (now < n)
unfolding is_before
is_before-pos now none h = absurd (ground (arith, h))
is_before-pos now (some (negsuc n)) h = absurd (ground (arith, h))
is_before-pos now (some (pos n)) h = (n, refl, ground (arith, h))

check_parts-IsPayload :
    (c : Config) (now : ℕ) (text : Bytes) (parts : List Bytes)
    → joined 124 parts ≡ text
    → check_parts c now parts ≡ true
    → IsPayload c now text
unfolding check_parts
check_parts-IsPayload c now text (u ∷ e ∷ []) j h =
    let (n, number, later) = is_before-pos now (atoi e) (ground (arith, h)) in
    let user : u ≡ codes c.web.username =
      bytes_eq_sound u (codes c.web.username) (ground (arith, h)) in
    record {
      number = e;
      expires = n;
      for_user = sym j ∙ ap (λ t. t ++ 124 ∷ e) user;
      is_number = number;
      in_time = later;
    }
check_parts-IsPayload c now text parts j h = absurd (ground (arith, h))

signature-IsGenuine :
    (k : Crypto) (c : Config) (now : ℕ) (token left right : Bytes) (o s : Option Bytes)
    → token ≡ left ++ 46 ∷ right
    → k.decode left ≡ o
    → k.decode right ≡ s
    → check_signature k c now o s ≡ true
    → IsGenuine k c now token
unfolding check_signature
signature-IsGenuine k c now token left right (some text) (some signature) t l r h =
    let same : signature ≡ k.mac (codes c.web.session_secret) text =
      bytes_eq_sound signature (k.mac (codes c.web.session_secret) text) (ground (arith, h)) in
    record {
      left = left;
      right = right;
      text = text;
      parts = t;
      text_read = l;
      signed = r ∙ ap some same;
      holds =
          check_parts-IsPayload c now text (split 124 text) (joined-split 124 text)
            (ground (arith, h));
    }
signature-IsGenuine k c now token left right o s t l r h = absurd (ground (arith, h))

token-IsGenuine :
    (k : Crypto) (c : Config) (now : ℕ) (token : Bytes) (parts : List Bytes)
    → joined 46 parts ≡ token
    → check_token k c now parts ≡ true
    → IsGenuine k c now token
unfolding check_token
token-IsGenuine k c now token (left ∷ right ∷ []) j h =
    signature-IsGenuine k c now token left right (k.decode left) (k.decode right) (sym j) refl refl
      h
token-IsGenuine k c now token parts j h = absurd (ground (arith, h))

-- A token that is taken was signed with the secret in force, for the user of the settings, and has not
-- expired.
pub verify_session-IsGenuine :
    (k : Crypto) (c : Config) (token : Bytes) (now : ℕ)
    → verify_session k c token now ≡ true
    → IsGenuine k c now token
unfolding verify_session
verify_session-IsGenuine k c token now h =
    token-IsGenuine k c now token (split 46 token) (joined-split 46 token) h
