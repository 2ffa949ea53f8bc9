-- ===== src/Web/Session.antt =====
-- internal/server/auth.go: the session cookies. Times are seconds since 1970.
pub mod Tokens
pub mod Genuine
use proxygate.Prelude.{
  ℕ, zero, suc, ◌+◌, ◌/◌, ◌%◌, String, Bool, true, false, ◌&&◌, List, [], ◌∷◌, ◌++◌, Option, none,
  some, Bytes, bytes_eq, codes, ltb, if◌then◌else◌,
}
use proxygate.Prelude.Int.{ℤ, pos, negsuc}
use proxygate.Config.{Config}
use proxygate.Text.{split, atoi, format_int}

-- `hmac.New(sha256.New, secret)` on a text, and `base64.RawURLEncoding`.
pub record Crypto : Type 0 where
  pub mac : Bytes → Bytes → Bytes
  pub encode : Bytes → Bytes
  pub decode : Bytes → Option Bytes

-- The payload that is signed.
unfoldable pub payload : Config → ℕ → Bytes
payload c expires = codes c.web.username ++ 124 ∷ format_int expires

-- `signSession`
unfoldable pub sign_session : Crypto → Config → ℕ → Bytes
unfolding payload
sign_session k c expires =
    k.encode (payload c expires)
    ++ 46 ∷ k.encode (k.mac (codes c.web.session_secret) (payload c expires))

is_before : ℕ → Option ℤ → Bool
is_before now none = false
is_before now (some (negsuc n)) = false
is_before now (some (pos n)) = ltb now n

check_parts : Config → ℕ → List Bytes → Bool
unfolding is_before
check_parts c now (username ∷ expires ∷ []) =
    bytes_eq username (codes c.web.username) && is_before now (atoi expires)
check_parts c now parts = false

check_signature : Crypto → Config → ℕ → Option Bytes → Option Bytes → Bool
unfolding check_parts
check_signature k c now (some text) (some signature) =
    bytes_eq signature (k.mac (codes c.web.session_secret) text)
    && check_parts c now (split 124 text)
check_signature k c now text signature = false

check_token : Crypto → Config → ℕ → List Bytes → Bool
unfolding check_signature
check_token k c now (text ∷ signature ∷ []) =
    check_signature k c now (k.decode text) (k.decode signature)
check_token k c now parts = false

-- `verifySession`
unfoldable pub verify_session : Crypto → Config → Bytes → ℕ → Bool
unfolding check_token
verify_session k c token now = check_token k c now (split 46 token)
