-- ===== src/Net/Laws.antt =====
-- The laws of addresses that the SOCKS5 codec uses, and tests of the text forms.
use proxygate.Prelude.{
  ℕ, ◌++◌, ◌<◌, ◌≡◌, refl, ◌⊎◌, inl, inr, none, some, [], ◌∷◌, arith, Bytes, length, length-drop,
  codes, bytes_eq,
}
use proxygate.Net.{
  v4_in_v6_prefix, to4, to16, itoa, ip_string, join_host_port, put_uint16, get_uint16,
}

pub length-to4 : (ip : Bytes) {v4 : Bytes} → to4 ip ≡ some v4 → length v4 ≡ 4
unfolding to4
length-to4 ip h = ground (arith, length-drop 12 ip)

pub length-to16 :
    (ip : Bytes) → (length ip ≡ 4) ⊎ (length ip ≡ 16) → (v6 : Bytes) × (to16 ip ≡ some v6)
unfolding to16
length-to16 ip (inl h) = (v4_in_v6_prefix ++ ip, ground arith)
length-to16 ip (inr h) = (ip, ground arith)

-- Only a 16-byte address has no IPv4 form.
pub to16-to4 : (ip v6 : Bytes) → to4 ip ≡ none → to16 ip ≡ some v6 → (v6 ≡ ip) × (length ip ≡ 16)
unfolding to4 to16
to16-to4 ip v6 h k = ground arith

pub to4_of_4 : (v4 : Bytes) → length v4 ≡ 4 → to4 v4 ≡ some v4
unfolding to4
to4_of_4 v4 h = rw h

-- An IPv4 address reads the same in both forms.
pub ip_string-to4 : (ip v4 : Bytes) → to4 ip ≡ some v4 → ip_string v4 ≡ ip_string ip
unfolding ip_string
ip_string-to4 ip v4 h = rw (to4_of_4 v4 (length-to4 ip h), h)

pub get_uint16-put_uint16 : (port : ℕ) → port < 65536 → get_uint16 (put_uint16 port) ≡ port
get_uint16-put_uint16 port h = omega arith

itoa_port : itoa 8080 ≡ codes "8080"
unfolding itoa
itoa_port = refl

v4_text : ip_string (127 ∷ 0 ∷ 0 ∷ 1 ∷ []) ≡ codes "127.0.0.1"
unfolding ip_string to4 bytes_eq
v4_text = refl

v6_text :
    ip_string (32 ∷ 1 ∷ 13 ∷ 184 ∷ 0 ∷ 0 ∷ 0 ∷ 0 ∷ 0 ∷ 0 ∷ 0 ∷ 0 ∷ 0 ∷ 0 ∷ 0 ∷ 1 ∷ [])
    ≡ codes "2001:db8::1"
unfolding ip_string to4 bytes_eq
v6_text = refl

v6_mapped :
    ip_string (0 ∷ 0 ∷ 0 ∷ 0 ∷ 0 ∷ 0 ∷ 0 ∷ 0 ∷ 0 ∷ 0 ∷ 255 ∷ 255 ∷ 10 ∷ 0 ∷ 0 ∷ 7 ∷ [])
    ≡ codes "10.0.0.7"
unfolding ip_string to4 bytes_eq
v6_mapped = refl

v6_joined : join_host_port (codes "2001:db8::1") (itoa 443) ≡ codes "[2001:db8::1]:443"
unfolding join_host_port itoa
v6_joined = refl
