-- ===== src/Socks5/Conn/Laws.antt =====
-- Reading back what was sent, and what a successful read or write says.
use proxygate.Prelude.{
  ℕ, ◌≡◌, refl, ap, subst, Bool, true, false, [], ◌∷◌, ◌++◌, arith, Bytes, length, Result, ok, err,
  length-append, take-length, drop-length, take-append-drop, length-take, le→leb, leb→le,
  if◌then◌else◌,
}
use proxygate.Socks5.Conn.{Conn, Exec, Error, ◌>>=◌, ◌>>◌, stop_if, read_full, byte_at}

-- A read takes the bytes that were sent first.
pub read_full-append :
    (xs rest out : Bytes) (w : ℕ)
    → read_full (length xs) (record { input = xs ++ rest; output = out; writes_left = w })
      ≡ (ok xs, record { input = rest; output = out; writes_left = w })
unfolding read_full
read_full-append xs rest out w = rw (
  le→leb (length xs) (length (xs ++ rest)) (omega (arith, length-append xs rest)),
  take-length xs rest,
  drop-length xs rest,
)

-- A read that succeeds took the bytes off the front, as many as were asked for.
pub read_full_sound :
    (n : ℕ) (c c' : Conn) (xs : Bytes)
    → read_full n c ≡ (ok xs, c')
    → (c.input ≡ xs ++ c'.input)
      × (length xs ≡ n)
      × (c'.output ≡ c.output)
      × (c'.writes_left ≡ c.writes_left)
unfolding read_full
read_full_sound n c c' xs h =
    ground (arith, take-append-drop n c.input, length-take n c.input, leb→le n (length c.input))

-- A chain goes on from what its first part returns.
pub >>=-ok :
    {A B : Type 0} (m : Exec A) (f : A → Exec B) (c : Conn) {a : A} {c' : Conn}
    → m c ≡ (ok a, c')
    → (m >>= f) c ≡ f a c'
unfolding ◌>>=◌
>>=-ok m f c h = ap (λ r. (◌>>=◌ (λ _. r) f) c) h

module _ {B : Type 0} where
  pub read_full-ok :
      (xs rest out : Bytes) (w : ℕ) (f : Bytes → Exec B)
      → (read_full (length xs) >>= f) (record { input = xs ++ rest; output = out; writes_left = w })
        ≡ f xs (record { input = rest; output = out; writes_left = w })
  read_full-ok xs rest out w f = >>=-ok (read_full (length xs)) f _ (read_full-append xs rest out w)

  pub stop_if-ok :
      (t : Bool) (e : Error) (k : Exec B) (c : Conn) → t ≡ false → (stop_if t e >> k) c ≡ k c
  unfolding ◌>>=◌ stop_if
  stop_if-ok true e k c h = cc
  stop_if-ok false e k c h = refl

module _ {A B G : Type 0} where
  -- The parts of a chain that succeeds.
  pub >>=-elim :
      (m : Exec A) (f : A → Exec B) (c : Conn) {b : B} {c'' : Conn}
      → (m >>= f) c ≡ (ok b, c'')
      → ((a : A) (c' : Conn) → m c ≡ (ok a, c') → f a c' ≡ (ok b, c'') → G)
      → G
  unfolding ◌>>=◌
  >>=-elim m f c {b} {c''} h k = split (m c).0 (m c).1 refl h
    where
      split :
          (r : Result Error A) (c' : Conn)
          → m c ≡ (r, c')
          → ◌>>=◌ (λ _. (r, c')) f c ≡ (ok b, c'')
          → G
      split (ok a) c' e h' = k a c' e h'
      split (err x) c' e h' = cc

module _ {B G : Type 0} where
  pub stop_if-elim :
      (t : Bool) (e : Error) (k : Exec B) (c : Conn) {b : B} {c'' : Conn}
      → (stop_if t e >> k) c ≡ (ok b, c'')
      → (t ≡ false → k c ≡ (ok b, c'') → G)
      → G
  unfolding ◌>>=◌ stop_if
  stop_if-elim true e k c h g = cc
  stop_if-elim false e k c h g = g refl h

  pub read_full-elim :
      (n : ℕ) (f : Bytes → Exec B) (c : Conn) {b : B} {c'' : Conn}
      → (read_full n >>= f) c ≡ (ok b, c'')
      → ((xs rest : Bytes)
          → c.input ≡ xs ++ rest
          → length xs ≡ n
          → f xs (record c { input = rest }) ≡ (ok b, c'')
          → G)
      → G
  read_full-elim n f c {b} {c''} h g = >>=-elim (read_full n) f c h λ xs c' e h'.
      let (split, size, out, left) = read_full_sound n c c' xs e in
      g xs c'.input split size (subst (λ d. f xs d ≡ (ok b, c'')) (ground arith) h')

pub one_byte : (xs : Bytes) → length xs ≡ 1 → xs ≡ byte_at xs 0 ∷ []
one_byte (a ∷ []) h = refl
one_byte [] h = absurd (omega arith)
one_byte (a ∷ b ∷ xs) h = absurd (omega arith)

pub two_bytes : (xs : Bytes) → length xs ≡ 2 → xs ≡ byte_at xs 0 ∷ byte_at xs 1 ∷ []
two_bytes (a ∷ b ∷ []) h = refl
two_bytes [] h = absurd (omega arith)
two_bytes (a ∷ []) h = absurd (omega arith)
two_bytes (a ∷ b ∷ c ∷ xs) h = absurd (omega arith)

pub if-elim :
    {A G : Type 0} (t : Bool) (m k : Exec A) (c : Conn) {z : Result Error A × Conn}
    → (if t then m else k) c ≡ z
    → (t ≡ true → m c ≡ z → G)
    → (t ≡ false → k c ≡ z → G)
    → G
if-elim true m k c h yes_branch no_branch = yes_branch refl h
if-elim false m k c h yes_branch no_branch = no_branch refl h
