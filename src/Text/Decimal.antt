-- ===== src/Text/Decimal.antt =====
-- `strconv.FormatInt` is read back by `strconv.Atoi`.
use proxygate.Prelude.{
  ℕ, zero, suc, ◌+◌, ◌-◌, ◌*◌, ◌/◌, ◌%◌, ◌≤◌, ◌<◌, false, List, [], ◌∷◌, ◌++◌, some, ◌≡◌, ◌≢◌, refl,
  ap, ◌∙◌, arith, contains, ltb, Bool-cases, All, All-snoc, inl, inr,
}
use proxygate.Prelude.Int.{pos}
use proxygate.Text.{
  digits, format_int, digits_value, unsigned, signed, plus, atoi, atoi_range, max_int64, is_digit,
}

abbrev IsDigit : ℕ → Type 0
IsDigit c = (48 ≤ c) × (c ≤ 57)

digits-IsDigit : (fuel n : ℕ) → All IsDigit (digits fuel n)
unfolding digits
digits-IsDigit zero n = tt
digits-IsDigit (suc fuel) n = elim (Bool-cases (ltb n 10)) [
  | inl e ↦ rw e ((ground (arith, e), ground (arith, e)), tt)
  | inr e ↦ rw e (
      All-snoc IsDigit (digits fuel (n / 10)) (n % 10 + 48) (digits-IsDigit fuel (n / 10))
        (omega arith, omega arith))
]

digits_value-append :
    (a b : ℕ) (xs ys : List ℕ)
    → digits_value a xs ≡ some b
    → digits_value a (xs ++ ys) ≡ digits_value b ys
unfolding digits_value
digits_value-append a b [] ys h =
    let same : a ≡ b = ground (arith, h) in ap (λ c. digits_value c ys) same
digits_value-append a b (x ∷ xs) ys h = elim (Bool-cases (is_digit x)) [
  | inl e ↦ rw e (digits_value-append (a * 10 + (x - 48)) b xs ys (ground (arith, e, h)))
  | inr e ↦ absurd (ground (arith, e, h))
]

digits_value-last : (a c : ℕ) → 48 ≤ c → c ≤ 57 → digits_value a (c ∷ []) ≡ some (a * 10 + (c - 48))
unfolding digits_value
digits_value-last a c h k = ground (arith, h, k)

digits_value-digits : (fuel n : ℕ) → n < fuel → digits_value 0 (digits fuel n) ≡ some n
unfolding digits
digits_value-digits zero n h = absurd (omega arith)
digits_value-digits (suc fuel) n h = elim (Bool-cases (ltb n 10)) [
  | inl e ↦
      let same : 0 * 10 + (n + 48 - 48) ≡ n = omega arith in
      rw e (digits_value-last 0 (n + 48) (omega arith) (ground (arith, e)) ∙ ap some same)
  | inr e ↦
      let large : 10 ≤ n = ground (arith, e) in
      let later : digits_value 0 (digits fuel (n / 10)) ≡ some (n / 10) =
        digits_value-digits fuel (n / 10) (omega arith) in
      let same : n / 10 * 10 + (n % 10 + 48 - 48) ≡ n = omega arith in
      rw e (
        digits_value-append 0 (n / 10) (digits fuel (n / 10)) ((n % 10 + 48) ∷ []) later
        ∙ digits_value-last (n / 10) (n % 10 + 48) (omega arith) (omega arith)
        ∙ ap some same)
]

-- A text of digits that has a value is read as that number.
signed-IsDigit :
    (cs : List ℕ) (n : ℕ)
    → All IsDigit cs
    → digits_value 0 cs ≡ some n
    → cs ≢ []
    → signed cs ≡ plus n
unfolding signed unsigned
signed-IsDigit [] n h e k = absurd (k refl)
signed-IsDigit (c ∷ cs) n h e k = ground (arith, h.0, e)

snoc-filled : (xs : List ℕ) (c : ℕ) → (xs ++ c ∷ []) ≢ []
snoc-filled [] c e = ground (arith, e)
snoc-filled (x ∷ xs) c e = ground (arith, e)

digits-filled : (fuel n : ℕ) → digits (suc fuel) n ≢ []
unfolding digits
digits-filled fuel n e = elim (Bool-cases (ltb n 10)) [
  | inl t ↦ ground (arith, t, e)
  | inr t ↦ snoc-filled (digits fuel (n / 10)) (n % 10 + 48) (ground (arith, t, e))
]

-- A number of 63 bits is read back from its digits.
pub atoi-format_int : (n : ℕ) → n ≤ max_int64 → atoi (format_int n) ≡ some (pos n)
unfolding atoi atoi_range format_int
atoi-format_int n h =
    ap atoi_range (
      signed-IsDigit (digits (suc n) n) n (digits-IsDigit (suc n) n)
        (digits_value-digits (suc n) n (omega arith)) (digits-filled n n))
    ∙ ground (arith, h)

no_other : (c : ℕ) (cs : List ℕ) → 58 ≤ c → All IsDigit cs → contains c cs ≡ false
unfolding contains
no_other c [] h k = refl
no_other c (d ∷ cs) h k = ground (arith, h, k.0, no_other c cs h k.1)

pub contains-format_int : (c n : ℕ) → 58 ≤ c → contains c (format_int n) ≡ false
unfolding format_int
contains-format_int c n h = no_other c (digits (suc n) n) h (digits-IsDigit (suc n) n)
