-- ===== src/Text/Numbers.antt =====
-- What the readers of texts give: the range of a number, and tests.
use proxygate.Prelude.{ℕ, ◌^◌, ◌-◌, ◌≡◌, refl, List, [], ◌∷◌, some, codes, arith}
use proxygate.Prelude.Int.{ℤ, pos, negsuc, ◌≤ℤ◌}
use proxygate.Text.{
  Parsed, no_number, plus, minus, signed, atoi, parse_int, clamped, trim_space, split, fields,
}

-- The numbers of an `int64`.
abbrev pub IsInt64 : ℤ → Type 0
IsInt64 k = (negsuc (2 ^ 63 - 1) ≤ℤ k) × (k ≤ℤ pos (2 ^ 63 - 1))

clamped-IsInt64 : (p : Parsed) → IsInt64 (clamped p)
unfolding clamped
clamped-IsInt64 no_number = (omega arith, omega arith)
clamped-IsInt64 (plus n) = ground arith
clamped-IsInt64 (minus n) = ground arith

pub parse_int-IsInt64 : (cs : List ℕ) → IsInt64 (parse_int cs)
unfolding parse_int
parse_int-IsInt64 cs = clamped-IsInt64 (signed cs)

max_read : parse_int (codes "99999999999999999999") ≡ pos (2 ^ 63 - 1)
unfolding parse_int signed
max_read = refl

negative_read : atoi (codes "-12") ≡ some (negsuc 11)
unfolding atoi signed
negative_read = refl

trimmed : trim_space "  a b \n" ≡ "a b"
unfolding trim_space
trimmed = refl

split_read : split 46 (codes "a..b") ≡ codes "a" ∷ [] ∷ codes "b" ∷ []
unfolding split
split_read = refl

fields_read : fields (codes " remote  a 1\t") ≡ codes "remote" ∷ codes "a" ∷ codes "1" ∷ []
unfolding fields
fields_read = refl
