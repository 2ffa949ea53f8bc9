-- ===== src/Text.antt =====
-- What the program uses of Go's `strings` and `strconv`: texts as characters, or as the list of their
-- code points.
pub mod Numbers
pub mod Splitting
pub mod Decimal
use Prim.Native.Char.{code}
use proxygate.Prelude.{
  ℕ, zero, suc, ◌+◌, ◌-◌, ◌*◌, ◌/◌, ◌%◌, ◌^◌, String, Bool, true, false, ◌&&◌, ◌||◌, not, List, [],
  ◌∷◌, ◌++◌, Option, none, some, codes, ltb, leb, ◌==◌, if◌then◌else◌,
}
use proxygate.Prelude.Int.{ℤ, pos, negsuc}

-- `unicode.IsSpace`
is_space : ℕ → Bool
is_space c =
    (leb 9 c && leb c 13)
    || (c == 32 || c == 133 || c == 160 || c == 5760)
    || (leb 8192 c && leb c 8202)
    || (c == 8232 || c == 8233 || c == 8239 || c == 8287 || c == 12288)

-- `strings.TrimSpace`
trim_left : String → String
trim_left String.[] = ""
trim_left (String.◌∷◌ c s) =
    let rest = trim_left s in if is_space (code c) then rest else String.◌∷◌ c s

prepend_kept : Bool → String → String → String
prepend_kept true kept String.[] = ""
prepend_kept true kept (String.◌∷◌ d r) = kept
prepend_kept false kept r = kept

trim_right : String → String
unfolding prepend_kept
trim_right String.[] = ""
trim_right (String.◌∷◌ c s) =
    let rest = trim_right s in prepend_kept (is_space (code c)) (String.◌∷◌ c rest) rest

unfoldable pub trim_space : String → String
unfolding trim_left trim_right is_space
trim_space s = trim_right (trim_left s)

-- `strings.ContainsAny(s, "\r\n")`
abbrev is_newline : ℕ → Bool
is_newline c = c == 10 || c == 13

unfoldable pub contains_newline : List ℕ → Bool
contains_newline [] = false
contains_newline (c ∷ cs) = is_newline c || contains_newline cs

-- `strings.Split` by one character.
abbrev pub push_first : ℕ → List (List ℕ) → List (List ℕ)
push_first c [] = (c ∷ []) ∷ []
push_first c (part ∷ parts) = (c ∷ part) ∷ parts

unfoldable pub split : ℕ → List ℕ → List (List ℕ)
split by [] = [] ∷ []
split by (c ∷ cs) = let rest = split by cs in if c == by then [] ∷ rest else push_first c rest

-- `strings.Fields`: the flag is whether the text before is a field's.
abbrev prepend_field : List ℕ → List (List ℕ) → List (List ℕ)
prepend_field [] parts = parts
prepend_field (c ∷ cs) parts = (c ∷ cs) ∷ parts

fields_from : List ℕ → List ℕ → List (List ℕ)
fields_from current [] = prepend_field current []
fields_from current (c ∷ cs) =
    if is_space c
    then prepend_field current (fields_from [] cs)
    else fields_from (current ++ c ∷ []) cs

unfoldable pub fields : List ℕ → List (List ℕ)
unfolding fields_from is_space
fields cs = fields_from [] cs

-- `strings.ToLower` on ASCII letters.
unfoldable pub lower : ℕ → ℕ
lower c = if leb 65 c && leb c 90 then c + 32 else c

-- `strings.HasPrefix`
unfoldable pub has_prefix : List ℕ → List ℕ → Bool
has_prefix [] s = true
has_prefix (p ∷ ps) [] = false
has_prefix (p ∷ ps) (c ∷ cs) = p == c && has_prefix ps cs

-- `strconv.ParseInt` in base 10: the digits, the sign, and the range of 64 bits.
abbrev is_digit : ℕ → Bool
is_digit c = leb 48 c && leb c 57

digits_value : ℕ → List ℕ → Option ℕ
digits_value n [] = some n
digits_value n (c ∷ cs) = if is_digit c then digits_value (n * 10 + (c - 48)) cs else none

unsigned : List ℕ → Option ℕ
unsigned [] = none
unsigned (c ∷ cs) = digits_value 0 (c ∷ cs)

pub data Parsed : Type 0 where
  no_number : Parsed
  plus minus : ℕ → Parsed

abbrev with_sign : (ℕ → Parsed) → Option ℕ → Parsed
with_sign sign none = no_number
with_sign sign (some n) = sign n

unfoldable pub signed : List ℕ → Parsed
unfolding unsigned digits_value
signed [] = no_number
signed (c ∷ cs) =
    if c == 45
    then with_sign minus (unsigned cs)
    else if c == 43
    then with_sign plus (unsigned cs)
    else with_sign plus (unsigned (c ∷ cs))

abbrev pub negate : ℕ → ℤ
negate zero = pos zero
negate (suc n) = negsuc n

abbrev pub max_int64 : ℕ
max_int64 = 2 ^ 63 - 1

-- `strconv.Atoi`, none for an error.
atoi_range : Parsed → Option ℤ
atoi_range no_number = none
atoi_range (plus n) = if leb n max_int64 then some (pos n) else none
atoi_range (minus n) = if leb n (2 ^ 63) then some (negate n) else none

unfoldable pub atoi : List ℕ → Option ℤ
unfolding atoi_range
atoi cs = atoi_range (signed cs)

-- The value of `strconv.ParseInt(…, 10, 64)` when its error is dropped: 0 for no number, and the
-- nearest bound for one out of range.
clamped : Parsed → ℤ
clamped no_number = pos 0
clamped (plus n) = if leb n max_int64 then pos n else pos max_int64
clamped (minus n) = if leb n (2 ^ 63) then negate n else negate (2 ^ 63)

unfoldable pub parse_int : List ℕ → ℤ
unfolding clamped
parse_int cs = clamped (signed cs)

-- `strconv.FormatInt` of a number that is not negative. The fuel is more than the number of digits.
digits : ℕ → ℕ → List ℕ
digits zero n = []
digits (suc fuel) n =
    let rest = digits fuel (n / 10) in
    if ltb n 10 then (n + 48) ∷ [] else rest ++ (n % 10 + 48) ∷ []

unfoldable pub format_int : ℕ → List ℕ
unfolding digits
format_int n = digits (suc n) n
