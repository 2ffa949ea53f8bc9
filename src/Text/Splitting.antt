-- ===== src/Text/Splitting.antt =====
-- How `strings.Split` cuts a text.
use proxygate.Prelude.{
  ℕ, Bool, true, false, List, [], ◌∷◌, ◌++◌, ◌≡◌, ◌≢◌, refl, ap, ◌∙◌, arith, contains, ◌==◌,
  Bool-cases, inl, inr, if◌then◌else◌,
}
use proxygate.Text.{split, push_first}

-- A part that the character does not stand in.
pub split-append :
    (by : ℕ) (xs ys : List ℕ) → contains by xs ≡ false → split by (xs ++ by ∷ ys) ≡ xs ∷ split by ys
unfolding split contains
split-append by [] ys h = ground arith
split-append by (x ∷ xs) ys h = ground (arith, h, split-append by xs ys)

pub split-last : (by : ℕ) (xs : List ℕ) → contains by xs ≡ false → split by xs ≡ xs ∷ []
unfolding split contains
split-last by [] h = refl
split-last by (x ∷ xs) h = ground (arith, h, split-last by xs)

-- The character stands in no part.
abbrev pub first_part : List (List ℕ) → List ℕ
first_part [] = []
first_part (p ∷ ps) = p

first_part-push_first :
    (x : ℕ) (ps : List (List ℕ)) → first_part (push_first x ps) ≡ x ∷ first_part ps
first_part-push_first x [] = refl
first_part-push_first x (p ∷ ps) = refl

pub first_part-split : (by : ℕ) (xs : List ℕ) → contains by (first_part (split by xs)) ≡ false
unfolding split contains
first_part-split by [] = refl
first_part-split by (x ∷ xs) = elim (Bool-cases (x == by)) [
  | inl e ↦ rw e refl
  | inr e ↦
      rw (e, first_part-push_first x (split by xs)) (ground (arith, e, first_part-split by xs))
]

-- The parts with the character between them.
abbrev pub joined : ℕ → List (List ℕ) → List ℕ
joined by [] = []
joined by (p ∷ []) = p
joined by (p ∷ q ∷ ps) = p ++ by ∷ joined by (q ∷ ps)

joined-push_first : (by x : ℕ) (ps : List (List ℕ)) → joined by (push_first x ps) ≡ x ∷ joined by ps
joined-push_first by x [] = refl
joined-push_first by x (p ∷ []) = refl
joined-push_first by x (p ∷ q ∷ ps) = refl

joined-after : (by : ℕ) (ps : List (List ℕ)) → ps ≢ [] → joined by ([] ∷ ps) ≡ by ∷ joined by ps
joined-after by [] h = absurd (h refl)
joined-after by (p ∷ ps) h = refl

split-filled : (by : ℕ) (xs : List ℕ) → split by xs ≢ []
unfolding split
split-filled by [] e = ground (arith, e)
split-filled by (x ∷ xs) e = filled (x == by) (split by xs) e
  where
    filled : (b : Bool) (ps : List (List ℕ)) → (if b then [] ∷ ps else push_first x ps) ≢ []
    filled true ps t = ground (arith, t)
    filled false [] t = ground (arith, t)
    filled false (p ∷ ps) t = ground (arith, t)

-- Nothing is lost.
pub joined-split : (by : ℕ) (xs : List ℕ) → joined by (split by xs) ≡ xs
unfolding split
joined-split by [] = refl
joined-split by (x ∷ xs) = elim (Bool-cases (x == by)) [
  | inl e ↦
      let same : by ≡ x = ground (arith, e) in
      rw e (
        joined-after by (split by xs) (split-filled by xs)
        ∙ ap (◌∷◌ by) (joined-split by xs)
        ∙ ap (λ c. c ∷ xs) same)
  | inr e ↦ rw e (joined-push_first by x (split by xs) ∙ ap (◌∷◌ x) (joined-split by xs))
]
