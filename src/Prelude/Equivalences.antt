-- ===== src/Prelude/Equivalences.antt =====
-- Logical equivalences, side by side, and those of Boolean tests.
use mathlib.Core.Path.{◌≡◌, refl}
use mathlib.Core.Logic.{◌↔◌, ◌≢◌, ◌⊎◌, inl, inr}
use mathlib.Core.Bool.{Bool, true, false, not, ◌&&◌, ◌||◌}
use native.Mathlib.Omega.{arith}
use Prim.Native.String.{String}
use text.Mathlib.TextEquality.{eq_iff}
use proxygate.Prelude.Tests.{str_eq}

module _ {ℓ κ μ ν} {A : Type ℓ} {B : Type κ} {C : Type μ} {D : Type ν} where
  pub both : A ↔ B → C ↔ D → (A × C) ↔ (B × D)
  both f g = (λ h. (f.0 h.0, g.0 h.1), λ h. (f.1 h.0, g.1 h.1))

  pub either : A ↔ B → C ↔ D → (A ⊎ C) ↔ (B ⊎ D)
  either f g = (
    λ h. elim h [ inl a ↦ inl (f.0 a) | inr c ↦ inr (g.0 c) ],
    λ h. elim h [ inl b ↦ inl (f.1 b) | inr d ↦ inr (g.1 d) ],
  )

module _ {ℓ κ μ} {A : Type ℓ} {B : Type κ} {C : Type μ} where
  pub chain : A ↔ B → B ↔ C → A ↔ C
  chain f g = (λ a. g.0 (f.0 a), λ c. f.1 (g.1 c))

pub test-&& : (s t : Bool) → ((s && t) ≡ true) ↔ ((s ≡ true) × (t ≡ true))
test-&& true t = (λ h. (refl, h), λ h. h.1)
test-&& false t = (λ h. absurd (ground (arith, h)), λ h. absurd (ground (arith, h.0)))

pub test-|| : (s t : Bool) → ((s || t) ≡ true) ↔ ((s ≡ true) ⊎ (t ≡ true))
test-|| true t = (λ h. inl refl, λ h. refl)
test-|| false t = (inr, λ h. elim h [ inl e ↦ absurd (ground (arith, e)) | inr e ↦ e ])

pub test-not : (t : Bool) → (not t ≡ true) ↔ (t ≡ false)
test-not true = (λ h. absurd (ground (arith, h)), λ h. absurd (ground (arith, h)))
test-not false = (λ h. refl, λ h. refl)

pub test-str_eq : (s t : String) → (str_eq s t ≡ false) ↔ (s ≢ t)
test-str_eq s t =
    (λ h e. ground (arith, h, (eq_iff s t).1 e), λ h. ground (arith, h, (eq_iff s t).0))
