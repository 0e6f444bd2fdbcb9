-- ===== src/Base/Equality.antt =====
-- `==` for every type whose equality can be decided.
use Prim.Native.Nat.{ℕ}
use mathlib.Core.Path.{◌≡◌, refl, ap₂}
use mathlib.Core.Logic.{ite, dite}
use mathlib.Core.Bool.{Bool, true, false}
use mathlib.Core.List.{List, [], ◌∷◌}
use native.Mathlib.Decide.{ℕ_discrete}
use native.Mathlib.Omega.{arith}

pub record Eq {ℓ} (A : Type ℓ) : Type ℓ where
  pub dec : Discrete A

-- Text is the list of its UTF-16 code units.
abbrev pub Str : Type 0
Str = List ℕ

module _ {ℓ} {A : Type ℓ} ⦃e : Eq A⦄ where
  infix 50 ◌==◌
  abbrev pub ◌==◌ : A → A → Bool
  a == b = ite (e.dec a b) true false

  pub ==_refl : (a : A) → (a == a) ≡ true
  ==_refl a = ground arith

  pub ==_ne : (a b : A) → ¬ (a ≡ b) → (a == b) ≡ false
  ==_ne a b h = ground arith

  pub ==→≡ : (a b : A) → (a == b) ≡ true → a ≡ b
  ==→≡ a b h = ground arith

str_dec : Discrete Str
str_dec [] [] = yes refl
str_dec [] (b ∷ bs) = no (λ p. cc)
str_dec (a ∷ as') [] = no (λ p. cc)
str_dec (a ∷ as') (b ∷ bs) =
    dite (ℕ_discrete a b)
      (λ p. dite (str_dec as' bs) (λ q. yes (ap₂ ◌∷◌ p q)) (λ n. no (λ r. n (cc))))
      (λ n. no (λ r. n (cc)))

instance unfoldable pub str_eq : Eq Str
unfolding str_dec ℕ_discrete
str_eq = record { dec = str_dec }
