-- ===== src/Base/Tests.antt =====
-- Boolean tests on the native numbers, the conditional, and the trait PartialEq.
use Prim.Native.Nat.{ℕ, compare, Ordering}
use mathlib.Core.Path.{◌≡◌, refl, ap}
use mathlib.Core.Logic.{◌↔◌, ◌⊎◌, inl, inr}
use mathlib.Core.Bool.{Bool, true, false, ◌&&◌}
use mathlib.Core.List.{List, [], ◌∷◌}
use mathlib.Core.Option.{Option, none, some}
use native.Mathlib.Omega.{arith}

abbrev pub ltb : ℕ → ℕ → Bool
ltb a b = elim (compare a b) [ Ordering.lt ↦ true | _ ↦ false ]

abbrev pub leb : ℕ → ℕ → Bool
leb a b = elim (compare a b) [ Ordering.gt ↦ false | _ ↦ true ]

infix 50 ◌==◌
abbrev pub ◌==◌ : ℕ → ℕ → Bool
a == b = elim (compare a b) [ Ordering.eq ↦ true | _ ↦ false ]

infix 1 if◌then◌else◌
abbrev pub if◌then◌else◌ {ℓ} : {A : Type ℓ} → Bool → A → A → A
if true then x else y = x
if false then x else y = y

pub ==_iff : (a b : ℕ) → ((a == b) ≡ true) ↔ (a ≡ b)
==_iff a b = ground arith

pub ==_refl : (a : ℕ) → (a == a) ≡ true
==_refl a = ground arith

pub Bool-cases : (b : Bool) → (b ≡ true) ⊎ (b ≡ false)
Bool-cases true = inl refl
Bool-cases false = inr refl

pub Option-cases {ℓ} : {A : Type ℓ} (o : Option A) → (o ≡ none) ⊎ ((a : A) × (o ≡ some a))
Option-cases none = inl refl
Option-cases (some a) = inr (a, refl)

-- `T: PartialEq`, for the types whose `==` decides equality.
pub record PartialEq {ℓ} (T : Type ℓ) : Type ℓ where
  pub eq : T → T → Bool
  pub eq_iff : (a b : T) → (eq a b ≡ true) ↔ (a ≡ b)

instance abbrev pub nat_eq : PartialEq ℕ
nat_eq = record { eq = ◌==◌; eq_iff = ==_iff }

abbrev pub bool_test : Bool → Bool → Bool
bool_test true b = b
bool_test false true = false
bool_test false false = true

pub bool_test_iff : (a b : Bool) → (bool_test a b ≡ true) ↔ (a ≡ b)
bool_test_iff a b = ground arith

instance abbrev pub bool_eq : PartialEq Bool
bool_eq = record { eq = bool_test; eq_iff = bool_test_iff }

module _ {ℓ} {T : Type ℓ} ⦃e : PartialEq T⦄ where
  abbrev pub option_test : Option T → Option T → Bool
  option_test none none = true
  option_test none (some b) = false
  option_test (some a) none = false
  option_test (some a) (some b) = e.eq a b

  pub option_test_iff : (a b : Option T) → (option_test a b ≡ true) ↔ (a ≡ b)
  option_test_iff none none = (λ _. refl, λ _. refl)
  option_test_iff none (some b) = (λ h. cc, λ h. cc)
  option_test_iff (some a) none = (λ h. cc, λ h. cc)
  option_test_iff (some a) (some b) =
      (λ h. ap some ((e.eq_iff a b).0 h), λ h. (e.eq_iff a b).1 (cc))

  abbrev pub list_test : List T → List T → Bool
  list_test [] [] = true
  list_test [] (b ∷ bs) = false
  list_test (a ∷ as') [] = false
  list_test (a ∷ as') (b ∷ bs) = e.eq a b && list_test as' bs

  pub list_test_iff : (xs ys : List T) → (list_test xs ys ≡ true) ↔ (xs ≡ ys)
  list_test_iff [] [] = (λ _. refl, λ _. refl)
  list_test_iff [] (b ∷ bs) = (λ h. cc, λ h. cc)
  list_test_iff (a ∷ xs) [] = (λ h. cc, λ h. cc)
  list_test_iff (a ∷ xs) (b ∷ ys) =
      let (there, back) = list_test_iff xs ys in
      let (same, test) = e.eq_iff a b in
      (λ h. ground (arith, there, same), λ h. ground (arith, back (cc), test (cc)))

instance abbrev pub option_eq {ℓ} : {T : Type ℓ} ⦃e : PartialEq T⦄ → PartialEq (Option T)
option_eq ⦃e⦄ = record { eq = option_test ⦃e = e⦄; eq_iff = option_test_iff ⦃e = e⦄ }

instance abbrev pub list_eq {ℓ} : {T : Type ℓ} ⦃e : PartialEq T⦄ → PartialEq (List T)
list_eq ⦃e⦄ = record { eq = list_test ⦃e = e⦄; eq_iff = list_test_iff ⦃e = e⦄ }
