-- ===== src/Base/Rows.antt =====
-- A table as the list of its rows: selection, update and deletion by a test, and what they keep.
use Prim.Native.Nat.{ℕ, suc}
use mathlib.Core.Path.{◌≡◌, refl, ap, ◌∙◌}
use mathlib.Core.Logic.{◌⊎◌, inl, inr}
use mathlib.Core.Bool.{Bool, true, false, not, ◌||◌}
use mathlib.Core.List.{List, [], ◌∷◌, ◌++◌}
use mathlib.Core.Option.{Option, none, some}
use prosepect.Base.Tests.{if◌then◌else◌, Bool-cases}

module _ {ℓ} {A : Type ℓ} where
  abbrev pub length : List A → ℕ
  length [] = 0
  length (x ∷ xs) = suc (length xs)

  abbrev pub any : (A → Bool) → List A → Bool
  any p [] = false
  any p (x ∷ xs) = p x || any p xs

  abbrev pub find? : (A → Bool) → List A → Option A
  find? p [] = none
  find? p (x ∷ xs) = if p x then some x else find? p xs

  -- The rows that pass the test (`Vec::retain`, `SELECT ... WHERE`).
  abbrev pub retain : (A → Bool) → List A → List A
  retain p [] = []
  retain p (x ∷ xs) = let rest = retain p xs in if p x then x ∷ rest else rest

  -- `DELETE ... WHERE`
  abbrev pub delete_where : (A → Bool) → List A → List A
  delete_where p = retain (λ x. not (p x))

  -- `UPDATE ... SET ... WHERE`
  abbrev pub update_where : (A → Bool) → (A → A) → List A → List A
  update_where p f [] = []
  update_where p f (x ∷ xs) = (if p x then f x else x) ∷ update_where p f xs

  abbrev pub All {κ} : (A → Type κ) → List A → Type κ
  All P [] = Unit
  All P (x ∷ xs) = P x × All P xs

-- What a query finds passes its test.
pub find?-eq-some {ℓ} :
    {A : Type ℓ} (p : A → Bool) (xs : List A) (x : A) → find? p xs ≡ some x → p x ≡ true
find?-eq-some p [] x h = cc
find?-eq-some p (y ∷ ys) x h = elim (Bool-cases (p y)) [
  | inl t ↦ let same : y ≡ x = cc (rw t at h) in rw (← same) t
  | inr f ↦ find?-eq-some p ys x (rw f at h)
]

module _ {ℓ κ} {A : Type ℓ} (P : A → Type κ) where
  pub All-append : (xs ys : List A) → All P xs → All P ys → All P (xs ++ ys)
  All-append [] ys hx hy = hy
  All-append (x ∷ xs) ys hx hy = (hx.0, All-append xs ys hx.1 hy)

  pub All-retain : (p : A → Bool) (xs : List A) → All P xs → All P (retain p xs)
  All-retain p [] h = h
  All-retain p (x ∷ xs) h = elim (Bool-cases (p x)) [
    | inl e ↦ rw e (h.0, All-retain p xs h.1)
    | inr e ↦ rw e (All-retain p xs h.1)
  ]

  pub All-update_where :
      (p : A → Bool) (f : A → A) (xs : List A)
      → ((x : A) → p x ≡ true → P x → P (f x))
      → All P xs
      → All P (update_where p f xs)
  All-update_where p f [] keep h = h
  All-update_where p f (x ∷ xs) keep h = elim (Bool-cases (p x)) [
    | inl e ↦ rw e (keep x e h.0, All-update_where p f xs keep h.1)
    | inr e ↦ rw e (h.0, All-update_where p f xs keep h.1)
  ]

  pub All-find? :
      (p : A → Bool) (xs : List A) (x : A) → All P xs → find? p xs ≡ some x → P x × (p x ≡ true)
  All-find? p [] x h e = cc
  All-find? p (y ∷ ys) x h e = elim (Bool-cases (p y)) [
    | inl t ↦ let same : y ≡ x = cc (rw t at e) in (rw (← same) h.0, rw (← same) t)
    | inr f ↦ All-find? p ys x h.1 (rw f at e)
  ]

module _ {ℓ κ ι} {A : Type ℓ} (P : A → Type κ) (Q : A → Type ι) where
  -- An update, from what held of the rows to what holds of them.
  pub All-update_split :
      (p : A → Bool) (f : A → A) (xs : List A)
      → ((x : A) → p x ≡ true → P x → Q (f x))
      → ((x : A) → p x ≡ false → P x → Q x)
      → All P xs
      → All Q (update_where p f xs)
  All-update_split p f [] hit miss h = tt
  All-update_split p f (x ∷ xs) hit miss h = elim (Bool-cases (p x)) [
    | inl e ↦ rw e (hit x e h.0, All-update_split p f xs hit miss h.1)
    | inr e ↦ rw e (miss x e h.0, All-update_split p f xs hit miss h.1)
  ]

  -- A selection, from what held of the rows to what holds of those selected.
  pub All-retain_split :
      (p : A → Bool) (xs : List A)
      → ((x : A) → p x ≡ true → P x → Q x)
      → All P xs
      → All Q (retain p xs)
  All-retain_split p [] hit h = tt
  All-retain_split p (x ∷ xs) hit h = elim (Bool-cases (p x)) [
    | inl e ↦ rw e (hit x e h.0, All-retain_split p xs hit h.1)
    | inr e ↦ rw e (All-retain_split p xs hit h.1)
  ]

  pub All-imp : (xs : List A) → ((a : A) → P a → Q a) → All P xs → All Q xs
  All-imp [] f h = tt
  All-imp (x ∷ xs) f h = (f x h.0, All-imp xs f h.1)

  pub All-both : (xs : List A) → All P xs → All Q xs → All (λ a. P a × Q a) xs
  All-both [] h k = tt
  All-both (x ∷ xs) h k = ((h.0, k.0), All-both xs h.1 k.1)

module _ {ℓ κ} {A : Type ℓ} (P : A → Type κ) where
  -- A list without one of its members.
  pub All-without : (xs ys : List A) (a : A) → All P (xs ++ (a ∷ ys)) → P a × All P (xs ++ ys)
  All-without [] ys a h = h
  All-without (x ∷ xs) ys a h = let (own, rest) = All-without xs ys a h.1 in (own, (h.0, rest))

module _ {ℓ} {A : Type ℓ} where
  -- An update leaves its first match where it was.
  pub find?-update_where :
      (p q : A → Bool) (f : A → A) (xs : List A) (x : A)
      → ((y : A) → p (f y) ≡ p y)
      → find? p xs ≡ some x
      → q x ≡ true
      → find? p (update_where q f xs) ≡ some (f x)
  find?-update_where p q f [] x keep h t = cc
  find?-update_where p q f (y ∷ ys) x keep h t = elim (Bool-cases (p y)) [
    | inl here ↦
        let same : y ≡ x = cc (rw here at h) in
        let hit : q y ≡ true = rw same t in
        let own : p (f y) ≡ true = keep y ∙ here in rw (hit, own) (ap (λ z. some (f z)) same)
    | inr there ↦
        let rest = find?-update_where p q f ys x keep (rw there at h) t in
        let own : p (f y) ≡ false = keep y ∙ there in
        elim (Bool-cases (q y)) [ inl hit ↦ rw (hit, own) rest | inr miss ↦ rw (miss, there) rest ]
  ]

  pub find?-append :
      (p : A → Bool) (xs : List A) (x : A)
      → find? p xs ≡ none
      → p x ≡ true
      → find? p (xs ++ x ∷ []) ≡ some x
  find?-append p [] x h t = rw t refl
  find?-append p (y ∷ ys) x h t = elim (Bool-cases (p y)) [
    | inl here ↦ cc (rw here at h)
    | inr there ↦ rw there (find?-append p ys x (rw there at h) t)
  ]

module _ {A : Type 0} where
  -- Lists that have an element, and the elements that a list has.
  abbrev pub Has : A → List A → Type 0
  Has a [] = ⊥
  Has a (x ∷ xs) = (x ≡ a) ⊎ Has a xs

  pub Has-last : (xs : List A) (a : A) → Has a (xs ++ a ∷ [])
  Has-last [] a = inl refl
  Has-last (x ∷ xs) a = inr (Has-last xs a)

  pub Has-update_where :
      (p : A → Bool) (f : A → A) (xs : List A) (x : A)
      → find? p xs ≡ some x
      → Has (f x) (update_where p f xs)
  Has-update_where p f [] x h = cc
  Has-update_where p f (y ∷ ys) x h = elim (Bool-cases (p y)) [
    | inl here ↦ let same : y ≡ x = cc (rw here at h) in rw here (inl (ap f same))
    | inr there ↦ inr (Has-update_where p f ys x (rw there at h))
  ]

  -- An update whose result fails its own test leaves nothing to update.
  pub find?-update_where-none :
      (p : A → Bool) (f : A → A) (xs : List A)
      → ((x : A) → p x ≡ true → p (f x) ≡ false)
      → find? p (update_where p f xs) ≡ none
  find?-update_where-none p f [] fails = refl
  find?-update_where-none p f (x ∷ xs) fails = elim (Bool-cases (p x)) [
    | inl hit ↦ rw (hit, fails x hit) (find?-update_where-none p f xs fails)
    | inr miss ↦ rw (miss, miss) (find?-update_where-none p f xs fails)
  ]

  pub find?-Has :
      (p : A → Bool) (xs : List A) (a : A) → Has a xs → p a ≡ true → (x : A) × (find? p xs ≡ some x)
  find?-Has p [] a h t = absurd h
  find?-Has p (x ∷ xs) a h t = elim (Bool-cases (p x)) [
    | inl here ↦ (x, rw here refl)
    | inr there ↦ elim h [
      | inl same ↦ cc (rw (same, t) at there)
      | inr later ↦ rw there (find?-Has p xs a later t)
    ]
  ]

  pub find?-eq-some-Has : (p : A → Bool) (xs : List A) (a : A) → find? p xs ≡ some a → Has a xs
  find?-eq-some-Has p [] a h = cc
  find?-eq-some-Has p (x ∷ xs) a h = elim (Bool-cases (p x)) [
    | inl here ↦ inl (cc (rw here at h))
    | inr there ↦ inr (find?-eq-some-Has p xs a (rw there at h))
  ]

  -- An update of no row.
  pub find?-update_where-missing :
      (p : A → Bool) (f : A → A) (xs : List A)
      → find? p xs ≡ none
      → find? p (update_where p f xs) ≡ none
  find?-update_where-missing p f [] h = refl
  find?-update_where-missing p f (x ∷ xs) h = elim (Bool-cases (p x)) [
    | inl here ↦ cc (rw here at h)
    | inr there ↦ rw (there, there) (find?-update_where-missing p f xs (rw there at h))
  ]
