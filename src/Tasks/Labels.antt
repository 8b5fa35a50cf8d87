-- ===== src/Tasks/Labels.antt =====
-- validate_labels of apps/api/src/store.rs.
use prosepect.Base.{
  ◌≤◌, ◌≡◌, ◌≢◌, refl, sym, inl, inr, Bool, true, false, ◌||◌, List, [], ◌∷◌, ◌++◌, ltb, arith,
  if◌then◌else◌, Bool-cases, Text, trim, is_empty, length, any, text_eq, text_eq_iff, text_eq_refl,
  All, All-append,
}
use prosepect.Error.{
  AppResult, ok, err, AppError, validation, literal, fail_if, fail_if-eq-ok, >>=-eq-ok, ◌>>=◌, ◌>>◌,
}
use prosepect.Tasks.{Platform}

-- `seen.contains(label)`; the set holds what the list of results holds.
abbrev pub is_seen : Text → List Text → Bool
is_seen label = any (text_eq label)

abbrev label_error : AppError
label_error = validation (literal "task labels cannot exceed 32 characters")

abbrev count_error : AppError
count_error = validation (literal "a task cannot have more than 10 labels")

module _ (p : Platform) where
  unfoldable pub normalize_labels : List Text → List Text → AppResult (List Text)
  normalize_labels normalized [] = ok normalized
  normalize_labels normalized (raw ∷ labels) =
      let label = p.to_lowercase (trim raw) in
      let skipped = normalize_labels normalized labels in
      let pushed = normalize_labels (normalized ++ label ∷ []) labels in
      if is_empty label
      then skipped
      else if ltb 32 (length label)
      then err label_error
      else if is_seen label normalized
      then skipped
      else pushed

  unfoldable pub validate_labels : List Text → AppResult (List Text)
  unfolding normalize_labels
  validate_labels labels = do
    normalized ← normalize_labels [] labels
    fail_if (ltb 10 (length normalized)) count_error
    ok normalized

-- A label as the server stores it.
pub record IsLabel (label : Text) : Type 0 where
  pub visible : is_empty label ≡ false
  pub short : length label ≤ 32

-- No label stands twice.
abbrev pub Distinct : List Text → Type 0
Distinct [] = Unit
Distinct (l ∷ ls) = All (λ m. m ≢ l) ls × Distinct ls

unseen : (l : Text) (ls : List Text) → is_seen l ls ≡ false → All (λ m. m ≢ l) ls
unseen l [] h = tt
unseen l (m ∷ ls) h = elim (Bool-cases (text_eq l m)) [
  | inl same ↦ absurd (cc (rw same at h))
  | inr other ↦
      ((λ e. absurd (cc (other, (text_eq_iff l m).1 (sym e)))), unseen l ls (rw other at h))
]

Distinct-append :
    (ls : List Text) (l : Text) → Distinct ls → All (λ m. m ≢ l) ls → Distinct (ls ++ l ∷ [])
Distinct-append [] l d h = (tt, tt)
Distinct-append (m ∷ ls) l d h =
    (All-append (λ x. x ≢ m) ls (l ∷ []) d.0 ((λ e. h.0 (sym e)), tt), Distinct-append ls l d.1 h.1)

is_seen-append :
    (l m : Text) (ls : List Text) → is_seen l (ls ++ m ∷ []) ≡ (is_seen l ls || text_eq l m)
is_seen-append l m [] = ground arith
is_seen-append l m (k ∷ ls) = ground (arith, is_seen-append l m ls)

module _ (p : Platform) where
  normalize_cons :
      (done : List Text) (raw : Text) (labels : List Text)
      → normalize_labels p done (raw ∷ labels) ≡ (
          if is_empty (p.to_lowercase (trim raw))
          then normalize_labels p done labels
          else if ltb 32 (length (p.to_lowercase (trim raw)))
          then err label_error
          else if is_seen (p.to_lowercase (trim raw)) done
          then normalize_labels p done labels
          else normalize_labels p (done ++ p.to_lowercase (trim raw) ∷ []) labels)
  normalize_cons done raw labels = unfold normalize_labels in refl

  -- What the loop keeps of the labels that it has, and does with those that it reads.
  record Normalizes (done labels result : List Text) : Type 0 where
    good : All IsLabel done → All IsLabel result
    distinct : Distinct done → Distinct result
    kept : (l : Text) → is_seen l done ≡ true → is_seen l result ≡ true
    covered :
        All
          (λ raw.
            is_empty (p.to_lowercase (trim raw)) ≡ false
            → is_seen (p.to_lowercase (trim raw)) result ≡ true)
          labels

  Normalizes-skip :
      (done : List Text) (raw : Text) (labels result : List Text)
      → (is_empty (p.to_lowercase (trim raw)) ≡ false
          → is_seen (p.to_lowercase (trim raw)) done ≡ true)
      → Normalizes done labels result
      → Normalizes done (raw ∷ labels) result
  Normalizes-skip done raw labels result seen n = record {
    good = n.good;
    distinct = n.distinct;
    kept = n.kept;
    covered = ((λ visible. n.kept _ (seen visible)), n.covered);
  }

  Normalizes-push :
      (done : List Text) (raw : Text) (labels result : List Text)
      → is_empty (p.to_lowercase (trim raw)) ≡ false
      → ltb 32 (length (p.to_lowercase (trim raw))) ≡ false
      → is_seen (p.to_lowercase (trim raw)) done ≡ false
      → Normalizes (done ++ p.to_lowercase (trim raw) ∷ []) labels result
      → Normalizes done (raw ∷ labels) result
  Normalizes-push done raw labels result visible short new n = record {
    good = λ g.
        n.good
          (All-append IsLabel done _ g (record { visible = visible; short = ground arith }, tt));
    distinct = λ d. n.distinct (Distinct-append done _ d (unseen _ done new));
    kept = λ l e. n.kept l (rw (is_seen-append, e));
    covered = ((λ _. n.kept _ (rw (is_seen-append, new, text_eq_refl))), n.covered);
  }

  normalize-Normalizes :
      (done labels result : List Text)
      → normalize_labels p done labels ≡ ok result
      → Normalizes done labels result
  normalize-Normalizes done [] result h =
      let same : done ≡ result = unfold normalize_labels in cc h in
      rw (← same) (record { good = λ g. g; distinct = λ d. d; kept = λ l e. e; covered = tt })
  normalize-Normalizes done (raw ∷ labels) result h =
      elim (Bool-cases (is_empty (p.to_lowercase (trim raw)))) [
        | inl blank ↦
            Normalizes-skip done raw labels result (λ visible. absurd (cc))
              (normalize-Normalizes done labels result (rw (normalize_cons, blank) at h))
        | inr visible ↦ elim (Bool-cases (ltb 32 (length (p.to_lowercase (trim raw))))) [
          | inl long ↦ absurd (cc (rw (normalize_cons, visible, long) at h))
          | inr short ↦ elim (Bool-cases (is_seen (p.to_lowercase (trim raw)) done)) [
            | inl seen ↦
                Normalizes-skip done raw labels result (λ _. seen)
                  (normalize-Normalizes done labels result
                    (rw (normalize_cons, visible, short, seen) at h))
            | inr new ↦ Normalizes-push done raw labels result visible short new (
                normalize-Normalizes (done ++ p.to_lowercase (trim raw) ∷ []) labels result
                  (rw (normalize_cons, visible, short, new) at h))
          ]
        ]
      ]

  -- The labels that a task is stored with, for the labels of its request.
  pub record Labelled (labels result : List Text) : Type 0 where
    pub good : All IsLabel result
    pub distinct : Distinct result
    pub few : length result ≤ 10
    pub covered :
        All
          (λ raw.
            is_empty (p.to_lowercase (trim raw)) ≡ false
            → is_seen (p.to_lowercase (trim raw)) result ≡ true)
          labels

  -- Labels that are accepted are at most ten, none twice, each of 1 to 32 characters, and every
  -- label of the request that is not blank is among them, trimmed and in lower case.
  pub validate_labels-Labelled :
      (labels result : List Text) → validate_labels p labels ≡ ok result → Labelled labels result
  validate_labels-Labelled labels result h =
      let (normalized, found, h1) =
        >>=-eq-ok (normalize_labels p [] labels) _ (rw validate_lem at h) in
      let (few, h2) = fail_if-eq-ok (ltb 10 (length normalized)) count_error (ok normalized) h1 in
      let same : normalized ≡ result = cc in
      let n = normalize-Normalizes [] labels normalized found in
      rw (← same) (record {
        good = n.good tt;
        distinct = n.distinct tt;
        few = ground arith;
        covered = n.covered;
      })
    where
      validate_lem : validate_labels p labels ≡ (
          normalize_labels p [] labels >>= λ normalized.
          fail_if (ltb 10 (length normalized)) count_error >> ok normalized)
      validate_lem = unfold validate_labels in refl
