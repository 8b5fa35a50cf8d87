-- ===== src/Limiter/Table.antt =====
-- The table of attempts: reading back what was written, and what a sweep leaves.
use prosepect.Base.{
  ℕ, ◌≤◌, ◌<◌, ◌≡◌, refl, ◌⊎◌, inl, inr, Bool, false, List, [], ◌∷◌, arith, ltb, if◌then◌else◌,
  Bool-cases, Text, All, retain, text_eq, text_eq_iff, sym, ◌∙◌, not, delete_where, All-retain,
  length,
}
use prosepect.Limiter.{
  Attempts, has_key, entries_of, put, pop_expired, back_is_after, is_live, sweep,
}

-- No key stands in the table twice.
abbrev pub Unique : Attempts → Type 0
Unique [] = Unit
Unique ((k, entries) ∷ rest) = All (λ row. text_eq row.0 k ≡ false) rest × Unique rest

-- In the order of time.
abbrev pub IsSorted : List ℕ → Type 0
IsSorted [] = Unit
IsSorted (t ∷ ts) = All (λ u. t ≤ u) ts × IsSorted ts

-- The instants after the cutoff.
abbrev pub after : ℕ → List ℕ → List ℕ
after cutoff = retain (λ t. ltb cutoff t)

entries_of-delete :
    (key j : Text) (m : Attempts)
    → entries_of j (delete_where (has_key key) m) ≡ (if text_eq key j then [] else entries_of j m)
unfolding entries_of
entries_of-delete key j [] = ground arith
entries_of-delete key j ((k, e) ∷ m) =
    ground (arith, entries_of-delete key j m, text_eq_iff k key, text_eq_iff key j, text_eq_iff k j)

pub entries_of-put :
    (key j : Text) (e : List ℕ) (m : Attempts)
    → entries_of j (put key e m) ≡ (if text_eq key j then e else entries_of j m)
unfolding entries_of put
entries_of-put key j e m = ground (arith, entries_of-delete key j m)

fresh-delete :
    (key : Text) (m : Attempts)
    → All (λ row. text_eq row.0 key ≡ false) (delete_where (has_key key) m)
fresh-delete key [] = tt
fresh-delete key ((k, e) ∷ m) = elim (Bool-cases (text_eq k key)) [
  | inl same ↦ rw same (fresh-delete key m)
  | inr other ↦ rw other (other, fresh-delete key m)
]

Unique-retain : (p : Text × List ℕ → Bool) (m : Attempts) → Unique m → Unique (retain p m)
Unique-retain p [] u = tt
Unique-retain p ((k, e) ∷ m) u = elim (Bool-cases (p (k, e))) [
  | inl kept ↦ rw kept (All-retain (λ row. text_eq row.0 k ≡ false) p m u.0, Unique-retain p m u.1)
  | inr dropped ↦ rw dropped (Unique-retain p m u.1)
]

pub Unique-put : (key : Text) (e : List ℕ) (m : Attempts) → Unique m → Unique (put key e m)
unfolding put
Unique-put key e m u = (fresh-delete key m, Unique-retain (λ row. not (has_key key row)) m u)

pub Unique-sweep : (cutoff : ℕ) (m : Attempts) → Unique m → Unique (sweep cutoff m)
unfolding sweep
Unique-sweep cutoff m u = elim (Bool-cases (ltb 10_000 (length m))) [
  | inl many ↦ rw many (Unique-retain (is_live cutoff) m u)
  | inr few ↦ rw few u
]

-- A key that no row of the table has.
entries_of-fresh :
    (j : Text) (m : Attempts) → All (λ row. text_eq row.0 j ≡ false) m → entries_of j m ≡ []
unfolding entries_of
entries_of-fresh j [] h = refl
entries_of-fresh j ((k, e) ∷ m) h = rw h.0 (entries_of-fresh j m h.1)

module _ (cutoff : ℕ) where
  after_of_later : (ts : List ℕ) → All (λ t. cutoff < t) ts → after cutoff ts ≡ ts
  after_of_later [] h = refl
  after_of_later (t ∷ ts) h = ground (arith, after_of_later ts h.1)

  All-later : (t : ℕ) (ts : List ℕ) → cutoff < t → All (λ u. t ≤ u) ts → All (λ u. cutoff < u) ts
  All-later t [] h l = tt
  All-later t (u ∷ ts) h l = (omega arith, All-later t ts h l.1)

  -- In a sorted queue the instants that are popped are those at or before the cutoff.
  pub pop_expired-after : (ts : List ℕ) → IsSorted ts → pop_expired cutoff ts ≡ after cutoff ts
  unfolding pop_expired
  pop_expired-after [] s = refl
  pop_expired-after (t ∷ ts) s = elim (Bool-cases (ltb cutoff t)) [
    | inl later ↦
        let keep = after_of_later ts (All-later t ts (ground arith) s.0) in ground (arith, keep)
    | inr expired ↦ ground (arith, pop_expired-after ts s.1)
  ]

  -- A queue whose last instant is not after the cutoff has none after it.
  back_is_after-none :
      (ts : List ℕ) → IsSorted ts → back_is_after cutoff ts ≡ false → after cutoff ts ≡ []
  unfolding back_is_after
  back_is_after-none [] s h = refl
  back_is_after-none (t ∷ []) s h = ground arith
  back_is_after-none (t ∷ u ∷ ts) s h =
      let rest = back_is_after-none (u ∷ ts) s.1 h in
      elim (Bool-cases (ltb cutoff t)) [
        | inl later ↦
            absurd
              (cc (sym rest ∙ after_of_later (u ∷ ts) (All-later t (u ∷ ts) (ground arith) s.0)))
        | inr early ↦ ground (arith, rest)
      ]

entries_of-retain :
    (p : Text × List ℕ → Bool) (j : Text) (m : Attempts)
    → Unique m
    → (entries_of j (retain p m) ≡ entries_of j m)
      ⊎ ((entries_of j (retain p m) ≡ [])
          × ((k : Text) × (e : List ℕ) × (entries_of j m ≡ e) × (p (k, e) ≡ false)))
unfolding entries_of
entries_of-retain p j [] u = inl refl
entries_of-retain p j ((k, e) ∷ m) u = elim (Bool-cases (text_eq k j)) [
  | inl same ↦ elim (Bool-cases (p (k, e))) [
    | inl kept ↦ rw kept (inl (rw same))
    | inr dropped ↦
        let absent : All (λ row. text_eq row.0 j ≡ false) m =
          rw ((text_eq_iff k j).0 same) at u.0 in
        let gone =
          entries_of-fresh j (retain p m)
            (All-retain (λ row. text_eq row.0 j ≡ false) p m absent) in
        rw (dropped, same) (inr (gone, (k, e, refl, dropped)))
  ]
  | inr other ↦ elim (Bool-cases (p (k, e))) [
    | inl kept ↦ rw (kept, other) (entries_of-retain p j m u.1)
    | inr dropped ↦ rw (dropped, other) (entries_of-retain p j m u.1)
  ]
]

-- A sweep leaves a key's queue as it is, or drops one that holds no instant after the cutoff.
pub entries_of-sweep :
    (cutoff : ℕ) (j : Text) (m : Attempts)
    → Unique m
    → IsSorted (entries_of j m)
    → (entries_of j (sweep cutoff m) ≡ entries_of j m)
      ⊎ ((entries_of j (sweep cutoff m) ≡ []) × (after cutoff (entries_of j m) ≡ []))
unfolding sweep
entries_of-sweep cutoff j m u s = elim (Bool-cases (ltb 10_000 (length m))) [
  | inr few ↦ rw few (inl refl)
  | inl many ↦ rw many (elim (entries_of-retain (is_live cutoff) j m u) [
    | inl kept ↦ inl kept
    | inr (gone, (k, e, found, dead)) ↦
        inr (gone, back_is_after-none cutoff (entries_of j m) s (rw found dead))
  ])
]
