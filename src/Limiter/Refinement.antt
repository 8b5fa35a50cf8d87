-- ===== src/Limiter/Refinement.antt =====
-- The limiter's table refines the specification of Limiter/Window.
use prosepect.Base.{
  ℕ, ◌-◌, ◌≤◌, ◌≡◌, refl, sym, ap, ◌∙◌, inl, inr, Bool, true, false, List, [], ◌∷◌, ◌++◌, arith,
  ltb, if◌then◌else◌, Bool-cases, Text, All, length, text_eq, text_eq_iff, All-append, All-retain,
}
use prosepect.Error.{ok}
use prosepect.Limiter.{Attempts, LoginRateLimiter, entries_of, put, pop_expired, sweep, check_key}
use prosepect.Limiter.Table.{
  Unique, IsSorted, after, entries_of-put, Unique-put, Unique-sweep, pop_expired-after,
  entries_of-sweep,
}
use prosepect.Limiter.Window.{
  History, times, admits, replay, succeeded, serve, IsChronological, times-append, after-append,
  after-after, after_later, IsSorted-append,
}

-- What the queue of one key has to do with the history, at a cutoff and an instant that no entry
-- passes.
pub record Tracks (cutoff now : ℕ) (entries : List ℕ) (past : List ℕ) : Type 0 where
  pub sorted : IsSorted entries
  pub bounded : All (λ t. t ≤ now) entries
  pub same : after cutoff entries ≡ after cutoff past

pub record Related (cutoff now : ℕ) (l : LoginRateLimiter) (h : History) : Type 0 where
  pub alive : l.poisoned ≡ false
  pub unique : Unique l.attempts
  pub tracked : (key : Text) → Tracks cutoff now (entries_of key l.attempts) (times key h)

All-le : (ts : List ℕ) (a b : ℕ) → a ≤ b → All (λ t. t ≤ a) ts → All (λ t. t ≤ b) ts
All-le [] a b le h = tt
All-le (t ∷ ts) a b le h = (omega arith, All-le ts a b le h.1)

All-after : (P : ℕ → Type 0) (c : ℕ) (ts : List ℕ) → All P ts → All P (after c ts)
All-after P c ts h = All-retain P (λ t. ltb c t) ts h

IsSorted-after : (c : ℕ) (ts : List ℕ) → IsSorted ts → IsSorted (after c ts)
IsSorted-after c [] s = tt
IsSorted-after c (t ∷ ts) s = elim (Bool-cases (ltb c t)) [
  | inl e ↦ rw e (All-after (λ u. t ≤ u) c ts s.0, IsSorted-after c ts s.1)
  | inr e ↦ rw e (IsSorted-after c ts s.1)
]

-- Time goes on.
Tracks-later :
    (c d now then' : ℕ) (ts past : List ℕ)
    → c ≤ d
    → now ≤ then'
    → Tracks c now ts past
    → Tracks d then' ts past
Tracks-later c d now then' ts past le le' h = record {
  sorted = h.sorted;
  bounded = All-le ts now then' le' h.bounded;
  same = after_later c d ts past le h.same;
}

-- The expired entries are popped.
Tracks-pop : (c now : ℕ) (ts past : List ℕ) → Tracks c now ts past → Tracks c now (after c ts) past
Tracks-pop c now ts past h = record {
  sorted = IsSorted-after c ts h.sorted;
  bounded = All-after (λ t. t ≤ now) c ts h.bounded;
  same = after-after c c ts (omega arith) ∙ h.same;
}

-- The request is recorded on both sides.
Tracks-push :
    (c now : ℕ) (ts past : List ℕ)
    → Tracks c now ts past
    → Tracks c now (ts ++ now ∷ []) (past ++ now ∷ [])
Tracks-push c now ts past h = record {
  sorted = IsSorted-append ts now h.sorted h.bounded;
  bounded = All-append (λ t. t ≤ now) ts (now ∷ []) h.bounded (omega arith, tt);
  same = rw (after-append c ts (now ∷ []), after-append c past (now ∷ []), h.same);
}

-- A queue that a sweep drops tracks what it tracked.
Tracks-sweep :
    (c now : ℕ) (m : Attempts) (key : Text) (past : List ℕ)
    → Unique m
    → Tracks c now (entries_of key m) past
    → Tracks c now (entries_of key (sweep c m)) past
Tracks-sweep c now m key past u h = elim (entries_of-sweep c key m u h.sorted) [
  | inl kept ↦ rw kept h
  | inr (gone, none_left) ↦
      rw gone (record { sorted = tt; bounded = tt; same = sym none_left ∙ h.same })
]

Tracks-put :
    (c now : ℕ) (m : Attempts) (key j : Text) (e past past' : List ℕ)
    → (key ≡ j → Tracks c now e past)
    → Tracks c now (entries_of j m) past'
    → Tracks c now (entries_of j (put key e m)) (if text_eq key j then past else past')
Tracks-put c now m key j e past past' new old = elim (Bool-cases (text_eq key j)) [
  | inl same ↦ rw (entries_of-put, same) (new ((text_eq_iff key j).0 same))
  | inr other ↦ rw (entries_of-put, other) old
]

if_same {ℓ} : {A : Type ℓ} (b : Bool) (a : A) → (if b then a else a) ≡ a
if_same true a = refl
if_same false a = refl

-- What one request does, on each of its two branches.
module _ (key : Text) (now c0 now0 : ℕ) (l : LoginRateLimiter) (h : History)
    (before : c0 ≤ now - l.window) (order : now0 ≤ now) (r : Related c0 now0 l h) where
  live : (j : Text) → Tracks (now - l.window) now (entries_of j l.attempts) (times j h)
  live j = Tracks-later c0 (now - l.window) now0 now _ _ before order (r.tracked j)

  popped :
      pop_expired (now - l.window) (entries_of key l.attempts)
      ≡ after (now - l.window) (entries_of key l.attempts)
  popped = pop_expired-after (now - l.window) _ (live key).sorted

  entries : List ℕ
  entries = after (now - l.window) (entries_of key l.attempts)

  Tracks-entries : Tracks (now - l.window) now entries (times key h)
  unfolding entries
  Tracks-entries = Tracks-pop (now - l.window) now _ _ (live key)

  check_key-admitted :
      admits l.limit l.window key now h ≡ true
      → check_key key now l ≡ (
        record l { attempts = sweep (now - l.window) (put key (entries ++ now ∷ []) l.attempts) },
        ok tt,
      )
  unfolding check_key admits entries
  check_key-admitted admitted = rw (popped, r.alive) (ground (arith, ap length (live key).same))

  check_key-refused :
      admits l.limit l.window key now h ≡ false
      → ((check_key key now l).0 ≡ record l { attempts = put key entries l.attempts })
        × (succeeded (check_key key now l).1 ≡ false)
  unfolding check_key admits entries
  check_key-refused refused =
      rw (popped, r.alive)
        (ground (arith, ap length (live key).same), ground (arith, ap length (live key).same))

  Related-admitted :
      admits l.limit l.window key now h ≡ true
      → Related
          (now - l.window)
          now
          (record l {
            attempts = sweep (now - l.window) (put key (entries ++ now ∷ []) l.attempts);
          })
          (h ++ (key, now) ∷ [])
  Related-admitted admitted = record {
    alive = r.alive;
    unique = Unique-sweep (now - l.window) _ written;
    tracked = λ j. Tracks-sweep (now - l.window) now _ j _ written (
        rw times-append (
          Tracks-put (now - l.window) now l.attempts key j (entries ++ now ∷ [])
            (times j h ++ now ∷ []) (times j h)
            (λ same. rw (← same) (Tracks-push (now - l.window) now entries _ Tracks-entries))
            (live j)));
  }
    where
      written : Unique (put key (entries ++ now ∷ []) l.attempts)
      written = Unique-put key _ l.attempts r.unique

  Related-refused :
      Related (now - l.window) now (record l { attempts = put key entries l.attempts }) h
  Related-refused = record {
    alive = r.alive;
    unique = Unique-put key entries l.attempts r.unique;
    tracked = λ j. rw (← if_same (text_eq key j) (times j h)) (
        Tracks-put (now - l.window) now l.attempts key j entries (times j h) (times j h)
          (λ same. rw (← same) Tracks-entries) (live j));
  }

serve-cons :
    (key : Text) (now : ℕ) (requests : History) (l : LoginRateLimiter) (h : History)
    → serve l ((key, now) ∷ requests) h
      ≡ serve
          (check_key key now l).0
          requests
          (if succeeded (check_key key now l).1 then h ++ (key, now) ∷ [] else h)
unfolding serve
serve-cons key now requests l h = refl

pub replay-cons :
    (limit window : ℕ) (key : Text) (now : ℕ) (requests h : History)
    → replay limit window ((key, now) ∷ requests) h
      ≡ replay limit window requests
          (if admits limit window key now h then h ++ (key, now) ∷ [] else h)
unfolding replay
replay-cons limit window key now requests h = refl

-- The limiter admits what the specification admits, request by request, from any related state.
pub serve-replay :
    (requests : History) (c0 now0 : ℕ) (l : LoginRateLimiter) (h : History)
    → IsChronological now0 requests
    → c0 ≤ now0 - l.window
    → Related c0 now0 l h
    → (serve l requests h).1 ≡ replay l.limit l.window requests h
serve-replay [] c0 now0 l h chrono before r = unfold serve replay in refl
serve-replay ((key, now) ∷ requests) c0 now0 l h chrono before r =
    elim (Bool-cases (admits l.limit l.window key now h)) [
      | inl admitted ↦
          rw
            (
              serve-cons,
              replay-cons,
              admitted,
              check_key-admitted key now c0 now0 l h later chrono.0 r admitted,
            )
            (serve-replay requests (now - l.window) now _ _ chrono.1 (omega arith)
              (Related-admitted key now c0 now0 l h later chrono.0 r admitted))
      | inr refused ↦
          let (state, denied) = check_key-refused key now c0 now0 l h later chrono.0 r refused in
          rw (serve-cons, replay-cons, refused, state, denied)
            (serve-replay requests (now - l.window) now _ _ chrono.1 (omega arith)
              (Related-refused key now c0 now0 l h later chrono.0 r))
    ]
  where
    later : c0 ≤ now - l.window
    later = omega arith
