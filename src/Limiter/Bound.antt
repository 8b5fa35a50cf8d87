-- ===== src/Limiter/Bound.antt =====
-- The window bound of the limiter, from its specification.
use prosepect.Base.{
  ℕ, ◌+◌, ◌-◌, ◌*◌, ◌≤◌, ◌≡◌, refl, inl, inr, true, List, [], ◌∷◌, ◌++◌, arith, Bool-cases, Text,
  All, length, text_eq, text_eq_iff,
}
use prosepect.Limiter.{with_limit, second, entries_of}
use prosepect.Limiter.Table.{after}
use prosepect.Limiter.Window.{
  History, times, admits, replay, serve, IsChronological, times-append, after-append,
  length-after-le,
}
use prosepect.Limiter.Refinement.{Related, serve-replay, replay-cons}

length-append : (xs ys : List ℕ) → length (xs ++ ys) ≡ length xs + length ys
length-append [] ys = omega arith
length-append (x ∷ xs) ys = omega (arith, length-append xs ys)

length-after_one : (d t : ℕ) → length (after d (t ∷ [])) ≤ 1
length-after_one d t = ground arith

-- No key has more than `limit` admitted requests in a window that ends at `now` or later.
abbrev IsBounded : ℕ → ℕ → ℕ → History → Type 0
IsBounded limit window now h =
    (key : Text) (d : ℕ) → now - window ≤ d → length (after d (times key h)) ≤ limit

room :
    (limit window : ℕ) (key : Text) (now : ℕ) (h : History)
    → admits limit window key now h ≡ true
    → length (after (now - window) (times key h)) + 1 ≤ limit
unfolding admits
room limit window key now h admitted = ground arith

admitted-IsBounded :
    (limit window : ℕ) (key : Text) (now0 now : ℕ) (h : History)
    → now0 ≤ now
    → admits limit window key now h ≡ true
    → IsBounded limit window now0 h
    → IsBounded limit window now (h ++ (key, now) ∷ [])
admitted-IsBounded limit window key now0 now h order admitted b j d le =
    rw times-append (elim (Bool-cases (text_eq key j)) [
      | inr other ↦ rw other (b j d (omega arith))
      | inl same ↦
          let few = length-after-le (now - window) d (times j h) le in
          let here : length (after (now - window) (times j h)) + 1 ≤ limit =
            rw ((text_eq_iff key j).0 same) at (room limit window key now h admitted) in
          rw (same, after-append d (times j h) (now ∷ []), length-append)
            (omega (arith, few, here, length-after_one d now))
    ])

replay-IsBounded :
    (limit window : ℕ) (requests : History) (now0 now : ℕ) (h : History)
    → IsChronological now0 requests
    → now0 ≤ now
    → All (λ r. r.1 ≤ now) requests
    → IsBounded limit window now0 h
    → IsBounded limit window now (replay limit window requests h)
replay-IsBounded limit window [] now0 now h chrono order before b =
    unfold replay in λ j d le. b j d (omega arith)
replay-IsBounded limit window ((key, t) ∷ requests) now0 now h chrono order before b =
    rw replay-cons (elim (Bool-cases (admits limit window key t h)) [
      | inl admitted ↦ rw admitted (
          replay-IsBounded limit window requests t now _ chrono.1 before.0 before.1
            (admitted-IsBounded limit window key now0 t h chrono.0 admitted b))
      | inr refused ↦ rw refused (
          replay-IsBounded limit window requests t now h chrono.1 before.0 before.1
            (λ j d le. b j d (omega (arith, chrono.0))))
    ])

Related-initial : (n : ℕ) → Related 0 0 (with_limit n) []
unfolding with_limit entries_of times
Related-initial n = record {
  alive = refl;
  unique = tt;
  tracked = λ key. record { sorted = tt; bounded = tt; same = refl };
}

-- Over requests in the order of time, a fresh limiter admits exactly the requests of whose key
-- fewer than `n` were admitted in the 60 seconds up to them.
pub serve-with_limit :
    (n : ℕ) (requests : History)
    → IsChronological 0 requests
    → (serve (with_limit n) requests []).1 ≡ replay n (60 * second) requests []
unfolding with_limit
serve-with_limit n requests chrono =
    serve-replay requests 0 0 (with_limit n) [] chrono (omega arith) (Related-initial n)

-- Over requests in the order of time, up to now, a fresh limiter has admitted at most `n` requests
-- of any one key in the 60 seconds that end now.
pub serve-bounded :
    (n : ℕ) (requests : History) (key : Text) (now : ℕ)
    → IsChronological 0 requests
    → All (λ r. r.1 ≤ now) requests
    → length (after (now - 60 * second) (times key (serve (with_limit n) requests []).1)) ≤ n
serve-bounded n requests key now chrono before = rw (serve-with_limit n requests chrono) (
    replay-IsBounded n (60 * second) requests 0 now [] chrono (omega arith) before
      (λ j d le. unfold times in omega arith) key (now - 60 * second) (omega arith))
