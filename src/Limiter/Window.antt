-- ===== src/Limiter/Window.antt =====
-- The limiter against a specification that remembers every admitted request: in every window of
-- time a key is admitted at most `limit` times, and exactly then refused.
use prosepect.Base.{
  ℕ, ◌-◌, ◌≤◌, ◌≡◌, refl, sym, ap, ◌∙◌, Bool, true, false, List, [], ◌∷◌, ◌++◌, arith, ltb,
  if◌then◌else◌, Text, All, length, text_eq,
}
use prosepect.Error.{AppResult, ok, err, panicked}
use prosepect.Limiter.{LoginRateLimiter, check_key}
use prosepect.Limiter.Table.{IsSorted, after}

-- The admitted requests, each with its key and its instant, in the order of time.
abbrev pub History : Type 0
History = List (Text × ℕ)

unfoldable pub times : Text → History → List ℕ
times key [] = []
times key ((k, t) ∷ h) = let rest = times key h in if text_eq k key then t ∷ rest else rest

-- The specification: a request is admitted if fewer than `limit` of its key were admitted in the
-- window that ends now.
unfoldable pub admits : ℕ → ℕ → Text → ℕ → History → Bool
unfolding times
admits limit window key now h = ltb (length (after (now - window) (times key h))) limit

unfoldable pub replay : ℕ → ℕ → History → History → History
unfolding admits
replay limit window [] h = h
replay limit window ((key, now) ∷ requests) h =
    replay limit window requests (if admits limit window key now h then h ++ (key, now) ∷ [] else h)

abbrev pub succeeded : AppResult (Unit {0}) → Bool
succeeded (ok a) = true
succeeded (err e) = false
succeeded panicked = false

-- The limiter over a sequence of requests, with the history of those that it admits.
unfoldable pub serve : LoginRateLimiter → History → History → LoginRateLimiter × History
serve l [] h = (l, h)
serve l ((key, now) ∷ requests) h =
    let (l', result) = check_key key now l in
    serve l' requests (if succeeded result then h ++ (key, now) ∷ [] else h)

-- The instants of the requests do not decrease, and start no earlier than `now`.
abbrev pub IsChronological : ℕ → History → Type 0
IsChronological now [] = Unit
IsChronological now ((key, t) ∷ requests) = (now ≤ t) × IsChronological t requests

pub times-append :
    (key k : Text) (t : ℕ) (h : History)
    → times key (h ++ (k, t) ∷ []) ≡ (if text_eq k key then times key h ++ t ∷ [] else times key h)
unfolding times
times-append key k t [] = ground arith
times-append key k t ((j, u) ∷ h) = ground (arith, times-append key k t h)

pub after-append : (c : ℕ) (ts us : List ℕ) → after c (ts ++ us) ≡ after c ts ++ after c us
after-append c [] us = refl
after-append c (t ∷ ts) us = ground (arith, after-append c ts us)

pub after-after : (c d : ℕ) (ts : List ℕ) → c ≤ d → after d (after c ts) ≡ after d ts
after-after c d [] h = refl
after-after c d (t ∷ ts) h = ground (arith, after-after c d ts h)

pub after_later :
    (c d : ℕ) (ts us : List ℕ) → c ≤ d → after c ts ≡ after c us → after d ts ≡ after d us
after_later c d ts us le h = sym (after-after c d ts le) ∙ ap (after d) h ∙ after-after c d us le

pub length-after-le : (c d : ℕ) (ts : List ℕ) → c ≤ d → length (after d ts) ≤ length (after c ts)
length-after-le c d [] h = omega arith
length-after-le c d (t ∷ ts) h = ground (arith, length-after-le c d ts h)

pub IsSorted-append :
    (ts : List ℕ) (now : ℕ) → IsSorted ts → All (λ t. t ≤ now) ts → IsSorted (ts ++ now ∷ [])
IsSorted-append [] now s p = (tt, tt)
IsSorted-append (t ∷ ts) now s p = (all_later t ts s.0 p.0, IsSorted-append ts now s.1 p.1)
  where
    all_later :
        (t : ℕ) (ts : List ℕ) → All (λ u. t ≤ u) ts → t ≤ now → All (λ u. t ≤ u) (ts ++ now ∷ [])
    all_later t [] h le = (le, tt)
    all_later t (u ∷ ts) h le = (h.0, all_later t ts h.1 le)
