-- ===== src/Limiter.antt =====
-- apps/api/src/rate_limit.rs: the sliding-window limiter of attempts per key.
-- An instant is a number of ticks from a moment that lies at least one window before the server's
-- start, so that `now - window` does not underflow.
pub mod Table
pub mod Window
pub mod Refinement
pub mod Bound
mod Examples
use prosepect.Base.{
  ℕ, suc, ◌-◌, ◌*◌, ◌≡◌, String, Option, none, some, Bool, true, false, not, List, [], ◌∷◌, ◌++◌,
  ltb, leb, ◌==◌, if◌then◌else◌, Text, codes, trim, is_empty, length, find?, retain, delete_where,
  text_eq,
}
use prosepect.Error.{AppResult, ok, err, invalid_request}

-- `HashMap<String, VecDeque<Instant>>`
abbrev pub Attempts : Type 0
Attempts = List (Text × List ℕ)

pub record LoginRateLimiter : Type 0 where
  pub attempts : Attempts
  -- The mutex is poisoned: a thread panicked while it held the lock.
  pub poisoned : Bool
  pub limit : ℕ
  pub window : ℕ
  pub message : String

-- Ticks in a second, `Duration::from_secs(1)`.
abbrev pub second : ℕ
second = 1_000_000_000

unfoldable pub with_limit : ℕ → LoginRateLimiter
with_limit limit = record {
  attempts = [];
  poisoned = false;
  limit = limit;
  window = 60 * second;
  message = "too many requests; try again shortly";
}

-- `LoginRateLimiter::default`
unfoldable pub default : LoginRateLimiter
default = record {
  attempts = [];
  poisoned = false;
  limit = 10;
  window = 60 * second;
  message = "too many authentication attempts; try again shortly";
}

abbrev pub has_key : Text → Text × List ℕ → Bool
has_key key (k, entries) = text_eq k key

-- `attempts.entry(key).or_default()`, read
unfoldable pub entries_of : Text → Attempts → List ℕ
entries_of key [] = []
entries_of key ((k, entries) ∷ rest) = if text_eq k key then entries else entries_of key rest

-- and written back.
unfoldable pub put : Text → List ℕ → Attempts → Attempts
put key entries attempts = (key, entries) ∷ delete_where (has_key key) attempts

-- `while entries.front().is_some_and(|instant| *instant <= cutoff) { entries.pop_front(); }`
unfoldable pub pop_expired : ℕ → List ℕ → List ℕ
pop_expired cutoff [] = []
pop_expired cutoff (instant ∷ entries) =
    let rest = pop_expired cutoff entries in if leb instant cutoff then rest else instant ∷ entries

-- `entries.back().is_some_and(|instant| *instant > cutoff)`
unfoldable pub back_is_after : ℕ → List ℕ → Bool
back_is_after cutoff [] = false
back_is_after cutoff (instant ∷ []) = ltb cutoff instant
back_is_after cutoff (instant ∷ next ∷ entries) = back_is_after cutoff (next ∷ entries)

abbrev pub is_live : ℕ → Text × List ℕ → Bool
is_live cutoff (k, entries) = back_is_after cutoff entries

-- `if attempts.len() > 10_000 { attempts.retain(...) }`
unfoldable pub sweep : ℕ → Attempts → Attempts
sweep cutoff attempts =
    if ltb 10_000 (length attempts) then retain (is_live cutoff) attempts else attempts

-- `check_key`, with the `Instant::now()` that it reads.
unfoldable pub check_key : Text → ℕ → LoginRateLimiter → LoginRateLimiter × AppResult (Unit {0})
check_key key now l =
    let cutoff = now - l.window in
    let entries = pop_expired cutoff (entries_of key l.attempts) in
    if l.poisoned
    then (l, err (invalid_request 500 "rate limiter is unavailable"))
    else if leb l.limit (length entries)
    then (record l { attempts = put key entries l.attempts }, err (invalid_request 429 l.message))
    else (record l { attempts = sweep cutoff (put key (entries ++ now ∷ []) l.attempts) }, ok tt)

-- The headers that `client_key` reads, where `to_str` accepts them, and the peer's address.
pub record Client : Type 0 where
  pub x_forwarded_for : Option Text
  pub x_real_ip : Option Text
  pub peer_ip : Option Text

-- `value.split(',').next()`
unfoldable pub first_field : Text → Text
first_field [] = []
first_field (c ∷ s) = let rest = first_field s in if c == b',' then [] else c ∷ rest

unfoldable pub non_empty : Text → Option Text
non_empty s = if is_empty s then none else some s

abbrev or_else {ℓ} : {A : Type ℓ} → Option A → A → A
or_else (some a) d = a
or_else none d = d

abbrev and_then {ℓ} : {A : Type ℓ} → Option A → (A → Option A) → Option A
and_then (some a) f = f a
and_then none f = none

unfoldable pub client_key : Client → Bool → Text
unfolding first_field non_empty trim
client_key c trust_proxy_headers =
    let peer = or_else c.peer_ip (codes "unknown-peer") in
    if trust_proxy_headers
    then or_else (and_then c.x_forwarded_for (λ value. non_empty (trim (first_field value))))
        (or_else (and_then c.x_real_ip non_empty) peer)
    else peer

-- `check`
unfoldable pub check :
    Client → Bool → ℕ → LoginRateLimiter → LoginRateLimiter × AppResult (Unit {0})
unfolding client_key
check c trust_proxy_headers now l = check_key (client_key c trust_proxy_headers) now l
