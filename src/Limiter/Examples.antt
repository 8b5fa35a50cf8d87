-- ===== src/Limiter/Examples.antt =====
-- Concrete runs of the limiter.
use prosepect.Base.{
  ◌≡◌, refl, ◌-◌, ◌*◌, ◌≤◌, [], ◌∷◌, arith, codes, length, none, some, text_eq, true,
}
use prosepect.Limiter.{
  with_limit, second, check_key, client_key, pop_expired, entries_of, put, sweep,
}
use prosepect.Limiter.Table.{after}
use prosepect.Limiter.Window.{History, times, replay, serve}
use prosepect.Limiter.Bound.{serve-with_limit, serve-bounded}

-- Two attempts of one peer, a third too soon, one of another peer, and one a minute later.
abbrev attempts : History
attempts =
    (codes "a", 60 * second)
    ∷ (codes "a", 61 * second)
    ∷ (codes "a", 62 * second)
    ∷ (codes "b", 63 * second)
    ∷ (codes "a", 120 * second)
    ∷ []

third_is_refused : length (serve (with_limit 2) attempts []).1 ≡ 4
unfolding serve with_limit check_key pop_expired entries_of put sweep text_eq
third_is_refused = refl

serve-with_limit_example : (serve (with_limit 2) attempts []).1 ≡ replay 2 (60 * second) attempts []
serve-with_limit_example = serve-with_limit 2 attempts (omega arith)

serve-bounded_example :
    length
      (after (120 * second - 60 * second) (times (codes "a") (serve (with_limit 2) attempts []).1))
    ≤ 2
serve-bounded_example =
    serve-bounded 2 attempts (codes "a") (120 * second) (omega arith) (omega arith)

proxy_address_is_trimmed :
    client_key
      (record {
        x_forwarded_for = some (codes " 203.0.113.4 , 10.0.0.1");
        x_real_ip = none;
        peer_ip = some (codes "127.0.0.1");
      })
      true
    ≡ codes "203.0.113.4"
unfolding client_key
proxy_address_is_trimmed = refl
