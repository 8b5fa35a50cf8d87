-- ===== src/Sync/Rules/Examples.antt =====
-- A codec of instants as the digits of their seconds, and a weekly rule that it writes and reads.
use prosepect.Base.{
  ℕ, zero, suc, ◌+◌, ◌-◌, ◌*◌, ◌/◌, ◌%◌, ◌<◌, ◌≡◌, refl, ◌∙◌, some, [], ◌∷◌, ◌++◌, All, All-append,
  Text, arith,
}
use prosepect.Store.{weekly}
use prosepect.Sync.{Codec}
use prosepect.Sync.Google.{parse_recurrence, recurrence_rule}
use prosepect.Sync.Rules.{IsPlain, ReadsBack, parse_recurrence-recurrence_rule}

-- The last `w` decimal digits of a number, and the number that digits write.
abbrev pub digits : ℕ → ℕ → Text
digits zero n = []
digits (suc w) n = digits w (n / 10) ++ (b'0' + n % 10) ∷ []

abbrev number_after : ℕ → Text → ℕ
number_after n [] = n
number_after n (c ∷ s) = number_after (n * 10 + (c - b'0')) s

-- An instant is written as the twelve digits of its seconds.
abbrev pub codec : Codec
codec = record {
  parse_until = λ s. some (number_after 0 s * 1_000_000);
  format_until = λ at. digits 12 (at / 1_000_000);
  digest = λ w. w.summary;
  uuid_text = digits 3;
}

-- The numbers of `w` digits are the ones below.
abbrev numbers : ℕ → ℕ
numbers zero = 1
numbers (suc w) = 10 * numbers w

number_after-append :
    (n : ℕ) (s : Text) (c : ℕ) → number_after n (s ++ c ∷ []) ≡ number_after n s * 10 + (c - b'0')
number_after-append n [] c = refl
number_after-append n (d ∷ s) c = number_after-append (n * 10 + (d - b'0')) s c

number_after-digits : (w n : ℕ) → n < numbers w → number_after 0 (digits w n) ≡ n
number_after-digits zero n few = omega arith
number_after-digits (suc w) n few =
    let tens = number_after-digits w (n / 10) (omega arith) in
    number_after-append 0 (digits w (n / 10)) (b'0' + n % 10) ∙ rw tens (omega arith)

digits-plain : (w n : ℕ) → All IsPlain (digits w n)
digits-plain zero n = tt
digits-plain (suc w) n =
    All-append IsPlain (digits w (n / 10)) ((b'0' + n % 10) ∷ []) (digits-plain w (n / 10))
      ((ground arith, ground arith), tt)

codec-ReadsBack : ReadsBack codec
codec-ReadsBack = record {
  reads = λ at few. rw (number_after-digits 12 (at / 1_000_000) (omega arith)) refl;
  plain = λ at. digits-plain 12 (at / 1_000_000);
}

parse_recurrence-recurrence_rule_example :
    parse_recurrence codec (recurrence_rule codec weekly (some 40_500_000))
    ≡ (weekly, some 40_000_000)
parse_recurrence-recurrence_rule_example =
    parse_recurrence-recurrence_rule codec weekly (some 40_500_000) codec-ReadsBack (omega arith)
