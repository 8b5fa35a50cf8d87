-- ===== src/Sync/Rules.antt =====
-- `parse_recurrence` after `recurrence_rule`, of apps/api/src/sync_service.rs.
pub mod Examples
use prosepect.Base.{
  ℕ, ◌<◌, ◌*◌, ◌/◌, ◌≡◌, refl, Option, none, some, false, ◌==◌, [], ◌∷◌, All, Text, codes,
}
use prosepect.Store.{EventRecurrence, once, daily, weekly, monthly, yearly}
use prosepect.Sync.{Codec}
use prosepect.Sync.Google.{contains, split, rule_frequency, parse_recurrence, recurrence_rule}

-- A character that the text of an instant can have: neither F nor a semicolon.
abbrev pub IsPlain : ℕ → Type 0
IsPlain c = ((c == b'F') ≡ false) × ((c == b';') ≡ false)

-- The microseconds from 1970 to the year 10000, whose number `%Y` does not read back.
abbrev pub year_10000 : ℕ
year_10000 = 253_402_300_800_000_000

-- An instant without its fraction of a second, which `%Y%m%dT%H%M%SZ` does not write.
abbrev pub whole_seconds : ℕ → ℕ
whole_seconds at = at / 1_000_000 * 1_000_000

-- chrono reads the text that it writes up to the second; the text has digits, a sign, T and Z.
pub record ReadsBack (g : Codec) : Type 0 where
  pub reads :
      (at : ℕ) → at < year_10000 → g.parse_until (g.format_until at) ≡ some (whole_seconds at)
  pub plain : (at : ℕ) → All IsPlain (g.format_until at)

-- A rule without end, or that has a frequency and an end before the year 10000.
abbrev pub IsRule : EventRecurrence → Option ℕ → Type 0
IsRule once (some until) = ⊥
IsRule _ none = Unit
IsRule _ (some until) = until < year_10000

-- The end that is read back.
abbrev pub rounded : Option ℕ → Option ℕ
rounded none = none
rounded (some until) = some (whole_seconds until)

plain-contains : (s p : Text) → All IsPlain s → contains s (b'F' ∷ p) ≡ false
plain-contains [] p h = refl
plain-contains (c ∷ s) p h = rw (h.0.0) (plain-contains s p h.1)

plain-split : (s : Text) → All IsPlain s → split b';' s ≡ s ∷ []
plain-split [] h = refl
plain-split (c ∷ s) h = rw (h.0.1, plain-split s h.1) refl

module _ (g : Codec) where
  -- A frequency, and the end of the repetition if it has one before the year 10000, are read back from
  -- the rule that is written for them, the end without its fraction of a second, where chrono reads
  -- back the text that it writes up to the second.
  pub parse_recurrence-recurrence_rule :
      (value : EventRecurrence) (until : Option ℕ)
      → ReadsBack g
      → IsRule value until
      → parse_recurrence g (recurrence_rule g value until) ≡ (value, rounded until)
  unfolding parse_recurrence recurrence_rule rule_frequency
  parse_recurrence-recurrence_rule once none back rule = refl
  parse_recurrence-recurrence_rule once (some at) back rule = elim rule [ ]
  parse_recurrence-recurrence_rule daily none back rule = refl
  parse_recurrence-recurrence_rule weekly none back rule = refl
  parse_recurrence-recurrence_rule monthly none back rule = refl
  parse_recurrence-recurrence_rule yearly none back rule = refl
  parse_recurrence-recurrence_rule daily (some at) back rule =
      let plain = back.plain at in
      rw (plain-split (g.format_until at) plain, back.reads at rule) refl
  parse_recurrence-recurrence_rule weekly (some at) back rule =
      let plain = back.plain at in
      rw
        (
          plain-contains (g.format_until at) (codes "REQ=DAILY") plain,
          plain-split (g.format_until at) plain,
          back.reads at rule,
        )
        refl
  parse_recurrence-recurrence_rule monthly (some at) back rule =
      let plain = back.plain at in
      rw
        (
          plain-contains (g.format_until at) (codes "REQ=DAILY") plain,
          plain-contains (g.format_until at) (codes "REQ=WEEKLY") plain,
          plain-split (g.format_until at) plain,
          back.reads at rule,
        )
        refl
  parse_recurrence-recurrence_rule yearly (some at) back rule =
      let plain = back.plain at in
      rw
        (
          plain-contains (g.format_until at) (codes "REQ=DAILY") plain,
          plain-contains (g.format_until at) (codes "REQ=WEEKLY") plain,
          plain-contains (g.format_until at) (codes "REQ=MONTHLY") plain,
          plain-split (g.format_until at) plain,
          back.reads at rule,
        )
        refl
