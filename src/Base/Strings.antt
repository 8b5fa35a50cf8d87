-- ===== src/Base/Strings.antt =====
-- Text as the list of its code points, with `str::trim` and `chars().count()` of Rust.
use Prim.Native.Nat.{ℕ, ◌+◌, ◌≤◌}
use native.Mathlib.Omega.{arith}
use Prim.Native.Char.{code}
use Prim.Native.String.{String}
use mathlib.Core.Path.{◌≡◌, refl, ap, ◌∙◌}
use mathlib.Core.Bool.{Bool, true, false, ◌||◌, ◌&&◌}
use mathlib.Core.List.{List, [], ◌∷◌}
use mathlib.Core.Logic.{inl, inr, ◌↔◌}
use prosepect.Base.Rows.{length}
use prosepect.Base.Tests.{leb, ◌==◌, if◌then◌else◌, Bool-cases, nat_eq, list_test, list_test_iff}

abbrev pub Text : Type 0
Text = List ℕ

-- The code points of a literal.
abbrev pub codes : String → Text
codes String.[] = []
codes (String.◌∷◌ c s) = code c ∷ codes s

-- `str::starts_with`
abbrev pub starts_with : Text → Text → Bool
starts_with s [] = true
starts_with [] (c ∷ p) = false
starts_with (d ∷ s) (c ∷ p) = d == c && starts_with s p

-- `==` of two strings.
unfoldable pub text_eq : Text → Text → Bool
text_eq s t = list_test s t

pub text_eq_iff : (s t : Text) → (text_eq s t ≡ true) ↔ (s ≡ t)
unfolding text_eq
text_eq_iff s t = list_test_iff s t

pub text_eq_refl : (s : Text) → text_eq s s ≡ true
text_eq_refl s = (text_eq_iff s s).1 refl

-- `char::is_whitespace`: the Unicode property White_Space.
unfoldable pub is_whitespace : ℕ → Bool
is_whitespace c =
    (leb 9 c && leb c 13)
    || c == 0x20
    || c == 0x85
    || c == 0xa0
    || c == 0x1680
    || (leb 0x2000 c && leb c 0x200a)
    || c == 0x2028
    || c == 0x2029
    || c == 0x202f
    || c == 0x205f
    || c == 0x3000

unfoldable pub trim_start : Text → Text
trim_start [] = []
trim_start (c ∷ s) = let rest = trim_start s in if is_whitespace c then rest else c ∷ s

-- One character before a text that is trimmed at its end.
abbrev prepend : ℕ → Text → Text
prepend c [] = if is_whitespace c then [] else c ∷ []
prepend c (d ∷ s) = c ∷ d ∷ s

unfoldable pub trim_end : Text → Text
trim_end [] = []
trim_end (c ∷ s) = prepend c (trim_end s)

unfoldable pub trim : Text → Text
unfolding trim_start trim_end is_whitespace
trim s = trim_end (trim_start s)

abbrev pub is_empty : Text → Bool
is_empty [] = true
is_empty (c ∷ s) = false

-- The text has no character between its ends that `trim` would take.
abbrev StartsTrimmed : Text → Type 0
StartsTrimmed [] = Unit
StartsTrimmed (c ∷ s) = is_whitespace c ≡ false

trim_start-StartsTrimmed : (s : Text) → StartsTrimmed (trim_start s)
unfolding trim_start
trim_start-StartsTrimmed [] = tt
trim_start-StartsTrimmed (c ∷ s) = elim (Bool-cases (is_whitespace c)) [
  | inl e ↦ rw e (trim_start-StartsTrimmed s)
  | inr e ↦ rw e e
]

prepend-StartsTrimmed : (c : ℕ) (s : Text) → is_whitespace c ≡ false → StartsTrimmed (prepend c s)
prepend-StartsTrimmed c [] h = rw h h
prepend-StartsTrimmed c (d ∷ s) h = h

trim_end-StartsTrimmed : (s : Text) → StartsTrimmed s → StartsTrimmed (trim_end s)
unfolding trim_end
trim_end-StartsTrimmed [] h = tt
trim_end-StartsTrimmed (c ∷ s) h = prepend-StartsTrimmed c (trim_end s) h

trim_start_of_trimmed : (s : Text) → StartsTrimmed s → trim_start s ≡ s
unfolding trim_start
trim_start_of_trimmed [] h = refl
trim_start_of_trimmed (c ∷ s) h = rw h

trim_end_cons : (c : ℕ) (s : Text) → trim_end (c ∷ s) ≡ prepend c (trim_end s)
unfolding trim_end
trim_end_cons c s = refl

trim_end-prepend : (c : ℕ) (s : Text) → trim_end s ≡ s → trim_end (prepend c s) ≡ prepend c s
trim_end-prepend c [] h = elim (Bool-cases (is_whitespace c)) [
  | inl e ↦ rw e (unfold trim_end in refl)
  | inr e ↦ rw e (unfold trim_end in rw e)
]
trim_end-prepend c (d ∷ s) h = trim_end_cons c (d ∷ s) ∙ ap (prepend c) h

trim_end_idem : (s : Text) → trim_end (trim_end s) ≡ trim_end s
trim_end_idem [] = unfold trim_end in refl
trim_end_idem (c ∷ s) = rw trim_end_cons (trim_end-prepend c (trim_end s) (trim_end_idem s))

trim_lem : (s : Text) → trim s ≡ trim_end (trim_start s)
unfolding trim
trim_lem s = refl

length-trim_start : (s : Text) → length (trim_start s) ≤ length s
unfolding trim_start
length-trim_start [] = ground arith
length-trim_start (c ∷ s) = ground (arith, length-trim_start s)

length-prepend : (c : ℕ) (s : Text) → length (prepend c s) ≤ length s + 1
length-prepend c [] = ground arith
length-prepend c (d ∷ s) = ground arith

length-trim_end : (s : Text) → length (trim_end s) ≤ length s
unfolding trim_end
length-trim_end [] = ground arith
length-trim_end (c ∷ s) =
    let tail = length-trim_end s in let head = length-prepend c (trim_end s) in omega arith

-- Trimming never makes a text longer.
pub length-trim : (s : Text) → length (trim s) ≤ length s
length-trim s =
    let start = length-trim_start s in
    let end = length-trim_end (trim_start s) in rw trim_lem (omega arith)

-- A trimmed text stays as it is.
pub trim_idem : (s : Text) → trim (trim s) ≡ trim s
trim_idem s =
    let starts = trim_end-StartsTrimmed (trim_start s) (trim_start-StartsTrimmed s) in
    simp (trim_lem, trim_start_of_trimmed _ starts, trim_end_idem)
