-- ===== src/Base/Text.antt =====
-- Rust's `str` methods that the program calls: `trim().is_empty()` and `join`.
use Prim.Native.Nat.{ℕ, zero, suc, ◌+◌, ◌/◌, ◌%◌}
use Prim.Native.Char.{Char, code}
use Prim.Native.String.{String, ◌++◌ as text_append}
use mathlib.Core.Bool.{Bool, true, false, ◌&&◌, ◌||◌}
use mathlib.Core.List.{List, [], ◌∷◌}
use mathlib.Core.Option.{Option, none, some}
use fiddlesticks.Base.Tests.{leb, eqb, ltb, if◌then◌else◌}

-- `char::is_whitespace`: the code points of Unicode's White_Space.
pub is_whitespace : ℕ → Bool
is_whitespace c =
    (leb 9 c && leb c 13)
    || eqb c 32
    || eqb c 0x85
    || eqb c 0xa0
    || eqb c 0x1680
    || (leb 0x2000 c && leb c 0x200a)
    || eqb c 0x2028
    || eqb c 0x2029
    || eqb c 0x202f
    || eqb c 0x205f
    || eqb c 0x3000

-- `s.trim().is_empty()`: nothing is left once white space is cut off at both ends.
unfoldable pub is_blank : String → Bool
unfolding is_whitespace
is_blank String.[] = true
is_blank (String.◌∷◌ c s) = is_whitespace (code c) && is_blank s

-- `s.trim_start()`
unfoldable pub trim_start : String → String
unfolding is_whitespace
trim_start String.[] = ""
trim_start (String.◌∷◌ c s) = if is_whitespace (code c) then trim_start s else String.◌∷◌ c s

-- `c` goes before a text whose end is trimmed.
cons_trimmed : Char → String → String
unfolding is_whitespace
cons_trimmed c String.[] = if is_whitespace (code c) then "" else String.◌∷◌ c ""
cons_trimmed c (String.◌∷◌ d t) = String.◌∷◌ c (String.◌∷◌ d t)

unfoldable pub trim_end : String → String
unfolding cons_trimmed
trim_end String.[] = ""
trim_end (String.◌∷◌ c s) = cons_trimmed c (trim_end s)

-- `s.trim()`
abbrev pub trim : String → String
trim s = trim_start (trim_end s)

-- `s.is_empty()`
abbrev pub is_empty_text : String → Bool
is_empty_text String.[] = true
is_empty_text (String.◌∷◌ c s) = false

-- `slice.join(sep)`
unfoldable pub join : String → List String → String
join sep [] = ""
join sep (x ∷ []) = x
join sep (x ∷ y ∷ rest) = text_append x (text_append sep (join sep (y ∷ rest)))

-- `t.starts_with(s)`
unfoldable pub is_prefix : String → String → Bool
is_prefix String.[] t = true
is_prefix (String.◌∷◌ c s) String.[] = false
is_prefix (String.◌∷◌ c s) (String.◌∷◌ d t) = eqb (code c) (code d) && is_prefix s t

-- `t.strip_prefix(s)`
unfoldable pub strip_prefix : String → String → Option String
strip_prefix String.[] t = some t
strip_prefix (String.◌∷◌ c s) String.[] = none
strip_prefix (String.◌∷◌ c s) (String.◌∷◌ d t) =
    if eqb (code c) (code d) then strip_prefix s t else none

-- The number of characters.
abbrev pub text_length : String → ℕ
text_length String.[] = 0
text_length (String.◌∷◌ c s) = suc (text_length s)

strip_times : ℕ → String → String → String
unfolding strip_prefix
strip_times zero s t = t
strip_times (suc fuel) s t = elim (strip_prefix s t) [
  | none ↦ t
  | some rest ↦ strip_times fuel s rest
]

-- `t.trim_start_matches(s)` for a text `s` that is not empty: it can stand in front of `t` no more
-- often than `t` has characters.
unfoldable pub trim_start_matches : String → String → String
unfolding strip_times
trim_start_matches s t = strip_times (text_length t) s t

-- `char::to_ascii_lowercase`, on the code point.
lower_code : ℕ → ℕ
lower_code c = if leb 65 c && leb c 90 then c + 32 else c

-- `s.to_ascii_lowercase() == t`
unfoldable pub lowercase_eq : String → String → Bool
unfolding lower_code
lowercase_eq String.[] String.[] = true
lowercase_eq String.[] (String.◌∷◌ d t) = false
lowercase_eq (String.◌∷◌ c s) String.[] = false
lowercase_eq (String.◌∷◌ c s) (String.◌∷◌ d t) =
    eqb (lower_code (code c)) (code d) && lowercase_eq s t

-- `t.contains(s)`
unfoldable pub contains_text : String → String → Bool
contains_text String.[] s = is_prefix s ""
contains_text (String.◌∷◌ c t) s = is_prefix s (String.◌∷◌ c t) || contains_text t s

-- `c` goes before a text whose end has no `d`.
cons_unless : Char → Char → String → String
cons_unless d c String.[] = if eqb (code c) (code d) then "" else String.◌∷◌ c ""
cons_unless d c (String.◌∷◌ e t) = String.◌∷◌ c (String.◌∷◌ e t)

-- `t.trim_end_matches(d)` for a character.
unfoldable pub trim_end_matches : Char → String → String
unfolding cons_unless
trim_end_matches d String.[] = ""
trim_end_matches d (String.◌∷◌ c t) = cons_unless d c (trim_end_matches d t)

digit : ℕ → String
digit zero = "0"
digit (suc zero) = "1"
digit (suc (suc zero)) = "2"
digit (suc (suc (suc zero))) = "3"
digit (suc (suc (suc (suc zero)))) = "4"
digit (suc (suc (suc (suc (suc zero))))) = "5"
digit (suc (suc (suc (suc (suc (suc zero)))))) = "6"
digit (suc (suc (suc (suc (suc (suc (suc zero))))))) = "7"
digit (suc (suc (suc (suc (suc (suc (suc (suc zero)))))))) = "8"
digit _ = "9"

-- A number has no more digits than its value and one.
digits_of : ℕ → ℕ → String → String
unfolding digit
digits_of zero n acc = acc
digits_of (suc fuel) n acc =
    let acc' = text_append (digit (n % 10)) acc in
    elim (ltb n 10) [ true ↦ acc' | false ↦ digits_of fuel (n / 10) acc' ]

-- `Display` of an unsigned integer.
unfoldable pub to_decimal : ℕ → String
unfolding digits_of
to_decimal n = digits_of (suc n) n ""

-- `format!`: the parts one after the other.
abbrev pub concat : List String → String
concat [] = ""
concat (s ∷ rest) = text_append s (concat rest)
