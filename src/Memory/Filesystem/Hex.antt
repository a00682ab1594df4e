-- ===== src/Memory/Filesystem/Hex.antt =====
-- `hex_encode` of fmemory/src/backends/filesystem.rs, on the bytes of a text.
use Prim.Native.Nat.{◌<◌, ◌/◌, ◌%◌}
use Prim.Native.Char.{Char, char, code, IsScalar}
use text.Mathlib.TextEquality.{Char-path}
use fiddlesticks.Base.{
  ℕ, ◌+◌, ◌-◌, ◌*◌, String, List, [], ◌∷◌, ◌++◌, ◌≡◌, refl, ap, ◌∙◌, sym, Option, none, some, Bool,
  true, eqb, leb, if◌then◌else◌, arith, All, all, All-append, zero, suc, eqb_iff, ltb,
}

-- The bytes of a character in UTF-8.
utf8 : ℕ → List ℕ
utf8 c =
    if ltb c 0x80
    then c ∷ []
    else if ltb c 0x800
    then (0xc0 + c / 64) ∷ (0x80 + c % 64) ∷ []
    else if ltb c 0x10000
    then (0xe0 + c / 4096) ∷ (0x80 + c / 64 % 64) ∷ (0x80 + c % 64) ∷ []
    else ((0xf0 + c / 262144)
        ∷ (0x80 + c / 4096 % 64)
        ∷ (0x80 + c / 64 % 64)
        ∷ (0x80 + c % 64)
        ∷ [])

-- `as_bytes`
unfoldable pub as_bytes : String → List ℕ
unfolding utf8
as_bytes String.[] = []
as_bytes (String.◌∷◌ c s) = utf8 (code c) ++ as_bytes s

nibble_to_hex : ℕ → Char
nibble_to_hex n =
    if eqb n 0
    then "0"
    else if eqb n 1
    then "1"
    else if eqb n 2
    then "2"
    else if eqb n 3
    then "3"
    else if eqb n 4
    then "4"
    else if eqb n 5
    then "5"
    else if eqb n 6
    then "6"
    else if eqb n 7
    then "7"
    else if eqb n 8
    then "8"
    else if eqb n 9
    then "9"
    else if eqb n 10
    then "a"
    else if eqb n 11
    then "b"
    else if eqb n 12
    then "c"
    else if eqb n 13
    then "d"
    else if eqb n 14
    then "e"
    else if eqb n 15
    then "f"
    else "0"

-- `byte >> 4` and `byte & 0x0f`
unfoldable pub hex_encode : List ℕ → String
unfolding nibble_to_hex
hex_encode [] = ""
hex_encode (b ∷ bytes) =
    String.◌∷◌ (nibble_to_hex (b / 16)) (String.◌∷◌ (nibble_to_hex (b % 16)) (hex_encode bytes))

scalar_bound : (n : ℕ) → IsScalar n → n < 0x110000
scalar_bound n h = ground arith

-- The character that a list of bytes begins with, and the rest.
two : ℕ → List ℕ → Option (ℕ × List ℕ)
two a [] = none
two a (b ∷ xs) = some ((a - 0xc0) * 64 + (b - 0x80), xs)

three : ℕ → List ℕ → Option (ℕ × List ℕ)
three a [] = none
three a (b ∷ []) = none
three a (b ∷ c ∷ xs) = some ((a - 0xe0) * 4096 + (b - 0x80) * 64 + (c - 0x80), xs)

four : ℕ → List ℕ → Option (ℕ × List ℕ)
four a [] = none
four a (b ∷ []) = none
four a (b ∷ c ∷ []) = none
four a (b ∷ c ∷ d ∷ xs) =
    some ((a - 0xf0) * 262144 + (b - 0x80) * 4096 + (c - 0x80) * 64 + (d - 0x80), xs)

first_char : List ℕ → Option (ℕ × List ℕ)
unfolding two three four
first_char [] = none
first_char (a ∷ xs) =
    if ltb a 0x80
    then some (a, xs)
    else if ltb a 0xe0
    then two a xs
    else if ltb a 0xf0
    then three a xs
    else four a xs

first_char-utf8 : (c : ℕ) (xs : List ℕ) → c < 0x110000 → first_char (utf8 c ++ xs) ≡ some (c, xs)
unfolding first_char utf8
first_char-utf8 c xs h = ground arith

first_char-nil : first_char [] ≡ none
unfolding first_char
first_char-nil = refl

utf8_bytes : (c : ℕ) → c < 0x110000 → All (λ b. b < 256) (utf8 c)
unfolding utf8
utf8_bytes c h = ground arith

hex_value : Char → ℕ
hex_value c = if leb (code c) 57 then code c - 48 else code c - 87

-- The numbers from zero up to a bound, which is not among them.
below : ℕ → List ℕ
below zero = []
below (suc bound) = bound ∷ below bound

below-all :
    (test : ℕ → Bool) (bound k : ℕ) → k < bound → all test (below bound) ≡ true → test k ≡ true
unfolding below
below-all test zero k small h = absurd (omega arith)
below-all test (suc bound) k small h = ground (arith, below-all test bound k)

each_digit : all (λ n. eqb (hex_value (nibble_to_hex n)) n) (below 16) ≡ true
unfolding below hex_value nibble_to_hex
each_digit = refl

hex_value-nibble : (n : ℕ) → n < 16 → hex_value (nibble_to_hex n) ≡ n
hex_value-nibble n h = (eqb_iff _ n).0 (below-all _ 16 n h each_digit)

-- The bytes that hexadecimal digits stand for.
hex_decode : String → List ℕ
hex_decode String.[] = []
hex_decode (String.◌∷◌ c String.[]) = []
hex_decode (String.◌∷◌ c (String.◌∷◌ d s)) = (hex_value c * 16 + hex_value d) ∷ hex_decode s

hex_decode-encode :
    (bytes : List ℕ) → All (λ b. b < 256) bytes → hex_decode (hex_encode bytes) ≡ bytes
unfolding hex_decode hex_encode
hex_decode-encode [] h = refl
hex_decode-encode (b ∷ bytes) (small, rest) =
    let high = hex_value-nibble (b / 16) (omega arith) in
    let low = hex_value-nibble (b % 16) (omega arith) in
    rw (high, low, hex_decode-encode bytes rest) (ap (λ n. n ∷ bytes) (omega arith))

code_bound : (c : Char) → code c < 0x110000
code_bound (char n h) = scalar_bound n h

as_bytes_small : (s : String) → All (λ b. b < 256) (as_bytes s)
unfolding as_bytes
as_bytes_small String.[] = tt
as_bytes_small (String.◌∷◌ c s) =
    All-append _ (utf8 (code c)) (as_bytes s) (utf8_bytes (code c) (code_bound c))
      (as_bytes_small s)

-- Two texts with the same bytes are the same.
as_bytes_injective : (s t : String) → as_bytes s ≡ as_bytes t → s ≡ t
unfolding as_bytes
as_bytes_injective String.[] String.[] h = refl
as_bytes_injective String.[] (String.◌∷◌ d t) h =
    let some_char = first_char-utf8 (code d) (as_bytes t) (code_bound d) in
    let both = sym first_char-nil ∙ ap first_char h ∙ some_char in cc
as_bytes_injective (String.◌∷◌ c s) String.[] h =
    let some_char = first_char-utf8 (code c) (as_bytes s) (code_bound c) in
    let both = sym some_char ∙ ap first_char h ∙ first_char-nil in cc
as_bytes_injective (String.◌∷◌ c s) (String.◌∷◌ d t) h =
    let one = first_char-utf8 (code c) (as_bytes s) (code_bound c) in
    let other = first_char-utf8 (code d) (as_bytes t) (code_bound d) in
    let same = sym one ∙ ap first_char h ∙ other in
    let heads : code c ≡ code d = ground arith in
    let tails : as_bytes s ≡ as_bytes t = ground arith in
    λ i. String.◌∷◌ (Char-path c d heads i) (as_bytes_injective s t tails i)

-- Two texts with the same bytes in hexadecimal are the same.
pub hex_encode_injective :
    (s t : String) → hex_encode (as_bytes s) ≡ hex_encode (as_bytes t) → s ≡ t
hex_encode_injective s t h = as_bytes_injective s t (
    sym (hex_decode-encode (as_bytes s) (as_bytes_small s))
    ∙ ap hex_decode h
    ∙ hex_decode-encode (as_bytes t) (as_bytes_small t))
