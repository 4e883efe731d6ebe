-- ===== src/Prelude/Text.antt =====
-- Text. A std::string that the program compares, copies or joins is a native String; where the
-- program walks or cuts its bytes it is the list of its UTF-8 bytes.
use Prim.Native.Nat.{ℕ, zero, suc, ◌+◌, ◌/◌, ◌%◌}
use Prim.Native.Char.{code}
use Prim.Native.String.{String, ◌++◌ as append}
use text.Mathlib.Text.{starts_with}
use mathlib.Core.Bool.{Bool, true, false, not, ◌&&◌, ◌||◌}
use mathlib.Core.List.{List, [], ◌∷◌, ◌++◌}
use holonightd.Prelude.Tests.{ltb, nat_eqb, if◌then◌else◌}

utf8_char : ℕ → List ℕ
utf8_char c =
    if ltb c 128
    then c ∷ []
    else if ltb c 2048
    then (192 + c / 64) ∷ (128 + c % 64) ∷ []
    else if ltb c 65536
    then (224 + c / 4096) ∷ (128 + c / 64 % 64) ∷ (128 + c % 64) ∷ []
    else (240 + c / 262144) ∷ (128 + c / 4096 % 64) ∷ (128 + c / 64 % 64) ∷ (128 + c % 64) ∷ []

unfoldable pub utf8 : String → List ℕ
unfolding utf8_char
utf8 String.[] = []
utf8 (String.◌∷◌ c s) = utf8_char (code c) ++ utf8 s

abbrev pub is_blank : String → Bool
is_blank String.[] = true
is_blank (String.◌∷◌ c s) = false

pub data ℤ : Type 0 where
  pos : ℕ → ℤ
  negsuc : ℕ → ℤ  -- -(n + 1)

digit_text : ℕ → String
digit_text d =
    if nat_eqb d 0
    then "0"
    else if nat_eqb d 1
    then "1"
    else if nat_eqb d 2
    then "2"
    else if nat_eqb d 3
    then "3"
    else if nat_eqb d 4
    then "4"
    else if nat_eqb d 5
    then "5"
    else if nat_eqb d 6
    then "6"
    else if nat_eqb d 7
    then "7"
    else if nat_eqb d 8
    then "8"
    else if nat_eqb d 9
    then "9"
    else if nat_eqb d 10
    then "a"
    else if nat_eqb d 11
    then "b"
    else if nat_eqb d 12
    then "c"
    else if nat_eqb d 13
    then "d"
    else if nat_eqb d 14
    then "e"
    else "f"

-- A number in a base up to 16, most significant digit first, with at most `fuel` digits.
radix_text : ℕ → ℕ → ℕ → String → String
unfolding digit_text
radix_text base zero n tail = tail
radix_text base (suc fuel) n tail =
    let longer = radix_text base fuel (n / base) (append (digit_text (n % base)) tail) in
    if ltb n base then append (digit_text n) tail else longer

-- std::to_string of an unsigned number of up to 64 bits, which has at most 20 digits.
unfoldable pub decimal : ℕ → String
unfolding radix_text
decimal n = radix_text 10 20 n ""

-- The same in base 16, by std::hex: at most 16 digits.
unfoldable pub hexadecimal : ℕ → String
unfolding radix_text
hexadecimal n = radix_text 16 16 n ""

unfoldable pub decimal_ℤ : ℤ → String
unfolding decimal
decimal_ℤ (pos n) = decimal n
decimal_ℤ (negsuc n) = append "-" (decimal (n + 1))

-- text.contains(part)
unfoldable pub contains : String → String → Bool
contains String.[] part = is_blank part
contains (String.◌∷◌ c s) part =
    let later = contains s part in if starts_with (String.◌∷◌ c s) part then true else later

abbrev is_space : ℕ → Bool
is_space c = nat_eqb c 32 || (not (ltb c 9) && ltb c 14)

-- A word so far, and then the words that follow.
words_from : String → String → List String
words_from word String.[] = if is_blank word then [] else word ∷ []
words_from word (String.◌∷◌ c s) =
    let rest = words_from "" s in
    let longer = words_from (append word (String.◌∷◌ c String.[])) s in
    if is_space (code c) then (if is_blank word then rest else word ∷ rest) else longer

-- What repeated `stream >> word` reads.
unfoldable pub words : String → List String
unfolding words_from
words s = words_from "" s

-- text.substr(n), for n at most its length
unfoldable pub drop : ℕ → String → String
drop zero s = s
drop (suc n) String.[] = String.[]
drop (suc n) (String.◌∷◌ c s) = drop n s
