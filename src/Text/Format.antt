-- ===== src/Text/Format.antt =====
-- `format!` of numbers, and of texts put together; `str::contains` and the like.
use Prim.Native.String.{[], ◌∷◌, ◌++◌ as text_append}
use text.Mathlib.Text.{starts_with as native_starts_with}
use jitforge.Base.{
  ℕ, zero, suc, ◌/◌, ◌%◌, String, code, Bool, false, ◌||◌, ◌==◌, ltb, ℤ, pos, negsuc, if◌then◌else◌,
}

infixr 60 ◌+++◌
abbrev pub ◌+++◌ : String → String → String
s +++ t = text_append s t

abbrev pub digit : ℕ → String
digit d =
    if d == 0
    then "0"
    else if d == 1
    then "1"
    else if d == 2
    then "2"
    else if d == 3
    then "3"
    else if d == 4
    then "4"
    else if d == 5
    then "5"
    else if d == 6
    then "6"
    else if d == 7
    then "7"
    else if d == 8
    then "8"
    else "9"

-- The decimal digits of `n`, at most `fuel` of them, in front of `rest`.
unfoldable digits : ℕ → ℕ → String → String
digits zero n rest = rest
digits (suc fuel) n rest =
    let more = digits fuel (n / 10) (digit (n % 10) +++ rest) in
    if ltb n 10 then digit n +++ rest else more

-- `n.to_string()`
unfoldable pub decimal : ℕ → String
unfolding digits
decimal n = digits (suc n) n ""

unfoldable pub decimal_int : ℤ → String
unfolding decimal
decimal_int (pos n) = decimal n
decimal_int (negsuc n) = "-" +++ decimal (suc n)

-- `str::contains` of one character, by its code.
unfoldable pub contains_code : ℕ → String → Bool
contains_code n [] = false
contains_code n (c ∷ s) = code c == n || contains_code n s

-- `str::starts_with`
abbrev pub starts_with : String → String → Bool
starts_with s t = native_starts_with s t

-- `str::contains` of a text.
unfoldable pub contains_text : String → String → Bool
contains_text [] t = starts_with [] t
contains_text (c ∷ s) t = starts_with (c ∷ s) t || contains_text s t
