-- ===== src/Worker/Evaluate/Numbers.antt =====
-- `normalized_json_number` of apps/jit-worker/src/jobs.rs: a number's text as a sign, its digits with no
-- zeros around them, and a power of ten.
use Prim.Native.String.{[], ◌∷◌}
use jitforge.Base.{
  ℕ, suc, ◌+◌, ◌-◌, ◌*◌, String, len, Char, code, Bool, true, false, not, ◌&&◌, ◌||◌, Option, none,
  some, ℤ, pos, minus, plus, is_i64, same_int, ◌==◌, str_eq, if◌then◌else◌,
}
use jitforge.Text.{is_empty_text, is_ascii_digit, all_chars}

abbrev pub checked : ℤ → Option ℤ
checked z = if is_i64 z then some z else none

-- The text before the first character of a kind, and what follows it if there is one.
unfoldable pub split_once : (Char → Bool) → String → String × Option String
split_once p [] = ([], none)
split_once p (c ∷ s) =
    let rest = split_once p s in if p c then ([], some s) else (c ∷ rest.0, rest.1)

abbrev pub is_exponent_sign : Char → Bool
is_exponent_sign c = code c == 101 || code c == 69

unfoldable pub digits_value : ℕ → String → ℕ
digits_value n [] = n
digits_value n (c ∷ s) = digits_value (n * 10 + (code c - 48)) s

abbrev pub is_digits : String → Bool
is_digits s = not (is_empty_text s) && all_chars is_ascii_digit s

abbrev pub negate : ℕ → ℤ
negate n = minus (pos 0) n

-- `str::parse::<i64>`
unfoldable pub parse_i64 : String → Option ℤ
unfolding digits_value minus
parse_i64 [] = none
parse_i64 (c ∷ s) =
    if code c == 45
    then if is_digits s then checked (negate (digits_value 0 s)) else none
    else if code c == 43
    then if is_digits s then checked (pos (digits_value 0 s)) else none
    else if is_digits (c ∷ s)
    then checked (pos (digits_value 0 (c ∷ s)))
    else none

abbrev pub explicit_exponent : Option String → Option ℤ
explicit_exponent none = some (pos 0)
explicit_exponent (some s) = parse_i64 s

abbrev pub is_negative : String → Bool
is_negative [] = false
is_negative (c ∷ s) = code c == 45

abbrev pub strip_minus : String → String
strip_minus [] = []
strip_minus (c ∷ s) = if code c == 45 then s else c ∷ s

abbrev pub fraction_digits : Option String → ℕ
fraction_digits none = 0
fraction_digits (some s) = len s

unfoldable pub without_points : String → String
without_points [] = []
without_points (c ∷ s) = let rest = without_points s in if code c == 46 then rest else c ∷ rest

unfoldable pub drop_zeros : String → String
drop_zeros [] = []
drop_zeros (c ∷ s) = let rest = drop_zeros s in if code c == 48 then rest else c ∷ s

-- The digits with no zeros at their end, and how many were there.
unfoldable pub trim_zeros : String → String × ℕ
trim_zeros [] = ([], 0)
trim_zeros (c ∷ s) =
    let rest = trim_zeros s in
    if is_empty_text (rest.0) && code c == 48 then ([], suc (rest.1)) else (c ∷ rest.0, rest.1)

abbrev pub scaled : Bool → String × ℕ → Option ℤ → Option (Bool × String × ℤ)
scaled b (ds, n) none = none
scaled b (ds, n) (some e) = some (b, ds, e)

abbrev pub plus_checked : ℕ → Option ℤ → Option ℤ
plus_checked n none = none
plus_checked n (some e) = checked (plus e n)

abbrev pub minus_checked : ℕ → Option ℤ → Option ℤ
minus_checked n none = none
minus_checked n (some e) = checked (minus e n)

-- No digits are left of a zero.
abbrev pub digits_and_exponent : Bool → String → Option ℤ → Option (Bool × String × ℤ)
digits_and_exponent negative digits none = none
digits_and_exponent negative digits (some e) =
    if is_empty_text digits
    then some (false, "0", pos 0)
    else scaled negative (trim_zeros digits) (plus_checked (trim_zeros digits).1 (some e))

unfoldable pub normalized_json_number : String → Option (Bool × String × ℤ)
unfolding split_once parse_i64 without_points drop_zeros trim_zeros
normalized_json_number encoded =
    let mantissa : String = (split_once is_exponent_sign encoded).0 in
    let unsigned : String = strip_minus mantissa in
    digits_and_exponent (is_negative mantissa) (drop_zeros (without_points unsigned)) (
      minus_checked (fraction_digits ((split_once (λ c. code c == 46) unsigned).1))
        (explicit_exponent ((split_once is_exponent_sign encoded).1)))

unfoldable pub same_number : Option (Bool × String × ℤ) → Option (Bool × String × ℤ) → Bool
same_number none none = true
same_number (some (m, d, e)) (some (n, d', e')) =
    (if m then n else not n) && str_eq d d' && same_int e e'
same_number _ _ = false
