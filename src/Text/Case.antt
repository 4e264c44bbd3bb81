-- ===== src/Text/Case.antt =====
-- ASCII letter case, and the dots at the end of a host name.
use Prim.Native.Nat.{zero, suc}
use Prim.Native.Char.{nul}
use jitforge.Base.{
  ℕ, ◌-◌, String, Char, code, Bool, true, false, ◌&&◌, leb, ◌==◌, str_eq, if◌then◌else◌,
}

unfoldable pub char_at : ℕ → String → Char
char_at n String.[] = nul
char_at zero (String.◌∷◌ c s) = c
char_at (suc n) (String.◌∷◌ c s) = char_at n s

abbrev pub is_ascii_uppercase : Char → Bool
is_ascii_uppercase c = leb 65 (code c) && leb (code c) 90

unfoldable pub to_lower_char : Char → Char
unfolding char_at
to_lower_char c =
    if is_ascii_uppercase c then char_at (code c - 65) "abcdefghijklmnopqrstuvwxyz" else c

-- `str::to_ascii_lowercase`
unfoldable pub to_lower : String → String
unfolding to_lower_char
to_lower String.[] = String.[]
to_lower (String.◌∷◌ c s) = String.◌∷◌ (to_lower_char c) (to_lower s)

-- `str::eq_ignore_ascii_case`
unfoldable pub eq_ignore_case : String → String → Bool
unfolding to_lower
eq_ignore_case s t = str_eq (to_lower s) (to_lower t)

abbrev pub keep_before_dots : Char → String → String
keep_before_dots c String.[] = if code c == 46 then String.[] else String.◌∷◌ c String.[]
keep_before_dots c (String.◌∷◌ d s) = String.◌∷◌ c (String.◌∷◌ d s)

-- `trim_end_matches('.')`
unfoldable pub trim_end_dots : String → String
trim_end_dots String.[] = String.[]
trim_end_dots (String.◌∷◌ c s) = keep_before_dots c (trim_end_dots s)

-- `chars().any(p)`
unfoldable pub any_char : (Char → Bool) → String → Bool
any_char p String.[] = false
any_char p (String.◌∷◌ c s) = let rest = any_char p s in if p c then true else rest
