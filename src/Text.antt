-- ===== src/Text.antt =====
-- The parts of Rust's `str` that the program calls: `trim`, `is_empty`, the ASCII classes.
pub mod Trim
pub mod Replace
pub mod Truncate
pub mod Format
pub mod Bytes
pub mod Case
use Prim.Native.String.{[], ◌∷◌}
use jitforge.Base.{ℕ, String, Char, code, Bool, true, false, ◌&&◌, ◌||◌, leb, ◌==◌, if◌then◌else◌}

-- `char::is_whitespace`: the code points with the Unicode property White_Space.
unfoldable pub is_whitespace : Char → Bool
is_whitespace ch =
    let c = code ch in
    leb 9 c && leb c 13
    || c == 32
    || c == 0x85
    || c == 0xA0
    || c == 0x1680
    || leb 0x2000 c && leb c 0x200A
    || c == 0x2028
    || c == 0x2029
    || c == 0x202F
    || c == 0x205F
    || c == 0x3000

unfoldable pub is_ascii_lowercase : Char → Bool
is_ascii_lowercase ch = leb b'a' (code ch) && leb (code ch) b'z'

unfoldable pub is_ascii_digit : Char → Bool
is_ascii_digit ch = leb b'0' (code ch) && leb (code ch) b'9'

-- `str::is_empty`
abbrev pub is_empty_text : String → Bool
is_empty_text [] = true
is_empty_text (c ∷ s) = false

-- `chars().all(p)`
unfoldable pub all_chars : (Char → Bool) → String → Bool
all_chars p [] = true
all_chars p (c ∷ s) = p c && all_chars p s

unfoldable pub trim_start : String → String
trim_start [] = []
trim_start (c ∷ s) = let rest = trim_start s in if is_whitespace c then rest else c ∷ s

-- What is kept of `c` before a trimmed rest.
abbrev pub keep_end : Bool → Char → String → String
keep_end true c [] = []
keep_end true c (d ∷ s) = c ∷ d ∷ s
keep_end false c s = c ∷ s

unfoldable pub trim_end : String → String
trim_end [] = []
trim_end (c ∷ s) = keep_end (is_whitespace c) c (trim_end s)

-- `str::trim`
unfoldable pub trim : String → String
unfolding trim_start trim_end
trim s = trim_end (trim_start s)
