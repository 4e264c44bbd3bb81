-- ===== src/Text/Bytes.antt =====
-- `str::as_bytes`, and the sorting of texts, which Rust compares by their bytes.
use Prim.Native.Nat.{Ordering}
use Prim.Native.String.{compare}
use jitforge.Base.{
  ℕ, ◌+◌, ◌/◌, ◌%◌, String, code, Bool, true, false, List, [], ◌∷◌, ◌++◌, ltb, str_eq,
  if◌then◌else◌,
}

-- The UTF-8 bytes of a code point.
unfoldable pub char_bytes : ℕ → List ℕ
char_bytes c =
    if ltb c 0x80
    then c ∷ []
    else if ltb c 0x800
    then (0xC0 + c / 64) ∷ (0x80 + c % 64) ∷ []
    else if ltb c 0x10000
    then (0xE0 + c / 4096) ∷ (0x80 + c / 64 % 64) ∷ (0x80 + c % 64) ∷ []
    else (0xF0 + c / 262144) ∷ (0x80 + c / 4096 % 64) ∷ (0x80 + c / 64 % 64) ∷ (0x80 + c % 64) ∷ []

unfoldable pub utf8_bytes : String → List ℕ
unfolding char_bytes
utf8_bytes String.[] = []
utf8_bytes (String.◌∷◌ c s) = char_bytes (code c) ++ utf8_bytes s

abbrev pub is_before : Ordering → Bool
is_before Ordering.lt = true
is_before _ = false

-- Whether a text comes before another.
abbrev pub text_before : String → String → Bool
text_before s t = is_before (compare s t)

unfoldable pub insert_text : String → List String → List String
insert_text s [] = s ∷ []
insert_text s (t ∷ ts) =
    let rest = insert_text s ts in if text_before t s then t ∷ rest else s ∷ t ∷ ts

-- `Vec::sort`
unfoldable pub sort_texts : List String → List String
unfolding insert_text
sort_texts [] = []
sort_texts (s ∷ ss) = insert_text s (sort_texts ss)

abbrev pub cons_new : String → List String → List String
cons_new s [] = s ∷ []
cons_new s (t ∷ ts) = if str_eq s t then t ∷ ts else s ∷ t ∷ ts

-- `Vec::dedup`
unfoldable pub dedup_texts : List String → List String
dedup_texts [] = []
dedup_texts (s ∷ ss) = cons_new s (dedup_texts ss)
