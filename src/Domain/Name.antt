-- ===== src/Domain/Name.antt =====
-- Which texts are tool names.
use Prim.Native.String.{[], ◌∷◌}
use jitforge.Base.{◌∙◌}
use jitforge.Base.{◌≤◌, String, Char, code, len, ◌≡◌, refl, ap, sym, ◌⊎◌, ◌↔◌, true, arith}
use jitforge.Text.{is_ascii_lowercase, is_ascii_digit, all_chars}
use jitforge.Domain.{ToolName, ok, parse_tool_name, parse_name_chars, is_name_start, is_name_char}

-- A lowercase ASCII letter or an ASCII digit.
abbrev pub IsAlphanumeric : Char → Type 0
IsAlphanumeric c = ((97 ≤ code c) × (code c ≤ 122)) ⊎ ((48 ≤ code c) × (code c ≤ 57))

-- One of those, `-` (45) or `_` (95).
abbrev pub IsNameChar : Char → Type 0
IsNameChar c = IsAlphanumeric c ⊎ (code c ≡ 45) ⊎ (code c ≡ 95)

abbrev pub AllNameChars : String → Type 0
AllNameChars [] = Unit
AllNameChars (c ∷ s) = IsNameChar c × AllNameChars s

abbrev pub StartsAlphanumeric : String → Type 0
StartsAlphanumeric [] = ⊥
StartsAlphanumeric (c ∷ s) = IsAlphanumeric c × AllNameChars s

-- At most 64 bytes, not empty, a letter or digit first and name characters behind it.
pub record IsToolName (value : String) : Type 0 where
  pub short : len value ≤ 64
  pub chars : StartsAlphanumeric value

start_iff : (c : Char) → (is_name_start c ≡ true) ↔ IsAlphanumeric c
unfolding is_name_start is_ascii_lowercase is_ascii_digit
start_iff c = (λ h. ground arith, λ h. ground arith)

char_iff : (c : Char) → (is_name_char c ≡ true) ↔ IsNameChar c
unfolding is_name_char is_ascii_lowercase is_ascii_digit
char_iff c = (λ h. ground arith, λ h. ground arith)

all_sound : (s : String) → all_chars is_name_char s ≡ true → AllNameChars s
unfolding all_chars
all_sound [] h = tt
all_sound (c ∷ s) h = ((char_iff c).0 (ground arith), all_sound s (ground arith))

all_complete : (s : String) → AllNameChars s → all_chars is_name_char s ≡ true
unfolding all_chars
all_complete [] h = refl
all_complete (c ∷ s) h = ground (arith, (char_iff c).1 h.0, all_complete s h.1)

accepted :
    (value : String) (n : ToolName)
    → parse_tool_name value ≡ ok n
    → IsToolName value × (n.text ≡ value)
unfolding parse_tool_name parse_name_chars
accepted [] n h = absurd (ground arith)
accepted (c ∷ s) n h = (
  record {
    short = ground arith;
    chars = ((start_iff c).0 (ground arith), all_sound s (ground arith));
  },
  ground arith,
)

accepts : (value : String) → IsToolName value → parse_tool_name value ≡ ok (record { text = value })
unfolding parse_tool_name parse_name_chars
accepts [] v = absurd v.chars
accepts (c ∷ s) v = ground (arith, (start_iff c).1 v.chars.0, all_complete s v.chars.1, v.short)

-- `parse_tool_name` accepts exactly the texts of 1 to 64 bytes whose first character is a lowercase
-- ASCII letter or a digit and whose other characters are such, `-` or `_`; the name is the text.
pub parse_tool_name_iff :
    (value : String) (n : ToolName)
    → (parse_tool_name value ≡ ok n) ↔ (IsToolName value × (n.text ≡ value))
parse_tool_name_iff value n =
    (accepted value n, λ h. accepts value h.0 ∙ ap (λ t. ok (record { text = t })) (sym h.1))
