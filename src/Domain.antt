-- ===== src/Domain.antt =====
-- crates/jit-domain/src/lib.rs: tool names, intents and the life cycle of a tool version.
use Prim.Native.String.{[], ◌∷◌}
use jitforge.Base.{
  ℕ, ◌*◌, String, Char, code, len, Bool, true, false, not, ◌&&◌, ◌||◌, leb, ltb, ◌==◌,
  if◌then◌else◌, str_eq,
}
use jitforge.Text.{
  is_ascii_lowercase, is_ascii_digit, is_empty_text, all_chars, trim, is_whitespace,
}
pub mod Name
pub mod Intent
pub mod Status

pub data DomainError : Type 0 where
  invalid_tool_name : DomainError
  invalid_intent : DomainError
  invalid_version_status : String → DomainError

-- `Result<T, DomainError>`
pub data Parsed {ℓ} (A : Type ℓ) : Type ℓ where
  ok : A → Parsed A
  err : DomainError → Parsed A

abbrev pub max_tool_name_len : ℕ
max_tool_name_len = 64

abbrev pub max_description_len : ℕ
max_description_len = 4096

pub record ToolName : Type 0 where
  pub text : String

-- The test on the first character.
unfoldable pub is_name_start : Char → Bool
is_name_start c = is_ascii_lowercase c || is_ascii_digit c

-- The test on the characters after the first.
unfoldable pub is_name_char : Char → Bool
is_name_char c = is_ascii_lowercase c || is_ascii_digit c || code c == b'-' || code c == b'_'

-- The tests after that on the length, on the iterator over `value`.
unfoldable pub parse_name_chars : String → String → Parsed ToolName
unfolding is_name_start is_name_char
parse_name_chars value [] = err invalid_tool_name
parse_name_chars value (first ∷ rest) =
    if not (is_name_start first)
    then err invalid_tool_name
    else if not (all_chars is_name_char rest)
    then err invalid_tool_name
    else ok (record { text = value })

-- `ToolName::from_str`
unfoldable pub parse_tool_name : String → Parsed ToolName
unfolding parse_name_chars
parse_tool_name value =
    if is_empty_text value || ltb max_tool_name_len (len value)
    then err invalid_tool_name
    else parse_name_chars value value

pub record ToolIntent : Type 0 where
  pub text : String

-- The tests on the trimmed text.
unfoldable pub check_intent : String → Parsed ToolIntent
check_intent value =
    if is_empty_text value || ltb max_description_len (len value)
    then err invalid_intent
    else ok (record { text = value })

-- `ToolIntent::from_str`
unfoldable pub parse_tool_intent : String → Parsed ToolIntent
unfolding check_intent
parse_tool_intent value = check_intent (trim value)

pub data ToolVersionStatus : Type 0 where
  draft contract_ready synthesizing building validating ready rejected deprecated revoked :
      ToolVersionStatus

unfoldable pub as_str : ToolVersionStatus → String
as_str draft = "draft"
as_str contract_ready = "contract_ready"
as_str synthesizing = "synthesizing"
as_str building = "building"
as_str validating = "validating"
as_str ready = "ready"
as_str rejected = "rejected"
as_str deprecated = "deprecated"
as_str revoked = "revoked"

unfoldable pub can_transition_to : ToolVersionStatus → ToolVersionStatus → Bool
can_transition_to draft contract_ready = true
can_transition_to contract_ready synthesizing = true
can_transition_to synthesizing building = true
can_transition_to synthesizing rejected = true
can_transition_to building validating = true
can_transition_to building rejected = true
can_transition_to validating ready = true
can_transition_to validating rejected = true
can_transition_to ready deprecated = true
can_transition_to ready revoked = true
can_transition_to deprecated revoked = true
can_transition_to _ _ = false

-- `ToolVersionStatus::from_str`
unfoldable pub parse_status : String → Parsed ToolVersionStatus
parse_status value =
    if str_eq value "draft"
    then ok draft
    else if str_eq value "contract_ready"
    then ok contract_ready
    else if str_eq value "synthesizing"
    then ok synthesizing
    else if str_eq value "building"
    then ok building
    else if str_eq value "validating"
    then ok validating
    else if str_eq value "ready"
    then ok ready
    else if str_eq value "rejected"
    then ok rejected
    else if str_eq value "deprecated"
    then ok deprecated
    else if str_eq value "revoked"
    then ok revoked
    else err (invalid_version_status value)
