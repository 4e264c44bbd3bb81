-- ===== src/Protocol.antt =====
-- crates/jit-protocol/src/lib.rs: the types that the server, the worker and the registry share.
-- A `Value` is a JSON value of serde_json. A number is an unsigned integer or the text of another.
use jitforge.Base.{
  ℕ, String, Bool, true, false, Option, none, some, List, [], ◌∷◌, str_eq, if◌then◌else◌,
}
use jitforge.Domain.{ToolVersionStatus}
pub mod Codes

mutual
  pub data Value : Type 0 where
    null : Value
    boolean : Bool → Value
    unsigned : ℕ → Value
    number : String → Value
    string : String → Value
    array : Items → Value
    object : Fields → Value

  pub data Items : Type 0 where
    nil : Items
    cons : Value → Items → Items

  pub data Fields : Type 0 where
    end : Fields
    field : String → Value → Fields → Fields

-- `Value::get` on a key: the value of an object's field.
unfoldable pub get_field : String → Fields → Option Value
get_field key end = none
get_field key (field k v fs) = if str_eq k key then some v else get_field key fs

unfoldable pub get : String → Value → Option Value
unfolding get_field
get key (object fs) = get_field key fs
get key _ = none

-- `Value::as_str`
abbrev pub as_text : Value → Option String
as_text (string s) = some s
as_text _ = none

-- `values.iter().filter_map(Value::as_str)`
unfoldable pub texts : Items → List String
texts nil = []
texts (cons (string s) vs) = s ∷ texts vs
texts (cons v vs) = texts vs

pub data IoFormat : Type 0 where
  text json : IoFormat

unfoldable pub io_format_str : IoFormat → String
io_format_str text = "text"
io_format_str json = "json"

unfoldable pub parse_io_format : String → Option IoFormat
parse_io_format value =
    if str_eq value "text" then some text else if str_eq value "json" then some json else none

pub record ToolExample : Type 0 where
  pub input : String
  pub output : String

pub record RegistrationRequest : Type 0 where
  pub intent : String
  pub input_format : IoFormat
  pub output_format : IoFormat
  pub examples : List ToolExample
  pub input_samples : List String

pub data JobStatus : Type 0 where
  queued running awaiting_input ready rejected : JobStatus

unfoldable pub job_status_str : JobStatus → String
job_status_str queued = "queued"
job_status_str running = "running"
job_status_str awaiting_input = "awaiting_input"
job_status_str ready = "ready"
job_status_str rejected = "rejected"

unfoldable pub parse_job_status : String → Option JobStatus
parse_job_status value =
    if str_eq value "queued"
    then some queued
    else if str_eq value "running"
    then some running
    else if str_eq value "awaiting_input"
    then some awaiting_input
    else if str_eq value "ready"
    then some ready
    else if str_eq value "rejected"
    then some rejected
    else none

abbrev pub is_terminal : JobStatus → Bool
is_terminal ready = true
is_terminal rejected = true
is_terminal _ = false

pub data JobStage : Type 0 where
  queued contract synthesizing building validating repairing awaiting_input complete : JobStage

unfoldable pub job_stage_str : JobStage → String
job_stage_str JobStage.queued = "queued"
job_stage_str contract = "contract"
job_stage_str synthesizing = "synthesizing"
job_stage_str building = "building"
job_stage_str validating = "validating"
job_stage_str repairing = "repairing"
job_stage_str JobStage.awaiting_input = "awaiting_input"
job_stage_str complete = "complete"

unfoldable pub parse_job_stage : String → Option JobStage
parse_job_stage value =
    if str_eq value "queued"
    then some JobStage.queued
    else if str_eq value "contract"
    then some contract
    else if str_eq value "synthesizing"
    then some synthesizing
    else if str_eq value "building"
    then some building
    else if str_eq value "validating"
    then some validating
    else if str_eq value "repairing"
    then some repairing
    else if str_eq value "awaiting_input"
    then some JobStage.awaiting_input
    else if str_eq value "complete"
    then some complete
    else none

pub record RegistrationResponse : Type 0 where
  pub tool : String
  pub revision : ℕ
  pub status : ToolVersionStatus
  pub job_id : String

pub record RevokeResponse : Type 0 where
  pub tool : String
  pub revision : ℕ
  pub status : ToolVersionStatus
  pub stable_revision : Option ℕ

pub record JobError : Type 0 where
  pub code : String
  pub message : String
  pub details : Option Value

pub data JobInputKind : Type 0 where
  clarification source_approval example_correction : JobInputKind

unfoldable pub job_input_kind_str : JobInputKind → String
job_input_kind_str clarification = "clarification"
job_input_kind_str source_approval = "source_approval"
job_input_kind_str example_correction = "example_correction"

unfoldable pub parse_job_input_kind : String → Option JobInputKind
parse_job_input_kind value =
    if str_eq value "clarification"
    then some clarification
    else if str_eq value "source_approval"
    then some source_approval
    else if str_eq value "example_correction"
    then some example_correction
    else none

pub record JobInputChoice : Type 0 where
  pub value : String
  pub label : String
  pub description : Option String

pub record PendingJobInput : Type 0 where
  pub id : String
  pub kind : JobInputKind
  pub prompt : String
  pub choices : List JobInputChoice
  pub context : Value
  pub created_at : String

pub data JobInputAnswer : Type 0 where
  text : String → JobInputAnswer
  approve : JobInputAnswer
  reject : Option String → JobInputAnswer

pub record JobAnswerRequest : Type 0 where
  pub input_id : String
  pub answer : JobInputAnswer

pub record JobResponse : Type 0 where
  pub job_id : String
  pub tool : String
  pub revision : ℕ
  pub status : JobStatus
  pub stage : JobStage
  pub version_status : ToolVersionStatus
  pub error : Option JobError
  pub pending_input : Option PendingJobInput
  pub created_at : String
  pub updated_at : String

pub data HttpMethod : Type 0 where
  get_method : HttpMethod

pub record HttpCapability : Type 0 where
  pub scheme : String
  pub host : String
  pub port : ℕ  -- u16
  pub method : HttpMethod
  pub path_prefix : String
  pub query_keys : List String
  pub purpose : String
