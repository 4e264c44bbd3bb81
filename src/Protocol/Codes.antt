-- ===== src/Protocol/Codes.antt =====
-- The texts by which the enumerations stand in the database and in requests.
use jitforge.Base.{String, some, ◌≡◌, ◌↔◌, refl, sym, ◌∙◌, ap, arith, eq_iff}
use jitforge.Protocol.{
  IoFormat, io_format_str, parse_io_format, JobStatus, job_status_str, parse_job_status, JobStage,
  job_stage_str, parse_job_stage, JobInputKind, clarification, job_input_kind_str,
  parse_job_input_kind,
}

job_status_str_of_parse :
    (value : String) (s : JobStatus) → parse_job_status value ≡ some s → job_status_str s ≡ value
unfolding parse_job_status job_status_str
job_status_str_of_parse value s h = ground (
  arith,
  eq_iff value "queued",
  eq_iff value "running",
  eq_iff value "awaiting_input",
  eq_iff value "ready",
  eq_iff value "rejected",
)

parse_job_status-str : (s : JobStatus) → parse_job_status (job_status_str s) ≡ some s
unfolding parse_job_status job_status_str
parse_job_status-str JobStatus.queued = refl
parse_job_status-str _ = refl

-- A text is read as a job status exactly when it is the text of that job status.
pub parse_job_status_iff :
    (value : String) (s : JobStatus)
    → (parse_job_status value ≡ some s) ↔ (value ≡ job_status_str s)
parse_job_status_iff value s = (
  λ h. sym (job_status_str_of_parse value s h),
  λ h. ap parse_job_status h ∙ parse_job_status-str s,
)

job_stage_str_of_parse :
    (value : String) (s : JobStage) → parse_job_stage value ≡ some s → job_stage_str s ≡ value
unfolding parse_job_stage job_stage_str
job_stage_str_of_parse value s h = ground (
  arith,
  eq_iff value "queued",
  eq_iff value "contract",
  eq_iff value "synthesizing",
  eq_iff value "building",
  eq_iff value "validating",
  eq_iff value "repairing",
  eq_iff value "awaiting_input",
  eq_iff value "complete",
)

parse_job_stage-str : (s : JobStage) → parse_job_stage (job_stage_str s) ≡ some s
unfolding parse_job_stage job_stage_str
parse_job_stage-str JobStage.queued = refl
parse_job_stage-str _ = refl

-- A text is read as a job stage exactly when it is the text of that job stage.
pub parse_job_stage_iff :
    (value : String) (s : JobStage) → (parse_job_stage value ≡ some s) ↔ (value ≡ job_stage_str s)
parse_job_stage_iff value s =
    (λ h. sym (job_stage_str_of_parse value s h), λ h. ap parse_job_stage h ∙ parse_job_stage-str s)

job_input_kind_str_of_parse :
    (value : String) (s : JobInputKind)
    → parse_job_input_kind value ≡ some s
    → job_input_kind_str s ≡ value
unfolding parse_job_input_kind job_input_kind_str
job_input_kind_str_of_parse value s h = ground (
  arith,
  eq_iff value "clarification",
  eq_iff value "source_approval",
  eq_iff value "example_correction",
)

parse_job_input_kind-str : (s : JobInputKind) → parse_job_input_kind (job_input_kind_str s) ≡ some s
unfolding parse_job_input_kind job_input_kind_str
parse_job_input_kind-str clarification = refl
parse_job_input_kind-str _ = refl

-- A text is read as a kind of job input exactly when it is the text of that kind of job input.
pub parse_job_input_kind_iff :
    (value : String) (s : JobInputKind)
    → (parse_job_input_kind value ≡ some s) ↔ (value ≡ job_input_kind_str s)
parse_job_input_kind_iff value s = (
  λ h. sym (job_input_kind_str_of_parse value s h),
  λ h. ap parse_job_input_kind h ∙ parse_job_input_kind-str s,
)

io_format_str_of_parse :
    (value : String) (s : IoFormat) → parse_io_format value ≡ some s → io_format_str s ≡ value
unfolding parse_io_format io_format_str
io_format_str_of_parse value s h = ground (arith, eq_iff value "text", eq_iff value "json")

parse_io_format-str : (s : IoFormat) → parse_io_format (io_format_str s) ≡ some s
unfolding parse_io_format io_format_str
parse_io_format-str IoFormat.json = refl
parse_io_format-str _ = refl

-- A text is read as an I/O format exactly when it is the text of that I/O format.
pub parse_io_format_iff :
    (value : String) (s : IoFormat) → (parse_io_format value ≡ some s) ↔ (value ≡ io_format_str s)
parse_io_format_iff value s =
    (λ h. sym (io_format_str_of_parse value s h), λ h. ap parse_io_format h ∙ parse_io_format-str s)
