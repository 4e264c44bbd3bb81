-- ===== src/Domain/Status.antt =====
-- The life cycle of a tool version: its text codes and its declared transitions.
use jitforge.Base.{◌↔◌, sym, ap, ◌∙◌, ℕ, ◌≤◌, ◌<◌, String, ◌≡◌, refl, true, arith, eq_iff}
use jitforge.Domain.{
  ToolVersionStatus, draft, contract_ready, synthesizing, building, validating, ready, rejected,
  deprecated, revoked, ok, as_str, parse_status, can_transition_to,
}

-- Reading back the text of a status gives the status.
parse_status-as_str : (s : ToolVersionStatus) → parse_status (as_str s) ≡ ok s
unfolding parse_status as_str
parse_status-as_str draft = refl
parse_status-as_str _ = refl

-- A text that is read as a status is the text of that status.
as_str-of-parse_status :
    (value : String) (s : ToolVersionStatus) → parse_status value ≡ ok s → as_str s ≡ value
unfolding parse_status as_str
as_str-of-parse_status value s h = ground (
  arith,
  eq_iff value "draft",
  eq_iff value "contract_ready",
  eq_iff value "synthesizing",
  eq_iff value "building",
  eq_iff value "validating",
  eq_iff value "ready",
  eq_iff value "rejected",
  eq_iff value "deprecated",
  eq_iff value "revoked",
)

-- A text is read as a version status exactly when it is the text of that status.
pub parse_status_iff :
    (value : String) (s : ToolVersionStatus) → (parse_status value ≡ ok s) ↔ (value ≡ as_str s)
parse_status_iff value s =
    (λ h. sym (as_str-of-parse_status value s h), λ h. ap parse_status h ∙ parse_status-as_str s)

-- The paths of the declared transitions.
pub data Reaches (s : ToolVersionStatus) : ToolVersionStatus → Type 0 where
  here : Reaches s s
  next : {t u : ToolVersionStatus} → Reaches s t → can_transition_to t u ≡ true → Reaches s u

-- How far a version has come.
abbrev pub rank : ToolVersionStatus → ℕ
rank draft = 0
rank contract_ready = 1
rank synthesizing = 2
rank building = 3
rank validating = 4
rank ready = 5
rank deprecated = 6
rank revoked = 7
rank rejected = 7

pub rank-lt : (s t : ToolVersionStatus) → can_transition_to s t ≡ true → rank s < rank t
unfolding can_transition_to
rank-lt s t h = ground arith

pub rank-le : {s t : ToolVersionStatus} → Reaches s t → rank s ≤ rank t
rank-le here = omega arith
rank-le (next {t = t} {u = u} r h) = omega (arith, rank-le r, rank-lt t u h)

-- The transitions that `can_transition_to` declares have no cycle: no chain of them leads from the end
-- of one back to its start.
pub transitions_acyclic : {s t : ToolVersionStatus} → can_transition_to s t ≡ true → ¬ (Reaches t s)
transitions_acyclic {s} {t} h r = absurd (omega (arith, rank-lt s t h, rank-le r))
