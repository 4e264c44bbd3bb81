-- ===== src/Domain/Intent.antt =====
-- What `parse_tool_intent` accepts.
use Prim.Native.String.{[], ◌∷◌}
use jitforge.Base.{◌≤◌, ◌≢◌, String, len, ◌≡◌, ap, ◌∙◌, arith}
use jitforge.Text.{trim}
use jitforge.Text.Trim.{trim-trim}
use jitforge.Domain.{ToolIntent, ok, parse_tool_intent, check_intent}

text-check_intent :
    (value : String) (i : ToolIntent)
    → check_intent value ≡ ok i
    → (i.text ≡ value) × (value ≢ []) × (len value ≤ 4096)
unfolding check_intent
text-check_intent [] i h = absurd (ground arith)
text-check_intent (c ∷ s) i h = (ground arith, λ e. cc, ground arith)

-- An accepted intent is its text trimmed, has 1 to 4096 bytes, and is accepted again unchanged.
pub parse_tool_intent_stable :
    (value : String) (i : ToolIntent)
    → parse_tool_intent value ≡ ok i
    → (i.text ≡ trim value)
      × (i.text ≢ [])
      × (len i.text ≤ 4096)
      × (parse_tool_intent i.text ≡ ok i)
unfolding parse_tool_intent
parse_tool_intent_stable value i h =
    let (same, some_bytes, short) = text-check_intent (trim value) i h in
    (same, rw same some_bytes, rw same short, ap check_intent (ap trim same ∙ trim-trim value) ∙ h)
