-- ===== src/Text/Truncate.antt =====
-- Texts cut to a number of bytes: `truncate_text_to_bytes` of apps/jit-worker/src/jobs.rs and `truncate` of
-- apps/jit-worker/src/web_access.rs.
use Prim.Native.String.{slice, [], ◌∷◌}
use Prim.Native.Char.{len_utf8}
use text.Mathlib.Text.{is_char_boundary}
use jitforge.Base.{ℕ, zero, suc, ◌+◌, String, len, leb, if◌then◌else◌}

-- The last boundary between characters at or before a position.
unfoldable pub floor_boundary : String → ℕ → ℕ
floor_boundary value zero = zero
floor_boundary value (suc n) =
    let rest = floor_boundary value n in if is_char_boundary value (suc n) then suc n else rest

unfoldable pub truncate_text_to_bytes : String → ℕ → String
unfolding floor_boundary
truncate_text_to_bytes value limit =
    if leb (len value) limit then value else slice value 0 (floor_boundary value limit)

-- `char_indices`, `take_while` and `last`, from an index on; `found` is the last that was taken.
unfoldable pub last_index : ℕ → ℕ → ℕ → String → ℕ
last_index limit found i [] = found
last_index limit found i (c ∷ s) =
    let rest = last_index limit i (i + len_utf8 c) s in if leb i limit then rest else found

unfoldable pub truncate : String → ℕ → String
unfolding last_index
truncate value limit =
    if leb (len value) limit then value else slice value 0 (last_index limit 0 0 value)
