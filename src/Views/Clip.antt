-- ===== src/Views/Clip.antt =====
-- `_clip` (recovery_views.py), which shortens a line.
use token_terminator.Common.{
  ℕ, ◌-◌, ◌≤◌, String, ◌+++◌, count, count-append, count-take, arith, max, leb, if◌then◌else◌, take,
}

unfoldable pub clip : String → ℕ → String
clip value limit =
    if leb (count value) (max 1 limit)
    then value
    else if leb (max 1 limit) 1
    then take (max 1 limit) "…"
    else take (max 1 limit - 1) value +++ "…"

pub count-clip-le : (value : String) (limit : ℕ) → count (clip value limit) ≤ max 1 limit
unfolding clip
count-clip-le value limit = ground (
  arith,
  count-take (max 1 limit) "…",
  count-take (max 1 limit - 1) value,
  count-append (take (max 1 limit - 1) value) "…",
)
