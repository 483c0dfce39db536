-- ===== src/Runtime/Config.antt =====
-- crates/tevir/src/config.rs: the settings of the edges. An interval is kept in percent, before the
-- source's division by 100.0, and a text of an error is the case that it describes.
pub mod File
pub mod Stored
use tevir.Prelude.{
  ℕ, ◌-◌, max, min, Bool, not, ◌||◌, Option, none, some, Result, ok, err, ltb, leb, if◌then◌else◌,
}
use tevir.Prelude.Fallible.{◌>>◌}
use tevir.Domain.Edge.{Edge}

pub record EdgeRule : Type 0 where
  pub enabled : Bool
  pub active_start_percent : ℕ
  pub active_end_percent : ℕ

pub record EdgeBehavior : Type 0 where
  pub switch_delay_ms : ℕ
  pub corner_dead_zone_percent : ℕ
  pub left : EdgeRule
  pub right : EdgeRule
  pub top : EdgeRule
  pub bottom : EdgeRule

abbrev pub max_switch_delay_ms : ℕ
max_switch_delay_ms = 5000

abbrev pub max_corner_dead_zone_percent : ℕ
max_corner_dead_zone_percent = 49

pub data InvalidEdgeBehavior : Type 0 where
  switch_delay : InvalidEdgeBehavior
  corner_dead_zone : InvalidEdgeBehavior
  active_range : (edge : Edge) → InvalidEdgeBehavior

unfoldable pub rule : EdgeBehavior → Edge → EdgeRule
rule b Edge.left = b.left
rule b Edge.right = b.right
rule b Edge.top = b.top
rule b Edge.bottom = b.bottom

unfoldable pub active_interval : EdgeBehavior → Edge → Option (ℕ × ℕ)
unfolding rule
active_interval b edge =
    let r = rule b edge in
    if not r.enabled
    then none
    else let start = max (r.active_start_percent) b.corner_dead_zone_percent in
      let end = min (r.active_end_percent) (100 - b.corner_dead_zone_percent) in
      if ltb start end then some (start, end) else none

-- One round of the loop of `validate`.
unfoldable pub check_rule : Edge → EdgeRule → Result (Unit {0}) InvalidEdgeBehavior
check_rule edge r =
    if ltb 100 (r.active_start_percent)
      || ltb 100 (r.active_end_percent)
      || leb (r.active_end_percent) (r.active_start_percent)
    then err (InvalidEdgeBehavior.active_range edge)
    else ok tt

unfoldable pub validate : EdgeBehavior → Result (Unit {0}) InvalidEdgeBehavior
unfolding check_rule
validate b =
    if ltb max_switch_delay_ms (b.switch_delay_ms)
    then err InvalidEdgeBehavior.switch_delay
    else if ltb max_corner_dead_zone_percent (b.corner_dead_zone_percent)
    then err InvalidEdgeBehavior.corner_dead_zone
    else (do
      check_rule Edge.left b.left
      check_rule Edge.right b.right
      check_rule Edge.top b.top
      check_rule Edge.bottom b.bottom)
