-- ===== src/Session/Controller/Invariant.antt =====
-- What holds of a controller session between two calls, and that the methods of this file keep it.
use tevir.Prelude.{
  ℕ, ◌+◌, ◌≤◌, ◌≡◌, ap, sym, subst, true, Option, List, ◌++◌, is_some, Result, return, length, ltb,
  not, option-cases, if-cases, u64_max, arith,
}
use tevir.Prelude.State.{Preserves, bind-Preserves}
use tevir.Domain.Identity.{NodeId, node_eq}
use tevir.Domain.Geometry.{Point}
use tevir.Domain.Topology.{screen}
use tevir.Protocol.Message.{max_input_events_per_batch}
use tevir.Session.Coalesce.{buffer_is_empty}
use tevir.Session.Controller.Flush.{
  Flushed, nothing, dropped, unknown, blocked, exhausted, sent, flush-Flushed,
}
use tevir.Session.Controller.Delivery.{
  Delivers, Flushed-Delivers, acknowledge-Delivers, reset_peer-Delivers,
}
use tevir.Session.Controller.{
  ControllerSession, ControllerError, Method, Actions, peer_nodes, flush, acknowledge, reset_peer,
  move_focus, extend, move_if_flushed, change_focus, advance_epoch_and_broadcast,
  set_focus_position,
}

pub record IsValid (s : ControllerSession) : Type 0 where
  pub delivers : Delivers (peer_nodes s.topology s.local_node) s.deliveries
  pub buffer_bounded : length s.buffer.events ≤ max_input_events_per_batch
  pub epoch_starts : 1 ≤ s.focus_epoch
  pub epoch_fits : s.focus_epoch ≤ u64_max
  pub local_known : is_some (screen s.topology s.local_node) ≡ true
  pub focus_known : is_some (screen s.topology s.focus) ≡ true

-- An outcome that leaves a valid session.
abbrev pub Leaves : ControllerSession × Result Actions ControllerError → Type 0
Leaves o = IsValid o.0

Flushed-IsValid :
    {s : ControllerSession} {o : ControllerSession × Result Actions ControllerError}
    → Flushed s o
    → IsValid s
    → IsValid o.0
Flushed-IsValid (nothing e) v = v
Flushed-IsValid {s} (dropped e) v = record {
  delivers = v.delivers;
  buffer_bounded = omega arith;
  epoch_starts = v.epoch_starts;
  epoch_fits = v.epoch_fits;
  local_known = v.local_known;
  focus_known = v.focus_known;
}
Flushed-IsValid (unknown far e) v = v
Flushed-IsValid (blocked far d e k) v = v
Flushed-IsValid (exhausted d e k) v = v
Flushed-IsValid {s} (sent far d e idle room full) v = record {
  delivers =
      Flushed-Delivers (peer_nodes s.topology s.local_node) {s = s} (sent far d e idle room full)
        v.delivers;
  buffer_bounded = omega arith;
  epoch_starts = v.epoch_starts;
  epoch_fits = v.epoch_fits;
  local_known = v.local_known;
  focus_known = v.focus_known;
}

pub flush-IsValid : Preserves IsValid flush
flush-IsValid s v = Flushed-IsValid (flush-Flushed s) v

acknowledge-rest :
    (peer : NodeId) (n : ℕ) (s : ControllerSession)
    → (acknowledge peer n s).0 ≡ record s { deliveries = (acknowledge peer n s).0.deliveries }
unfolding acknowledge
acknowledge-rest peer n s = ground arith

-- A session that differs in its deliveries alone.
with_deliveries-IsValid :
    (s t : ControllerSession)
    → t ≡ record s { deliveries = t.deliveries }
    → Delivers (peer_nodes s.topology s.local_node) t.deliveries
    → IsValid s
    → IsValid t
with_deliveries-IsValid s t same d v = subst IsValid (sym same) (record {
  delivers = d;
  buffer_bounded = v.buffer_bounded;
  epoch_starts = v.epoch_starts;
  epoch_fits = v.epoch_fits;
  local_known = v.local_known;
  focus_known = v.focus_known;
})

pub acknowledge-IsValid : (peer : NodeId) (n : ℕ) → Preserves IsValid (acknowledge peer n)
acknowledge-IsValid peer n s v =
    with_deliveries-IsValid s _ (acknowledge-rest peer n s)
      (acknowledge-Delivers (peer_nodes s.topology s.local_node) peer n s v.delivers) v

reset_peer-rest :
    (peer : NodeId) (s : ControllerSession)
    → (reset_peer peer s).0 ≡ record s { deliveries = (reset_peer peer s).0.deliveries }
unfolding reset_peer
reset_peer-rest peer s = ground arith

pub reset_peer-IsValid : (peer : NodeId) → Preserves IsValid (reset_peer peer)
reset_peer-IsValid peer s v =
    with_deliveries-IsValid s _ (reset_peer-rest peer s)
      (reset_peer-Delivers (peer_nodes s.topology s.local_node) peer s v.delivers) v

pub advance-IsValid :
    (recipients : Option (List NodeId)) → Preserves IsValid (advance_epoch_and_broadcast recipients)
unfolding advance_epoch_and_broadcast
advance-IsValid recipients s v =
    if-cases Leaves (ltb u64_max (s.focus_epoch + 1)) _ _ (λ _. v)
      λ room. record {
        delivers = v.delivers;
        buffer_bounded = v.buffer_bounded;
        epoch_starts = omega arith;
        epoch_fits = ground arith;
        local_known = v.local_known;
        focus_known = v.focus_known;
      }

pub move_focus-IsValid :
    (target : NodeId) (position : Point) (recipients : Option (List NodeId))
    → Preserves IsValid (move_focus target position recipients)
unfolding move_focus set_focus_position
move_focus-IsValid target position recipients s v =
    option-cases Leaves (screen s.topology target) _ _ (λ _. v)
      λ found e. advance-IsValid recipients _ (record {
        delivers = v.delivers;
        buffer_bounded = v.buffer_bounded;
        epoch_starts = v.epoch_starts;
        epoch_fits = v.epoch_fits;
        local_known = v.local_known;
        focus_known = ap is_some e;
      })

pub extend-Preserves {ℓ} :
    (I : ControllerSession → Type ℓ) (actions : Actions) (method : Method Actions)
    → Preserves I method
    → Preserves I (extend actions method)
unfolding extend
extend-Preserves I actions method p =
    bind-Preserves I method (λ more. return (actions ++ more)) p (λ more t w. w)

move_if_flushed-IsValid :
    (target : NodeId) (position : Point) (recipients : Option (List NodeId)) (actions : Actions)
    → Preserves IsValid (move_if_flushed target position recipients actions)
unfolding move_if_flushed
move_if_flushed-IsValid target position recipients actions s v =
    if-cases Leaves (not (buffer_is_empty s.buffer)) _ _ (λ _. v)
      (λ _.
        extend-Preserves IsValid actions (move_focus target position recipients)
          (move_focus-IsValid target position recipients) s v)

pub change_focus-IsValid :
    (target : NodeId) (position : Point) (recipients : Option (List NodeId))
    → Preserves IsValid (change_focus target position recipients)
unfolding change_focus
change_focus-IsValid target position recipients =
    bind-Preserves IsValid flush (move_if_flushed target position recipients) flush-IsValid
      (move_if_flushed-IsValid target position recipients)
