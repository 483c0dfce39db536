-- ===== src/Session/Routing/Invariant.antt =====
-- The methods that follow the pointer, move the focus and change the topology keep the invariant.
use tevir.Prelude.{
  ℕ, ◌≤◌, ◌≡◌, ap, ◌⊎◌, inl, true, false, ◌&&◌, Option, none, some, ◌++◌, is_some, Result, ok, err,
  return, length, not, ◌==◌, option-cases, if-cases, arith, ℤ,
}
use tevir.Prelude.State.{Preserves, bind-Preserves, Ends, bind-Ends}
use tevir.Domain.Identity.{NodeId, node_eq}
use tevir.Domain.Geometry.{Point}
use tevir.Domain.Edge.{Edge}
use tevir.Domain.Input.{InputEvent, InputKind}
use tevir.Domain.Topology.{Topology, screen, transition}
use tevir.Protocol.Message.{max_input_events_per_batch}
use tevir.Session.Coalesce.{EventBuffer, empty, is_full, can_coalesce, push}
use tevir.Session.Coalesce.Merging.{push_bounded}
use tevir.Session.Pointer.{screen_center}
use tevir.Session.Controller.Invariant.{
  IsValid, Leaves, flush-IsValid, change_focus-IsValid, extend-Preserves,
}
use tevir.Session.Controller.{
  ControllerSession, ControllerError, Method, Actions, peer_nodes, flush, extend, change_focus,
  set_focus_position, clamp_focus_position,
}
use tevir.Session.Routing.Reconcile.{reconcile-Delivers}
use tevir.Session.Routing.{
  activate, leaving, clamp_to_focus, observe_kind, check_room, make_room, push_and_flush,
  observe_and_push, buffer_event, flush_and_leave, route_by, route_input, return_to_local,
  reconcile_focus, adopt,
}

-- A session that differs in the pointer's position alone.
moved-IsValid :
    (s : ControllerSession) (x y : ℤ)
    → IsValid s
    → IsValid (record s { focus_x_micropixels = x; focus_y_micropixels = y })
moved-IsValid s x y v = record {
  delivers = v.delivers;
  buffer_bounded = v.buffer_bounded;
  epoch_starts = v.epoch_starts;
  epoch_fits = v.epoch_fits;
  local_known = v.local_known;
  focus_known = v.focus_known;
}

-- A session with another buffer within the bound.
with_buffer-IsValid :
    (s : ControllerSession) (b : EventBuffer)
    → length b.events ≤ max_input_events_per_batch
    → IsValid s
    → IsValid (record s { buffer = b })
with_buffer-IsValid s b h v = record {
  delivers = v.delivers;
  buffer_bounded = h;
  epoch_starts = v.epoch_starts;
  epoch_fits = v.epoch_fits;
  local_known = v.local_known;
  focus_known = v.focus_known;
}

-- The buffer can take an event.
abbrev HasRoom : InputEvent → ControllerSession → Type 0
HasRoom event s = (is_full s.buffer ≡ false) ⊎ (can_coalesce s.buffer event ≡ true)

abbrev Ready : InputEvent → ControllerSession → Type 0
Ready event s = IsValid s × HasRoom event s

home-IsValid : (s : ControllerSession) → IsValid s → IsValid (record s { focus = s.local_node })
home-IsValid s v = record {
  delivers = v.delivers;
  buffer_bounded = v.buffer_bounded;
  epoch_starts = v.epoch_starts;
  epoch_fits = v.epoch_fits;
  local_known = v.local_known;
  focus_known = v.local_known;
}

pub Leaves-Ends :
    (o : ControllerSession × Result Actions ControllerError)
    → Leaves o
    → Ends IsValid (λ _. IsValid) o
Leaves-Ends (t, ok a) v = v
Leaves-Ends (t, err e) v = v

pub Ends-Leaves :
    (o : ControllerSession × Result Actions ControllerError)
    → Ends IsValid (λ _. IsValid) o
    → Leaves o
Ends-Leaves (t, ok a) v = v
Ends-Leaves (t, err e) v = v

pub activate-IsValid : (edge : Edge) (offset : ℕ) → Preserves IsValid (activate edge offset)
unfolding activate
activate-IsValid edge offset s v =
    if-cases Leaves (not (s.focus == s.local_node)) _ _ (λ _. v)
      λ _.
        option-cases Leaves (transition s.topology s.local_node edge offset) _ _ (λ _. v)
          λ t _. change_focus-IsValid t.target t.local_position none s v

clamp_to_focus-Ready :
    (event : InputEvent) (s : ControllerSession) (x y : ℤ)
    → Ready event s
    → Ends IsValid
        (λ _. Ready event)
        (clamp_to_focus (record s { focus_x_micropixels = x; focus_y_micropixels = y }))
unfolding clamp_to_focus clamp_focus_position
clamp_to_focus-Ready event s x y v =
    option-cases (Ends IsValid (λ _. Ready event)) (screen s.topology s.focus) _ _
      (λ _. moved-IsValid s x y v.0) λ f _. (moved-IsValid s _ _ v.0, v.1)

observe_kind-Ready :
    (event : InputEvent) (k : InputKind) (s : ControllerSession)
    → Ready event s
    → Ends IsValid (λ _. Ready event) (observe_kind k s)
unfolding observe_kind set_focus_position
observe_kind-Ready event (InputKind.pointer_relative dx dy) s v = clamp_to_focus-Ready event s _ _ v
observe_kind-Ready event (InputKind.pointer_absolute p) s v = clamp_to_focus-Ready event s _ _ v
observe_kind-Ready event _ s v = v

push_and_flush-Leaves :
    (event : InputEvent) (s : ControllerSession) → Ready event s → Leaves (push_and_flush event s)
unfolding push_and_flush
push_and_flush-Leaves event s v =
    let pushed =
      with_buffer-IsValid s (push s.buffer event).0
        (push_bounded s.buffer event v.0.buffer_bounded v.1).0 v.0 in
    if-cases Leaves (push s.buffer event).1 _ _ (λ _. flush-IsValid _ pushed) (λ _. pushed)

extend-Ends :
    (actions : Actions) (method : Method Actions) (s : ControllerSession)
    → Leaves (method s)
    → Ends IsValid (λ _. IsValid) (extend actions method s)
unfolding extend
extend-Ends actions method s v =
    bind-Ends IsValid (λ _. IsValid) (λ _. IsValid) method (λ more. return (actions ++ more)) s
      (Leaves-Ends (method s) v) (λ more t w. w)

observe_and_push-Ends :
    (event : InputEvent) (actions : Actions) (s : ControllerSession)
    → Ready event s
    → Ends IsValid (λ _. IsValid) (observe_and_push event actions s)
unfolding observe_and_push
observe_and_push-Ends event actions s v =
    bind-Ends IsValid (λ _. Ready event) (λ _. IsValid) (observe_kind event.kind)
      (λ _. extend actions (push_and_flush event)) s (observe_kind-Ready event event.kind s v)
      (λ _ t r. extend-Ends actions (push_and_flush event) t (push_and_flush-Leaves event t r))

check_room-Ends :
    (event : InputEvent) (actions : Actions) (s : ControllerSession)
    → IsValid s
    → Ends IsValid (λ _. Ready event) (check_room actions s)
unfolding check_room
check_room-Ends event actions s v =
    if-cases (Ends IsValid (λ _. Ready event)) (is_full s.buffer) _ _ (λ _. v)
      (λ room. (v, inl room))

make_room-Ends :
    (event : InputEvent) (s : ControllerSession)
    → IsValid s
    → Ends IsValid (λ _. Ready event) (make_room event s)
unfolding make_room
make_room-Ends event s v =
    if-cases (Ends IsValid (λ _. Ready event))
      (is_full s.buffer && not (can_coalesce s.buffer event)) _ _
      (λ _.
        bind-Ends IsValid (λ _. IsValid) (λ _. Ready event) flush check_room s
          (Leaves-Ends (flush s) (flush-IsValid s v)) (check_room-Ends event))
      (λ room. (v, let r : HasRoom event s = ground arith in r))

buffer_event-Leaves :
    (event : InputEvent) (s : ControllerSession) → IsValid s → Leaves (buffer_event event s)
unfolding buffer_event
buffer_event-Leaves event s v = Ends-Leaves (buffer_event event s) (
    bind-Ends IsValid (λ _. Ready event) (λ _. IsValid) (make_room event) (observe_and_push event) s
      (make_room-Ends event s v) (observe_and_push-Ends event))

flush_and_leave-IsValid :
    (target : NodeId) (position : Point) → Preserves IsValid (flush_and_leave target position)
unfolding flush_and_leave
flush_and_leave-IsValid target position =
    bind-Preserves IsValid flush (λ actions. extend actions (change_focus target position none))
      flush-IsValid
      λ actions.
        extend-Preserves IsValid actions (change_focus target position none)
          (change_focus-IsValid target position none)

route_by-Leaves :
    (event : InputEvent) (r : Result (Option (NodeId × Point)) ControllerError)
    → Preserves IsValid (route_by event r)
unfolding route_by
route_by-Leaves event (err e) s v = v
route_by-Leaves event (ok none) s v = buffer_event-Leaves event s v
route_by-Leaves event (ok (some (target, position))) s v =
    flush_and_leave-IsValid target position s v

pub route_input-IsValid : (event : InputEvent) → Preserves IsValid (route_input event)
unfolding route_input
route_input-IsValid event s v =
    if-cases Leaves (s.focus == s.local_node) _ (route_by event (leaving s event.kind) s) (λ _. v)
      (λ _. route_by-Leaves event (leaving s event.kind) s v)

pub return_to_local-IsValid : Preserves IsValid return_to_local
unfolding return_to_local
return_to_local-IsValid s v =
    let t = with_buffer-IsValid s empty (omega arith) v in
    if-cases Leaves (s.focus == s.local_node) _ _ (λ _. v)
      λ _.
        option-cases Leaves (screen s.topology s.local_node) _ _ (λ _. t)
          λ local_screen _.
            change_focus-IsValid s.local_node (screen_center local_screen.bounds.size) none _ t

-- The focus lies in a topology to come.
abbrev pub Adoptable : Topology → ControllerSession → Type 0
Adoptable topology s =
    IsValid s
    × (is_some (screen topology s.local_node) ≡ true)
    × (is_some (screen topology s.focus) ≡ true)

pub reconcile_focus-Ends :
    (topology : Topology) (s : ControllerSession)
    → is_some (screen topology s.local_node) ≡ true
    → IsValid s
    → Ends IsValid (λ _. Adoptable topology) (reconcile_focus topology s)
unfolding reconcile_focus clamp_focus_position set_focus_position
reconcile_focus-Ends topology s known v =
    let home : IsValid (record s { focus = s.local_node }) = home-IsValid s v in
    option-cases (Ends IsValid (λ _. Adoptable topology)) (screen topology s.focus) _ _
      (λ _.
        option-cases (Ends IsValid (λ _. Adoptable topology)) (screen topology s.local_node) _ _
          (λ _. home) (λ l e. (moved-IsValid _ _ _ home, known, known)))
      (λ f e. (moved-IsValid s _ _ v, known, ap is_some e))

pub adopt-IsValid :
    (topology : Topology) (s : ControllerSession)
    → Adoptable topology s
    → IsValid (adopt topology s).0
unfolding adopt
adopt-IsValid topology s (v, local_, focus_) = record {
  delivers =
      reconcile-Delivers (peer_nodes topology s.local_node) (peer_nodes s.topology s.local_node)
        s.deliveries v.delivers;
  buffer_bounded = v.buffer_bounded;
  epoch_starts = v.epoch_starts;
  epoch_fits = v.epoch_fits;
  local_known = local_;
  focus_known = focus_;
}
