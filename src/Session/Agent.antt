-- ===== src/Session/Agent.antt =====
-- crates/session/src/agent.rs. Each method takes the session and gives the session it leaves with
-- its result; log lines have no effect.
pub mod Calls
pub mod Invariant
pub mod Delivery
pub mod Focus
mod Examples
use tevir.Prelude.{
  ℕ, ◌+◌, pos, Bool, true, false, ◌&&◌, not, Option, none, some, List, [], ◌∷◌, ◌++◌, Result, ok,
  err, length, is_empty, is_some, ltb, leb, eqb, ltb_ℤ, leb_ℤ, ◌==◌, PartialEq, derived_eq,
  ℕ_discrete, u64_max, if◌then◌else◌,
}
use tevir.Domain.Identity.{NodeId, node_eq}
use tevir.Domain.Geometry.{Point, Size}
use tevir.Protocol.Clipboard.{ClipboardControl}
use tevir.Protocol.Message.{Session, InputBatch, max_input_events_per_batch}

pub record FocusState : Type 0 where
  pub epoch : ℕ
  pub target : NodeId
  pub entry_position : Point

unfoldable pub FocusState-discrete : Discrete FocusState
unfolding ℕ_discrete
FocusState-discrete = hlevel ℕ_discrete

instance abbrev pub focus_state_eq : PartialEq FocusState
focus_state_eq = derived_eq FocusState-discrete

pub record AgentSession : Type 0 where
  pub local_node : NodeId
  pub display_size : Size
  pub highest_focus_epoch : ℕ
  pub active_focus_epoch : Option ℕ
  pub last_focus : Option FocusState
  pub last_applied_sequence : ℕ
  pub pending_batch : Option InputBatch
  pub closed : Bool

pub data AgentAction : Type 0 where
  focus_entered : (position : Point) → AgentAction
  apply_input : InputBatch → AgentAction
  release_all_input : AgentAction
  send : Session → AgentAction
  clipboard : ClipboardControl → AgentAction
  close_connection : AgentAction

pub data AgentError : Type 0 where
  session_closed : AgentError
  conflicting_focus_epoch : (focus_epoch : ℕ) → AgentError
  entry_position_outside_display : (position : Point) (width height : ℕ) → AgentError
  stale_input_epoch : (received current : ℕ) → AgentError
  inactive_input_epoch : (received : ℕ) (active : Option ℕ) → AgentError
  input_sequence_gap : (expected received : ℕ) → AgentError
  input_sequence_exhausted : AgentError
  empty_input_batch : AgentError
  too_many_input_events : (actual maximum : ℕ) → AgentError
  input_application_pending : (sequence : ℕ) → AgentError
  no_input_application_pending : AgentError
  applied_sequence_mismatch : (expected received : ℕ) → AgentError
  unexpected_acknowledgement : AgentError
  unexpected_display_change : AgentError

-- What a method leaves: the session and its result.
abbrev pub Outcome : Type 0
Outcome = AgentSession × Result (List AgentAction) AgentError

unfoldable pub new : NodeId → Size → AgentSession
new local_node display_size = record {
  local_node = local_node;
  display_size = display_size;
  highest_focus_epoch = 0;
  active_focus_epoch = none;
  last_focus = none;
  last_applied_sequence = 0;
  pending_batch = none;
  closed = false;
}

unfoldable pub contains_local : Size → Point → Bool
contains_local size p =
    leb_ℤ (pos 0) p.x
    && leb_ℤ (pos 0) p.y
    && ltb_ℤ p.x (pos size.width)
    && ltb_ℤ p.y (pos size.height)

unfoldable pub validate_batch : InputBatch → Result (Unit {0}) AgentError
validate_batch batch =
    if is_empty batch.events
    then err AgentError.empty_input_batch
    else if ltb max_input_events_per_batch (length batch.events)
    then err (AgentError.too_many_input_events (length batch.events) max_input_events_per_batch)
    else ok tt

-- `self.last_focus.as_ref() == Some(&next_focus)`.
unfoldable pub is_last_focus : Option FocusState → FocusState → Bool
is_last_focus none next_focus = false
is_last_focus (some focus) next_focus = focus == next_focus

-- The part of `change_focus` behind its checks, which enters or leaves the local node.
unfoldable pub take_focus : AgentSession → FocusState → AgentSession × List AgentAction
take_focus s next_focus =
    let released =
      if is_some s.active_focus_epoch then AgentAction.release_all_input ∷ [] else [] in
    if next_focus.target == s.local_node
    then (
      record s {
        active_focus_epoch = some next_focus.epoch;
        highest_focus_epoch = next_focus.epoch;
        last_focus = some next_focus;
      },
      released ++ AgentAction.focus_entered next_focus.entry_position ∷ [],
    )
    else (
      record s {
        active_focus_epoch = none;
        highest_focus_epoch = next_focus.epoch;
        last_focus = some next_focus;
      },
      released,
    )

-- The checks of a focus change to a newer epoch.
unfoldable pub enter_epoch : AgentSession → FocusState → Outcome
unfolding contains_local take_focus
enter_epoch s next_focus = elim (s.pending_batch) [
  | some pending ↦ (s, err (AgentError.input_application_pending pending.sequence))
  | none ↦
      if (next_focus.target == s.local_node)
        && not (contains_local s.display_size next_focus.entry_position)
      then (
        s,
        err (
            AgentError.entry_position_outside_display next_focus.entry_position s.display_size.width
              s.display_size.height),
      )
      else let (s', actions) = take_focus s next_focus in (s', ok actions)
]

unfoldable pub change_focus : AgentSession → ℕ → NodeId → Point → Outcome
unfolding is_last_focus enter_epoch
change_focus s focus_epoch target entry_position =
    let next_focus : FocusState = record {
      epoch = focus_epoch;
      target = target;
      entry_position = entry_position;
    } in
    if ltb focus_epoch s.highest_focus_epoch
    then (s, ok [])
    else if eqb focus_epoch s.highest_focus_epoch
    then (if is_last_focus s.last_focus next_focus
        then (s, ok [])
        else (s, err (AgentError.conflicting_focus_epoch focus_epoch)))
    else enter_epoch s next_focus

-- The sequence checks of `receive_input`; `checked_add` fails at the end of the `u64` range.
unfoldable pub receive_sequence : AgentSession → InputBatch → Outcome
receive_sequence s batch =
    if leb batch.sequence s.last_applied_sequence
    then (s, ok (AgentAction.send (Session.input_acknowledged s.last_applied_sequence) ∷ []))
    else if ltb u64_max (s.last_applied_sequence + 1)
    then (s, err AgentError.input_sequence_exhausted)
    else if not (eqb batch.sequence (s.last_applied_sequence + 1))
    then (s, err (AgentError.input_sequence_gap (s.last_applied_sequence + 1) batch.sequence))
    else (record s { pending_batch = some batch }, ok (AgentAction.apply_input batch ∷ []))

-- `self.active_focus_epoch == Some(epoch)`.
unfoldable pub is_active_epoch : Option ℕ → ℕ → Bool
is_active_epoch none epoch = false
is_active_epoch (some active) epoch = eqb active epoch

unfoldable pub receive_input : AgentSession → InputBatch → Outcome
unfolding validate_batch is_active_epoch receive_sequence
receive_input s batch = elim (validate_batch batch) [
  | err e ↦ (s, err e)
  | ok _ ↦
      if ltb batch.focus_epoch s.highest_focus_epoch
      then (s, err (AgentError.stale_input_epoch batch.focus_epoch s.highest_focus_epoch))
      else if not (is_active_epoch s.active_focus_epoch batch.focus_epoch)
      then (s, err (AgentError.inactive_input_epoch batch.focus_epoch s.active_focus_epoch))
      else elim (s.pending_batch) [
        | some pending ↦ (s, err (AgentError.input_application_pending pending.sequence))
        | none ↦ receive_sequence s batch
      ]
]

unfoldable pub close : AgentSession → AgentSession × List AgentAction
close s = (
  record s { active_focus_epoch = none; pending_batch = none; closed = true },
  AgentAction.release_all_input ∷ AgentAction.close_connection ∷ [],
)

-- The `match` of `handle`.
unfoldable pub dispatch : AgentSession → Session → Outcome
unfolding change_focus receive_input close
dispatch s (Session.display_changed layout) = (s, err AgentError.unexpected_display_change)
dispatch s (Session.focus_changed focus_epoch target entry_position) =
    change_focus s focus_epoch target entry_position
dispatch s (Session.input batch) = receive_input s batch
dispatch s (Session.input_acknowledged n) = (s, err AgentError.unexpected_acknowledgement)
dispatch s (Session.heartbeat nonce) =
    (s, ok (AgentAction.send (Session.heartbeat_acknowledged nonce) ∷ []))
dispatch s (Session.heartbeat_acknowledged nonce) = (s, ok [])
dispatch s (Session.clipboard control) = (s, ok (AgentAction.clipboard control ∷ []))
dispatch s Session.disconnect = let (s', actions) = close s in (s', ok actions)

unfoldable pub handle : AgentSession → Session → Outcome
unfolding dispatch
handle s message = if s.closed then (s, err AgentError.session_closed) else dispatch s message

unfoldable pub confirm_applied : AgentSession → ℕ → Outcome
confirm_applied s sequence =
    if s.closed then (s, err AgentError.session_closed) else elim (s.pending_batch) [
      | none ↦ (s, err AgentError.no_input_application_pending)
      | some pending ↦
          if not (eqb pending.sequence sequence)
          then (s, err (AgentError.applied_sequence_mismatch pending.sequence sequence))
          else (
            record s { last_applied_sequence = sequence; pending_batch = none },
            ok (AgentAction.send (Session.input_acknowledged sequence) ∷ []),
          )
    ]

unfoldable pub reconcile_display : AgentSession → Size → AgentSession × List AgentAction
reconcile_display s display_size = (
  record s { display_size = display_size; active_focus_epoch = none; pending_batch = none },
  AgentAction.release_all_input ∷ [],
)

unfoldable pub connection_lost : AgentSession → AgentSession × List AgentAction
unfolding close
connection_lost s = close s
