-- ===== src/Session/Clipboard.antt =====
-- crates/session/src/clipboard.rs: one side of the exchange of clipboard texts with a peer. Each method
-- takes the session and gives the session it leaves with its result; log lines have no effect.
pub mod Methods
pub mod Calls
pub mod Invariant
pub mod Steps
pub mod Handing
pub mod Delivery
pub mod Exchange
mod Examples
use tevir.Prelude.{
  ℕ, ◌+◌, Bool, false, ◌&&◌, ◌||◌, not, Option, none, some, List, [], ◌∷◌, Result, ok, err, ltb,
  leb, is_some, is_none, ◌==◌, u64_max, if◌then◌else◌,
}
use tevir.Domain.Identity.{NodeId, node_eq}
use tevir.Protocol.Clipboard
use tevir.Protocol.Clipboard.{
  ClipboardGeneration, ClipboardOffer, ClipboardText, ClipboardControl, ClipboardError,
  generation_eq, offer_eq, text_eq, bytes_eq, new_text,
}

pub data ClipboardAction : Type 0 where
  send_control : ClipboardControl → ClipboardAction
  send_transfer : ClipboardText → ClipboardAction
  apply_remote : ClipboardText → ClipboardAction

pub record IncomingClipboard : Type 0 where
  pub generation : ClipboardGeneration
  pub offer : Option ClipboardOffer
  pub transfer : Option ClipboardText

pub data Stage : Type 0 where
  ignore applying incoming : Stage

pub data ClipboardSessionError : Type 0 where
  clipboard : ClipboardError → ClipboardSessionError
  local_sequence_exhausted : ClipboardSessionError
  unexpected_generation_owner : (expected received : NodeId) → ClipboardSessionError
  acknowledgement_beyond_sent : (acknowledged last_sent : ℕ) → ClipboardSessionError
  conflicting_offer : ClipboardGeneration → ClipboardSessionError
  conflicting_transfer : ClipboardGeneration → ClipboardSessionError
  no_application_pending : ClipboardSessionError
  application_generation_mismatch :
      (expected received : ClipboardGeneration) → ClipboardSessionError
  state_invariant : ClipboardSessionError

pub record ClipboardSession : Type 0 where
  pub local_node : NodeId
  pub peer_node : NodeId
  pub next_local_sequence : Option ℕ
  pub last_sent_local_sequence : ℕ
  pub last_acknowledged_local_sequence : ℕ
  pub last_applied_remote_sequence : ℕ
  pub highest_remote_sequence : ℕ
  pub pending_local : Option ClipboardGeneration
  pub incoming : Option IncomingClipboard
  pub applying : Option IncomingClipboard
  pub remote_text : Option (List ℕ)

-- What a method leaves: the session and its result.
abbrev pub Outcome : Type 0
Outcome = ClipboardSession × Result (List ClipboardAction) ClipboardSessionError

unfoldable pub new : NodeId → NodeId → ClipboardSession
new local_node peer_node = record {
  local_node = local_node;
  peer_node = peer_node;
  next_local_sequence = some 1;
  last_sent_local_sequence = 0;
  last_acknowledged_local_sequence = 0;
  last_applied_remote_sequence = 0;
  highest_remote_sequence = 0;
  pending_local = none;
  incoming = none;
  applying = none;
  remote_text = none;
}

-- `IncomingClipboard::new` and `is_ready`.
unfoldable pub new_incoming : ClipboardGeneration → IncomingClipboard
new_incoming generation = record { generation = generation; offer = none; transfer = none }

unfoldable pub is_ready : IncomingClipboard → Bool
is_ready i = is_some i.offer && is_some i.transfer

-- `is_some_and` with an equality, for a text, a generation, an offer and a transfer.
unfoldable pub is_text : Option (List ℕ) → List ℕ → Bool
is_text none text = false
is_text (some remote) text = remote == text

unfoldable pub is_generation : Option IncomingClipboard → ClipboardGeneration → Bool
is_generation none generation = false
is_generation (some i) generation = i.generation == generation

unfoldable pub is_offer : Option ClipboardOffer → ClipboardOffer → Bool
is_offer none offer = false
is_offer (some existing) offer = existing == offer

unfoldable pub is_transfer : Option ClipboardText → ClipboardText → Bool
is_transfer none transfer = false
is_transfer (some existing) transfer = existing == transfer

-- `sequence.get().checked_add(1).and_then(NonZeroU64::new)`.
unfoldable pub next_sequence : ℕ → Option ℕ
next_sequence sequence = if ltb sequence u64_max then some (sequence + 1) else none

-- The part of `stage_generation` that records a newer or a first generation.
unfoldable pub stage_incoming : ClipboardSession → ClipboardGeneration → ClipboardSession
unfolding new_incoming
stage_incoming s generation =
    if ltb s.highest_remote_sequence generation.sequence
    then record s {
      highest_remote_sequence = generation.sequence;
      incoming = some (new_incoming generation);
    }
    else if is_none s.incoming
    then record s { incoming = some (new_incoming generation) }
    else s

unfoldable pub stage_generation :
    ClipboardSession → ClipboardGeneration → ClipboardSession × Result Stage ClipboardSessionError
unfolding stage_incoming is_generation
stage_generation s generation =
    if not (generation.owner == s.peer_node)
    then (s, err (ClipboardSessionError.unexpected_generation_owner s.peer_node generation.owner))
    else if leb generation.sequence s.last_applied_remote_sequence
        || ltb generation.sequence s.highest_remote_sequence
    then (s, ok Stage.ignore)
    else if is_generation s.applying generation
    then (s, ok Stage.applying)
    else let staged = stage_incoming s generation in
      if is_generation staged.incoming generation
      then (staged, ok Stage.incoming)
      else (staged, err ClipboardSessionError.state_invariant)

-- Whether a pending generation is acknowledged by a sequence, which clears it.
unfoldable pub clear_pending : Option ClipboardGeneration → ℕ → Option ClipboardGeneration
clear_pending none sequence = none
clear_pending (some pending) sequence = if leb pending.sequence sequence then none else some pending

unfoldable pub receive_acknowledgement :
    ClipboardSession
    → ClipboardGeneration
    → ClipboardSession × Result (Unit {0}) ClipboardSessionError
unfolding clear_pending
receive_acknowledgement s generation =
    if not (generation.owner == s.local_node)
    then (s, err (ClipboardSessionError.unexpected_generation_owner s.local_node generation.owner))
    else if ltb s.last_sent_local_sequence generation.sequence
    then (
      s,
      err (
          ClipboardSessionError.acknowledgement_beyond_sent generation.sequence
            s.last_sent_local_sequence),
    )
    else if leb generation.sequence s.last_acknowledged_local_sequence
    then (s, ok tt)
    else (
      record s {
        last_acknowledged_local_sequence = generation.sequence;
        pending_local = clear_pending s.pending_local generation.sequence;
      },
      ok tt,
    )

-- `pending_application`.
unfoldable pub pending_application : ClipboardSession → Option ClipboardGeneration
pending_application s = elim (s.applying) [ none ↦ none | some i ↦ some i.generation ]
