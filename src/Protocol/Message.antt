-- ===== src/Protocol/Message.antt =====
-- crates/protocol/src/message.rs.
use tevir.Prelude.{ℕ, Bool, ◌&&◌, List, Result, ok, err, length, is_empty, ltb, eqb, if◌then◌else◌}
use tevir.Prelude.Fallible.{map_err}
use tevir.Domain.Identity.{NodeId}
use tevir.Domain.Geometry.{Point}
use tevir.Domain.Input.{InputEvent}
use tevir.Domain.Display.{DesktopLayout, DesktopLayoutError, validate as validate_layout}
use tevir.Protocol.Clipboard.{ClipboardControl, ClipboardError, validate_offer}

abbrev pub max_input_events_per_batch : ℕ
max_input_events_per_batch = 512

pub record ProtocolVersion : Type 0 where
  pub major : ℕ
  pub minor : ℕ

abbrev pub current_protocol : ProtocolVersion
current_protocol = record { major = 1; minor = 4 }

unfoldable pub is_current : ProtocolVersion → Bool
is_current v = eqb v.major current_protocol.major && eqb v.minor current_protocol.minor

pub record Capabilities : Type 0 where
  pub keyboard : Bool
  pub relative_pointer : Bool
  pub absolute_pointer : Bool
  pub clipboard_text : Bool

unfoldable pub intersection : Capabilities → Capabilities → Capabilities
intersection c d = record {
  keyboard = c.keyboard && d.keyboard;
  relative_pointer = c.relative_pointer && d.relative_pointer;
  absolute_pointer = c.absolute_pointer && d.absolute_pointer;
  clipboard_text = c.clipboard_text && d.clipboard_text;
}

pub data HostPlatform : Type 0 where
  linux_wayland windows : HostPlatform

pub record Hello : Type 0 where
  pub version : ProtocolVersion
  pub node : NodeId
  pub nonce : List ℕ
  pub platform : HostPlatform
  pub capabilities : Capabilities
  pub maximum_frame_bytes : ℕ

pub data RejectReason : Type 0 where
  version_mismatch unknown_node authentication_failed : RejectReason
  replay_detected already_connected policy_denied : RejectReason

pub record Acceptance : Type 0 where
  pub session_id : ℕ
  pub controller : NodeId
  pub client_nonce : List ℕ
  pub server_nonce : List ℕ
  pub platform : HostPlatform
  pub negotiated_capabilities : Capabilities
  pub maximum_frame_bytes : ℕ
  pub heartbeat_interval_ms : ℕ

pub data Handshake : Type 0 where
  hello : Hello → Handshake
  accepted : Acceptance → Handshake
  rejected : RejectReason → Handshake

pub record InputBatch : Type 0 where
  pub focus_epoch : ℕ
  pub sequence : ℕ
  pub events : List InputEvent

pub data Session : Type 0 where
  display_changed : DesktopLayout → Session
  focus_changed : (focus_epoch : ℕ) (target : NodeId) (entry_position : Point) → Session
  input : InputBatch → Session
  input_acknowledged : (through_sequence : ℕ) → Session
  heartbeat : (nonce : ℕ) → Session
  heartbeat_acknowledged : (nonce : ℕ) → Session
  clipboard : ClipboardControl → Session
  disconnect : Session

pub data Envelope : Type 0 where
  handshake : Handshake → Envelope
  session : Session → Envelope

pub data MessageValidationError : Type 0 where
  empty_input_batch : MessageValidationError
  too_many_input_events : (actual maximum : ℕ) → MessageValidationError
  invalid_clipboard : ClipboardError → MessageValidationError
  invalid_desktop : DesktopLayoutError → MessageValidationError

-- The `match` of `Envelope::validate` on a session message.
unfoldable pub validate_session : Session → Result (Unit {0}) MessageValidationError
validate_session (Session.input batch) =
    if is_empty batch.events
    then err MessageValidationError.empty_input_batch
    else if ltb max_input_events_per_batch (length batch.events)
    then err (
        MessageValidationError.too_many_input_events (length batch.events)
          max_input_events_per_batch)
    else ok tt
validate_session (Session.clipboard (ClipboardControl.offered offer)) =
    map_err MessageValidationError.invalid_clipboard (validate_offer offer)
validate_session (Session.display_changed layout) =
    map_err MessageValidationError.invalid_desktop (validate_layout layout)
validate_session _ = ok tt

unfoldable pub validate : Envelope → Result (Unit {0}) MessageValidationError
unfolding validate_session
validate (Envelope.session message) = validate_session message
validate (Envelope.handshake _) = ok tt
