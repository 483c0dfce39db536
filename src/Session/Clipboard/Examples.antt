-- ===== src/Session/Clipboard/Examples.antt =====
-- Runs of the clipboard session's tests, and the theorems at the states that they reach. The digest
-- of the examples is the text itself.
use tevir.Prelude.{ℕ, ◌≡◌, refl, none, List, [], ◌∷◌, ok, arith}
use tevir.Domain.Identity.{NodeId, NodeId-discrete, node_eq}
use tevir.Protocol.Clipboard
use tevir.Protocol.Clipboard.{
  ClipboardGeneration, ClipboardOffer, ClipboardText, ClipboardControl, ClipboardError,
  Generation-discrete,
}
use tevir.Session.Clipboard.{ClipboardSession, ClipboardAction, new, is_text}
use tevir.Session.Clipboard.Methods
use tevir.Session.Clipboard.Calls.{Call, controls, transfers, step}
use tevir.Session.Clipboard.Invariant.{new-IsValid}
use tevir.Session.Clipboard.Handing.{reached}
use tevir.Session.Clipboard.Delivery.{Ascends, all_handed, handed_ascending}
use tevir.Session.Clipboard.Exchange.{arrival_order, exchange}

abbrev digest : List ℕ → List ℕ
digest text = text

abbrev left : NodeId
left = record { value = b'l' ∷ [] }

abbrev right : NodeId
right = record { value = b'r' ∷ [] }

abbrev hello : List ℕ
hello = b'h' ∷ b'i' ∷ []

abbrev text_of : ℕ → ClipboardText
text_of n = record { generation = record { owner = left; sequence = n }; text = hello }

abbrev offer_of : ℕ → ClipboardOffer
offer_of n = record {
  generation = record { owner = left; sequence = n };
  text_bytes = 2;
  digest = hello;
}

abbrev receiver : ClipboardSession
receiver = new right left

abbrev sender : ClipboardSession
sender = new left right

-- A newer text replaces an older, incomplete one.
abbrev messages : List Call
messages =
    controls (ClipboardControl.offered (offer_of 1))
    ∷ transfers (text_of 2)
    ∷ transfers (text_of 1)
    ∷ controls (ClipboardControl.offered (offer_of 2))
    ∷ []

newest_handed : all_handed digest receiver messages ≡ text_of 2 ∷ []
unfolding all_handed step Methods.receive_control Methods.receive_transfer new NodeId-discrete
    Generation-discrete Clipboard.verify Clipboard.Bytes-discrete
newest_handed = refl

handed_ascending_example :
    Ascends receiver.peer_node (reached receiver) (all_handed digest receiver messages)
handed_ascending_example = handed_ascending digest receiver messages (new-IsValid digest right left)

arrival_order_example :
    let by_offer = Methods.receive_offer digest receiver (offer_of 1) in
    let by_transfer = Methods.receive_transfer digest receiver (text_of 1) in
    (by_offer.1 ≡ ok [])
    × (by_transfer.1 ≡ ok [])
    × (Methods.receive_transfer digest by_offer.0 (text_of 1)
        ≡ Methods.receive_offer digest by_transfer.0 (offer_of 1))
unfolding new
arrival_order_example =
    arrival_order digest receiver (offer_of 1) (text_of 1) (new-IsValid digest right left) refl
      (refl, omega arith)

exchange_example :
    let o = Clipboard.offer digest (text_of 1) in
    let sent = Methods.local_changed digest sender hello in
    let offered = Methods.receive_control digest receiver (ClipboardControl.offered o) in
    let arrived = Methods.receive_transfer digest offered.0 (text_of 1) in
    let done = Methods.confirm_applied digest arrived.0 (text_of 1).generation in
    let heard =
      Methods.receive_control digest sent.0 (ClipboardControl.applied (text_of 1).generation) in
    (sent.1
      ≡ ok (
          ClipboardAction.send_control (ClipboardControl.offered o)
          ∷ ClipboardAction.send_transfer (text_of 1)
          ∷ []))
    × (offered.1 ≡ ok [])
    × (arrived.1 ≡ ok (ClipboardAction.apply_remote (text_of 1) ∷ []))
    × (done.1
        ≡ ok (ClipboardAction.send_control (ClipboardControl.applied (text_of 1).generation) ∷ []))
    × (heard.1 ≡ ok [])
    × (heard.0.pending_local ≡ none)
    × (heard.0.last_acknowledged_local_sequence ≡ 1)
    × (Methods.local_changed digest done.0 hello ≡ (done.0, ok []))
unfolding new is_text
exchange_example =
    exchange digest sender receiver hello 1 (new-IsValid digest left right)
      (new-IsValid digest right left) refl refl refl (omega arith) (omega arith) refl
