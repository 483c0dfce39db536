-- ===== src/Session/Controller/Flush.antt =====
-- The outcomes of `flush` and of the two ways to move the focus, one rule for each path of the code.
use tevir.Prelude.{
  ◌+◌, ◌≤◌, ◌<◌, ◌≡◌, ◌≢◌, false, none, some, [], ◌∷◌, ◌++◌, Result, ok, err, length, leb, ltb,
  ◌==◌, option-cases, if-cases, u64_max, arith,
}
use tevir.Prelude.Assoc
use tevir.Domain.Identity.{NodeId, node_eq}
use tevir.Protocol.Message.{Session, InputBatch}
use tevir.Session.Coalesce.{empty, buffer_is_empty}
use tevir.Session.Controller.{
  ControllerSession, ControllerError, ControllerAction, PeerDelivery, Actions, flush, send_batch,
}

-- The delivery once its next batch is under way, and the batch.
abbrev pub sent_delivery : PeerDelivery → PeerDelivery
sent_delivery d = record d {
  last_sent = d.last_sent + 1;
  pending = d.pending ++ (d.last_sent + 1) ∷ [];
}

abbrev pub next_batch : ControllerSession → PeerDelivery → InputBatch
next_batch s d = record {
  focus_epoch = s.focus_epoch;
  sequence = d.last_sent + 1;
  events = s.buffer.events;
}

abbrev pub sent_session : ControllerSession → PeerDelivery → ControllerSession
sent_session s d = record s {
  buffer = empty;
  deliveries = Assoc.insert s.focus (sent_delivery d) s.deliveries;
}

-- The outcomes of `flush`.
pub data Flushed (s : ControllerSession)
    : ControllerSession × Result Actions ControllerError → Type 0 where
  nothing : s.buffer.events ≡ [] → Flushed s (s, ok [])
  dropped :
      s.focus ≡ s.local_node
      → Flushed s (record s { buffer = empty }, err ControllerError.input_while_local)
  unknown :
      s.focus ≢ s.local_node
      → Assoc.lookup s.focus s.deliveries ≡ none
      → Flushed s (s, err (ControllerError.unknown_peer s.focus))
  blocked :
      s.focus ≢ s.local_node
      → (d : PeerDelivery) → Assoc.lookup s.focus s.deliveries ≡ some d
      → 1 ≤ length d.pending
      → Flushed s (s, ok [])
  exhausted :
      (d : PeerDelivery)
      → Assoc.lookup s.focus s.deliveries ≡ some d
      → u64_max ≤ d.last_sent
      → Flushed s (s, err (ControllerError.sequence_exhausted s.focus))
  sent :
      s.focus ≢ s.local_node
      → (d : PeerDelivery) → Assoc.lookup s.focus s.deliveries ≡ some d
      → d.pending ≡ []
      → d.last_sent < u64_max
      → s.buffer.events ≢ []
      → Flushed s (
        sent_session s d,
        ok (ControllerAction.send s.focus (Session.input (next_batch s d)) ∷ []),
      )

node_ne : (a b : NodeId) → (a == b) ≡ false → a ≢ b
node_ne a b h e = ground (arith, node_eq.eq_iff a b)

send_batch-Flushed :
    (s : ControllerSession) (d : PeerDelivery)
    → s.focus ≢ s.local_node
    → Assoc.lookup s.focus s.deliveries ≡ some d
    → d.pending ≡ []
    → s.buffer.events ≢ []
    → Flushed s (send_batch d s)
unfolding send_batch
send_batch-Flushed s d far found idle full =
    if-cases (Flushed s) (ltb u64_max (d.last_sent + 1)) _ _ (λ h. exhausted d found (ground arith))
      (λ h. sent far d found idle (ground arith) full)

pub flush-Flushed : (s : ControllerSession) → Flushed s (flush s)
unfolding flush
flush-Flushed s =
    if-cases (Flushed s) (buffer_is_empty s.buffer) _ _ (λ h. nothing (ground arith))
      λ full.
        if-cases (Flushed s) (s.focus == s.local_node) _ _ (λ h. dropped ((node_eq.eq_iff _ _).0 h))
          λ far.
            option-cases (Flushed s) (Assoc.lookup s.focus s.deliveries) _ _
              (unknown (node_ne _ _ far))
              λ d found.
                if-cases (Flushed s) (leb 1 (length d.pending)) _ _
                  (λ h. blocked (node_ne _ _ far) d found (ground arith))
                  (λ h.
                    send_batch-Flushed s d (node_ne _ _ far) found (ground arith) (ground arith))
