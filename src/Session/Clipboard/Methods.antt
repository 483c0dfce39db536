-- ===== src/Session/Clipboard/Methods.antt =====
-- crates/session/src/clipboard.rs: the methods that read or make digests. SHA-256 is a parameter.
use tevir.Prelude.{
  ℕ, not, Option, none, some, List, [], ◌∷◌, ◌++◌, Result, ok, err, is_some, ◌==◌, if◌then◌else◌,
}
use tevir.Domain.Identity.{node_eq}
use tevir.Protocol.Clipboard
use tevir.Protocol.Clipboard.{
  ClipboardGeneration, ClipboardOffer, ClipboardText, ClipboardControl, ClipboardError,
  generation_eq, offer_eq, text_eq, new_text,
}
use tevir.Session.Clipboard.{
  ClipboardSession, ClipboardAction, ClipboardSessionError, IncomingClipboard, Stage, Outcome,
  is_ready, is_text, is_offer, is_transfer, next_sequence, stage_generation,
  receive_acknowledgement,
}

module _ (sha256 : List ℕ → List ℕ) where
  unfoldable pub local_changed : ClipboardSession → List ℕ → Outcome
  unfolding is_text next_sequence new_text
  local_changed s text =
      if is_text s.remote_text text then (s, ok []) else elim (s.next_local_sequence) [
        | none ↦ (s, err ClipboardSessionError.local_sequence_exhausted)
        | some sequence ↦
            let generation : ClipboardGeneration = record {
              owner = s.local_node;
              sequence = sequence;
            } in
            elim (new_text generation text) [
              | err e ↦ (s, err (ClipboardSessionError.clipboard e))
              | ok transfer ↦ (
                record s {
                  next_local_sequence = next_sequence sequence;
                  last_sent_local_sequence = sequence;
                  pending_local = some generation;
                  remote_text = none;
                },
                ok (
                    ClipboardAction.send_control
                      (ClipboardControl.offered (Clipboard.offer sha256 transfer))
                    ∷ ClipboardAction.send_transfer transfer
                    ∷ []),
              )
            ]
      ]

  -- `IncomingClipboard::verify`.
  unfoldable pub verify_incoming : IncomingClipboard → Result (Unit {0}) ClipboardSessionError
  verify_incoming i = elim (i.offer) [
    | none ↦ err ClipboardSessionError.state_invariant
    | some offer ↦ elim (i.transfer) [
      | none ↦ err ClipboardSessionError.state_invariant
      | some transfer ↦ elim (Clipboard.verify sha256 offer transfer) [
        | err e ↦ err (ClipboardSessionError.clipboard e)
        | ok _ ↦ ok tt
      ]
    ]
  ]

  -- `validate_incoming`, of the field that it reads.
  unfoldable pub validate_incoming :
      Option IncomingClipboard → Result (Unit {0}) ClipboardSessionError
  validate_incoming none = ok tt
  validate_incoming (some i) = elim (i.offer) [
    | none ↦ ok tt
    | some offer ↦ elim (i.transfer) [
      | none ↦ ok tt
      | some transfer ↦ elim (Clipboard.verify sha256 offer transfer) [
        | err e ↦ err (ClipboardSessionError.clipboard e)
        | ok _ ↦ ok tt
      ]
    ]
  ]

  -- The part of `begin_application` behind `take`; `s` is the session without its incoming text.
  unfoldable pub apply_ready :
      ClipboardSession
      → IncomingClipboard
      → ClipboardSession × Result (Option ClipboardAction) ClipboardSessionError
  unfolding verify_incoming
  apply_ready s i = elim (verify_incoming i) [
    | err e ↦ (s, err e)
    | ok _ ↦ elim (i.transfer) [
      | none ↦ (s, err ClipboardSessionError.state_invariant)
      | some transfer ↦
          (record s { applying = some i }, ok (some (ClipboardAction.apply_remote transfer)))
    ]
  ]

  unfoldable pub begin_application :
      ClipboardSession → ClipboardSession × Result (Option ClipboardAction) ClipboardSessionError
  unfolding is_ready apply_ready
  begin_application s = if is_some s.applying then (s, ok none) else elim (s.incoming) [
    | none ↦ (s, ok none)
    | some i ↦
        if not (is_ready i) then (s, ok none) else apply_ready (record s { incoming = none }) i
  ]

  -- `begin_application()?.into_iter().collect()`, behind the actions `before`.
  unfoldable pub begin_after : List ClipboardAction → ClipboardSession → Outcome
  unfolding begin_application
  begin_after before s =
      let begun = begin_application s in
      elim (begun.1) [
        | err e ↦ (begun.0, err e)
        | ok none ↦ (begun.0, ok before)
        | ok (some action) ↦ (begun.0, ok (before ++ action ∷ []))
      ]

  unfoldable pub finish_incoming : ClipboardSession → Outcome
  unfolding validate_incoming begin_after
  finish_incoming s = elim (validate_incoming s.incoming) [
    | err e ↦ (record s { incoming = none }, err e)
    | ok _ ↦ if is_some s.applying then (s, ok []) else begin_after [] s
  ]

  -- The arms of `receive_transfer` after the generation is staged.
  unfoldable pub take_transfer : Stage → ClipboardSession → ClipboardText → Outcome
  unfolding is_transfer finish_incoming
  take_transfer Stage.ignore s transfer = (s, ok [])
  take_transfer Stage.applying s transfer = elim (s.applying) [
    | none ↦ (s, err ClipboardSessionError.state_invariant)
    | some a ↦
        if is_transfer a.transfer transfer
        then (s, ok [])
        else (s, err (ClipboardSessionError.conflicting_transfer transfer.generation))
  ]
  take_transfer Stage.incoming s transfer = elim (s.incoming) [
    | none ↦ (s, err ClipboardSessionError.state_invariant)
    | some i ↦ elim (i.transfer) [
      | some existing ↦
          if not (existing == transfer)
          then (s, err (ClipboardSessionError.conflicting_transfer transfer.generation))
          else (s, ok [])
      | none ↦
          finish_incoming (record s { incoming = some (record i { transfer = some transfer }) })
    ]
  ]

  unfoldable pub receive_transfer : ClipboardSession → ClipboardText → Outcome
  unfolding stage_generation take_transfer
  receive_transfer s transfer =
      let staged = stage_generation s transfer.generation in
      elim (staged.1) [
        | err e ↦ (staged.0, err e)
        | ok stage ↦ take_transfer stage staged.0 transfer
      ]

  -- The arms of `receive_offer` after the generation is staged.
  unfoldable pub take_offer : Stage → ClipboardSession → ClipboardOffer → Outcome
  unfolding is_offer finish_incoming
  take_offer Stage.ignore s offer = (s, ok [])
  take_offer Stage.applying s offer = elim (s.applying) [
    | none ↦ (s, err ClipboardSessionError.state_invariant)
    | some a ↦
        if is_offer a.offer offer
        then (s, ok [])
        else (s, err (ClipboardSessionError.conflicting_offer offer.generation))
  ]
  take_offer Stage.incoming s offer = elim (s.incoming) [
    | none ↦ (s, err ClipboardSessionError.state_invariant)
    | some i ↦ elim (i.offer) [
      | some existing ↦
          if not (existing == offer)
          then (s, err (ClipboardSessionError.conflicting_offer offer.generation))
          else (s, ok [])
      | none ↦ finish_incoming (record s { incoming = some (record i { offer = some offer }) })
    ]
  ]

  unfoldable pub receive_offer : ClipboardSession → ClipboardOffer → Outcome
  unfolding stage_generation take_offer
  receive_offer s offer =
      let staged = stage_generation s offer.generation in
      elim (staged.1) [ err e ↦ (staged.0, err e) | ok stage ↦ take_offer stage staged.0 offer ]

  unfoldable pub receive_control : ClipboardSession → ClipboardControl → Outcome
  unfolding receive_offer receive_acknowledgement
  receive_control s (ClipboardControl.offered offer) = receive_offer s offer
  receive_control s (ClipboardControl.applied generation) =
      let received = receive_acknowledgement s generation in
      elim (received.1) [ err e ↦ (received.0, err e) | ok _ ↦ (received.0, ok []) ]

  -- The part of `confirm_applied` behind its checks, with the application taken.
  unfoldable pub complete_application :
      ClipboardSession → ClipboardGeneration → IncomingClipboard → Outcome
  unfolding begin_after
  complete_application s generation applied = elim (applied.transfer) [
    | none ↦ (record s { applying = none }, err ClipboardSessionError.state_invariant)
    | some transfer ↦
        begin_after (ClipboardAction.send_control (ClipboardControl.applied generation) ∷ [])
          (record s {
            applying = none;
            last_applied_remote_sequence = generation.sequence;
            remote_text = some transfer.text;
          })
  ]

  unfoldable pub confirm_applied : ClipboardSession → ClipboardGeneration → Outcome
  unfolding validate_incoming complete_application
  confirm_applied s generation = elim (s.applying) [
    | none ↦ (s, err ClipboardSessionError.no_application_pending)
    | some a ↦
        if not (a.generation == generation)
        then (
          s,
          err (ClipboardSessionError.application_generation_mismatch a.generation generation),
        )
        else elim (validate_incoming s.incoming) [
          | err e ↦ (s, err e)
          | ok _ ↦ complete_application s generation a
        ]
  ]
