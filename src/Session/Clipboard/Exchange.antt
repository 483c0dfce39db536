-- ===== src/Session/Clipboard/Exchange.antt =====
-- Two sides of a clipboard exchange together: a change on one side arrives on the other and is
-- acknowledged, whichever of its two messages comes first.
use tevir.Prelude.{
  ℕ, ◌≤◌, ◌<◌, ◌≡◌, refl, false, Option, none, some, List, [], ◌∷◌, ok, length, arith, subst, sym,
  ap, ◌∙◌,
}
use tevir.Domain.Identity.{node_eq}
use tevir.Protocol.Clipboard
use tevir.Protocol.Clipboard.{
  ClipboardGeneration, ClipboardOffer, ClipboardText, ClipboardControl, generation_eq, bytes_eq,
  max_clipboard_text_bytes,
}
use tevir.Protocol.Clipboard.Offers.{verify-offer}
use tevir.Session.Clipboard.{
  ClipboardSession, ClipboardAction, is_text, next_sequence, is_ready, IncomingClipboard,
}
use tevir.Session.Clipboard.Methods
use tevir.Session.Clipboard.Invariant.{IsValid}

-- The session after the messages of a newer text that have come so far.
abbrev pub staged :
    ClipboardSession
    → ClipboardGeneration
    → Option ClipboardOffer
    → Option ClipboardText
    → ClipboardSession
staged b g o t = record b {
  highest_remote_sequence = g.sequence;
  incoming = some (record { generation = g; offer = o; transfer = t });
}

-- A text of the peer, newer than any heard of.
abbrev pub IsNews : ClipboardSession → ClipboardGeneration → Type 0
IsNews b g = (g.owner ≡ b.peer_node) × (b.highest_remote_sequence < g.sequence)

module _ (sha256 : List ℕ → List ℕ) where
  offer_first :
      (b : ClipboardSession) (o : ClipboardOffer)
      → IsValid sha256 b
      → IsNews b o.generation
      → Methods.receive_offer sha256 b o ≡ (staged b o.generation (some o) none, ok [])
  unfolding Methods.receive_offer
  offer_first b o v (owner, newer) = ground (
    arith,
    v.staged.applied_bound,
    node_eq.eq_iff o.generation.owner b.peer_node,
    generation_eq.eq_iff o.generation o.generation,
  )

  transfer_first :
      (b : ClipboardSession) (t : ClipboardText)
      → IsValid sha256 b
      → IsNews b t.generation
      → Methods.receive_transfer sha256 b t ≡ (staged b t.generation none (some t), ok [])
  unfolding Methods.receive_transfer
  transfer_first b t v (owner, newer) = ground (
    arith,
    v.staged.applied_bound,
    node_eq.eq_iff t.generation.owner b.peer_node,
    generation_eq.eq_iff t.generation t.generation,
  )

  transfer_second :
      (b : ClipboardSession) (o : ClipboardOffer) (t : ClipboardText)
      → IsValid sha256 b
      → IsNews b t.generation
      → Methods.receive_transfer sha256 (staged b t.generation (some o) none) t
        ≡ Methods.finish_incoming sha256 (staged b t.generation (some o) (some t))
  unfolding Methods.receive_transfer
  transfer_second b o t v (owner, newer) = ground (
    arith,
    v.staged.applied_bound,
    node_eq.eq_iff t.generation.owner b.peer_node,
    generation_eq.eq_iff t.generation t.generation,
  )

  offer_second :
      (b : ClipboardSession) (o : ClipboardOffer) (t : ClipboardText)
      → IsValid sha256 b
      → IsNews b o.generation
      → Methods.receive_offer sha256 (staged b o.generation none (some t)) o
        ≡ Methods.finish_incoming sha256 (staged b o.generation (some o) (some t))
  unfolding Methods.receive_offer
  offer_second b o t v (owner, newer) = ground (
    arith,
    v.staged.applied_bound,
    node_eq.eq_iff o.generation.owner b.peer_node,
    generation_eq.eq_iff o.generation o.generation,
  )

  -- On a valid session that has heard of nothing as new, the offer and the transfer of a text of the
  -- peer may come in either order: the first is taken without an action, and after the second the
  -- session and the answer are the same, a refusal included.
  pub arrival_order :
      (b : ClipboardSession) (o : ClipboardOffer) (t : ClipboardText)
      → IsValid sha256 b
      → o.generation ≡ t.generation
      → IsNews b t.generation
      → let by_offer = Methods.receive_offer sha256 b o in
        let by_transfer = Methods.receive_transfer sha256 b t in
        (by_offer.1 ≡ ok [])
        × (by_transfer.1 ≡ ok [])
        × (Methods.receive_transfer sha256 by_offer.0 t
            ≡ Methods.receive_offer sha256 by_transfer.0 o)
  arrival_order b o t v same news =
      let by_offer = offer_first b o v (subst (IsNews b) (sym same) news) in
      let by_transfer = transfer_first b t v news in
      let moved =
        λ (g : ClipboardGeneration). Methods.receive_offer sha256 (staged b g none (some t)) o in
      let both = λ (g : ClipboardGeneration).
        Methods.finish_incoming sha256 (staged b g (some o) (some t)) in
      let later =
        λ (g : ClipboardGeneration). Methods.receive_transfer sha256 (staged b g (some o) none) t in
      (
        ap (λ r. r.1) by_offer,
        ap (λ r. r.1) by_transfer,
        ap (λ r. Methods.receive_transfer sha256 r.0 t) by_offer
            ∙ ap later same
            ∙ transfer_second b o t v news
            ∙ ap both (sym same)
            ∙ sym (offer_second b o t v (subst (IsNews b) (sym same) news))
            ∙ ap moved same
            ∙ sym (ap (λ r. Methods.receive_offer sha256 r.0 o) by_transfer),
      )

  finish_verified :
      (b : ClipboardSession) (o : ClipboardOffer) (t : ClipboardText)
      → b.applying ≡ none
      → Clipboard.verify sha256 o t ≡ ok tt
      → let whole : IncomingClipboard = record {
        generation = t.generation;
        offer = some o;
        transfer = some t;
      } in
        Methods.finish_incoming sha256 (staged b t.generation (some o) (some t)) ≡ (
          record b {
            highest_remote_sequence = t.generation.sequence;
            incoming = none;
            applying = some whole;
          },
          ok (ClipboardAction.apply_remote t ∷ []),
        )
  unfolding Methods.finish_incoming is_ready Methods.verify_incoming
  finish_verified b o t idle checked = ground arith

  changed :
      (a : ClipboardSession) (text : List ℕ) (n : ℕ)
      → a.next_local_sequence ≡ some n
      → is_text a.remote_text text ≡ false
      → length text ≤ max_clipboard_text_bytes
      → let g : ClipboardGeneration = record { owner = a.local_node; sequence = n } in
        let t : ClipboardText = record { generation = g; text = text } in
        Methods.local_changed sha256 a text ≡ (
          record a {
            next_local_sequence = next_sequence n;
            last_sent_local_sequence = n;
            pending_local = some g;
            remote_text = none;
          },
          ok (
              ClipboardAction.send_control (ClipboardControl.offered (Clipboard.offer sha256 t))
              ∷ ClipboardAction.send_transfer t
              ∷ []),
        )
  unfolding Methods.local_changed
  changed a text n next fresh short = ground arith

  acknowledged :
      (a : ClipboardSession) (n : ℕ)
      → a.pending_local ≡ some (record { owner = a.local_node; sequence = n })
      → a.last_sent_local_sequence ≡ n
      → a.last_acknowledged_local_sequence < n
      → Methods.receive_control sha256 a
          (ClipboardControl.applied (record { owner = a.local_node; sequence = n }))
        ≡ (record a { last_acknowledged_local_sequence = n; pending_local = none }, ok [])
  unfolding Methods.receive_control
  acknowledged a n pending sent before = ground (arith, node_eq.eq_iff a.local_node a.local_node)

  confirmed :
      (b : ClipboardSession) (o : ClipboardOffer) (t : ClipboardText)
      → b.incoming ≡ none
      → b.applying ≡ some (record { generation = t.generation; offer = some o; transfer = some t })
      → Methods.confirm_applied sha256 b t.generation ≡ (
        record b {
          applying = none;
          last_applied_remote_sequence = t.generation.sequence;
          remote_text = some t.text;
        },
        ok (ClipboardAction.send_control (ClipboardControl.applied t.generation) ∷ []),
      )
  unfolding Methods.confirm_applied
  confirmed b o t nothing there = ground (arith, generation_eq.eq_iff t.generation t.generation)

  no_echo :
      (b : ClipboardSession) (text : List ℕ)
      → b.remote_text ≡ some text
      → Methods.local_changed sha256 b text ≡ (b, ok [])
  unfolding Methods.local_changed
  no_echo b text same = ground (arith, bytes_eq.eq_iff text text)

  -- The next sequence is above the acknowledged ones.
  next_is_after :
      (a : ClipboardSession) (n : ℕ)
      → IsValid sha256 a
      → a.next_local_sequence ≡ some n
      → a.last_acknowledged_local_sequence < n
  next_is_after a n v next = ground arith

  -- A change of the text on one side, of at most the maximal length and not one that came from the
  -- other side, with sequences left, is offered and sent. If the other side is this side's peer, has
  -- heard of nothing as new and applies nothing, it takes the offer, and hands the text to its native
  -- clipboard when the transfer comes; its confirmation is answered by the message that the text was
  -- applied; that message leaves nothing pending on the first side; and the change that the other
  -- side's own clipboard then reports is not sent back.
  pub exchange :
      (a b : ClipboardSession) (text : List ℕ) (n : ℕ)
      → IsValid sha256 a
      → IsValid sha256 b
      → b.peer_node ≡ a.local_node
      → a.next_local_sequence ≡ some n
      → is_text a.remote_text text ≡ false
      → length text ≤ max_clipboard_text_bytes
      → b.highest_remote_sequence < n
      → b.applying ≡ none
      → let g : ClipboardGeneration = record { owner = a.local_node; sequence = n } in
        let t : ClipboardText = record { generation = g; text = text } in
        let o = Clipboard.offer sha256 t in
        let sent = Methods.local_changed sha256 a text in
        let offered = Methods.receive_control sha256 b (ClipboardControl.offered o) in
        let arrived = Methods.receive_transfer sha256 offered.0 t in
        let done = Methods.confirm_applied sha256 arrived.0 g in
        let heard = Methods.receive_control sha256 sent.0 (ClipboardControl.applied g) in
        (sent.1
          ≡ ok (
              ClipboardAction.send_control (ClipboardControl.offered o)
              ∷ ClipboardAction.send_transfer t
              ∷ []))
        × (offered.1 ≡ ok [])
        × (arrived.1 ≡ ok (ClipboardAction.apply_remote t ∷ []))
        × (done.1 ≡ ok (ClipboardAction.send_control (ClipboardControl.applied g) ∷ []))
        × (heard.1 ≡ ok [])
        × (heard.0.pending_local ≡ none)
        × (heard.0.last_acknowledged_local_sequence ≡ n)
        × (Methods.local_changed sha256 done.0 text ≡ (done.0, ok []))
  exchange a b text n va vb peer next fresh short newer idle =
      let g : ClipboardGeneration = record { owner = a.local_node; sequence = n } in
      let t : ClipboardText = record { generation = g; text = text } in
      let o = Clipboard.offer sha256 t in
      let checked = verify-offer sha256 t (omega arith) in
      let taken : Methods.receive_control sha256 b (ClipboardControl.offered o)
          ≡ (staged b g (some o) none, ok []) =
        unfold Methods.receive_control Clipboard.offer in offer_first b o vb (sym peer, newer) in
      let handed =
        transfer_second b o t vb (sym peer, newer) ∙ finish_verified b o t idle checked in
      let whole : IncomingClipboard = record {
        generation = g;
        offer = some o;
        transfer = some t;
      } in
      let u = record b { highest_remote_sequence = n; incoming = none; applying = some whole } in
      let d = record u {
        applying = none;
        last_applied_remote_sequence = n;
        remote_text = some text;
      } in
      let a' = record a {
        next_local_sequence = next_sequence n;
        last_sent_local_sequence = n;
        pending_local = some g;
        remote_text = none;
      } in
      let sequence = next_is_after a n va next in
      rw
        (
          changed a text n next fresh short,
          taken,
          handed,
          confirmed u o t refl refl,
          acknowledged a' n refl refl sequence,
          no_echo d text refl,
        )
        (refl, refl, refl, refl, refl, refl, refl, refl)
