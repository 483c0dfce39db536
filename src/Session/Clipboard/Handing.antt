-- ===== src/Session/Clipboard/Handing.antt =====
-- What each method of a clipboard session hands to the native clipboard.
use tevir.Prelude.{
  ℕ, ◌<◌, ◌≡◌, refl, none, some, List, [], ◌∷◌, ◌++◌, Result, ok, err, arith, ◌⊎◌, inl, inr, subst,
  sym, ap, ◌∙◌, not, ◌==◌, Option-cases, Result-cases, result-cases, option-cases, if-cases,
  is_some,
}
use tevir.Domain.Identity.{node_eq}
use tevir.Protocol.Clipboard
use tevir.Protocol.Clipboard.{
  ClipboardGeneration, ClipboardOffer, ClipboardText, ClipboardControl, generation_eq,
}
use tevir.Session.Clipboard.{
  ClipboardSession, ClipboardAction, ClipboardSessionError, IncomingClipboard, Stage, Outcome,
  stage_generation, is_generation,
}
use tevir.Session.Clipboard.Methods
use tevir.Session.Clipboard.Calls.{handed, handed_by}
use tevir.Session.Clipboard.Invariant.{IsStaged, IsValid}
use tevir.Session.Clipboard.Steps.{StageSound, stage_generation-Sound}

-- The sequence under application, or else the last one applied.
abbrev pub reached : ClipboardSession → ℕ
reached s = elim (s.applying) [
  | none ↦ s.last_applied_remote_sequence
  | some a ↦ a.generation.sequence
]

-- The text under application is this one, of the peer, and it passed the check of its offer.
abbrev pub UnderApplication : (List ℕ → List ℕ) → ClipboardSession → ClipboardText → Type 0
UnderApplication sha256 s t =
    (o : ClipboardOffer) × (s.applying
      ≡ some (record { generation = t.generation; offer = some o; transfer = some t }))
    × (t.generation.owner ≡ s.peer_node)
    × (Clipboard.verify sha256 o t ≡ ok tt)

-- A call hands over nothing and the reached sequence stays, or hands over one newer text.
abbrev pub Hands : (List ℕ → List ℕ) → ClipboardSession → Outcome → Type 0
Hands sha256 s (u, r) =
    (u.peer_node ≡ s.peer_node)
    × (((handed_by r ≡ []) × (reached u ≡ reached s))
        ⊎ ((t : ClipboardText) × (handed_by r ≡ t ∷ [])
            × (reached s < t.generation.sequence)
            × UnderApplication sha256 u t))

module _ (sha256 : List ℕ → List ℕ) where
  pub local_changed-Hands :
      (s : ClipboardSession) (text : List ℕ) → Hands sha256 s (Methods.local_changed sha256 s text)
  unfolding Methods.local_changed
  local_changed-Hands s text = ground arith

  stage_generation-same :
      (s : ClipboardSession) (g : ClipboardGeneration)
      → ((stage_generation s g).0.applying ≡ s.applying)
        × ((stage_generation s g).0.peer_node ≡ s.peer_node)
        × ((stage_generation s g).0.last_applied_remote_sequence ≡ s.last_applied_remote_sequence)
  unfolding stage_generation
  stage_generation-same s g = ground arith

  handed-append : (xs ys : List ClipboardAction) → handed (xs ++ ys) ≡ handed xs ++ handed ys
  handed-append [] ys = refl
  handed-append (ClipboardAction.send_control c ∷ xs) ys = handed-append xs ys
  handed-append (ClipboardAction.send_transfer t ∷ xs) ys = handed-append xs ys
  handed-append (ClipboardAction.apply_remote t ∷ xs) ys = ap (◌∷◌ t) (handed-append xs ys)

  -- A verified text is put under application and handed over.
  begin_after_verified :
      (before : List ClipboardAction) (s : ClipboardSession) (i : IncomingClipboard)
      (o : ClipboardOffer) (t : ClipboardText)
      → handed before ≡ []
      → s.applying ≡ none
      → s.incoming ≡ some i
      → i.offer ≡ some o
      → i.transfer ≡ some t
      → Clipboard.verify sha256 o t ≡ ok tt
      → let u = record s { incoming = none; applying = some i } in
        (Methods.begin_after sha256 before s
          ≡ (u, ok (before ++ ClipboardAction.apply_remote t ∷ [])))
        × (handed (before ++ ClipboardAction.apply_remote t ∷ []) ≡ t ∷ [])
  unfolding Methods.begin_after
  begin_after_verified before s i o t quiet idle there offered sent checked =
      (ground arith, rw (handed-append before (ClipboardAction.apply_remote t ∷ []), quiet))

  -- With nothing under application and behind actions that hand over nothing.
  begin_after-Hands :
      (before : List ClipboardAction) (s : ClipboardSession)
      → handed before ≡ []
      → s.applying ≡ none
      → IsStaged sha256 s
      → Hands sha256 s (Methods.begin_after sha256 before s)
  begin_after-Hands before s quiet idle v = elim (Option-cases s.incoming) [
    | inl nothing ↦ unfold Methods.begin_after in ground arith
    | inr (i, there) ↦ elim (Option-cases i.offer) [
      | inl nothing ↦ unfold Methods.begin_after in ground arith
      | inr (o, offered) ↦ elim (Option-cases i.transfer) [
        | inl nothing ↦ unfold Methods.begin_after in ground arith
        | inr (t, sent) ↦ elim (Result-cases (Clipboard.verify sha256 o t)) [
          | inr (e, failed) ↦ unfold Methods.begin_after in ground arith
          | inl (_, checked) ↦
              let (same, one) =
                begin_after_verified before s i o t quiet idle there offered sent checked in
              let whole : i
                  ≡ record { generation = t.generation; offer = some o; transfer = some t } =
                ground arith in
              subst (Hands sha256 s) (sym same)
                (refl, inr (t, one, ground arith, (o, ap some whole, ground arith, checked)))
        ]
      ]
    ]
  ]

  finish_incoming-Hands :
      (s : ClipboardSession) → IsStaged sha256 s → Hands sha256 s (Methods.finish_incoming sha256 s)
  unfolding Methods.finish_incoming
  finish_incoming-Hands s v =
      result-cases (Hands sha256 s) (Methods.validate_incoming sha256 s.incoming) _ _
        (λ _ _.
          if-cases (Hands sha256 s) (is_some s.applying) _ _ (λ _. (refl, inl (refl, refl)))
            (λ idle. begin_after-Hands [] s refl (ground arith) v))
        (λ e _. (refl, inl (refl, refl)))

  take_transfer-Hands :
      (stage : Stage) (s : ClipboardSession) (t : ClipboardText)
      → StageSound sha256 t.generation (s, ok stage)
      → Hands sha256 s (Methods.take_transfer sha256 stage s t)
  unfolding Methods.take_transfer
  take_transfer-Hands Stage.ignore s t v = (refl, inl (refl, refl))
  take_transfer-Hands Stage.applying s t v = ground arith
  take_transfer-Hands Stage.incoming s t v =
      option-cases (Hands sha256 s) s.incoming _ _ (λ _. (refl, inl (refl, refl)))
        λ i there.
          option-cases (Hands sha256 s) i.transfer _ _
            (λ missing.
              finish_incoming-Hands (record s { incoming = some (record i { transfer = some t }) })
                (unfold is_generation in
                  ground (arith, generation_eq.eq_iff i.generation t.generation)))
            (λ existing _. ground arith)

  take_offer-Hands :
      (stage : Stage) (s : ClipboardSession) (o : ClipboardOffer)
      → StageSound sha256 o.generation (s, ok stage)
      → Hands sha256 s (Methods.take_offer sha256 stage s o)
  unfolding Methods.take_offer
  take_offer-Hands Stage.ignore s o v = (refl, inl (refl, refl))
  take_offer-Hands Stage.applying s o v = ground arith
  take_offer-Hands Stage.incoming s o v =
      option-cases (Hands sha256 s) s.incoming _ _ (λ _. (refl, inl (refl, refl)))
        λ i there.
          option-cases (Hands sha256 s) i.offer _ _
            (λ missing.
              finish_incoming-Hands (record s { incoming = some (record i { offer = some o }) })
                (unfold is_generation in
                  ground (arith, generation_eq.eq_iff i.generation o.generation)))
            (λ existing _. ground arith)

  -- Staging a generation touches nothing that is under application or applied.
  Hands-same :
      (s u : ClipboardSession) (o : Outcome)
      → reached u ≡ reached s
      → u.peer_node ≡ s.peer_node
      → Hands sha256 u o
      → Hands sha256 s o
  Hands-same s u o e p (q, inl (quiet, stays)) = (q ∙ p, inl (quiet, stays ∙ e))
  Hands-same s u o e p (q, inr (t, one, above, under)) = (q ∙ p, inr (t, one, omega arith, under))

  after_stage-Hands :
      (s : ClipboardSession) (g : ClipboardGeneration) (take : Stage → ClipboardSession → Outcome)
      (staged : ClipboardSession × Result Stage ClipboardSessionError)
      → StageSound sha256 g staged
      → (staged.0.applying ≡ s.applying)
        × (staged.0.peer_node ≡ s.peer_node)
        × (staged.0.last_applied_remote_sequence ≡ s.last_applied_remote_sequence)
      → ((stage : Stage) (t : ClipboardSession)
          → StageSound sha256 g (t, ok stage)
          → Hands sha256 t (take stage t))
      → Hands sha256 s
          (elim (staged.1) [ err e ↦ (staged.0, err e) | ok stage ↦ take stage staged.0 ])
  after_stage-Hands s g take (u, err e) v same f = (same.1, inl (refl, ground arith))
  after_stage-Hands s g take (u, ok stage) v same f =
      Hands-same s u (take stage u) (ground arith) same.1 (f stage u v)

  pub receive_transfer-Hands :
      (s : ClipboardSession) (t : ClipboardText)
      → IsValid sha256 s
      → Hands sha256 s (Methods.receive_transfer sha256 s t)
  unfolding Methods.receive_transfer
  receive_transfer-Hands s t v =
      after_stage-Hands s t.generation (λ stage u. Methods.take_transfer sha256 stage u t)
        (stage_generation s t.generation) (stage_generation-Sound sha256 s t.generation v)
        (stage_generation-same s t.generation) (λ stage u k. take_transfer-Hands stage u t k)

  receive_offer-Hands :
      (s : ClipboardSession) (o : ClipboardOffer)
      → IsValid sha256 s
      → Hands sha256 s (Methods.receive_offer sha256 s o)
  unfolding Methods.receive_offer
  receive_offer-Hands s o v =
      after_stage-Hands s o.generation (λ stage u. Methods.take_offer sha256 stage u o)
        (stage_generation s o.generation) (stage_generation-Sound sha256 s o.generation v)
        (stage_generation-same s o.generation) (λ stage u k. take_offer-Hands stage u o k)

  acknowledged-Hands :
      (s : ClipboardSession) (g : ClipboardGeneration)
      → Hands sha256 s (Methods.receive_control sha256 s (ClipboardControl.applied g))
  unfolding Methods.receive_control
  acknowledged-Hands s g = ground arith

  pub receive_control-Hands :
      (s : ClipboardSession) (c : ClipboardControl)
      → IsValid sha256 s
      → Hands sha256 s (Methods.receive_control sha256 s c)
  unfolding Methods.receive_control
  receive_control-Hands s (ClipboardControl.offered o) v = receive_offer-Hands s o v
  receive_control-Hands s (ClipboardControl.applied g) v = acknowledged-Hands s g

  pub confirm_applied-Hands :
      (s : ClipboardSession) (g : ClipboardGeneration)
      → IsValid sha256 s
      → Hands sha256 s (Methods.confirm_applied sha256 s g)
  unfolding Methods.confirm_applied
  confirm_applied-Hands s g v =
      option-cases (Hands sha256 s) s.applying _ _ (λ _. (refl, inl (refl, refl)))
        λ a there.
          if-cases (Hands sha256 s) (not (a.generation == g)) _ _ (λ _. (refl, inl (refl, refl)))
            λ hit.
              result-cases (Hands sha256 s) (Methods.validate_incoming sha256 s.incoming) _ _
                (λ _ _.
                  option-cases (Hands sha256 s) a.transfer _ _ (λ none_. absurd (ground arith))
                    λ t sent.
                      let u = record s {
                        applying = none;
                        last_applied_remote_sequence = g.sequence;
                        remote_text = some t.text;
                      } in
                      let before : List ClipboardAction =
                        ClipboardAction.send_control (ClipboardControl.applied g) ∷ [] in
                      Hands-same s u (Methods.begin_after sha256 before u)
                        (ground (arith, generation_eq.eq_iff a.generation g)) refl
                        (begin_after-Hands before u refl refl
                          (ground (arith, generation_eq.eq_iff a.generation g))))
                (λ e _. (refl, inl (refl, refl)))
