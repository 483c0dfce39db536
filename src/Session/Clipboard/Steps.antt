-- ===== src/Session/Clipboard/Steps.antt =====
-- Every call on a clipboard session keeps its invariant and never meets the error of a broken one.
use tevir.Prelude.{ℕ, ◌≡◌, ◌≢◌, true, none, List, Result, ok, err, arith}
use tevir.Domain.Identity.{node_eq}
use tevir.Protocol.Clipboard.{
  ClipboardGeneration, ClipboardOffer, ClipboardText, ClipboardControl, generation_eq, offer_eq,
  text_eq,
}
use tevir.Session.Clipboard.{
  ClipboardSession, ClipboardAction, ClipboardSessionError, Stage, Outcome, is_ready,
  stage_generation, is_generation,
}
use tevir.Session.Clipboard.Methods
use tevir.Session.Clipboard.Calls.{Call, changes, controls, transfers, confirms, step}
use tevir.Session.Clipboard.Invariant.{IsStaged, IsValid}

-- A call leaves a valid session, and not the error for a broken invariant.
abbrev pub Sound : (List ℕ → List ℕ) → Outcome → Type 0
Sound sha256 (t, r) = IsValid sha256 t × (r ≢ err ClipboardSessionError.state_invariant)

module _ (sha256 : List ℕ → List ℕ) where
  local_changed-Sound :
      (s : ClipboardSession) (text : List ℕ)
      → IsValid sha256 s
      → Sound sha256 (Methods.local_changed sha256 s text)
  unfolding Methods.local_changed
  local_changed-Sound s text v = ground arith

  -- Of a session with nothing under application and a checked incoming text.
  begin_after-Sound :
      (before : List ClipboardAction) (s : ClipboardSession)
      → IsStaged sha256 s
      → s.applying ≡ none
      → Methods.validate_incoming sha256 s.incoming ≡ ok tt
      → Sound sha256 (Methods.begin_after sha256 before s)
  unfolding Methods.begin_after Methods.validate_incoming
  begin_after-Sound before s v idle checked = ground arith

  finish_incoming-Sound :
      (s : ClipboardSession) → IsStaged sha256 s → Sound sha256 (Methods.finish_incoming sha256 s)
  unfolding Methods.finish_incoming Methods.validate_incoming
  finish_incoming-Sound s v = ground arith

  -- What staging a generation leaves: the session as it was for an old generation or for the one under
  -- application, and otherwise a valid session that waits for that generation.
  abbrev pub StageSound :
      ClipboardGeneration → ClipboardSession × Result Stage ClipboardSessionError → Type 0
  StageSound g (t, ok Stage.ignore) = IsValid sha256 t
  StageSound g (t, ok Stage.applying) = IsValid sha256 t × (is_generation t.applying g ≡ true)
  StageSound g (t, ok Stage.incoming) = IsValid sha256 t × (is_generation t.incoming g ≡ true)
  StageSound g (t, err e) = IsValid sha256 t × (e ≢ ClipboardSessionError.state_invariant)

  pub stage_generation-Sound :
      (s : ClipboardSession) (g : ClipboardGeneration)
      → IsValid sha256 s
      → StageSound g (stage_generation s g)
  unfolding stage_generation is_ready Methods.validate_incoming
  stage_generation-Sound s g v =
      ground (arith, node_eq.eq_iff g.owner s.peer_node, generation_eq.eq_iff g g)

  take_transfer-Sound :
      (stage : Stage) (s : ClipboardSession) (t : ClipboardText)
      → StageSound t.generation (s, ok stage)
      → Sound sha256 (Methods.take_transfer sha256 stage s t)
  unfolding Methods.take_transfer is_generation
  take_transfer-Sound Stage.ignore s t v = ground arith
  take_transfer-Sound Stage.applying s t v = ground arith
  take_transfer-Sound Stage.incoming s t v =
      ground (arith, generation_eq.eq_iff t.generation t.generation)

  take_offer-Sound :
      (stage : Stage) (s : ClipboardSession) (o : ClipboardOffer)
      → StageSound o.generation (s, ok stage)
      → Sound sha256 (Methods.take_offer sha256 stage s o)
  unfolding Methods.take_offer is_generation
  take_offer-Sound Stage.ignore s o v = ground arith
  take_offer-Sound Stage.applying s o v = ground arith
  take_offer-Sound Stage.incoming s o v =
      ground (arith, generation_eq.eq_iff o.generation o.generation)

  after_stage :
      (g : ClipboardGeneration) (staged : ClipboardSession × Result Stage ClipboardSessionError)
      (take : Stage → ClipboardSession → Outcome)
      → StageSound g staged
      → ((stage : Stage) (t : ClipboardSession)
          → StageSound g (t, ok stage)
          → Sound sha256 (take stage t))
      → Sound sha256
          (elim (staged.1) [ err e ↦ (staged.0, err e) | ok stage ↦ take stage staged.0 ])
  after_stage g (t, ok stage) take v f = f stage t v
  after_stage g (t, err e) take v f = ground arith

  receive_transfer-Sound :
      (s : ClipboardSession) (t : ClipboardText)
      → IsValid sha256 s
      → Sound sha256 (Methods.receive_transfer sha256 s t)
  unfolding Methods.receive_transfer
  receive_transfer-Sound s t v =
      after_stage t.generation (stage_generation s t.generation)
        (λ stage u. Methods.take_transfer sha256 stage u t)
        (stage_generation-Sound s t.generation v) (λ stage u k. take_transfer-Sound stage u t k)

  receive_offer-Sound :
      (s : ClipboardSession) (o : ClipboardOffer)
      → IsValid sha256 s
      → Sound sha256 (Methods.receive_offer sha256 s o)
  unfolding Methods.receive_offer
  receive_offer-Sound s o v =
      after_stage o.generation (stage_generation s o.generation)
        (λ stage u. Methods.take_offer sha256 stage u o) (stage_generation-Sound s o.generation v)
        (λ stage u k. take_offer-Sound stage u o k)

  acknowledged-Sound :
      (s : ClipboardSession) (g : ClipboardGeneration)
      → IsValid sha256 s
      → Sound sha256 (Methods.receive_control sha256 s (ClipboardControl.applied g))
  unfolding Methods.receive_control
  acknowledged-Sound s g v = ground arith

  receive_control-Sound :
      (s : ClipboardSession) (c : ClipboardControl)
      → IsValid sha256 s
      → Sound sha256 (Methods.receive_control sha256 s c)
  unfolding Methods.receive_control
  receive_control-Sound s (ClipboardControl.offered o) v = receive_offer-Sound s o v
  receive_control-Sound s (ClipboardControl.applied g) v = acknowledged-Sound s g v

  confirm_applied-Sound :
      (s : ClipboardSession) (g : ClipboardGeneration)
      → IsValid sha256 s
      → Sound sha256 (Methods.confirm_applied sha256 s g)
  unfolding Methods.confirm_applied
  confirm_applied-Sound s g v = ground arith

  -- Every call, with a failing call too, keeps the invariant, and none fails for a broken invariant.
  pub step-Sound :
      (s : ClipboardSession) (c : Call) → IsValid sha256 s → Sound sha256 (step sha256 s c)
  unfolding step
  step-Sound s (changes text) v = local_changed-Sound s text v
  step-Sound s (controls c) v = receive_control-Sound s c v
  step-Sound s (transfers t) v = receive_transfer-Sound s t v
  step-Sound s (confirms g) v = confirm_applied-Sound s g v
