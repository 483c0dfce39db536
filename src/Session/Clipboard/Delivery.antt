-- ===== src/Session/Clipboard/Delivery.antt =====
-- Which texts reach the native clipboard: the peer's, verified, one at a time and always a newer one.
use tevir.Prelude.{ℕ, ◌<◌, ◌≡◌, List, [], ◌∷◌, ◌++◌, arith, inl, inr, subst, ◌∙◌}
use tevir.Domain.Identity.{NodeId, node_eq}
use tevir.Protocol.Clipboard.{ClipboardText, generation_eq}
use tevir.Session.Clipboard.{ClipboardSession, Outcome}
use tevir.Session.Clipboard.Calls.{Call, changes, controls, transfers, confirms, step, handed_by}
use tevir.Session.Clipboard.Invariant.{IsValid}
use tevir.Session.Clipboard.Handing.{
  reached, Hands, local_changed-Hands, receive_control-Hands, receive_transfer-Hands,
  confirm_applied-Hands,
}
use tevir.Session.Clipboard.Steps.{step-Sound}

-- The texts that a sequence of calls hands over, in order.
unfoldable pub all_handed : (List ℕ → List ℕ) → ClipboardSession → List Call → List ClipboardText
all_handed sha256 s [] = []
all_handed sha256 s (c ∷ cs) =
    handed_by (step sha256 s c).1 ++ all_handed sha256 (step sha256 s c).0 cs

-- Texts of one peer whose sequences rise from above `low`.
abbrev pub Ascends : NodeId → ℕ → List ClipboardText → Type 0
Ascends peer low [] = Unit
Ascends peer low (t ∷ ts) =
    (t.generation.owner ≡ peer)
    × (low < t.generation.sequence)
    × Ascends peer t.generation.sequence ts

module _ (sha256 : List ℕ → List ℕ) where
  -- Whatever the call on a valid session: it hands over no text and the reached sequence stays, or it
  -- hands over exactly one, newer than the one reached before, which is then under application, is the
  -- peer's, and has passed the check against its offer.
  pub step-Hands :
      (s : ClipboardSession) (c : Call) → IsValid sha256 s → Hands sha256 s (step sha256 s c)
  unfolding step
  step-Hands s (changes text) v = local_changed-Hands sha256 s text
  step-Hands s (controls c) v = receive_control-Hands sha256 s c v
  step-Hands s (transfers t) v = receive_transfer-Hands sha256 s t v
  step-Hands s (confirms g) v = confirm_applied-Hands sha256 s g v

  Ascends-step :
      (s : ClipboardSession) (o : Outcome) (ts : List ClipboardText)
      → Hands sha256 s o
      → Ascends o.0.peer_node (reached o.0) ts
      → Ascends s.peer_node (reached s) (handed_by o.1 ++ ts)
  Ascends-step s (u, r) ts (same, inl (quiet, stays)) rest = rw quiet (
      subst (λ n. Ascends s.peer_node n ts) stays (subst (λ p. Ascends p (reached u) ts) same rest))
  Ascends-step s (u, r) ts (same, inr (t, one, above, (o, under, owner, checked))) rest =
      let at_t : reached u ≡ t.generation.sequence = ground arith in
      rw one (
        owner ∙ same,
        above,
        subst (λ n. Ascends s.peer_node n ts) at_t
            (subst (λ p. Ascends p (reached u) ts) same rest),
      )

  -- The texts that any sequence of calls on a valid session hands to the native clipboard are the
  -- peer's, and their sequences rise strictly, from above the one reached at the start: no text is
  -- handed over twice and none after a newer one.
  pub handed_ascending :
      (s : ClipboardSession) (cs : List Call)
      → IsValid sha256 s
      → Ascends s.peer_node (reached s) (all_handed sha256 s cs)
  unfolding all_handed
  handed_ascending s [] v = tt
  handed_ascending s (c ∷ cs) v =
      Ascends-step s (step sha256 s c) (all_handed sha256 (step sha256 s c).0 cs) (step-Hands s c v)
        (handed_ascending (step sha256 s c).0 cs (step-Sound sha256 s c v).0)
