-- ===== src/Protocol/Clipboard/Offers.antt =====
-- crates/protocol/src/clipboard.rs: an offer is verified by the text that it was made from, and only
-- by a text of its generation, length and digest.
use tevir.Prelude.{ℕ, ◌≤◌, ◌≡◌, ◌↔◌, List, ok, length, u32_max, arith}
use tevir.Protocol.Clipboard.{ClipboardOffer, ClipboardText, generation_eq, bytes_eq, offer, verify}

module _ (sha256 : List ℕ → List ℕ) where
  pub verify-offer :
      (t : ClipboardText) → length t.text ≤ u32_max → verify sha256 (offer sha256 t) t ≡ ok tt
  unfolding verify offer
  verify-offer t h = ground (
    arith,
    generation_eq.eq_iff t.generation t.generation,
    bytes_eq.eq_iff (sha256 t.text) (sha256 t.text),
  )

  -- A transfer passes the check of an offer exactly if it has the offer's generation, as many bytes as
  -- the offer says, and a text of the offer's digest.
  pub verify_lem :
      (o : ClipboardOffer) (t : ClipboardText)
      → (verify sha256 o t ≡ ok tt) ↔ (
          (o.generation ≡ t.generation)
          × (o.text_bytes ≡ length t.text)
          × (o.digest ≡ sha256 t.text))
  unfolding verify
  verify_lem o t = ground (
    arith,
    generation_eq.eq_iff o.generation t.generation,
    bytes_eq.eq_iff o.digest (sha256 t.text),
  )
