-- ===== src/Protocol/Clipboard/Framing.antt =====
-- crates/protocol/src/clipboard.rs, `ClipboardText::encode` and `decode`. The serializer (postcard) is
-- a parameter; the model's errors of it carry no detail.
use tevir.Prelude.{
  ℕ, ◌≤◌, ◌≡◌, List, Result, ok, err, length, ltb, Result-cases, inl, inr, if◌then◌else◌, arith,
}
use tevir.Prelude.Fallible.{◌>>=◌, ◌>>◌, map_err}
use tevir.Protocol.Clipboard.{
  ClipboardText, ClipboardError, validate_text_length, max_clipboard_text_bytes,
  max_clipboard_frame_bytes,
}

-- The two tests of a frame's length.
unfoldable pub validate_frame_bytes : ℕ → Result (Unit {0}) ClipboardError
validate_frame_bytes actual =
    if ltb max_clipboard_frame_bytes actual
    then err (ClipboardError.frame_too_large actual max_clipboard_frame_bytes)
    else ok tt

module _ {E : Type 0} (to_stdvec : ClipboardText → Result (List ℕ) E) where
  unfoldable pub encode : ClipboardText → Result (List ℕ) ClipboardError
  unfolding validate_text_length validate_frame_bytes
  encode t = do
    validate_text_length (length t.text)
    encoded ← map_err (λ _. ClipboardError.serialize) (to_stdvec t)
    validate_frame_bytes (length encoded)
    ok encoded

module _ {E : Type 0} (from_bytes : List ℕ → Result ClipboardText E) where
  unfoldable pub decode : List ℕ → Result ClipboardText ClipboardError
  unfolding validate_text_length validate_frame_bytes
  decode encoded = do
    validate_frame_bytes (length encoded)
    transfer ← map_err (λ _. ClipboardError.deserialize) (from_bytes encoded)
    validate_text_length (length transfer.text)
    ok transfer

-- A text that was encoded decodes to itself, and both its bytes and its frame are within their limits,
-- if the serializer gives back what it has written.
pub decode-encode_text :
    {E : Type 0} (to_stdvec : ClipboardText → Result (List ℕ) E)
    (from_bytes : List ℕ → Result ClipboardText E) (t : ClipboardText) (frame : List ℕ)
    → ((u : ClipboardText) (bytes : List ℕ) → to_stdvec u ≡ ok bytes → from_bytes bytes ≡ ok u)
    → encode to_stdvec t ≡ ok frame
    → (decode from_bytes frame ≡ ok t)
      × (length t.text ≤ max_clipboard_text_bytes)
      × (length frame ≤ max_clipboard_frame_bytes)
unfolding encode decode
decode-encode_text to_stdvec from_bytes t frame back h = elim (Result-cases (to_stdvec t)) [
  | inr (e, failed) ↦ absurd (ground arith)
  | inl (bytes, written) ↦ ground (arith, back t bytes written)
]
