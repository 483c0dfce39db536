-- ===== src/Protocol/Clipboard/Examples.antt =====
-- A clipboard text and a serializer of its own, at the theorem on frames.
use tevir.Prelude.{ℕ, ◌≤◌, ◌≡◌, refl, List, [], ◌∷◌, Result, ok, err, length, arith}
use tevir.Protocol.Clipboard.{ClipboardText, max_clipboard_text_bytes, max_clipboard_frame_bytes}
use tevir.Protocol.Clipboard.Framing.{encode, decode, decode-encode_text}

-- The owner in one byte, then the sequence, then the text.
abbrev serializer : ClipboardText → Result (List ℕ) ℕ
serializer t = elim (t.generation.owner.value) [
  | [] ↦ err 1
  | byte ∷ bytes ↦ elim bytes [ [] ↦ ok (byte ∷ t.generation.sequence ∷ t.text) | _ ↦ err 1 ]
]

abbrev deserializer : List ℕ → Result ClipboardText ℕ
deserializer (byte ∷ sequence ∷ text) = ok (record {
  generation = record { owner = record { value = byte ∷ [] }; sequence = sequence };
  text = text;
})
deserializer _ = err 2

gives_back :
    (t : ClipboardText) (bytes : List ℕ) → serializer t ≡ ok bytes → deserializer bytes ≡ ok t
gives_back t bytes h = ground arith

abbrev note : ClipboardText
note = record {
  generation = record { owner = record { value = b'l' ∷ [] }; sequence = 7 };
  text = b'h' ∷ b'i' ∷ [];
}

abbrev frame : List ℕ
frame = b'l' ∷ 7 ∷ b'h' ∷ b'i' ∷ []

encoded : encode serializer note ≡ ok frame
unfolding encode
encoded = refl

decode-encode_text_example :
    (decode deserializer frame ≡ ok note)
    × (length note.text ≤ max_clipboard_text_bytes)
    × (length frame ≤ max_clipboard_frame_bytes)
decode-encode_text_example =
    decode-encode_text serializer deserializer note frame gives_back encoded
