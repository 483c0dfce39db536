-- ===== src/Protocol/Codec/Examples.antt =====
-- Frames of a serializer that knows heartbeats only, each in one byte.
use tevir.Prelude.{ℕ, ◌≡◌, refl, some, List, [], ◌∷◌, ◌++◌, Result, ok, err, arith}
use tevir.Protocol.Message.{Envelope, Session, validate}
use tevir.Protocol.Codec.{FrameCodec, be_bytes, from_be_bytes, encode, decode}
use tevir.Protocol.Codec.Frames.{Taken, decode-encode, decode_sound}

abbrev serializer : Envelope → Result (List ℕ) ℕ
serializer (Envelope.session (Session.heartbeat nonce)) = ok (nonce ∷ [])
serializer _ = err 1

abbrev deserializer : List ℕ → Result Envelope ℕ
deserializer (nonce ∷ []) = ok (Envelope.session (Session.heartbeat nonce))
deserializer _ = err 2

gives_back : (m : Envelope) (bytes : List ℕ) → serializer m ≡ ok bytes → deserializer bytes ≡ ok m
gives_back (Envelope.session (Session.heartbeat nonce)) bytes h = ground arith
gives_back (Envelope.handshake message) bytes h = absurd (ground arith)
gives_back (Envelope.session message) bytes h = absurd (ground arith)

abbrev small : FrameCodec
small = record { maximum_frame_bytes = 32 }

abbrev beat : Envelope
beat = Envelope.session (Session.heartbeat 7)

abbrev frame : List ℕ
frame = 0 ∷ 0 ∷ 0 ∷ 1 ∷ 7 ∷ []

encoded : encode serializer small beat ≡ ok frame
unfolding encode validate be_bytes
encoded = refl

decoded : decode deserializer small (frame ++ 9 ∷ []) ≡ (9 ∷ [], ok (some beat))
unfolding decode from_be_bytes validate
decoded = refl

decode-encode_example : decode deserializer small (frame ++ 9 ∷ []) ≡ (9 ∷ [], ok (some beat))
decode-encode_example =
    decode-encode serializer deserializer small beat frame (9 ∷ []) gives_back encoded

decode_sound_example : Taken deserializer small (frame ++ 9 ∷ []) (9 ∷ []) beat
decode_sound_example = decode_sound deserializer small (frame ++ 9 ∷ []) (9 ∷ []) beat decoded
