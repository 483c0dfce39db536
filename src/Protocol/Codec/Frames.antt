-- ===== src/Protocol/Codec/Frames.antt =====
-- Frames are read back whole, wait while they are incomplete, and hold only valid messages in bounds.
use tevir.Prelude.{
  ℕ, zero, suc, ◌+◌, ◌≤◌, ◌<◌, ◌≡◌, refl, ap, sym, ◌∙◌, none, some, List, ◌++◌, Result, ok, length,
  length-append, length-take, length-drop, take-append, drop-append, take-drop, take, drop, u32_max,
  arith, Result-cases, Option-cases, Bool-cases, ltb, subst, inl, inr,
}
use mathlib.Core.List.{append_assoc}
use tevir.Protocol.Message.{Envelope, validate}
use tevir.Protocol.Codec.{
  FrameCodec, be_bytes, from_be_bytes, encode, decode, open_payload, length_prefix_bytes,
}

-- The four bytes of a `u32` give it back.
pub from_be_bytes-be_bytes : (n : ℕ) → n ≤ u32_max → from_be_bytes (be_bytes n) ≡ some n
unfolding from_be_bytes be_bytes
from_be_bytes-be_bytes n h = ap some (omega arith)

module _ {E : Type 0} (to_stdvec : Envelope → Result (List ℕ) E) where
  -- What a successful `encode` has done.
  pub record Framed (c : FrameCodec) (message : Envelope) (frame : List ℕ) : Type 0 where
    pub payload : List ℕ
    pub serialized : to_stdvec message ≡ ok payload
    pub valid : validate message ≡ ok tt
    pub bounded : length payload ≤ c.maximum_frame_bytes
    pub fits : length payload ≤ u32_max
    pub shape : frame ≡ be_bytes (length payload) ++ payload

  encode-Framed :
      (c : FrameCodec) (message : Envelope) (frame : List ℕ)
      → encode to_stdvec c message ≡ ok frame
      → Framed c message frame
  unfolding encode
  encode-Framed c message frame h = elim (Result-cases (validate message)) [
    | inr (e, refused) ↦ absurd (ground arith)
    | inl (_, valid) ↦ elim (Result-cases (to_stdvec message)) [
      | inr (e, failed) ↦ absurd (ground arith)
      | inl (payload, serialized) ↦ record {
        payload = payload;
        serialized = serialized;
        valid = valid;
        bounded = ground arith;
        fits = ground arith;
        shape = ground arith;
      }
    ]
  ]

module _ {E : Type 0} (from_bytes : List ℕ → Result Envelope E) where
  decode_frame :
      (c : FrameCodec) (payload rest : List ℕ)
      → length payload ≤ c.maximum_frame_bytes
      → length payload ≤ u32_max
      → decode from_bytes c (be_bytes (length payload) ++ payload ++ rest)
        ≡ (rest, open_payload from_bytes payload)
  unfolding decode be_bytes
  decode_frame c payload rest bounded fits = ground (
    arith,
    from_be_bytes-be_bytes (length payload) fits,
    take-append payload rest,
    drop-append payload rest,
    length-append payload rest,
  )

  -- What `decode` takes from the front of a source when it gives a message.
  pub record Taken (c : FrameCodec) (source rest : List ℕ) (message : Envelope) : Type 0 where
    pub header : List ℕ
    pub payload : List ℕ
    pub shape : source ≡ header ++ payload ++ rest
    pub announced : from_be_bytes header ≡ some (length payload)
    pub bounded : length payload ≤ c.maximum_frame_bytes
    pub opened : from_bytes payload ≡ ok message
    pub valid : validate message ≡ ok tt

  open_payload-some :
      (payload : List ℕ) (message : Envelope)
      → open_payload from_bytes payload ≡ ok (some message)
      → (from_bytes payload ≡ ok message) × (validate message ≡ ok tt)
  unfolding open_payload
  open_payload-some payload message h = elim (Result-cases (from_bytes payload)) [
    | inr (e, failed) ↦ absurd (ground arith)
    | inl (m, opened) ↦ elim (Result-cases (validate m)) [
      | inr (e, refused) ↦ absurd (ground arith)
      | inl (_, valid) ↦
          let same : m ≡ message = ground arith in
          (opened ∙ ap ok same, subst (λ k. validate k ≡ ok tt) same valid)
    ]
  ]

  -- A message that `decode` gives stands at the front of the source as a frame: a header of four bytes
  -- that announces the length of the payload, within the codec's maximum, and a payload that
  -- deserializes to this message, which is valid; the rest of the source is left.
  pub decode_sound :
      (c : FrameCodec) (source rest : List ℕ) (message : Envelope)
      → decode from_bytes c source ≡ (rest, ok (some message))
      → Taken c source rest message
  unfolding decode
  decode_sound c source rest message h =
      let header = take length_prefix_bytes source in
      elim (Bool-cases (ltb (length source) length_prefix_bytes)) [
        | inl short ↦ absurd (ground arith)
        | inr whole ↦ elim (Option-cases (from_be_bytes header)) [
          | inl broken ↦ absurd (ground arith)
          | inr (n, announced) ↦
              let tail = drop length_prefix_bytes source in
              let opened = open_payload-some (take n tail) message (ground arith) in
              let enough : n ≤ length tail =
                ground (arith, length-drop length_prefix_bytes source) in
              let left : drop n tail ≡ rest = ground arith in
              record {
                header = header;
                payload = take n tail;
                shape =
                    subst (λ r. source ≡ header ++ take n tail ++ r) left
                      (sym (
                        append_assoc header (take n tail) (drop n tail)
                        ∙ ap (◌++◌ header) (take-drop n tail)
                        ∙ take-drop length_prefix_bytes source));
                announced = rw (length-take n tail enough) announced;
                bounded = rw (length-take n tail enough) (ground arith);
                opened = opened.0;
                valid = opened.1;
              }
        ]
      ]

-- A frame that was made by a codec is read back by it, whatever follows, and exactly the frame is
-- taken from the source, if the serializer gives back what it has written.
pub decode-encode :
    {E : Type 0} (to_stdvec : Envelope → Result (List ℕ) E)
    (from_bytes : List ℕ → Result Envelope E) (c : FrameCodec) (message : Envelope)
    (frame rest : List ℕ)
    → ((m : Envelope) (bytes : List ℕ) → to_stdvec m ≡ ok bytes → from_bytes bytes ≡ ok m)
    → encode to_stdvec c message ≡ ok frame
    → decode from_bytes c (frame ++ rest) ≡ (rest, ok (some message))
unfolding open_payload
decode-encode to_stdvec from_bytes c message frame rest back h =
    let f = encode-Framed to_stdvec c message frame h in
    let opened : open_payload from_bytes f.payload ≡ ok (some message) =
      ground (arith, back message f.payload f.serialized, f.valid) in
    ap (λ x. decode from_bytes c (x ++ rest)) f.shape
    ∙ decode_frame from_bytes c f.payload rest f.bounded f.fits
    ∙ ap (λ o. (rest, o)) opened

take_header :
    (n m : ℕ) (payload : List ℕ)
    → 4 ≤ n
    → take length_prefix_bytes (take n (be_bytes m ++ payload)) ≡ be_bytes m
unfolding be_bytes
take_header zero m payload h = absurd (omega arith)
take_header (suc zero) m payload h = absurd (omega arith)
take_header (suc (suc zero)) m payload h = absurd (omega arith)
take_header (suc (suc (suc zero))) m payload h = absurd (omega arith)
take_header (suc (suc (suc (suc n)))) m payload h = refl

length-be_bytes : (m : ℕ) → length (be_bytes m) ≡ 4
unfolding be_bytes
length-be_bytes m = refl

-- Of a frame that was made by a codec, any part that lacks its end is left in the source, and `decode`
-- waits for more.
pub decode-take :
    {E : Type 0} (to_stdvec : Envelope → Result (List ℕ) E)
    (from_bytes : List ℕ → Result Envelope E) (c : FrameCodec) (message : Envelope) (frame : List ℕ)
    (n : ℕ)
    → encode to_stdvec c message ≡ ok frame
    → n < length frame
    → decode from_bytes c (take n frame) ≡ (take n frame, ok none)
unfolding decode
decode-take to_stdvec from_bytes c message frame n h short =
    let f = encode-Framed to_stdvec c message frame h in
    let m = length f.payload in
    let total : length frame ≡ 4 + m =
      ap length f.shape ∙ length-append (be_bytes m) f.payload ∙ omega (arith, length-be_bytes m) in
    let counted = length-take n frame (omega arith) in
    elim (Bool-cases (ltb n 4)) [
      | inl part ↦ ground (arith, counted)
      | inr whole ↦
          let header : take length_prefix_bytes (take n frame) ≡ be_bytes m =
            ap (λ x. take length_prefix_bytes (take n x)) f.shape
            ∙ take_header n m f.payload (ground arith) in
          let announced : from_be_bytes (take length_prefix_bytes (take n frame)) ≡ some m =
            ap from_be_bytes header ∙ from_be_bytes-be_bytes m f.fits in
          ground (arith, counted, announced, total, f.bounded)
    ]
