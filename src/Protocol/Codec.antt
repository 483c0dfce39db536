-- ===== src/Protocol/Codec.antt =====
-- crates/protocol/src/codec.rs: frames of a length in four bytes and a serialized envelope. The
-- serializer (postcard) is a parameter, with its error; `BytesMut` is the list of its bytes.
pub mod Frames
mod Examples
use tevir.Prelude.{
  ℕ, ◌+◌, ◌*◌, ◌/◌, ◌%◌, Option, none, some, List, [], ◌∷◌, ◌++◌, Result, ok, err, length, take,
  drop, ltb, leb, eqb, ◌||◌, u32_max, if◌then◌else◌,
}
use tevir.Prelude.Fallible.{◌>>=◌, ◌>>◌, map_err}
use tevir.Protocol.Message.{Envelope, MessageValidationError, validate}

abbrev pub length_prefix_bytes : ℕ
length_prefix_bytes = 4

abbrev pub default_max_frame_bytes : ℕ
default_max_frame_bytes = 1024 * 1024

abbrev pub hard_max_frame_bytes : ℕ
hard_max_frame_bytes = 16 * 1024 * 1024

pub record FrameCodec : Type 0 where
  pub maximum_frame_bytes : ℕ

pub data CodecError (E : Type 0) : Type 0 where
  invalid_maximum : (requested hard_maximum : ℕ) → CodecError E
  frame_too_large : (actual maximum : ℕ) → CodecError E
  invalid_length_prefix : CodecError E
  serialize : E → CodecError E
  deserialize : E → CodecError E
  invalid_message : MessageValidationError → CodecError E

-- `BytesMut::put_u32` and `u32::from_be_bytes`, the latter on a slice that must have four bytes.
unfoldable pub be_bytes : ℕ → List ℕ
be_bytes n = (n / 16777216 % 256) ∷ (n / 65536 % 256) ∷ (n / 256 % 256) ∷ (n % 256) ∷ []

unfoldable pub from_be_bytes : List ℕ → Option ℕ
from_be_bytes (a ∷ b ∷ c ∷ d ∷ []) = some (((a * 256 + b) * 256 + c) * 256 + d)
from_be_bytes _ = none

module _ {E : Type 0} where
  -- `FrameCodec::new`.
  unfoldable pub new : ℕ → Result FrameCodec (CodecError E)
  new maximum_frame_bytes =
      if eqb maximum_frame_bytes 0 || ltb hard_max_frame_bytes maximum_frame_bytes
      then err (CodecError.invalid_maximum maximum_frame_bytes hard_max_frame_bytes)
      else ok (record { maximum_frame_bytes = maximum_frame_bytes })

  unfoldable pub validate_frame_length : FrameCodec → ℕ → Result (Unit {0}) (CodecError E)
  validate_frame_length c actual =
      if ltb c.maximum_frame_bytes actual
      then err (CodecError.frame_too_large actual c.maximum_frame_bytes)
      else ok tt

  -- `u32::try_from(payload.len())` with its error.
  unfoldable pub frame_length : FrameCodec → ℕ → Result ℕ (CodecError E)
  frame_length c actual =
      if leb actual u32_max
      then ok actual
      else err (CodecError.frame_too_large actual c.maximum_frame_bytes)

module _ {E : Type 0} (to_stdvec : Envelope → Result (List ℕ) E) where
  unfoldable pub encode : FrameCodec → Envelope → Result (List ℕ) (CodecError E)
  unfolding validate_frame_length frame_length
  encode c message = do
    map_err CodecError.invalid_message (validate message)
    payload ← map_err CodecError.serialize (to_stdvec message)
    validate_frame_length c (length payload)
    n ← frame_length c (length payload)
    ok (be_bytes n ++ payload)

module _ {E : Type 0} (from_bytes : List ℕ → Result Envelope E) where
  -- The part of `decode` behind `split_to`, of the payload.
  unfoldable pub open_payload : List ℕ → Result (Option Envelope) (CodecError E)
  open_payload payload = do
    message ← map_err CodecError.deserialize (from_bytes payload)
    map_err CodecError.invalid_message (validate message)
    ok (some message)

  -- `decode` with the length read; the frame is taken from the source before its payload is opened.
  unfoldable pub take_frame :
      FrameCodec → List ℕ → ℕ → List ℕ × Result (Option Envelope) (CodecError E)
  unfolding validate_frame_length open_payload
  take_frame c source n = elim (validate_frame_length c n) [
    | err e ↦ (source, err e)
    | ok _ ↦ if ltb (length source) (length_prefix_bytes + n) then (source, ok none) else (
      drop n (drop length_prefix_bytes source),
      open_payload (take n (drop length_prefix_bytes source)),
    )
  ]

  unfoldable pub decode : FrameCodec → List ℕ → List ℕ × Result (Option Envelope) (CodecError E)
  unfolding take_frame
  decode c source =
      if ltb (length source) length_prefix_bytes
      then (source, ok none)
      else elim (from_be_bytes (take length_prefix_bytes source)) [
        | none ↦ (source, err CodecError.invalid_length_prefix)
        | some n ↦ take_frame c source n
      ]
