-- ===== src/Protocol/Clipboard.antt =====
-- crates/protocol/src/clipboard.rs. Texts are their bytes; a `NonZeroU64` is a number from 1. The
-- SHA-256 digest is a parameter of the operations that use it.
pub mod Offers
pub mod Framing
mod Examples
use tevir.Prelude.{
  ℕ, ◌+◌, ◌*◌, not, List, Result, ok, err, length, ltb, eqb, ◌==◌, PartialEq, derived_eq,
  ℕ_discrete, u32_max, if◌then◌else◌,
}
use tevir.Prelude.Fallible.{◌>>◌}
use tevir.Domain.Identity.{NodeId}

abbrev pub max_clipboard_text_bytes : ℕ
max_clipboard_text_bytes = 1024 * 1024

abbrev pub max_clipboard_frame_bytes : ℕ
max_clipboard_frame_bytes = max_clipboard_text_bytes + 256

pub record ClipboardGeneration : Type 0 where
  pub owner : NodeId
  pub sequence : ℕ

pub record ClipboardOffer : Type 0 where
  pub generation : ClipboardGeneration
  pub text_bytes : ℕ
  pub digest : List ℕ

pub record ClipboardText : Type 0 where
  pub generation : ClipboardGeneration
  pub text : List ℕ

pub data ClipboardControl : Type 0 where
  offered : ClipboardOffer → ClipboardControl
  applied : (generation : ClipboardGeneration) → ClipboardControl

pub data ClipboardError : Type 0 where
  text_too_large : (actual maximum : ℕ) → ClipboardError
  frame_too_large : (actual maximum : ℕ) → ClipboardError
  serialize : ClipboardError
  deserialize : ClipboardError
  generation_mismatch : ClipboardError
  length_mismatch : (offered actual : ℕ) → ClipboardError
  digest_mismatch : ClipboardError

unfoldable pub Generation-discrete : Discrete ClipboardGeneration
unfolding ℕ_discrete
Generation-discrete = hlevel ℕ_discrete

unfoldable pub Offer-discrete : Discrete ClipboardOffer
unfolding ℕ_discrete
Offer-discrete = hlevel ℕ_discrete

unfoldable pub Text-discrete : Discrete ClipboardText
unfolding ℕ_discrete
Text-discrete = hlevel ℕ_discrete

unfoldable pub Bytes-discrete : Discrete (List ℕ)
unfolding ℕ_discrete
Bytes-discrete = hlevel ℕ_discrete

instance abbrev pub generation_eq : PartialEq ClipboardGeneration
generation_eq = derived_eq Generation-discrete

instance abbrev pub offer_eq : PartialEq ClipboardOffer
offer_eq = derived_eq Offer-discrete

instance abbrev pub text_eq : PartialEq ClipboardText
text_eq = derived_eq Text-discrete

instance abbrev pub bytes_eq : PartialEq (List ℕ)
bytes_eq = derived_eq Bytes-discrete

unfoldable pub validate_text_length : ℕ → Result (Unit {0}) ClipboardError
validate_text_length actual =
    if ltb max_clipboard_text_bytes actual
    then err (ClipboardError.text_too_large actual max_clipboard_text_bytes)
    else ok tt

-- `ClipboardText::new`.
unfoldable pub new_text : ClipboardGeneration → List ℕ → Result ClipboardText ClipboardError
unfolding validate_text_length
new_text generation text = do
  validate_text_length (length text)
  ok (record { generation = generation; text = text })

-- `ClipboardOffer::validate`.
unfoldable pub validate_offer : ClipboardOffer → Result (Unit {0}) ClipboardError
unfolding validate_text_length
validate_offer offer = validate_text_length offer.text_bytes

module _ (sha256 : List ℕ → List ℕ) where
  -- `ClipboardText::offer`.
  unfoldable pub offer : ClipboardText → ClipboardOffer
  offer t = record {
    generation = t.generation;
    text_bytes = if ltb u32_max (length t.text) then u32_max else length t.text;
    digest = sha256 t.text;
  }

  -- `ClipboardOffer::verify`.
  unfoldable pub verify : ClipboardOffer → ClipboardText → Result (Unit {0}) ClipboardError
  verify o t =
      if not (o.generation == t.generation)
      then err ClipboardError.generation_mismatch
      else if not (eqb o.text_bytes (length t.text))
      then err (ClipboardError.length_mismatch o.text_bytes (length t.text))
      else if not (o.digest == sha256 t.text)
      then err ClipboardError.digest_mismatch
      else ok tt
