-- ===== src/Domain/Identity/Syntax.antt =====
-- crates/domain/src/identity.rs: `NodeId::new`, and the values that it accepts.
use tevir.Prelude.{
  ℕ, ◌+◌, ◌≤◌, ◌≡◌, ◌≢◌, ◌↔◌, refl, ◌∙◌, ap, Bool, true, not, ◌&&◌, ◌||◌, Option, none, some, List,
  [], ◌∷◌, ◌++◌, Result, ok, err, All, length, length-append, drop, ltb, leb, eqb, if◌then◌else◌,
  arith, ◌⊎◌,
}
use tevir.Domain.Identity.{NodeId}

abbrev pub max_node_id_bytes : ℕ
max_node_id_bytes = 63

pub data NodeIdError : Type 0 where
  empty : NodeIdError
  too_long : (actual maximum : ℕ) → NodeIdError
  invalid_boundary : NodeIdError
  invalid_character : (index character : ℕ) → NodeIdError

-- `u8::is_ascii_lowercase`, `is_ascii_digit` and `is_ascii_alphanumeric`.
abbrev pub is_ascii_lowercase : ℕ → Bool
is_ascii_lowercase c = leb 97 c && leb c 122

abbrev pub is_ascii_digit : ℕ → Bool
is_ascii_digit c = leb 48 c && leb c 57

abbrev pub is_ascii_alphanumeric : ℕ → Bool
is_ascii_alphanumeric c = is_ascii_lowercase c || is_ascii_digit c || (leb 65 c && leb c 90)

-- `bytes[bytes.len() - 1]` of the bytes `b ∷ bs`.
unfoldable pub last_byte : ℕ → List ℕ → ℕ
last_byte b [] = b
last_byte b (c ∷ cs) = last_byte c cs

-- The first byte, from `index` on, that an identifier cannot have.
unfoldable pub invalid_byte : ℕ → List ℕ → Option (ℕ × ℕ)
invalid_byte index [] = none
invalid_byte index (byte ∷ bytes) =
    if not (is_ascii_lowercase byte || is_ascii_digit byte || eqb byte 45)
    then some (index, byte)
    else invalid_byte (index + 1) bytes

unfoldable pub new : List ℕ → Result NodeId NodeIdError
new [] = err NodeIdError.empty
new (b ∷ bs) =
    if ltb max_node_id_bytes (length (b ∷ bs))
    then err (NodeIdError.too_long (length (b ∷ bs)) max_node_id_bytes)
    else if not (is_ascii_alphanumeric b) || not (is_ascii_alphanumeric (last_byte b bs))
    then err NodeIdError.invalid_boundary
    else elim (invalid_byte 0 (b ∷ bs)) [
      | some (index, character) ↦ err (NodeIdError.invalid_character index character)
      | none ↦ ok (record { value = b ∷ bs })
    ]

-- A lower-case letter, a digit or a hyphen.
abbrev pub Legal : ℕ → Type 0
Legal c = ((97 ≤ c) × (c ≤ 122)) ⊎ ((48 ≤ c) × (c ≤ 57)) ⊎ (c ≡ 45)

-- A label: one to 63 legal bytes, with no hyphen at either end.
pub record IsLabel (value : List ℕ) : Type 0 where
  pub non_empty : 1 ≤ length value
  pub short : length value ≤ max_node_id_bytes
  pub legal : All Legal value
  pub starts : (rest : List ℕ) → value ≢ 45 ∷ rest
  pub ends : (front : List ℕ) → value ≢ front ++ (45 ∷ [])

none-Legal : (index : ℕ) (bytes : List ℕ) → invalid_byte index bytes ≡ none → All Legal bytes
unfolding invalid_byte
none-Legal index [] h = tt
none-Legal index (b ∷ bs) h = (ground arith, none-Legal (index + 1) bs (ground arith))

Legal-none : (index : ℕ) (bytes : List ℕ) → All Legal bytes → invalid_byte index bytes ≡ none
unfolding invalid_byte
Legal-none index [] h = refl
Legal-none index (b ∷ bs) h = ground (arith, h.0, Legal-none (index + 1) bs h.1)

front_of : (b : ℕ) (bs : List ℕ) → (front : List ℕ) × (b ∷ bs ≡ front ++ (last_byte b bs ∷ []))
unfolding last_byte
front_of b [] = ([], refl)
front_of b (c ∷ cs) = let (front, e) = front_of c cs in (b ∷ front, ap (◌∷◌ b) e)

last_byte-append : (b c : ℕ) (bs front : List ℕ) → b ∷ bs ≡ front ++ (c ∷ []) → last_byte b bs ≡ c
unfolding last_byte
last_byte-append b c [] [] h = ground arith
last_byte-append b c [] (f ∷ fs) h = absurd (omega (arith, ap length h, length-append fs (c ∷ [])))
last_byte-append b c (d ∷ ds) [] h = absurd (omega (arith, ap length h))
last_byte-append b c (d ∷ ds) (f ∷ fs) h = last_byte-append d c ds fs (ap (drop 1) h)

last_byte-Legal : (b : ℕ) (bs : List ℕ) → All Legal (b ∷ bs) → Legal (last_byte b bs)
unfolding last_byte
last_byte-Legal b [] h = h.0
last_byte-Legal b (c ∷ cs) h = last_byte-Legal c cs h.1

accepted-IsLabel :
    (value : List ℕ) (n : NodeId) → new value ≡ ok n → (n.value ≡ value) × IsLabel value
unfolding new
accepted-IsLabel [] n h = absurd (ground arith)
accepted-IsLabel (b ∷ bs) n h = (
  ground arith,
  record {
    non_empty = omega arith;
    short = ground arith;
    legal = none-Legal 0 (b ∷ bs) (ground arith);
    starts = λ rest e. ground arith;
    ends = λ front e. ground (arith, last_byte-append b 45 bs front e);
  },
)

label_accepted : (value : List ℕ) → IsLabel value → new value ≡ ok (record { value = value })
unfolding new
label_accepted [] l = absurd (omega (arith, l.non_empty))
label_accepted (b ∷ bs) l =
    let legal = last_byte-Legal b bs l.legal in
    let (front, e) = front_of b bs in
    let first_ok : b ≢ 45 = λ k. l.starts bs (ap (λ c. c ∷ bs) k) in
    let last_ok : last_byte b bs ≢ 45 = λ k. l.ends front (e ∙ ap (λ c. front ++ (c ∷ [])) k) in
    let first_passes : is_ascii_alphanumeric b ≡ true = ground (arith, l.legal.0) in
    let last_passes : is_ascii_alphanumeric (last_byte b bs) ≡ true = ground arith in
    ground (arith, l.short, Legal-none 0 (b ∷ bs) l.legal)

-- `NodeId::new` accepts exactly the labels: one to 63 bytes, each a lower-case letter, a digit or a
-- hyphen, with no hyphen at either end; and the identifier then has the given value.
pub new_node_lem :
    (value : List ℕ) (n : NodeId) → (new value ≡ ok n) ↔ ((n.value ≡ value) × IsLabel value)
new_node_lem value n =
    (accepted-IsLabel value n, λ h. label_accepted value h.1 ∙ ap ok (ground arith))
