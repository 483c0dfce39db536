-- ===== src/Session/Clipboard/Invariant.antt =====
-- What holds of a clipboard session between two calls.
use tevir.Prelude.{ℕ, ◌+◌, ◌≤◌, ◌<◌, ◌≡◌, false, Option, none, some, List, ok, u64_max, arith}
use tevir.Domain.Identity.{NodeId, node_eq}
use tevir.Protocol.Clipboard
use tevir.Protocol.Clipboard.{ClipboardGeneration, ClipboardOffer, ClipboardText, generation_eq}
use tevir.Session.Clipboard.{ClipboardSession, IncomingClipboard, new, is_ready}
use tevir.Session.Clipboard.Methods

abbrev pub OfferOf : ClipboardGeneration → Option ClipboardOffer → Type 0
OfferOf g none = Unit
OfferOf g (some o) = o.generation ≡ g

abbrev pub TransferOf : ClipboardGeneration → Option ClipboardText → Type 0
TransferOf g none = Unit
TransferOf g (some t) = t.generation ≡ g

-- An incoming text is the peer's newest, and newer than what was applied.
abbrev pub IncomingOk : NodeId → (applied highest : ℕ) → Option IncomingClipboard → Type 0
IncomingOk peer applied highest none = Unit
IncomingOk peer applied highest (some i) =
    (i.generation.owner ≡ peer)
    × (applied < i.generation.sequence)
    × (i.generation.sequence ≡ highest)
    × OfferOf i.generation i.offer
    × TransferOf i.generation i.transfer

-- An offer and a transfer of one generation that belong together.
abbrev pub Verified :
    (List ℕ → List ℕ) → ClipboardGeneration → Option ClipboardOffer → Option ClipboardText → Type 0
Verified sha256 g (some o) (some t) =
    (o.generation ≡ g) × (t.generation ≡ g) × (Clipboard.verify sha256 o t ≡ ok tt)
Verified sha256 g (some o) none = ⊥
Verified sha256 g none t = ⊥

-- A text under application is the peer's, newer than what was applied, and verified.
abbrev pub ApplyingOk :
    (List ℕ → List ℕ) → NodeId → (applied highest : ℕ) → Option IncomingClipboard → Type 0
ApplyingOk sha256 peer applied highest none = Unit
ApplyingOk sha256 peer applied highest (some a) =
    (a.generation.owner ≡ peer)
    × (applied < a.generation.sequence)
    × (a.generation.sequence ≤ highest)
    × Verified sha256 a.generation a.offer a.transfer

abbrev pub Newer : (applying incoming : Option IncomingClipboard) → Type 0
Newer (some a) (some i) = a.generation.sequence < i.generation.sequence
Newer (some a) none = Unit
Newer none i = Unit

-- With nothing under application, an incoming text still misses its offer or its transfer.
abbrev pub Waiting : (applying incoming : Option IncomingClipboard) → Type 0
Waiting none (some i) = is_ready i ≡ false
Waiting none none = Unit
Waiting (some a) i = Unit

-- The next local sequence is the one after the last sent, until the range of `u64` ends.
abbrev pub NextOk : ℕ → Option ℕ → Type 0
NextOk sent none = sent ≡ u64_max
NextOk sent (some n) = (n ≡ sent + 1) × (n ≤ u64_max)

-- The last generation that was sent is pending exactly until it is acknowledged.
abbrev pub PendingOk : NodeId → (sent acknowledged : ℕ) → Option ClipboardGeneration → Type 0
PendingOk node sent acknowledged none = acknowledged ≡ sent
PendingOk node sent acknowledged (some g) =
    (g.owner ≡ node) × (g.sequence ≡ sent) × (acknowledged < sent)

-- The part of the invariant that holds while a message is being staged.
pub record IsStaged (sha256 : List ℕ → List ℕ) (s : ClipboardSession) : Type 0 where
  pub applied_bound : s.last_applied_remote_sequence ≤ s.highest_remote_sequence
  pub incoming_ok :
      IncomingOk s.peer_node s.last_applied_remote_sequence s.highest_remote_sequence s.incoming
  pub applying_ok :
      ApplyingOk sha256 s.peer_node s.last_applied_remote_sequence s.highest_remote_sequence
        s.applying
  pub newer : Newer s.applying s.incoming
  pub next_ok : NextOk s.last_sent_local_sequence s.next_local_sequence
  pub pending_ok :
      PendingOk s.local_node s.last_sent_local_sequence s.last_acknowledged_local_sequence
        s.pending_local

pub record IsValid (sha256 : List ℕ → List ℕ) (s : ClipboardSession) : Type 0 where
  pub staged : IsStaged sha256 s
  pub checked : Methods.validate_incoming sha256 s.incoming ≡ ok tt
  pub waiting : Waiting s.applying s.incoming

pub new-IsValid :
    (sha256 : List ℕ → List ℕ) (local_node peer_node : NodeId)
    → IsValid sha256 (new local_node peer_node)
unfolding new Methods.validate_incoming
new-IsValid sha256 local_node peer_node = ground arith
