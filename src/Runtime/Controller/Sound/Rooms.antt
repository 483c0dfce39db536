-- ===== src/Runtime/Controller/Sound/Rooms.antt =====
-- crates/tevir/src/runtime.rs: what the receivers of the channels take leaves the state of the loop sound.
use tevir.Prelude.{ℕ, ◌≡◌, refl, sym, ◌∙◌, none, some, Option, List, [], ◌∷◌, is_some, arith}
use tevir.Prelude.Assoc
use tevir.Domain.Identity.{NodeId, node_eq}
use tevir.Runtime.Controller.{ActivePeer, ActiveClipboard, Controller}
use tevir.Runtime.Controller.Loop.{Rooms, clipboard_room, peer_rooms, make_room}
use tevir.Runtime.Controller.Sound.{Sound, ConnectionOk, ClipboardOk}

lookup-rooms :
    (rooms : Rooms) (peer : NodeId) (peers : List (NodeId × ActivePeer))
    → is_some (Assoc.lookup peer (peer_rooms rooms peers)) ≡ is_some (Assoc.lookup peer peers)
unfolding peer_rooms Assoc.lookup
lookup-rooms rooms peer [] = refl
lookup-rooms rooms peer ((other, active) ∷ peers) = ground (arith, lookup-rooms rooms peer peers)

module _ (sha256 : List ℕ → List ℕ) where
  pub clipboard_room-Ok :
      (room : ℕ) (clipboard : Option ActiveClipboard)
      → ClipboardOk sha256 clipboard
      → ClipboardOk sha256 (clipboard_room room clipboard)
  unfolding clipboard_room
  clipboard_room-Ok room none c = c
  clipboard_room-Ok room (some clipboard) c = c

  AllValues-rooms :
      (rooms : Rooms) (peers : List (NodeId × ActivePeer))
      → Assoc.AllValues (ConnectionOk sha256) peers
      → Assoc.AllValues (ConnectionOk sha256) (peer_rooms rooms peers)
  unfolding peer_rooms
  AllValues-rooms rooms [] h = tt
  AllValues-rooms rooms ((peer, active) ∷ peers) h = (
    (h.0.0, clipboard_room-Ok (rooms.transfers peer) active.clipboard h.0.1),
    AllValues-rooms rooms peers h.1,
  )

  pub make_room-Sound :
      (rooms : Rooms) (s : Controller) → Sound sha256 s → Sound sha256 (make_room rooms s)
  unfolding make_room
  make_room-Sound rooms s h = record {
    valid = h.valid;
    placed = h.placed;
    arranged = h.arranged;
    connected = λ peer e. h.connected peer (sym (lookup-rooms rooms peer s.peers) ∙ e);
    held = AllValues-rooms rooms s.peers h.held;
  }
