-- ===== src/Lib.antt =====
-- A model of tevir, a program that shares one keyboard and pointer between computers, and the
-- theorems on it.
--
-- The controller captures native input and routes it by a topology of desktops: a pointer that leaves
-- one desktop enters the adjacent one, the focus moves to that node, and captured events are sent to
-- the focused node in batches. The agent on that node applies one batch at a time and acknowledges it.
-- Focus changes carry an epoch and batches a sequence, so that late or repeated messages are told
-- apart from new ones.
--
-- Files and the code that they model:
--   Prelude       numbers, lists, results, maps and methods that change their receiver
--   Domain        crates/domain: Identity (identity.rs), Geometry and Rect (geometry.rs), Input, Display
--                 (display.rs: desktops of several monitors), Edge, Placement, Connectivity and
--                 Topology (topology.rs), NodeSet (`BTreeSet<NodeId>` as a sorted list)
--   Protocol      crates/protocol: Clipboard (clipboard.rs: texts, offers and their frames), Message
--                 (message.rs), Codec (codec.rs: frames with a length in front)
--   Session       crates/session: Agent (agent.rs), Coalesce (coalesce.rs), Pointer, Controller and
--                 Routing (controller.rs), Clipboard (clipboard.rs: the one text that two sides
--                 share), Exchange (a controller and an agent together), Scenario (states for the
--                 examples)
--   Transport     crates/transport: Replay (replay.rs: the nonces of admitted attempts),
--                 Reconnect (config.rs: the policy of connecting again)
--   Platform      crates/platform: Held (state.rs: the keys and buttons that are down)
--   Runtime       crates/tevir: Config (config.rs: the settings of the edges, and in File the
--                 configuration and its stored form), Edges (runtime.rs: where the pointer is captured
--                 and where an edge leads), Resize (runtime.rs: a desktop of a new size in the
--                 topology), Shortcut (runtime.rs: the keys that take control back), Channel (the bounded
--                 channels that it sends on) and Controller (runtime.rs: the controller's loop, in
--                 Capture the events of the native capture, in Clipboards the native clipboard and the
--                 clipboard sessions, in Network the connections and their heartbeats, and in Loop the
--                 start and the branches) and Agent (runtime.rs: the agent's loop over a connection, in
--                 Clipboards the native clipboard and the clipboard session, in Injected what the native
--                 injection reports, in Loop the start and the branches, and in Retrying the loop in which the
--                 agent connects again)
--
-- Correspondence: a struct is a record with the same fields, an enum a data type, and a method a
-- function from the receiver to the receiver after it and a result, so the changes made before an
-- error are kept. A chain of fallible calls on the receiver is a `do` block. Names are those of the
-- source in this language's spelling. Parts of a long method are definitions of their own. Maps of
-- nodes are association lists without double keys on insertion; sets are sorted lists. `u64`, `u32`
-- and `usize` are natural numbers with the checks of the source written out; `i64` and `i32` are
-- integers with the saturating operations and conversions written out. Counts of elements are assumed
-- to stay below the machine's word.
--
-- The loops of the runtime are functions from their state and the branch that is taken to the state after
-- it and a result, where an error ends the loop; the agent's connecting again is one over rounds, of which
-- how the connection ended is a part. The branch, what was received, captured and reported, and
-- the time, in microseconds, are chosen by the environment; a run is a list of them. A channel is the list
-- of what it took and the room that is left; what its receiver takes, or that it is gone, is a step of the
-- environment between two branches, which sets the rooms of all channels, and a room counts what the
-- channel takes until the next such step, so that what is received during a branch is in it. Texts of errors and reasons are left out.
--
-- Fuel: the search for connected screens in Topology is a loop over a growing set of indexes; it is
-- recursion on fuel, n * n + 2 for n screens, since every round but the last takes an index from the
-- stack, and each of at most n visited screens puts at most n indexes there, once.
--
-- Parameters: the SHA-256 digest, of Protocol.Clipboard and Session.Clipboard; the serializer of
-- the wire format with its inverse and its maximal size, of Protocol.Codec and
-- Protocol.Clipboard.Framing, where what the proofs use of it is a named hypothesis; the rounding
-- of a floating-point position on an edge, of Runtime.Edges, and the type of network addresses, of
-- Runtime.Config.File; and in Runtime.Controller whether such a position lies in the active part of an
-- edge. Of the last three nothing is assumed.
--
-- Not modelled: the transport (QUIC and TLS), discovery, pairing and the trust store, telemetry,
-- native input and clipboards but for what passes between them and the runtime, the text of the
-- configuration file and the user interface, which are input and output; of the runtime the tasks that
-- move messages between its channels and the transport, and the end of the controller's loop with its
-- farewells.
pub mod Prelude
pub mod Domain
pub mod Protocol
pub mod Session
pub mod Transport
pub mod Platform
pub mod Runtime
