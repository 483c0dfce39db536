-- ===== src/Runtime/Controller/Clipboards.antt =====
-- crates/tevir/src/runtime.rs: the native clipboard and the clipboard sessions with the peers. SHA-256 is
-- a parameter.
use tevir.Prelude.{
  ℕ, true, Option, none, some, List, [], ◌∷◌, ◌++◌, map, filter, Result, ok, err, ◌>>◌, length,
  is_some, ltb, if◌then◌else◌,
}
use tevir.Prelude.Assoc
use tevir.Domain.NodeSet
use tevir.Domain.Identity.{NodeId, node_eq}
use tevir.Protocol.Clipboard.{ClipboardText}
use tevir.Protocol.Message.{Session}
use tevir.Session.Clipboard.{ClipboardAction, ClipboardSession, Outcome}
use tevir.Session.Clipboard.Methods
use tevir.Runtime.Channel.{try_send}
use tevir.Runtime.Controller.{
  BackendKind, ActivePeer, ActiveClipboard, ClipboardApplications, no_applications,
  ClipboardService, ClipboardRuntimeState, NativeFailure, SessionFailure, RuntimeError,
  RuntimeEvent, Notice, Controller, Handler, send_event, send_to,
}

pub data ClipboardServiceEvent : Type 0 where
  ready : (backend : BackendKind) → ClipboardServiceEvent
  changed : (text : List ℕ) → ClipboardServiceEvent
  applied failed stopped : ClipboardServiceEvent

-- `ClipboardService::apply`.
unfoldable pub apply_text : ClipboardService → List ℕ → Result ClipboardService NativeFailure
apply_text service text =
    if ltb service.maximum_text_bytes (length text)
    then err NativeFailure.clipboard_text_too_large
    else elim (try_send text service.commands) [
      | none ↦ err NativeFailure.clipboard_queue
      | some commands ↦ ok (record service { commands = commands })
    ]

-- `start_next_clipboard_application` on the state of the clipboard.
unfoldable pub start_next :
    ClipboardRuntimeState → ClipboardRuntimeState × Result (Unit {0}) RuntimeError
unfolding apply_text
start_next c = if is_some c.applications.pending then (c, ok tt) else elim (c.applications.queued) [
  | [] ↦ (c, ok tt)
  | (peer, transfer) ∷ rest ↦
      let popped = record c { applications = record c.applications { queued = rest } } in
      elim (c.service) [
        | none ↦ (popped, err (RuntimeError.native NativeFailure.clipboard_unavailable))
        | some service ↦ elim (apply_text service transfer.text) [
          | err e ↦ (popped, err (RuntimeError.native e))
          | ok busy ↦ (
            record {
              service = some busy;
              applications = record { pending = some (peer, transfer.generation); queued = rest };
            },
            ok tt,
          )
        ]
      ]
]

unfoldable pub start_next_clipboard_application : Handler (Unit {0})
unfolding start_next
start_next_clipboard_application s =
    let r = start_next s.clipboard_state in (record s { clipboard_state = r.0 }, r.1)

unfoldable pub set_applications : ClipboardApplications → Controller → Controller
set_applications applications s = record s {
  clipboard_state = record s.clipboard_state { applications = applications };
}

unfoldable pub queue_application : NodeId → ClipboardText → Controller → Controller
unfolding set_applications
queue_application peer transfer s =
    let applications = s.clipboard_state.applications in
    set_applications
      (record applications { queued = applications.queued ++ ((peer, transfer) ∷ []) }) s

-- The clipboard of a connection, if it has one.
unfoldable pub clipboard_of : NodeId → Controller → Option (ActivePeer × ActiveClipboard)
clipboard_of peer s = elim (Assoc.lookup peer s.peers) [
  | none ↦ none
  | some active ↦ elim (active.clipboard) [
    | none ↦ none
    | some clipboard ↦ some (active, clipboard)
  ]
]

unfoldable pub set_clipboard :
    NodeId → ActivePeer → Option ActiveClipboard → Controller → Controller
set_clipboard peer active clipboard s = record s {
  peers = Assoc.insert peer (record active { clipboard = clipboard }) s.peers;
}

-- One round of `apply_controller_clipboard_actions`.
unfoldable pub apply_clipboard_action : NodeId → ClipboardAction → Handler (Unit {0})
unfolding send_to clipboard_of set_clipboard queue_application
apply_clipboard_action peer (ClipboardAction.send_control control) s =
    elim (Assoc.lookup peer s.peers) [
      | none ↦ (s, err (RuntimeError.session (SessionFailure.clipboard_peer_gone peer)))
      | some active ↦ send_to peer active (Session.clipboard control) s
    ]
apply_clipboard_action peer (ClipboardAction.send_transfer transfer) s =
    elim (clipboard_of peer s) [
      | none ↦ (s, err (RuntimeError.session (SessionFailure.clipboard_peer_unavailable peer)))
      | some (active, clipboard) ↦ elim (try_send transfer clipboard.outbound) [
        | none ↦ (s, err (RuntimeError.session (SessionFailure.transfer_queue_full peer)))
        | some outbound ↦
            (set_clipboard peer active (some (record clipboard { outbound = outbound })) s, ok tt)
      ]
    ]
apply_clipboard_action peer (ClipboardAction.apply_remote transfer) s =
    (queue_application peer transfer s, ok tt)

unfoldable pub apply_clipboard_actions : NodeId → List ClipboardAction → Handler (Unit {0})
apply_clipboard_actions peer [] s = start_next_clipboard_application s
apply_clipboard_actions peer (action ∷ actions) s =
    let r = apply_clipboard_action peer action s in
    elim (r.1) [ ok _ ↦ apply_clipboard_actions peer actions r.0 | err e ↦ (r.0, err e) ]

-- A method of a peer's clipboard session, and then its actions.
unfoldable pub on_clipboard :
    NodeId → SessionFailure → (ClipboardSession → Outcome) → Handler (Unit {0})
unfolding clipboard_of set_clipboard
on_clipboard peer missing method s = elim (clipboard_of peer s) [
  | none ↦ (s, err (RuntimeError.session missing))
  | some (active, clipboard) ↦
      let r = method clipboard.session in
      let t = set_clipboard peer active (some (record clipboard { session = r.0 })) s in
      elim (r.1) [
        | err e ↦ (t, err (RuntimeError.session (SessionFailure.clipboard e)))
        | ok actions ↦ apply_clipboard_actions peer actions t
      ]
]

-- The peers with a clipboard, in the order of the `BTreeMap`.
unfoldable pub clipboard_peers : List (NodeId × ActivePeer) → List NodeId
clipboard_peers peers =
    NodeSet.collect (map (λ e. e.0) (filter (λ e. is_some ((e.1).clipboard)) peers))

-- The arms of `Failed` and `Stopped`.
unfoldable pub stop_clipboard : Controller → Controller
stop_clipboard s = record s {
  clipboard_state = record { service = none; applications = no_applications };
}

module _ (sha256 : List ℕ → List ℕ) where
  -- The loop of the arm of `Changed`.
  unfoldable pub offer_to : List ℕ → List NodeId → Handler (Unit {0})
  unfolding on_clipboard
  offer_to text [] s = (s, ok tt)
  offer_to text (peer ∷ peers) s =
      let r =
        on_clipboard peer SessionFailure.clipboard_peer_lost
          (λ c. Methods.local_changed sha256 c text) s in
      elim (r.1) [ ok _ ↦ offer_to text peers r.0 | err e ↦ (r.0, err e) ]

  unfoldable pub clipboard_applied : Handler (Unit {0})
  unfolding clipboard_of on_clipboard set_applications
  clipboard_applied s = elim (s.clipboard_state.applications.pending) [
    | none ↦ (s, err (RuntimeError.session SessionFailure.applied_without_pending))
    | some (peer, generation) ↦
        let t = set_applications (record s.clipboard_state.applications { pending = none }) s in
        elim (clipboard_of peer t) [
          | none ↦ (t, ok tt)
          | some _ ↦
              (do
                on_clipboard peer SessionFailure.clipboard_peer_lost
                    (λ c. Methods.confirm_applied sha256 c generation)
                send_event (RuntimeEvent.clipboard_synchronized peer true))
                t
        ]
  ]

  -- One round of the loop of `drain_controller_clipboard`.
  unfoldable pub clipboard_event : ClipboardServiceEvent → Handler (Unit {0})
  unfolding send_event offer_to clipboard_applied stop_clipboard
  clipboard_event (ClipboardServiceEvent.ready backend) s =
      send_event (RuntimeEvent.clipboard_ready backend) s
  clipboard_event (ClipboardServiceEvent.changed text) s = offer_to text (clipboard_peers s.peers) s
  clipboard_event ClipboardServiceEvent.applied s = clipboard_applied s
  clipboard_event ClipboardServiceEvent.failed s =
      (do send_event (RuntimeEvent.error Notice.clipboard_failed); λ t. (stop_clipboard t, ok tt)) s
  clipboard_event ClipboardServiceEvent.stopped s = (stop_clipboard s, ok tt)

  unfoldable pub clipboard_events : List ClipboardServiceEvent → Handler (Unit {0})
  clipboard_events [] s = start_next_clipboard_application s
  clipboard_events (event ∷ events) s =
      let r = clipboard_event event s in
      elim (r.1) [ ok _ ↦ clipboard_events events r.0 | err e ↦ (r.0, err e) ]

  -- The events that are there are taken only while the service runs.
  unfoldable pub drain_controller_clipboard : List ClipboardServiceEvent → Handler (Unit {0})
  unfolding clipboard_events
  drain_controller_clipboard native_events s =
      clipboard_events (if is_some s.clipboard_state.service then native_events else []) s
