-- ===== src/Runtime/Controller/Sound/Steps.antt =====
-- crates/tevir/src/runtime.rs: every branch of the controller's loop keeps its state sound.
use tevir.Prelude.{
  ℕ, ◌≡◌, refl, subst, Bool, true, false, Option, none, List, [], ◌∷◌, All, Result, ok, err, ◌>>◌,
  is_some, option-cases, result-cases, arith,
}
use tevir.Prelude.Assoc
use tevir.Domain.Identity.{NodeId, node_eq}
use tevir.Domain.Topology.{Topology, screen}
use tevir.Domain.Topology.Accepted.{IsArrangement}
use tevir.Session.Controller as ControllerSessions
use tevir.Session.Controller.{ControllerSession, flush}
use tevir.Session.Controller.Invariant.{flush-IsValid}
use tevir.Session.Routing.{reconcile_topology}
use tevir.Session.Routing.Calls.{Opens, new-Opens}
use tevir.Session.Routing.Placed.{flush-Placed, new-Placed}
use tevir.Runtime.Config.{EdgeBehavior}
use tevir.Runtime.Edges.{capture_edges}
use tevir.Runtime.Channel.{Sender, try_send}
use tevir.Runtime.Controller.{
  ActivePeer, BackendKind, CaptureCommand, ClipboardService, Controller, RuntimeEvent, Notice,
  RuntimeError, send_event, send_focus, set_pending, act,
}
use tevir.Runtime.Controller.Capture.{
  CaptureServiceEvent, take_topology, drain_capture_events, complete_pending_activation,
}
use tevir.Runtime.Controller.Clipboards.{ClipboardServiceEvent, drain_controller_clipboard}
use tevir.Runtime.Controller.Loop.{
  LoopEvent, set_behavior, drop_removed, reconfigure_capture, reconfigure_controller, tick, step,
  run_loop, open_controller,
}
use tevir.Prelude.State.{Then, bind-Then}
use tevir.Runtime.Controller.Sound.{
  Keeps, Known, Sound, Between, act-Between, act-Keeps, then-Keeps, capture-Keeps, event-Keeps,
  focus-Keeps, ConnectionOk,
}
use tevir.Runtime.Controller.Sound.Capture.{
  reconcile-EndsLocated, return_control-Keeps, complete-Keeps, drain_capture-Keeps,
}
use tevir.Runtime.Controller.Sound.Clipboards.{drain_clipboard-Keeps}
use tevir.Runtime.Controller.Sound.Network.{accept-Keeps, network-Keeps}
use tevir.Runtime.Controller.Sound.Rooms.{make_room-Sound}
use tevir.Runtime.Controller.Sound.Heartbeats.{heartbeats-Sound}

-- A topology comes from `Topology::new`, which gives arrangements alone.
abbrev pub Arranged : {F64 : Type 0} → LoopEvent F64 → Type 0
Arranged (LoopEvent.reconfigure updated behavior) = IsArrangement updated.screens
Arranged _ = Unit

-- Of the connections only those of a topology stay.
retained-Known :
    (topology : Topology) (peers : List (NodeId × ActivePeer))
    → Known topology (Assoc.retain (λ peer. is_some (screen topology peer)) peers)
retained-Known topology peers peer e =
    ground (arith, Assoc.lookup-retain (λ p. is_some (screen topology p)) peer peers)

-- A start that succeeds.
abbrev Started : (List ℕ → List ℕ) → Result Controller RuntimeError → Type 0
Started sha256 (ok s) = Sound sha256 s
Started sha256 (err e) = Unit

module _ {F64 : Type 0} (offset_at : F64 → ℕ → ℕ) (within : Option F64 → ℕ → ℕ → Bool)
    (sha256 : List ℕ → List ℕ) where
  capture_edges-Keeps : Keeps (Sound sha256) (reconfigure_capture offset_at within sha256)
  unfolding reconfigure_capture
  capture_edges-Keeps s h = capture-Keeps sha256 _ s h

  reconfigure-Keeps :
      (updated : Topology) (behavior : EdgeBehavior)
      → IsArrangement updated.screens
      → Keeps (Sound sha256) (reconfigure_controller offset_at within sha256 updated behavior)
  unfolding reconfigure_controller set_pending take_topology set_behavior drop_removed
  reconfigure-Keeps updated behavior a s h =
      let old = s.topology in
      bind-Then (Between sha256 updated old old) (Sound sha256) (act (reconcile_topology updated))
        (λ _. do
          take_topology updated
          set_behavior behavior
          drop_removed updated
          reconfigure_capture offset_at within sha256
          send_focus
          send_event RuntimeEvent.configuration_applied)
        (set_pending none s)
        (act-Between sha256 old updated old old (reconcile_topology updated) (set_pending none s) a
          (reconcile-EndsLocated updated s.local_node s.session h.valid h.placed.1) (h, refl))
        λ _ t k.
          let u = record t {
            topology = updated;
            edge_state = record t.edge_state { behavior = behavior };
          } in
          then-Keeps sha256 (reconfigure_capture offset_at within sha256)
            (λ _. do send_focus; send_event RuntimeEvent.configuration_applied) capture_edges-Keeps
            (λ _.
              then-Keeps sha256 send_focus (λ _. send_event RuntimeEvent.configuration_applied)
                (focus-Keeps sha256) (λ _. event-Keeps sha256 RuntimeEvent.configuration_applied))
            (drop_removed updated u).0
            (record {
              valid = k.0.valid;
              placed = k.0.placed;
              arranged = a;
              connected = retained-Known updated t.peers;
              held =
                  Assoc.AllValues-retain (ConnectionOk sha256)
                    (λ peer. is_some (screen updated peer)) t.peers k.0.held;
            })

  tick-Keeps :
      (captured : List (ℕ × CaptureServiceEvent F64)) (now : ℕ)
      (native_events : List ClipboardServiceEvent)
      → Keeps (Sound sha256) (tick offset_at within sha256 captured now native_events)
  unfolding tick
  tick-Keeps captured now native_events =
      then-Keeps sha256 (drain_capture_events offset_at within captured)
        (λ _. do
          complete_pending_activation now
          act flush
          drain_controller_clipboard sha256 native_events)
        (drain_capture-Keeps sha256 offset_at within captured)
        λ _.
          then-Keeps sha256 (complete_pending_activation now)
            (λ _. act flush >> drain_controller_clipboard sha256 native_events)
            (complete-Keeps sha256 now)
            λ _.
              then-Keeps sha256 (act flush) (λ _. drain_controller_clipboard sha256 native_events)
                (act-Keeps sha256 flush (flush-IsValid, flush-Placed))
                (λ _. drain_clipboard-Keeps sha256 native_events)

  step-Keeps :
      (event : LoopEvent F64)
      → Arranged event
      → Keeps (Sound sha256) (step offset_at within sha256 event)
  unfolding step set_pending
  step-Keeps LoopEvent.return_local a s h = return_control-Keeps sha256 (set_pending none s) h
  step-Keeps (LoopEvent.test_connection now) a s h = heartbeats-Sound sha256 now true s h
  step-Keeps (LoopEvent.reconfigure updated behavior) a s h =
      reconfigure-Keeps updated behavior a s h
  step-Keeps (LoopEvent.accepted info) a s h = accept-Keeps sha256 info s h
  step-Keeps LoopEvent.rejected a s h =
      event-Keeps sha256 (RuntimeEvent.error Notice.connection_rejected) s h
  step-Keeps LoopEvent.listener_stopped a s h = tt
  step-Keeps (LoopEvent.network now event) a s h = network-Keeps sha256 now event s h
  step-Keeps (LoopEvent.input_tick captured now native_events) a s h =
      tick-Keeps captured now native_events s h
  step-Keeps (LoopEvent.heartbeat_tick now) a s h = heartbeats-Sound sha256 now false s h
  step-Keeps (LoopEvent.drained rooms) a s h = make_room-Sound sha256 rooms s h

  run_loop-Keeps :
      (events : List (LoopEvent F64))
      → All Arranged events
      → Keeps (Sound sha256) (run_loop offset_at within sha256 events)
  unfolding run_loop
  run_loop-Keeps [] a s h = h
  run_loop-Keeps (event ∷ events) a s h =
      bind-Then (Sound sha256) (Sound sha256) (step offset_at within sha256 event)
        (λ _. run_loop offset_at within sha256 events) s (step-Keeps event a.0 s h)
        (λ _ t k. run_loop-Keeps events a.1 t k)

  open-Started :
      (node : NodeId) (topology : Topology) (behavior : EdgeBehavior)
      (capture : Sender CaptureCommand) (backend : Option BackendKind)
      (clipboard : Option ClipboardService)
      → IsArrangement topology.screens
      → Started sha256
          (open_controller offset_at within sha256 node topology behavior capture backend clipboard)
  unfolding open_controller Assoc.lookup
  open-Started node topology behavior capture backend clipboard a =
      option-cases (Started sha256)
        (try_send (CaptureCommand.configure (capture_edges offset_at topology node behavior))
          capture)
        _ _ (λ _. tt)
        λ configured _.
          result-cases (Started sha256) (ControllerSessions.new topology node) _ _
            (λ session e. record {
              valid = (subst (Opens topology node) e (new-Opens topology node)).0;
              placed = new-Placed topology node session e;
              arranged = a;
              connected = λ peer there. absurd (ground arith);
              held = tt;
            })
            (λ _ _. tt)

  open-Sound :
      (node : NodeId) (topology : Topology) (behavior : EdgeBehavior)
      (capture : Sender CaptureCommand) (backend : Option BackendKind)
      (clipboard : Option ClipboardService) (s : Controller)
      → IsArrangement topology.screens
      → open_controller offset_at within sha256 node topology behavior capture backend clipboard
        ≡ ok s
      → Sound sha256 s
  open-Sound node topology behavior capture backend clipboard s a e =
      subst (Started sha256) e (open-Started node topology behavior capture backend clipboard a)

  -- If a controller has started on an arrangement of desktops, then whatever branches its loop takes, with
  -- whatever was received, captured and reported, and whatever its channels take in between, if each topology
  -- that a branch brings is an arrangement: as long as the loop goes on its state is sound: the session
  -- is valid, and is that of the loop's node and topology; the topology is an arrangement; each connected
  -- peer has a screen in it, at most four heartbeats without an answer, and a valid clipboard session.
  pub running-Sound :
      (node : NodeId) (topology : Topology) (behavior : EdgeBehavior)
      (capture : Sender CaptureCommand) (backend : Option BackendKind)
      (clipboard : Option ClipboardService) (s : Controller) (events : List (LoopEvent F64))
      → IsArrangement topology.screens
      → open_controller offset_at within sha256 node topology behavior capture backend clipboard
        ≡ ok s
      → All Arranged events
      → Then (Sound sha256) (run_loop offset_at within sha256 events s)
  running-Sound node topology behavior capture backend clipboard s events a e arranged =
      run_loop-Keeps events arranged s
        (open-Sound node topology behavior capture backend clipboard s a e)
