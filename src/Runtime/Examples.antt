-- ===== src/Runtime/Examples.antt =====
-- Two desktops side by side, and the theorems on the runtime's functions.
use mathlib.Core.List.{Memᴰ}
use tevir.Prelude.{
  ℕ_discrete, none, ◌*◌, ◌/◌, any, find, find_map, filter_map, ◌+ℤ◌, ◌-ℤ◌, ◌≡◌, ◌↔◌, refl, pos,
  negsuc, ◌≤◌, true, false, ℕ, some, List, [], ◌∷◌, ◌++◌, ok, All, arith, is_some, length, ◌≢◌, ap,
  inl, inr,
}
use tevir.Domain.Identity.{NodeId, NodeId-discrete}
use tevir.Domain.Geometry.{Rect, Size-discrete}
use tevir.Domain.Input.{physical_key_eq, KeyAction, InputKind, InputEvent, PhysicalKey-discrete}
use tevir.Domain.Rect
use tevir.Domain.Edge.{Edge, contains_axis}
use tevir.Domain.Placement.{ScreenPlacement, single}
use tevir.Domain.Topology
use tevir.Domain.Display
use tevir.Domain.Display.{DesktopLayout}
use tevir.Domain.Connectivity
use tevir.Domain.Topology.{Topology, Transition, new, screen, transition}
use tevir.Domain.Topology.Crossing.{HasArea}
use tevir.Domain.Topology.Accepted.{IsArrangement, new_lem}
use tevir.Platform.Held
use tevir.Platform.Held.Runs
use tevir.Platform.Held.{no_input, contains}
use tevir.Platform.Held.Runs.{last_key, leaves_down}
use tevir.Runtime.Config.{EdgeBehavior, EdgeRule, active_interval}
use tevir.Runtime.Config as Settings
use tevir.Runtime.Config.File.{
  Role, Config, into_placement, from_placement, new_config, validate_file, from_config,
}
use tevir.Runtime.Config.Stored.{Storable, stored_back}
use tevir.Runtime.Edges
use tevir.Runtime.Edges.{
  half, edges_touch, opposite, start_of, shared_midpoint, shared_edge_offset, try_adjacent,
  adjacent_target, activation_target, edge_size, capture_edges,
}
use tevir.Runtime.Edges.Positions.{activation_crosses}
use tevir.Runtime.Edges.Captured.{capture_edges_lem}
use tevir.Runtime.Resize.{
  DesktopLayout-discrete, resize_topology_screen, place, replace, attach, attach_all, centred,
}
use tevir.Runtime.Resize.Kept.{Resized, resize_lem}
use tevir.Runtime.Resize.Attached.{Free}
use tevir.Runtime.Resize.Adjacent.{Adjacent, extent, resize-Adjacent}
use tevir.Runtime.Shortcut.{not_held, left_control, right_control, left_alt, escape, observe, watch}
use tevir.Runtime.Shortcut.Events.{event}
use tevir.Runtime.Shortcut.Sides.{SparesControl, release_disarms}

-- What a run of the topology and the edges computes with, under one name.
unfoldable pub evaluation : Unit {0}
unfolding resize_topology_screen place replace attach attach_all centred DesktopLayout-discrete
    activation_target edge_size adjacent_target try_adjacent shared_edge_offset shared_midpoint half
    Edges.max_ℤ Edges.min_ℤ edges_touch opposite start_of new single NodeId-discrete Size-discrete
    Topology.first_duplicate any Topology.check_screens Display.validate Display.single
    Display.validate_monitors Rect.right ◌+ℤ◌ ◌-ℤ◌ Rect.bottom Topology.overflows find Rect.overlaps
    Topology.check_connected Connectivity.has Connectivity.neighbours Connectivity.candidates
    Connectivity.shares_exposed_edge ℕ_discrete Connectivity.segments_overlap Connectivity.visit
    Display.edge_segments Display.new_monitor Display.outside Display.reach Display.span_end
    Display.span_start Display.touches Rect.left Rect.top Topology.connected_screen_indexes
    Topology.first_outside filter_map find_map Topology.transition Topology.screen Topology.leave
    Topology.axis_of Topology.try_candidate Topology.enter contains_axis
    Display.contains_edge_offset Display.name_too_long
evaluation = tt

abbrev desk : NodeId
desk = record { value = b'd' ∷ [] }

abbrev laptop : NodeId
laptop = record { value = b'l' ∷ [] }

abbrev desk_bounds : Rect
desk_bounds = record {
  origin = record { x = pos 0; y = pos 0 };
  size = record { width = 1920; height = 1080 };
}

abbrev laptop_bounds : Rect
laptop_bounds = record {
  origin = record { x = pos 1920; y = pos 200 };
  size = record { width = 1280; height = 800 };
}

abbrev screens : List ScreenPlacement
screens = single desk desk_bounds ∷ single laptop laptop_bounds ∷ []

abbrev topology : Topology
topology = record { screens = screens }

abbrev entered : Transition
entered = record { target = laptop; local_position = record { x = pos 0; y = pos 100 } }

accepted : new screens ≡ ok topology
unfolding evaluation
accepted = refl

screens-HasArea : All HasArea screens
unfolding single
screens-HasArea = omega arith

arranged : IsArrangement screens
arranged = ((new_lem screens topology screens-HasArea).0 accepted).1

-- A position on an edge, in thousandths, that is rounded down.
abbrev pub offset_at : ℕ → ℕ → ℕ
offset_at position maximum = position * maximum / 1000

leads_right : activation_target offset_at topology desk Edge.right none ≡ some (laptop, 599)
unfolding evaluation
leads_right = refl

leads_at : activation_target offset_at topology desk Edge.right (some 500) ≡ some (laptop, 539)
unfolding evaluation
leads_at = refl

activation_crosses_example :
    (r : Transition) × (transition topology desk Edge.right 599 ≡ some r) × (r.target ≡ laptop)
activation_crosses_example =
    activation_crosses offset_at topology desk Edge.right none laptop 599 screens-HasArea arranged
      leads_right

abbrev pub on : EdgeRule
on = record { enabled = true; active_start_percent = 0; active_end_percent = 100 }

abbrev pub behavior : EdgeBehavior
behavior = record {
  switch_delay_ms = 0;
  corner_dead_zone_percent = 5;
  left = on;
  right = on;
  top = on;
  bottom = on;
}

capture_edges_lem_example : Memᴰ Edge.right (capture_edges offset_at topology desk behavior) ↔ (
    (is_some (active_interval behavior Edge.right) ≡ true)
    × ((offset : ℕ) × (r : Transition) × (transition topology desk Edge.right offset ≡ some r)))
capture_edges_lem_example =
    capture_edges_lem offset_at topology desk behavior Edge.right screens-HasArea arranged

abbrev chord : List InputEvent
chord =
    event (InputKind.key left_control KeyAction.press) 1
    ∷ event (InputKind.key right_control KeyAction.press) 2
    ∷ event (InputKind.key left_alt KeyAction.press) 3
    ∷ []

abbrev pub escape_pressed : InputEvent
escape_pressed = event (InputKind.key escape KeyAction.press) 4

fires : (observe (watch not_held chord) escape_pressed).1 ≡ true
unfolding observe watch PhysicalKey-discrete ℕ_discrete
fires = refl

right_held : contains (Runs.run no_input chord).keys right_control ≡ true
unfolding PhysicalKey-discrete ℕ_discrete Runs.run Held.observe contains any
right_held = refl

-- The escape key comes up in between.
abbrev relaxed : List InputEvent
relaxed = event (InputKind.key escape KeyAction.release) 6 ∷ []

relaxed_spares : All SparesControl relaxed
unfolding PhysicalKey-discrete ℕ_discrete
relaxed_spares = (refl, tt)

release_disarms_example :
    let seen = chord ++ event (InputKind.key left_control KeyAction.release) 5 ∷ relaxed in
    (contains (Runs.run no_input seen).keys right_control ≡ true)
    × ((observe (watch not_held seen) escape_pressed).1 ≡ false)
release_disarms_example = release_disarms chord relaxed 5 escape_pressed right_held relaxed_spares

abbrev smaller : Rect
smaller = record {
  origin = record { x = pos 640; y = pos 180 };
  size = record { width = 1280; height = 720 };
}

abbrev small_layout : DesktopLayout
small_layout = Display.single smaller.size

abbrev resized_topology : Topology
resized_topology = record { screens = single desk smaller ∷ single laptop laptop_bounds ∷ [] }

resizes : resize_topology_screen topology desk small_layout ≡ ok resized_topology
unfolding evaluation
resizes = refl

found : screen topology desk ≡ some (single desk desk_bounds)
unfolding evaluation
found = refl

laptop_other : laptop ≢ desk
laptop_other e = ground (arith, ap (λ n. n.value) e)

resize_lem_example :
    IsArrangement resized_topology.screens
    × Resized resized_topology desk small_layout
    × (screen resized_topology laptop ≡ screen topology laptop)
resize_lem_example =
    resize_lem topology resized_topology desk laptop small_layout arranged laptop_other resizes

laptop_screen_other : (single laptop laptop_bounds).node ≢ desk
unfolding single
laptop_screen_other = laptop_other

along_right :
    Adjacent Edge.right (single desk desk_bounds).bounds (single laptop laptop_bounds).bounds
unfolding evaluation
along_right = (refl, omega arith, omega arith)

nothing_left : All (Free desk Edge.right (single desk desk_bounds).bounds) screens
unfolding evaluation
nothing_left = (refl, (refl, tt))

abbrev taller : Rect
taller = record {
  origin = record { x = pos 0; y = negsuc 179 };
  size = record { width = 1920; height = 1440 };
}

abbrev tall_layout : DesktopLayout
tall_layout = Display.single taller.size

abbrev tall_topology : Topology
tall_topology = record { screens = single desk taller ∷ single laptop laptop_bounds ∷ [] }

grows : resize_topology_screen topology desk tall_layout ≡ ok tall_topology
unfolding evaluation
grows = refl

longer :
    extent Edge.right (single desk desk_bounds).bounds.size ≤ extent Edge.right tall_layout.size
unfolding evaluation
longer = omega arith

resize-Adjacent_example :
    (resized : ScreenPlacement) × (screen tall_topology desk ≡ some resized)
    × Adjacent Edge.right resized.bounds (single laptop laptop_bounds).bounds
resize-Adjacent_example =
    resize-Adjacent topology tall_topology desk tall_layout Edge.right (single desk desk_bounds)
      (single laptop laptop_bounds) found (inr (inl refl)) laptop_screen_other longer along_right
      nothing_left grows

abbrev config : Config ℕ
config = record { node = desk; role = Role.controller 9000 topology behavior }

config_accepted : new_config config.node config.role ≡ ok config
unfolding evaluation new_config Settings.validate Settings.check_rule
config_accepted = refl

stored_back_example : (validate_file (from_config config) ≡ ok config) ↔ Storable config.role
stored_back_example = stored_back config config_accepted

config_Storable : Storable config.role
unfolding single
config_Storable = ((refl, (refl, tt)), accepted)

abbrev two_monitors : DesktopLayout
two_monitors = record {
  size = record { width = 200; height = 100 };
  monitors =
      Display.new_monitor none (record {
        origin = record { x = pos 0; y = pos 0 };
        size = record { width = 100; height = 100 };
      })
      ∷ Display.new_monitor none (record {
        origin = record { x = pos 100; y = pos 0 };
        size = record { width = 100; height = 100 };
      })
      ∷ [];
}

monitors_lost :
    length
      (into_placement (
        from_placement (record {
          node = desk;
          bounds = record { origin = record { x = pos 0; y = pos 0 }; size = two_monitors.size };
          layout = two_monitors;
        }))).layout.monitors
    ≡ 1
unfolding evaluation into_placement from_placement
monitors_lost = refl
