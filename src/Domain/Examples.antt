-- ===== src/Domain/Examples.antt =====
-- Two desktops side by side: runs of the topology, and the theorems on it at them.
use tevir.Prelude.{
  ℕ_discrete, any, find, find_map, filter_map, ◌+ℤ◌, ◌-ℤ◌, ◌≡◌, ◌↔◌, refl, pos, none, some, List,
  [], ◌∷◌, ok, err, ℕ, All, arith,
}
use tevir.Domain.Identity.{NodeId, NodeId-discrete}
use tevir.Domain.Identity.Syntax
use tevir.Domain.Identity.Syntax.{IsLabel, new_node_lem}
use tevir.Domain.Geometry.{Rect, Size-discrete}
use tevir.Domain.Rect
use tevir.Domain.Edge.{Edge, contains_axis}
use tevir.Domain.Placement.{ScreenPlacement, single}
use tevir.Domain.Topology
use tevir.Domain.Display
use tevir.Domain.Connectivity
use tevir.Domain.Topology.{Topology, Transition, new, screen, transition}
use tevir.Domain.Topology.Crossing.{behind, along, HasArea, Reaches, transition_lands}
use tevir.Domain.Topology.Accepted.{IsArrangement, new_lem}

-- What a run of the topology computes with, under one name.
evaluation : Unit {0}
unfolding new single NodeId-discrete Size-discrete Topology.first_duplicate any
    Topology.check_screens Display.validate Display.single Display.validate_monitors Rect.right ◌+ℤ◌
    ◌-ℤ◌ Rect.bottom Topology.overflows find Rect.overlaps Topology.check_connected Connectivity.has
    Connectivity.neighbours Connectivity.candidates Connectivity.shares_exposed_edge ℕ_discrete
    Connectivity.segments_overlap Connectivity.visit Display.edge_segments Display.new_monitor
    Display.outside Display.reach Display.span_end Display.span_start Display.touches Rect.left
    Rect.top Topology.connected_screen_indexes Topology.first_outside filter_map find_map
    Topology.transition Topology.screen Topology.leave Topology.axis_of Topology.try_candidate
    Topology.enter contains_axis Display.contains_edge_offset Display.name_too_long
evaluation = tt

abbrev desk : NodeId
desk = record { value = b'd' ∷ [] }

abbrev laptop : NodeId
laptop = record { value = b'l' ∷ [] }

abbrev desk_bounds : Rect
desk_bounds = record {
  origin = record { x = pos 0; y = pos 0 };
  size = record { width = 1920; height = 1080 };
}

abbrev laptop_bounds : Rect
laptop_bounds = record {
  origin = record { x = pos 1920; y = pos 200 };
  size = record { width = 1280; height = 800 };
}

abbrev screens : List ScreenPlacement
screens = single desk desk_bounds ∷ single laptop laptop_bounds ∷ []

abbrev topology : Topology
topology = record { screens = screens }

abbrev entered : Transition
entered = record { target = laptop; local_position = record { x = pos 0; y = pos 100 } }

accepted : new screens ≡ ok topology
unfolding evaluation
accepted = refl

crosses : transition topology desk Edge.right 300 ≡ some entered
unfolding evaluation
crosses = refl

misses : transition topology desk Edge.right 100 ≡ none
unfolding evaluation
misses = refl

abbrev label : List ℕ
label = b'd' ∷ 45 ∷ b'1' ∷ []

labelled : Syntax.new label ≡ ok (record { value = label })
unfolding Syntax.new Syntax.last_byte Syntax.invalid_byte
labelled = refl

upper_refused : Syntax.new (b'D' ∷ []) ≡ err (Syntax.NodeIdError.invalid_character 0 b'D')
unfolding Syntax.new Syntax.last_byte Syntax.invalid_byte
upper_refused = refl

screens-HasArea : All HasArea screens
unfolding single
screens-HasArea = omega arith

found : screen topology desk ≡ some (single desk desk_bounds)
unfolding evaluation
found = refl

new_lem_example :
    (new screens ≡ ok topology) ↔ ((topology.screens ≡ screens) × IsArrangement screens)
new_lem_example = new_lem screens topology screens-HasArea

transition_lands_example :
    Reaches topology.screens desk
      (behind Edge.right
        (single desk desk_bounds).bounds
        (along Edge.right (single desk desk_bounds).bounds 300))
      entered
transition_lands_example =
    transition_lands topology desk Edge.right 300 (single desk desk_bounds) entered screens-HasArea
      found crosses
