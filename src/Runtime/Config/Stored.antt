-- ===== src/Runtime/Config/Stored.antt =====
-- What is kept of a stored configuration.
use tevir.Prelude.{
  ◌≡◌, ◌↔◌, refl, sym, ◌∙◌, ap, List, [], ◌∷◌, map, ok, All, Result-cases, inl, inr, arith,
}
use tevir.Domain.Identity.{NodeId}
use tevir.Domain.Display.{single as single_layout}
use tevir.Domain.Placement.{ScreenPlacement, single}
use tevir.Domain.Topology
use tevir.Domain.Topology.{Topology}
use tevir.Domain.Topology.Accepted.{accepted-IsArrangement}
use tevir.Runtime.Config.File.{
  Role, Config, into_placement, from_placement, new_config, validate_role, validate_file, from_role,
  from_config,
}

-- A desktop with the layout that a placement without one gets: one monitor without a name, of scale 1, not
-- turned, that covers it.
abbrev pub IsPlain : ScreenPlacement → Type 0
IsPlain s = s.layout ≡ single_layout s.bounds.size

-- What a role needs to be stored whole: each desktop has that plain layout, and its topology is accepted.
abbrev pub Storable : {SocketAddr : Type 0} → Role SocketAddr → Type 0
Storable (Role.controller listen topology edge_behavior) =
    All IsPlain topology.screens × (Topology.new topology.screens ≡ ok topology)
Storable (Role.agent controller_node address display_layout) =
    display_layout ≡ single_layout display_layout.size

-- A screen of a plain layout is stored whole.
into-from_placement : (s : ScreenPlacement) → IsPlain s → into_placement (from_placement s) ≡ s
unfolding into_placement from_placement single
into-from_placement s h = ground (arith, h)

screens_back :
    (ss : List ScreenPlacement) → All IsPlain ss → map into_placement (map from_placement ss) ≡ ss
screens_back [] h = refl
screens_back (s ∷ ss) h = ground (arith, into-from_placement s h.0, screens_back ss h.1)

IsPlain-each :
    (ss : List ScreenPlacement) → map into_placement (map from_placement ss) ≡ ss → All IsPlain ss
unfolding into_placement from_placement single
IsPlain-each [] h = tt
IsPlain-each (s ∷ ss) h = (ground arith, IsPlain-each ss (ground arith))

module _ {SocketAddr : Type 0} where
  role_back : (role : Role SocketAddr) → Storable role → validate_role (from_role role) ≡ ok role
  unfolding validate_role from_role
  role_back (Role.controller listen topology edge_behavior) h =
      ground (arith, screens_back topology.screens h.0, h.1)
  role_back (Role.agent controller_node address display_layout) h = ground (arith, h)

  back_role : (role : Role SocketAddr) → validate_role (from_role role) ≡ ok role → Storable role
  unfolding validate_role from_role
  back_role (Role.controller listen topology edge_behavior) h =
      let taken : Topology.new (map into_placement (map from_placement topology.screens))
          ≡ ok topology =
        ground arith in
      let same = (accepted-IsArrangement _ topology taken).0 in
      (IsPlain-each topology.screens (sym same), ap Topology.new same ∙ taken)
  back_role (Role.agent controller_node address display_layout) h = ground arith

  new_config-role :
      (node : NodeId) (role : Role SocketAddr) (config : Config SocketAddr)
      → new_config node role ≡ ok config
      → config.role ≡ role
  unfolding new_config
  new_config-role node (Role.controller listen topology edge_behavior) config h = ground arith
  new_config-role node (Role.agent controller_node address display_layout) config h = ground arith

  -- If a configuration is accepted, then what is stored of it is read back as that configuration exactly
  -- if the layout of each of its desktops is plain, that is one monitor without a name, of scale 1, not turned,
  -- that covers the desktop, and, for a controller, its topology is accepted.
  pub stored_back :
      (config : Config SocketAddr)
      → new_config config.node config.role ≡ ok config
      → (validate_file (from_config config) ≡ ok config) ↔ Storable config.role
  unfolding validate_file from_config
  stored_back config accepted = (
    λ h. elim (Result-cases (validate_role (from_role config.role))) [
      | inl (role, e) ↦
          let made : new_config config.node role ≡ ok config = ground arith in
          back_role config.role (e ∙ ap ok (sym (new_config-role config.node role config made)))
      | inr (failure, e) ↦ absurd (ground arith)
    ],
    λ h. ground (arith, role_back config.role h, accepted),
  )
