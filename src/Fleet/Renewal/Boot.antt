-- ===== src/Fleet/Renewal/Boot.antt =====
-- `bootControlPlane` adds one machine of the wanted version to those that the server keeps.
use cluster_api_control_plan.Common.{
  ◌≡◌, refl, arith, Bool, false, some, ◌+◌, String, ◌<>◌, List, [], ◌∷◌, length,
}
use cluster_api_control_plan.Kube.{MicroK8sConfigSpec, ObjectReference, Machine, Cluster}
use cluster_api_control_plan.Api.{MicroK8sControlPlane}
use cluster_api_control_plan.Calls.{Call}
use cluster_api_control_plan.Platform.{Platform}
use cluster_api_control_plan.Run.{State, next}
use cluster_api_control_plan.Controllers.Boot.{
  new_machine, clone_input, bootstrap_config, get_failure_domain, place, generate_micro_k8s_config,
  create_machine, boot_control_plane,
}
use cluster_api_control_plan.Controllers.Boot.Report.{place_total}
use cluster_api_control_plan.Controllers.Machines.{version_differs}
use cluster_api_control_plan.Fleet.Count.{length-Perm}
use cluster_api_control_plan.Fleet.Serving.{Serves, generates}
use cluster_api_control_plan.Fleet.Renewal.Server.{KeepsMachines, behind, behind-Perm}

place-version :
    (p : Platform) (ds : List String) (m m' : Machine) (s : State)
    → (place p ds m s).0 ≡ next m'
    → m'.version ≡ m.version
unfolding place
place-version p [] m m' s e = ground arith
place-version p (d ∷ ds) m m' s e = ground arith

module _ (p : Platform) (cluster : Cluster) (version : String) (machines : List Call → List Machine)
    (server : KeepsMachines p cluster version machines)
    (fresh : version_differs p (p.major_minor version) (p.major_minor version) ≡ false) where
  -- One machine more, and as many behind.
  abbrev pub HasGrown : List Call → List Call → Type 0
  HasGrown t u =
      (length (machines u) ≡ length (machines t) + 1)
      × (behind p version (machines u) ≡ behind p version (machines t))

  creation-HasGrown :
      (m : Machine) (t : List Call)
      → m.version ≡ some version
      → HasGrown t (Call.create_machine m ∷ t)
  creation-HasGrown m t e =
      let (made, same, q) = server.creates m t e in
      ground (arith, length-Perm q, behind-Perm p version q, same, fresh)

  place-machines :
      (ds : List String) (m : Machine) (s : State)
      → machines (place p ds m s).1.trace ≡ machines s.trace
  unfolding place
  place-machines [] m s = refl
  place-machines (d ∷ ds) m s =
      ground (arith, server.keeps (Call.rand_intn (length (d ∷ ds))) s.trace)

  module _ (serves : Serves p cluster) where
    create_machine-HasGrown :
        (mcp : MicroK8sControlPlane) (c : Cluster) (i b : ObjectReference) (s : State)
        → mcp.spec.version ≡ version
        → HasGrown s.trace (create_machine p mcp c i b s).1.trace
    unfolding create_machine
    create_machine-HasGrown mcp c i b s e =
        let call = Call.generate_name (mcp.name <> "-") in
        let m = new_machine mcp c (p.answer s.trace call) i b in
        let u : State = record s { trace = call ∷ s.trace } in
        let (m', placed) = place_total p serves.draws (get_failure_domain c) m u in
        let v : State = (place p (get_failure_domain c) m u).1 in
        ground (
          arith,
          placed,
          server.keeps call s.trace,
          place-machines (get_failure_domain c) m u,
          creation-HasGrown m' v.trace,
          place-version p (get_failure_domain c) m m' u placed,
        )

    generate-machines :
        (spec : MicroK8sConfigSpec) (s : State)
        → machines (generate_micro_k8s_config p spec s).1.trace ≡ machines s.trace
    unfolding generate_micro_k8s_config
    generate-machines spec s =
        let call = Call.generate_name (s.mcp.name <> "-") in
        let config = bootstrap_config s.mcp spec (p.answer s.trace call) in
        ground (
          arith,
          server.keeps call s.trace,
          server.keeps (Call.create_config config) (call ∷ s.trace),
        )

    pub boot_control_plane-HasGrown :
        (first : Bool) (s : State)
        → s.mcp.spec.version ≡ version
        → HasGrown s.trace (boot_control_plane p first s).1.trace
    unfolding boot_control_plane
    boot_control_plane-HasGrown first s e =
        let input = clone_input s.mcp s.cluster in
        let u : State = record s { trace = Call.clone_template input ∷ s.trace } in
        let spec = s.mcp.spec.control_plane_config in
        let (infra, cloned) = serves.clones s.trace input in
        let (bootstrap, generated) = generates p cluster serves spec u in
        ground (
          arith,
          cloned,
          generated,
          server.keeps (Call.clone_template input) s.trace,
          generate-machines spec u,
          create_machine-HasGrown s.mcp s.cluster infra bootstrap
              (generate_micro_k8s_config p spec u).1 e,
        )
