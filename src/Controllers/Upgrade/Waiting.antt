-- ===== src/Controllers/Upgrade/Waiting.antt =====
-- How long the waits of an upgrade in place last, and how they end.
use cluster_api_control_plan.Common.{
  ℕ, zero, suc, ◌≡◌, ◌≢◌, Option, refl, arith, String, false, none, some, ◌≤◌, ◌+◌, ◌*◌, List, [],
  ◌∷◌, has_prefix,
}
use cluster_api_control_plan.Kube.{ObjectKey, Error, ok, err, Machine, Node, Pod}
use cluster_api_control_plan.Calls.{Call, KubernetesClient}
use cluster_api_control_plan.Platform.{Platform}
use cluster_api_control_plan.Run.{State, Flow, next, exit, panic, returned}
use cluster_api_control_plan.Controllers.Upgrade.{
  value_at, create_upgrade_pod, await_version, wait_for_node_upgrade, upgrade_machine,
}

-- The seconds slept in a trace.
abbrev pub slept : List Call → ℕ
slept [] = 0
slept (Call.sleep n ∷ trace) = slept trace + n
slept (_ ∷ trace) = slept trace

module _ (p : Platform) (kubeclient : KubernetesClient) where
  slept-await_version :
      (n : ℕ) (node version : String) (s : State)
      → slept (await_version p kubeclient n node version s).1.trace ≤ slept s.trace + n * 10
  unfolding await_version
  slept-await_version zero node version s = omega arith
  slept-await_version (suc n) node version s =
      grind (arith, λ (v : String) (t : State). slept-await_version n node v t)

  -- `waitForNodeUpgrade` sleeps for ten minutes at most, whatever the API server answers.
  pub wait_for_node_upgrade_bounded :
      (node version : String) (s : State)
      → slept (wait_for_node_upgrade p kubeclient node version s).1.trace ≤ slept s.trace + 600
  unfolding wait_for_node_upgrade
  wait_for_node_upgrade_bounded node version s =
      ground (arith, slept-await_version 60 node version s)

  module _ (name : String) (node : Node)
      (answers : (trace : List Call) → p.answer trace (Call.get_node kubeclient name) ≡ ok node)
      (cut : (v : String) → p.major_minor (p.major_minor v) ≡ p.major_minor v) where
    await_version_timeout :
        (n : ℕ) (version : String) (s : State)
        → has_prefix (p.major_minor node.kubelet_version) (p.major_minor version) ≡ false
        → let (r, t) = await_version p kubeclient n name version s in
          (r ≡ next none) × (slept t.trace ≡ slept s.trace + n * 10)
    unfolding await_version
    await_version_timeout zero version s old = (refl, omega arith)
    await_version_timeout (suc n) version s old = ground (
      arith,
      answers s.trace,
      cut version,
      await_version_timeout n (p.major_minor version)
          (record s { trace = Call.sleep 10 ∷ Call.get_node kubeclient name ∷ s.trace })
          (rw cut old),
    )

  -- If every read of the node gives the same old version, and `semver.MajorMinor` changes nothing
  -- when applied again, then `waitForNodeUpgrade` sleeps for ten minutes in all and reports no error.
  pub wait_for_node_upgrade_timeout :
      (name version : String) (node : Node) (s : State)
      → ((trace : List Call) → p.answer trace (Call.get_node kubeclient name) ≡ ok node)
      → ((v : String) → p.major_minor (p.major_minor v) ≡ p.major_minor v)
      → has_prefix (p.major_minor node.kubelet_version) (p.major_minor version) ≡ false
      → let (r, t) = wait_for_node_upgrade p kubeclient name version s in
        (r ≡ returned none) × (slept t.trace ≡ slept s.trace + 600)
  unfolding wait_for_node_upgrade
  wait_for_node_upgrade_timeout name version node s answers cut old =
      ground (arith, await_version_timeout name node answers cut 60 version s old)

  await_version-runs :
      (n : ℕ) (node version : String) (s : State)
      → (await_version p kubeclient n node version s).0 ≢ panic
  unfolding await_version
  await_version-runs zero node version s = ground arith
  await_version-runs (suc n) node version s =
      grind (arith, λ (v : String) (t : State). await_version-runs n node v t)

  wait_for_node_upgrade-returns :
      (node version : String) (s : State)
      → (r : Option Error) × ((wait_for_node_upgrade p kubeclient node version s).0 ≡ returned r)
  unfolding wait_for_node_upgrade
  wait_for_node_upgrade-returns node version s =
      by_flow (await_version p kubeclient 60 node version s).0 refl
    where
      by_flow :
          (r : Flow (Option Error) (Option Error))
          → (await_version p kubeclient 60 node version s).0 ≡ r
          → (x : Option Error) × ((wait_for_node_upgrade p kubeclient node version s).0
              ≡ returned x)
      by_flow (next x) e = (x, ground (arith, e))
      by_flow (exit x) e = (x, ground (arith, e))
      by_flow panic e = absurd (await_version-runs 60 node version s e)

  -- If the upgrade pod of a machine's node cannot be created, the round of the loop for this machine
  -- waits for the node all the same, then reads the machine that the node names and asks for its update
  -- to the wanted version; it panics after the sleep that follows this request.
  pub upgrade_machine_nil_pod :
      (m : Machine) (name : String) (node : Node) (e : Error) (s : State)
      → m.node_ref ≡ some name
      → ((trace : List Call) → p.answer trace (Call.get_node kubeclient name) ≡ ok node)
      → ((trace : List Call) (pod : Pod)
          → p.answer trace (Call.create_pod kubeclient "default" pod) ≡ err e)
      → let (r, t) = upgrade_machine p kubeclient m s in
        let u =
          (create_upgrade_pod p kubeclient node.name s.mcp.spec.version
            (record s { trace = Call.get_node kubeclient name ∷ s.trace })).1 in
        let v = (wait_for_node_upgrade p kubeclient node.name s.mcp.spec.version u).1 in
        let key : ObjectKey = record {
          namespace = s.cluster.namespace;
          name = value_at "cluster.x-k8s.io/machine" node.annotations;
        } in
        let current = (p.answer (Call.sleep 10 ∷ v.trace) (Call.get_machine key)).0 in
        (r ≡ panic)
        × (t.trace
            ≡ Call.sleep 10
              ∷ Call.update_machine (record current { version = some s.mcp.spec.version })
              ∷ Call.get_machine key
              ∷ Call.sleep 10
              ∷ v.trace)
  unfolding upgrade_machine
  upgrade_machine_nil_pod m name node e s named found refused =
      let made : (create_upgrade_pod p kubeclient node.name s.mcp.spec.version
            (record s { trace = Call.get_node kubeclient name ∷ s.trace })).0
          ≡ returned (err e) =
        unfold create_upgrade_pod in grind arith in
      let (r, waited) =
        wait_for_node_upgrade-returns node.name (s.mcp.spec.version)
          (create_upgrade_pod p kubeclient node.name s.mcp.spec.version
            (record s { trace = Call.get_node kubeclient name ∷ s.trace })).1 in
      (
        ground (arith, named, found s.trace, made, waited),
        ground (arith, named, found s.trace, made, waited),
      )
