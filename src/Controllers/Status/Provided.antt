-- ===== src/Controllers/Status/Provided.antt =====
-- Which nodes `updateProviderID` updates, and to what.
use cluster_api_control_plan.Common.{
  ℕ, suc, ◌≡◌, inl, inr, refl, arith, ◌≤◌, ◌+◌, String, Bool, Option-cases, true, false, ◌&&◌, ◌||◌,
  none, some, List, [], ◌∷◌, str_eq, eq_iff, if◌then◌else◌,
}
use cluster_api_control_plan.Kube.{ok, Address, Machine, Node}
use cluster_api_control_plan.Calls.{Call, KubernetesClient}
use cluster_api_control_plan.Platform.{Platform}
use cluster_api_control_plan.Run.{State, for_each}
use cluster_api_control_plan.Controllers.Owned.{cluster_label_name}
use cluster_api_control_plan.Controllers.Status.{
  has_address, find_machine_with_address, adopt_machine, provide_id, update_provider_id,
}

-- A machine has one of the addresses.
abbrev pub shares : List Address → Machine → Bool
shares [] m = false
shares (a ∷ addresses) m = has_address a.address m.addresses || shares addresses m

abbrev pub has_id : String → Machine → Bool
has_id id m = elim m.provider_id [ none ↦ false | some own ↦ str_eq own id ]

-- One of the machines has an address of the node and the node's provider ID.
abbrev pub has_owner : List Machine → Node → Bool
has_owner [] node = false
has_owner (m ∷ ms) node = has_id node.provider_id m && shares node.addresses m || has_owner ms node

-- The requests to update a node to a provider ID that no machine with an address of it has.
abbrev pub misplaced : List Machine → List Call → ℕ
misplaced ms [] = 0
misplaced ms (Call.update_node client node ∷ trace) =
    let rest = misplaced ms trace in if has_owner ms node then rest else suc rest
misplaced ms (_ ∷ trace) = misplaced ms trace

-- The requests to update nodes.
abbrev pub node_updates : List Call → ℕ
node_updates [] = 0
node_updates (Call.update_node client node ∷ trace) = suc (node_updates trace)
node_updates (_ ∷ trace) = node_updates trace

found-has_owner :
    (ms : List Machine) (a : Address) (node : Node) (m : Machine) (id : String)
    → find_machine_with_address ms a ≡ some m
    → m.provider_id ≡ some id
    → ((n : Machine) → has_address a.address n.addresses ≡ true → shares node.addresses n ≡ true)
    → has_owner ms (record node { provider_id = id }) ≡ true
unfolding find_machine_with_address
found-has_owner [] a node m id found own sub = ground arith
found-has_owner (n ∷ ms) a node m id found own sub =
    ground (arith, eq_iff id id, sub n, found-has_owner ms a node m id)

module _ (p : Platform) where
  -- A node that is ready and has no provider ID.
  abbrev pub lacks_id : Node → Bool
  lacks_id node = p.is_node_ready node && str_eq node.provider_id ""

  abbrev pub lacking : List Node → ℕ
  lacking [] = 0
  lacking (node ∷ nodes) = let rest = lacking nodes in if lacks_id node then suc rest else rest

module _ (p : Platform) (c : KubernetesClient) (ms : List Machine) where
  adopt-placed :
      (node : Node) (as' : List Address) (s : State)
      → ((n : Machine) → shares as' n ≡ true → shares node.addresses n ≡ true)
      → misplaced ms (adopt_machine p c ms node as' s).1.trace ≡ misplaced ms s.trace
  unfolding adopt_machine
  adopt-placed node [] s sub = refl
  adopt-placed node (a ∷ as') s sub = elim (Option-cases (find_machine_with_address ms a)) [
    | inl missing ↦
        ground (arith, missing, adopt-placed node as' s λ n h. sub n (ground (arith, h)))
    | inr (m, found) ↦ elim (Option-cases m.provider_id) [
      | inl nil ↦ ground (arith, found, nil)
      | inr (id, own) ↦ ground (
        arith,
        found,
        own,
        found-has_owner ms a node m id found own λ n h. sub n (ground (arith, h)),
      )
    ]
  ]

  provide-placed :
      (node : Node) (s : State)
      → misplaced ms (provide_id p c ms node s).1.trace ≡ misplaced ms s.trace
  unfolding provide_id
  provide-placed node s = ground (arith, adopt-placed node node.addresses s (λ n h. h))

  all-placed :
      (nodes : List Node) (s : State)
      → misplaced ms (for_each nodes (provide_id p c ms) s).1.trace ≡ misplaced ms s.trace
  unfolding for_each
  all-placed [] s = refl
  all-placed (node ∷ nodes) s =
      ground (arith, provide-placed node s, all-placed nodes (provide_id p c ms node s).1)

  adopt-updates :
      (node : Node) (as' : List Address) (s : State)
      → node_updates (adopt_machine p c ms node as' s).1.trace ≤ node_updates s.trace + 1
  unfolding adopt_machine
  adopt-updates node [] s = omega arith
  adopt-updates node (a ∷ as') s = ground (arith, adopt-updates node as' s)

  provide-updates :
      (node : Node) (s : State)
      → node_updates (provide_id p c ms node s).1.trace
        ≤ node_updates s.trace + (if lacks_id p node then 1 else 0)
  unfolding provide_id
  provide-updates node s = ground (arith, adopt-updates node node.addresses s)

  all-updates :
      (nodes : List Node) (s : State)
      → node_updates (for_each nodes (provide_id p c ms) s).1.trace
        ≤ node_updates s.trace + lacking p nodes
  unfolding for_each
  all-updates [] s = omega arith
  all-updates (node ∷ nodes) s =
      ground (arith, provide-updates node s, all-updates nodes (provide_id p c ms node s).1)

-- If the workload cluster lists some nodes and the management cluster lists some machines of the
-- cluster, then each node that `updateProviderID` updates gets the provider ID of one of these
-- machines that has one of its addresses; and it makes no more updates than there are ready nodes
-- without a provider ID.
pub update_provider_id_owners :
    (p : Platform) (c : KubernetesClient) (nodes : List Node) (ms : List Machine) (s : State)
    → p.answer s.trace (Call.list_nodes c none) ≡ ok nodes
    → p.answer
        (Call.list_nodes c none ∷ s.trace)
        (Call.list_machines s.cluster.namespace ((cluster_label_name, s.cluster.name) ∷ []))
      ≡ ok ms
    → let t = (update_provider_id p c s).1 in
      (misplaced ms t.trace ≡ misplaced ms s.trace)
      × (node_updates t.trace ≤ node_updates s.trace + lacking p nodes)
unfolding update_provider_id
update_provider_id_owners p c nodes ms s listed found =
    let query =
      Call.list_machines s.cluster.namespace ((cluster_label_name, s.cluster.name) ∷ []) in
    let u : State = record s { trace = query ∷ Call.list_nodes c none ∷ s.trace } in
    ground (arith, listed, found, all-placed p c ms nodes u, all-updates p c ms nodes u)
