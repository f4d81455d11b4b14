-- ===== src/Controllers/Status/Counts.antt =====
-- The numbers of the status, and the search for a node's machine.
use cluster_api_control_plan.Common.{
  ℕ, suc, ◌≡◌, refl, arith, true, false, none, some, ◌+◌, ◌^◌, ◌<◌, ◌≤◌, List, [], ◌∷◌, length, All,
  Among, inl, inr, str_eq, eq_iff, ap, ◌++◌, Option, String, ◌⊎◌, if◌then◌else◌, ◌==◌, Bool-cases,
}
use cluster_api_control_plan.Common.Int.{pos, sub_ℕ, inc_int32-pos, sub_int32-pos}
use cluster_api_control_plan.Kube.{Address, Machine, Node}
use cluster_api_control_plan.Platform.{Platform}
use cluster_api_control_plan.Run.{State}
use cluster_api_control_plan.Controllers.Status.{
  has_address, find_machine_with_address, count_ready, node_status,
}

-- One of the machine's addresses is the given one, of whatever type.
abbrev pub HasAddress : String → Machine → Type 0
HasAddress address m = (x : Address) × Among x m.addresses × (x.address ≡ address)

abbrev pub Lacks : String → List Machine → Type 0
Lacks address = All (λ m. ¬ HasAddress address m)

-- What a search for the address comes to: no machine has it, or it is the first that does.
abbrev pub Found : List Machine → String → Option Machine → Type 0
Found ms address none = Lacks address ms
Found ms address (some m) =
    (before : List Machine) × (after : List Machine) × (ms ≡ before ++ (m ∷ after))
    × Lacks address before
    × HasAddress address m

has_address_cases :
    (address : String) (as' : List Address)
    → ((has_address address as' ≡ true) × ((x : Address) × Among x as' × (x.address ≡ address)))
      ⊎ ((has_address address as' ≡ false)
          × (¬ ((x : Address) × Among x as' × (x.address ≡ address))))
unfolding has_address
has_address_cases address [] = inr (refl, λ (x, among, same). among)
has_address_cases address (a ∷ as') = elim (Bool-cases (str_eq a.address address)) [
  | inl e ↦ inl (ground arith, (a, inl refl, ground (arith, eq_iff a.address address)))
  | inr e ↦ elim (has_address_cases address as') [
    | inl (has, (x, among, same)) ↦ inl (ground arith, (x, inr among, same))
    | inr (lacks, none_has) ↦ inr (
      ground arith,
      λ (x, among, same). elim among [
        | inl k ↦
            absurd (ground (arith, ap (λ (z : Address). z.address) k, eq_iff a.address address))
        | inr later ↦ none_has (x, later, same)
      ],
    )
  ]
]

-- `findMachineWithAddress` finds the first machine one of whose addresses is the given one, the types
-- of the addresses aside, and none if there is no such machine.
pub find_machine_with_address_lem :
    (ms : List Machine) (a : Address) → Found ms a.address (find_machine_with_address ms a)
unfolding find_machine_with_address
find_machine_with_address_lem [] a = tt
find_machine_with_address_lem (m ∷ ms) a = elim (has_address_cases a.address m.addresses) [
  | inl (has, among) ↦ rw has ([], ms, refl, tt, among)
  | inr (lacks, none_has) ↦
      rw lacks
        (later (find_machine_with_address ms a) (find_machine_with_address_lem ms a) none_has)
]
  where
    later :
        (r : Option Machine)
        → Found ms a.address r
        → ¬ HasAddress a.address m
        → Found (m ∷ ms) a.address r
    later none all lacks = (lacks, all)
    later (some n) (before, after, split, all, has) lacks =
        (m ∷ before, after, ap (λ l. m ∷ l) split, (lacks, all), has)

module _ (p : Platform) where
  -- The ready nodes.
  abbrev pub ready_nodes : List Node → ℕ
  ready_nodes [] = 0
  ready_nodes (node ∷ nodes) =
      let rest = ready_nodes nodes in if p.is_node_ready node then suc rest else rest

  ready_nodes-le : (nodes : List Node) → ready_nodes nodes ≤ length nodes
  ready_nodes-le [] = omega arith
  ready_nodes-le (node ∷ nodes) = ground (arith, ready_nodes-le nodes)

  count_ready-eq :
      (nodes : List Node) (r : ℕ)
      → r + length nodes < 2 ^ 31
      → count_ready p nodes (pos r) ≡ pos (r + ready_nodes nodes)
  unfolding count_ready
  count_ready-eq [] r h = ground arith
  count_ready-eq (node ∷ nodes) r h =
      ground (arith, inc_int32-pos r, count_ready-eq nodes (r + 1), count_ready-eq nodes r)

  -- With fewer than 2^31 machines and control plane nodes, and a status that has the number of the
  -- machines and no ready node yet, the status comes to count the ready nodes, and as
  -- unavailable the listed machines less the ready nodes, whatever the number of machines desired, an
  -- integer that is negative if there are more ready nodes than machines. If any node is listed it becomes initialized and ready, and if there
  -- are none these two stay as they were.
  pub node_status_counts :
      (nodes : List Node) (n : ℕ) (s : State)
      → s.mcp.status.replicas ≡ pos n
      → s.mcp.status.ready_replicas ≡ pos 0
      → n < 2 ^ 31
      → length nodes < 2 ^ 31
      → let t = (node_status p nodes s).1 in
        (t.mcp.status.ready_replicas ≡ pos (ready_nodes nodes))
        × (t.mcp.status.unavailable_replicas ≡ sub_ℕ n (ready_nodes nodes))
        × (t.mcp.status.initialized
            ≡ (if length nodes == 0 then s.mcp.status.initialized else true))
        × (t.mcp.status.ready ≡ (if length nodes == 0 then s.mcp.status.ready else true))
  unfolding node_status
  node_status_counts [] n s replicas zero_ready few_machines few_nodes =
      ground (arith, count_ready-eq [] 0, sub_int32-pos n 0)
  node_status_counts (node ∷ nodes) n s replicas zero_ready few_machines few_nodes = ground (
    arith,
    count_ready-eq (node ∷ nodes) 0,
    ready_nodes-le (node ∷ nodes),
    sub_int32-pos n (ready_nodes (node ∷ nodes)),
  )
