-- ===== src/Growth/Extends.antt =====
-- A run's trace ends in the trace that it started from: for calls can be told apart, so that this is
-- something that grows with each call.
use native.Mathlib.Decide.{ℕ_discrete}
use cluster_api_control_plan.Common.{
  ℕ, ◌≡◌, sym, ap, arith, ◌≤◌, ◌<◌, Bool-cases, inl, inr, str_eq, eq_iff, String, List, [], ◌∷◌,
  ◌++◌,
}
use cluster_api_control_plan.Common.Int.{ℤ}
use cluster_api_control_plan.Kube.{Condition, Machine, ObjectReference, OwnerReference}
use cluster_api_control_plan.Api.{
  MachineTemplate, MicroK8sControlPlane, MicroK8sControlPlaneSpec, MicroK8sControlPlaneStatus,
}
use cluster_api_control_plan.Calls.{Call}

String-discrete : Discrete String
String-discrete s t = elim (Bool-cases (str_eq s t)) [
  | inl e ↦ yes ((eq_iff s t).0 e)
  | inr e ↦ no (λ h. cc (e, (eq_iff s t).1 h))
]

ℤ-discrete : Discrete ℤ
ℤ-discrete = hlevel (ℕ_discrete)

ObjectReference-discrete : Discrete ObjectReference
ObjectReference-discrete = hlevel (String-discrete)

OwnerReference-discrete : Discrete OwnerReference
OwnerReference-discrete = hlevel (String-discrete)

Condition-discrete : Discrete Condition
Condition-discrete = hlevel (String-discrete)

pub Machine-discrete : Discrete Machine
Machine-discrete = hlevel (String-discrete, ℕ_discrete)

MachineTemplate-discrete : Discrete MachineTemplate
MachineTemplate-discrete = hlevel (ObjectReference-discrete)

MicroK8sControlPlaneSpec-discrete : Discrete MicroK8sControlPlaneSpec
MicroK8sControlPlaneSpec-discrete = hlevel (String-discrete, ℤ-discrete, MachineTemplate-discrete)

MicroK8sControlPlaneStatus-discrete : Discrete MicroK8sControlPlaneStatus
MicroK8sControlPlaneStatus-discrete = hlevel (String-discrete, ℤ-discrete, Condition-discrete)

MicroK8sControlPlane-discrete : Discrete MicroK8sControlPlane
MicroK8sControlPlane-discrete = hlevel (
  String-discrete, ℕ_discrete, MicroK8sControlPlaneSpec-discrete,
  MicroK8sControlPlaneStatus-discrete, OwnerReference-discrete,
)

Call-discrete : Discrete Call
Call-discrete = hlevel (
  String-discrete, ℕ_discrete, ℤ-discrete, MicroK8sControlPlane-discrete, Machine-discrete,
  ObjectReference-discrete, OwnerReference-discrete,
)

trace-discrete : Discrete (List Call)
trace-discrete = hlevel (Call-discrete)

-- One if the second trace ends in the first, and none otherwise.
ends_in : List Call → List Call → ℕ
ends_in s [] = elim (trace-discrete s []) [ yes e ↦ 1 | no e ↦ 0 ]
ends_in s (c ∷ u) =
    let rest = ends_in s u in elim (trace-discrete s (c ∷ u)) [ yes e ↦ 1 | no e ↦ rest ]

ends_in_le : (s u : List Call) → ends_in s u ≤ 1
unfolding ends_in
ends_in_le s [] = ground arith
ends_in_le s (c ∷ u) = ground (arith, ends_in_le s u)

ends_in_mono : (s : List Call) (c : Call) (u : List Call) → ends_in s u ≤ ends_in s (c ∷ u)
unfolding ends_in
ends_in_mono s c u = ground (arith, ends_in_le s u)

ends_in_self : (s : List Call) → ends_in s s ≡ 1
unfolding ends_in
ends_in_self [] = ground arith
ends_in_self (c ∷ s) = ground arith

ends_in_sound : (s u : List Call) → 0 < ends_in s u → (cs : List Call) × (u ≡ cs ++ s)
unfolding ends_in
ends_in_sound s [] h = elim (trace-discrete s []) [
  | yes e ↦ ([], sym e)
  | no e ↦ absurd (ground arith)
]
ends_in_sound s (c ∷ u) h = elim (trace-discrete s (c ∷ u)) [
  | yes e ↦ ([], sym e)
  | no e ↦ let (cs, same) = ends_in_sound s u (ground arith) in (c ∷ cs, ap (λ t. c ∷ t) same)
]

-- If everything that grows with each call grows from one trace to another, the second extends the
-- first.
pub extends_of_grows :
    (s u : List Call)
    → ((f : List Call → ℕ) → ((c : Call) (t : List Call) → f t ≤ f (c ∷ t)) → f s ≤ f u)
    → (cs : List Call) × (u ≡ cs ++ s)
extends_of_grows s u grows =
    ends_in_sound s u (omega (arith, grows (ends_in s) (ends_in_mono s), ends_in_self s))
