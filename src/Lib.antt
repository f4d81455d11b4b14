-- ===== src/Lib.antt =====
-- The control plane provider of Cluster API for MicroK8s: the controller that keeps the machines of
-- a MicroK8sControlPlane object at the desired number and version.
--
-- The program's parts, and the files that model them:
--   * api/v1beta1 (types, conditions, group): Api. The objects of other packages: Kube.
--   * controllers/microk8scontrolplane_controller.go: `Reconcile`, its deferred function and
--     `patchMicroK8sControlPlane` in Controllers/Reconcile; the query for the machines, their order
--     (controllers/utils.go) and `ClusterToMicroK8sControlPlane` in Controllers/Owned.
--   * controllers/reconcile.go: `reconcile`, its phases `reconcileNodeHealth` and
--     `reconcileConditions`, and `reconcileExternalReference` in Controllers/Reconcile;
--     `reconcileMachines` and `bootstrapCluster` in Controllers/Machines, in the stages
--     `sort_and_read`, `upgrade_stage`, `replica_stage`, `scale_down_stage` and `settle_stage`;
--     `bootControlPlane` in Controllers/Boot, `scaleDownControlPlane` in Controllers/ScaleDown,
--     the upgrade in place in Controllers/Upgrade, `reconcileDelete` in Controllers/Delete.
--   * controllers/configs.go: Controllers/Kubeconfig (and `generateMicroK8sConfig` in
--     Controllers/Boot). controllers/healthchecks.go: Controllers/Machines.
--   * controllers/status.go: Controllers/Status.
--   * api/v1beta1/zz_generated.deepcopy.go: DeepCopy, on a memory of cells (DeepCopy/Memory) in
--     which an object has pointers and slices (DeepCopy/Objects). The record `GoType` says what the
--     `DeepCopyInto` of an imported type is relied on for. The controllers reach the copies only
--     through libraries; in their model an object is a value.
--   * main.go, `SetupWithManager` and `SetupWebhookWithManager`: Setup.
-- Three trees have no code of their own. Growth has the lemmas that a run only adds calls to the
-- trace, for every function of controllers/ but `reconcileDelete`, and Growth/Cost the number of
-- calls that `reconcileMachines` makes and the time that it sleeps. Kept has what a round leaves
-- alone of the control plane object. Fleet has the number of machines over many rounds of
-- `Reconcile`: the records `TracksFleet`, `Serves` and `CountsFleet` say what an API server that
-- keeps the machines answers, and `Rounds` is a sequence of rounds on objects that it gives.
-- Fleet/Renewal has the rounds of a rolling upgrade: Plan is an abstract scheduler on two numbers, the
-- machines and those of another version, and the record `KeepsMachines` of Server is an API server
-- that keeps the machines themselves; it provides a machine, with its node, at the request that
-- creates it, and removes it at the request that deletes it, so that what a round sees is what the
-- rounds before it asked for. Fleet/Removal has the rounds on an object that is being deleted.
--
-- How a run is modelled. Run has the state of a round: the MicroK8sControlPlane object and the
-- Cluster object that the code changes in place, and the trace of the calls made so far. A
-- statement of Go runs on with a value, leaves its function with a result, or panics. Calls lists
-- what leaves the program: the requests to the management cluster and to the workload cluster, the
-- clock, sleeping and the random sources. Platform answers them: `answer` is given the whole trace
-- and the call, so that a server may answer anything and change its answers over time. The other
-- fields of Platform are the functions of imported packages (conditions, semver, sort, pem, x509,
-- rest config); they are parameters, and Platform/Laws has the documented laws of the conditions
-- that a few theorems assume. The bytes of a pod's command and of the kubeconfig are built as the
-- code builds them.
--
-- Numbers: `int32` is an integer with its wrap-around written out (Common/Int), Go's `int` of a
-- slice's length is a natural number, times are natural numbers of seconds.
--
-- Loops end by structural recursion. The 60 attempts of `waitForNodeUpgrade` are a counter that
-- decreases; `waitForPodDeletion` leaves its loop in the first round on every path. So no fuel is
-- used.
--
-- Not modelled: logging, contexts and cancellation, and the manifests, which are data. The order in
-- which Go walks the map of failure domains is the order of the list in Cluster. A cached client
-- may answer from an old state; the answers being arbitrary covers that. The version of a machine
-- that is created or updated is in Go the address of the version of the control plane object, so
-- that the machine as the API server stored it is decoded into that object; the model takes the
-- version to be stored as it was sent, and leaves the reply out. The same goes for what the
-- bootstrap configuration points to, which its object shares with the control plane object. Where a
-- webhook changes these, the object in memory would have the changed values from there on.
pub mod Common
pub mod Kube
pub mod Api
pub mod Calls
pub mod Platform
pub mod Run
pub mod Controllers
pub mod Setup
pub mod DeepCopy
pub mod Growth
pub mod Kept
pub mod Fleet
mod Tests
