-- ===== src/Lib.antt =====
-- A model of chia-operator, a Kubernetes operator in Go that deploys Chia nodes, farmers, wallets,
-- harvesters and the secret of a certificate authority from custom resources.
--
-- The parts and the files
-- -----------------------
-- A controller per kind of resource has one entry, `Reconcile`: it gets the resource, assembles the
-- objects that the resource asks for (pure functions of the resource), has each of them created or
-- updated, and writes the ready status. The parts meet in the cluster, which each call reads and
-- changes through one client.
--
--   Api/*       api/v1/chia{common,node,farmer,wallet,harvester,ca}_types.go: the custom resources,
--               a record per struct. A pointer or an optional field is an Option.
--   Kube        the Kubernetes objects as the controllers' literals fill them. API types of which
--               values are only passed on (probes, security contexts, resource requirements,
--               quantities) are the fields of a record, `Kube`, that the model takes as a parameter,
--               with what is called to make such values: `parse_quantity` is resource.ParseQuantity.
--   Common      internal/controller/common_controller.go (getCommonLabels, getChiaExporterContainer,
--               the constants), and what the four component controllers spell out alike:
--               `component_labels` is their getCommonLabels, `owner_reference` their
--               getOwnerReference, `chia_root_volume` the CHIA_ROOT part of getChiaVolumes.
--   Node, Farmer, Wallet, Harvester
--               internal/controller/chia{node,farmer,wallet,harvester}_controller.go: one definition
--               per assembly function, under the function's name in snake case. Their child
--               `Reconcile` has the method itself, `Pod` is about the workload and its services,
--               `Owned` about owner references and labels, Harvester/Plots and Harvester/Mounted
--               about the volumes of plots, Harvester/Peer about the farmer that a harvester is told
--               of, and Node/Network about the main and the test network.
--   Ca          internal/controller/chiaca_controller.go: the objects of the generator job. Ca/Reconcile
--               has Reconcile and getCASecret; Ca/Wait, Ca/Generate and Ca/Prepared are about the loop
--               and the call around it, Ca/Generator about the rights of the job.
--   Exec        statements of a method: they go on with a value, return, or panic, over the state of
--               the cluster.
--   Client      what the controllers call: Get, ReconcileResource of the operator-tools library,
--               Status().Update, time.Sleep, and the tests of errors. All of it is a parameter over an
--               unknown cluster state; `fetch`, `ensure` and `update_ready` are the statements of the
--               methods around these calls.
--   Plan        the contract of `Reconcile`: a plan is the list of objects of a resource, and `Runs` is
--               a big-step relation that says how a call over a plan may go on any client; Plan/Fetched
--               has the call from `Get` on, Plan/Keys which objects a plan is about. Plan/Holds and
--               Plan/Reached have what such a run achieves on a client that is lawful: an object
--               that was reconciled without an error is in the cluster as desired until a call for
--               the same object (the same kind, namespace and name) comes, and a status that was
--               written without an error is stored. This leaves out users of the cluster other than the
--               operator, and objects that are being deleted, for which a call of the library may return
--               no error with nothing applied; the methods drop the result that it then returns.
--               Plan/Owned says to whom an object belongs.
--   System      the operator as a whole: the method that is called for a kind of resource, and the plan of
--               a resource of any kind. System/Claims and System/Apart are about the names of the
--               objects of different resources. System/Acts has a call client call by client call, with
--               the laws that the interleaving of calls relies on (`Get` gives the resource that it is
--               asked for, reading and waiting keep the objects); System/Traces, System/CaTraces and
--               System/Calls say that a call of `Reconcile` is such a sequence, System/Stays what the
--               calls for other resources leave alone. System/Interleaved is a client with which others
--               act before each call, by a schedule; System/Bounded counts its calls.
--               System/Components has the theorems on the components alike, System/Crashes the settings on
--               which a call panics, System/Status that a plan does not depend on the status,
--               System/CaReady and System/CaInterleaved a whole call for a ChiaCA, System/Settled (with
--               Plan/Settled) a second call for a component, and System/CaSettled for a ChiaCA, on
--               a client that writes only where an object in the cluster differs from the desired one.
--   Manager     cmd/main.go, the `init` functions of api/v1/chia*_types.go with the builder of
--               api/v1/groupversion_info.go, and SetupWithManager of the five controllers. The flags,
--               the scheme and the manager are a parameter, `Platform`; an exit of the process is a
--               return with its code. Manager/Laws has what the libraries document, Manager/Stages the
--               stages of `main`, Manager/Serves and Manager/Started what holds when the manager is
--               started.
--   DeepCopy    api/v1/zz_generated.deepcopy.go: each DeepCopyInto, DeepCopy and DeepCopyObject under its
--               type's and its own name, over a memory of typed cells at addresses (DeepCopy/Memory).
--               DeepCopyInto takes the value that it reads and gives the one that it writes. The types
--               of api/v1 as they lie in memory are the records that end in `Cell`. DeepCopy/Shapes,
--               Refs and Items say what a value in memory stands for, for each way in which types are
--               put together; DeepCopy/Library has the copies of the libraries' types, a parameter;
--               DeepCopy/Objects and Apart are about the registered types.
--   Isolation   the selectors and the pods of different resources side by side.
--   Workload    what Kubernetes asks of a workload and the services in front of it, stated over the
--               assembled objects alone.
--   Base        shared names and lemmas: texts, Go maps as association lists, lists, panics.
--   Tests       sample resources, a client that keeps the cluster in memory and meets the laws, runs of
--               the controllers over it.
--
-- State, errors, panics
-- ---------------------
-- The state is the client's. Every call of the client hands a state on, a failing one too. An error is
-- a value: `Failure` tells a client's error from one that fmt.Errorf makes, whose text is kept. A nil
-- dereference and resource.MustParse on what is no quantity are panics, which end the call.
--
-- Bounds and fuel
-- ---------------
-- The loop that waits for the CA secret has its hundred rounds as a number that it recurs on. Printing
-- a number takes one more step than the number as fuel, and a number has no more digits than that.
-- Ports are constants below 65536, and nothing is computed with them.
--
-- Order
-- -----
-- Go leaves the order of a loop over a map open: a map is a list of its entries in any order, and a loop
-- takes them in the order of the list.
--
-- Not modelled
-- ------------
-- Log lines, which change nothing. Fields that no literal sets, which keep Go's zero value. The sharing
-- of one annotation map between the resource and its objects: each object has the map's entries as the
-- resource was fetched with them, which is what it is assembled with as long as nobody writes to the map
-- in between. The code of the repository does not; the libraries that the objects are handed to, whose
-- code is not in the repository, may. What the libraries' types point to. That the manager calls a reconciler for the requests of its kind, and the
-- client and the scheme that it hands to a reconciler. The script of the generator's image. The rights that the operator itself is given.
pub mod Base
pub mod Kube
pub mod Api
pub mod Common
pub mod Farmer
pub mod Wallet
pub mod Workload
pub mod Harvester
pub mod Node
pub mod Exec
pub mod Client
pub mod Plan
pub mod System
pub mod Manager
pub mod DeepCopy
pub mod Ca
pub mod Isolation
mod Tests
