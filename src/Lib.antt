-- ===== src/Lib.antt =====
-- nodemanager, a controller that keeps machines as their resources describe them: this library
-- models the parts below and states what they promise.
--
-- The program. Each machine runs one process with reconcilers that watch resources of a Kubernetes
-- cluster. The ManagedNode reconciler upgrades the machine on schedule; it drains the cluster's
-- node before, asks an agent for approval and takes the lock of the upgrade group, which is a Lease
-- of the cluster. The ConfigSet reconciler brings packages, files, services and commands of the
-- ConfigSets whose labels match the node onto the machine, restarts services under the same kind of
-- lock, and records the outcome in the status of the ManagedNode. The manager of jails provisions
-- and removes FreeBSD jails on ZFS datasets for the Jail controller, which also updates them on
-- schedule. The Poudriere controller builds packages. A server of notifications passes events to
-- agents and their approvals back. A webhook admits the updates that the service accounts of nodes
-- make.
--
-- The model. Calls to the outside (the API server, handlers of packages, services and files,
-- clocks) are logged, newest first, and a record `Outside` per part answers each call by any
-- function of the calls before it, so a theorem holds for every outside, and for what other actors
-- do between calls.
--   * Common: shared helpers; Common/Effects is the logging of calls, Common/Errors Go's errors,
--     Common/Dicts Go's maps, Common/Times instants and durations.
--   * Api: the resources of api/common/v1.
--   * Node: internal/controller/common/managednode_controller.go. Node/Drain is drainNode and
--     isDrainablePod, Node/Cordon is cordonNode, uncordonNode, maybeUncordon and getKubernetesNode,
--     Node/Approval is requestUpgradeApproval, Node/Upgrade is handleUpgrade and lastUpgradeTime,
--     Node/Labels is updateNodeLabels, Node/Status updateNodeStatus with what it collects (Facts,
--     with wireguard.go), Node/Migrate migrateUpgradeAnnotation, Node/Prune
--     pruneStaleConfigSetStatus, and Node/Reconcile puts them together, with GetNode of pkg/util.
--     Common/Retry says what client-go's RetryOnConflict does. The files below these hold proofs.
--   * Locker: pkg/locker/leaselocker.go, LockFor, Lock, Unlock and Locked. Locker/Writes says under
--     which conditions they update the lease, Locker/Contention has several lockers on one lease.
--   * Labels: matchAllLabels of internal/controller/common/common.go and LabelGate of
--     pkg/common/labels.
--   * ConfigSet: internal/controller/common/configset_controller.go. ConfigSet/Conflicts is
--     detectConflicts, ConfigSet/Packages handlePackageSet, ConfigSet/Services handleServiceSet,
--     ConfigSet/Executions handleExecutions, ConfigSet/Files handleFileSet, its Content
--     writeFileContent, its Managed managedPathsUnder, ConfigSet/Records the writes of the status,
--     ConfigSet/Conditions updateConfigSetCondition, ConfigSet/Notify notifyResources,
--     ConfigSet/Collection the collection of the file bucket, ConfigSet/Watches the mappers.
--     ConfigSet/Apply is the part of Reconcile that applies a ConfigSet, ConfigSet/Reconcile the
--     rest.
--   * Jail: pkg/jail and pkg/zfs. Jail/Merge is MergeTemplateDefaults, Jail/Network
--     cycleJailIfNetworkChanged, Jail/Provision EnsureJail, Jail/Remove DeleteJail, Jail/Release
--     Ensure of the release manager. Datasets and files of a jail are named by what they are, not
--     by their paths.
--   * JailController: internal/controller/freebsd/jail_controller.go. JailController/Update is
--     handleUpdate, JailController/Reconcile the rest; the manager of jails is its interface there.
--   * Files: pkg/files/files.go. Files/Handler is FileHandlerCommon, as functions of a disk,
--     Files/Bucket the store of backups.
--   * Notification: internal/notification/server.go, as a server state and a relation of steps.
--   * Poudriere: pkg/poudriere and its resources; Poudriere/Reconcile is
--     internal/controller/freebsd/poudriere_controller.go.
--   * Webhook: internal/webhook/node_validator.go, with the JSON library as a parameter.
--   * Tests: runs at concrete data.
--
-- Fuel. The wait of drainNode and the loops of LockFor and Unlock run on fuel, and return `none`
-- when it runs out. The drain sleeps five seconds a round and stops after its timeout, so a round
-- for each five seconds of the timeout, and two more, are enough; the lock loops stop with dskit's
-- backoff after `MaxRetries` waits.
--
-- Not modelled: metrics, logs and traces; the conversion of a lease's duration of 2 ^ 31 seconds or
-- more; the texts of errors where they hold durations, paths or several values; the set-up of
-- controllers and watches; the data and the rendering of templates; the handlers of the operating
-- systems, which run one command each; the programs under cmd; generated and vendored code.
mod Common
pub mod Api
pub mod Labels
pub mod Node
pub mod ConfigSet
pub mod Jail
pub mod JailController
pub mod Files
pub mod Notification
pub mod Poudriere
pub mod Webhook
pub mod Locker
mod Tests
