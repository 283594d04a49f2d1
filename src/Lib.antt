-- ===== src/Lib.antt =====
-- Verification library of the monitoring operator, a Kubernetes operator that keeps a monitoring
-- stack in a cluster as one custom resource, PlatformMonitoring, describes it.
--
-- The program. The controller (controllers/platformmonitoring_controller.go) reads the custom
-- resource, fills in defaults (api/v1/platformmonitoring_types.go), runs one reconciler per component
-- in a fixed order and records in the status which of them failed. A component reconciler
-- (controllers/<component>) builds manifests and, with the operations that all of them share
-- (controllers/utils/common.go), creates, updates or deletes the objects of its component.
--
-- The files.
-- - Prelude and its children: shared names, Boolean tests, lists, Go strings as bytes.
-- - Exec: Go methods that change the cluster and answer with an error, a value or a panic. Exec/Rules
--   has what an action keeps (Keeps) and what it ensures if it returns (Ensures), along sequences.
-- - Api, Api/Install, Api/Defaults: the custom resource with the fields that the modelled code reads,
--   the IsInstall methods, FillEmptyWithDefaults.
-- - Cluster: objects and the client of controller-runtime as an interface, with the behaviour that is
--   assumed of it (IsLawful). An object has its labels, its annotations and a value at every path of
--   struct fields. Cluster/Memory is a client for which the assumptions hold, Cluster/Keys compares
--   keys.
-- - Utils/Labels, Utils/Numbers, Utils/Discovery: TruncLabel, GetInstanceLabel and GetTagFromImage;
--   the parts of strconv that are called; HasApi, ResourceExists and the OpenShift tests. The
--   discovery client is the parameter Discovery.
-- - Reconciler: CreateResource, UpdateResource, DeleteResource, and the shapes of the handle and delete
--   methods (create_or_update, create_if_missing, delete_if_found). Merge and Fields have what a handle
--   method takes over from a manifest, Shapes what the Run methods share. Replace has the handlers that
--   delete an object under a former name, Early the uninstall methods that return where their main
--   object is missing. Frame, Converge, Kinds, Settle and Wanted have the facts about one handler,
--   Unreadable those of a read that fails, Merge/Version those of the version label. Plan takes a Run
--   method as a list of steps, each with the keys that it may change and a goal: in a list whose steps
--   share no key every goal is reached. Plan/Steps and Plan/Handlers make steps of handlers.
-- - Pushgateway, KubeStateMetrics, NodeExporter, AlertManager, Prometheus, PrometheusOperator: one
--   definition for each method of handlers.go, and Run and uninstall of reconciler.go (run, install,
--   uninstall). Their builders in manifest.go are the interface Manifests. Steps has the lists of
--   steps of Run and uninstall, Runs the theorems on Run.
-- - Victoriametrics: the same for controllers/victoriametrics, one child module for each of vmsingle,
--   vmagent, vmalert, vmalertmanager, vmauth, vmcluster and vmuser. The part of uninstall behind the
--   early return is uninstall_rest; VmSingle/Stops has what an early return leaves.
-- - KubernetesMonitors: the same for controllers/kubernetes-monitors; Choice has IsMonitorInstall and
--   the table of public clouds of controllers/utils/vars.go.
-- - PrometheusRules: controllers/prometheus-rules/manifest.go, the choice of the rule groups
--   (prepareOverrideConfigMap, prometheusRules) and OverridePrometheusRule of api/v1, and in Handlers
--   the rest of prometheusRules, which sets spec, namespace, labels and annotations of the object, the
--   methods of handlers.go and Run. The decoded YAML asset is a parameter, and so is how a list of
--   groups is laid out below Spec. Overrides and Direct describe the outcome without the map of
--   overrides. Groups, Built, Direct and Runs have the theorems.
-- - Controller/Conditions: the list of status conditions with getCondition, removeStatus and
--   prepareStatusForUpdate. Its children relate it to a map from reasons to conditions.
-- - Controller/Reconcile: Reconcile with the components in their order, updateStatus and
--   ignoreDeletionPredicate. Failures, Outcomes, Answer, Returns and Unique have its theorems;
--   Goals joins what the components bring about.
-- - Examples: the theorems applied to concrete inputs, on a small cluster in memory.
--
-- Correspondence. A method r.M(cr) that returns an error is a definition m of type
-- State → Outcome × State; `if err := a; err != nil { return err }` is the sequence `a >> b`, an
-- error that is only logged is `logged`, a dereferenced nil pointer or a write to a nil map is
-- `panic`. A nil pointer is none. Text that the code cuts or measures is a list of bytes.
--
-- Bounds. No recursion here needs fuel. int64 is kept modulo 2 ^ 64 where the requeue interval is
-- multiplied, and parsed numbers are checked against its range.
--
-- Assumed, as named hypotheses: the client stores what it accepts and changes no other key, and what
-- it deletes is gone (IsLawful). This is the API server with one writer, without admission or defaults
-- that change an object, and without finalizers: a volume claim that a pod still mounts stays for a
-- while, and what is said of deletions does not cover it. The v1beta1 and the v1 ingress of one name
-- count as two objects. SetControllerReference changes nothing but the owner references
-- (IsLawfulEnv), which objects here do not show; the builders give objects of the kind that they are
-- named for (IsKinded of each component). Where a theorem asks for a client that is healthy for a kind
-- (IsHealthy, AreHealthy), reads of that kind find the object or answer NotFound and deletions of what
-- is there are accepted; this is not asked for the kinds that the operator does not use (ingress APIs
-- that discovery does not report, cluster-wide roles without privileged rights). What a builder does
-- not build is not deleted: the failure is logged, and Removed says nothing of that object.
--
-- Not modelled: the manifests as values, which start from YAML assets; etcd, grafana,
-- grafana-operator and vmoperator, which appear as parameters of Reconcile; main.go, generated code,
-- logging, charts.
pub mod Prelude
pub mod Exec
pub mod Api
pub mod Cluster
pub mod Utils
pub mod Reconciler
pub mod Pushgateway
pub mod KubeStateMetrics
pub mod NodeExporter
pub mod AlertManager
pub mod Prometheus
pub mod PrometheusRules
pub mod PrometheusOperator
pub mod KubernetesMonitors
pub mod Victoriametrics
pub mod Controller
pub mod Examples
