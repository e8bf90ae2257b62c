-- ===== src/Lib.antt =====
-- The OpenTelemetry operator for Kubernetes: a verification library for its Go code.
--
-- The operator runs in a cluster. Its admission webhooks fill in and validate OpenTelemetryCollector
-- objects, and change the pods that are created: a collector as a sidecar container, and the
-- auto-instrumentation agents of several languages. Its controller brings the cluster to what a
-- collector asks for, kind by kind: it builds the configuration that the collectors get and the ports
-- that they open, and at its start it upgrades the collectors of older versions. Beside the collectors
-- runs the target allocator, which spreads Prometheus scrape targets over them. This library models
-- those parts and proves what they keep.
--
-- Files
-- - Prelude, Prelude/Tests, Lists, Int, Text: names of the libraries passed on, Boolean tests, lists,
--   the integers of Go, and the functions of Go's strings package that the code calls. EqualFold and
--   ToLower are written for a comparison with an ASCII text, as the code makes.
-- - GoMap, GoMap/Laws: Go's maps with string keys as association lists. `range` over a map visits its
--   keys in an order that is a parameter (Range), or the loop's result does not depend on it.
-- - Allocator/Target: cmd/otel-allocator/target/target.go (Item), and the Collector of
--   cmd/otel-allocator/allocation/strategy.go. Allocator/Diff: cmd/otel-allocator/diff/diff.go (Maps).
-- - Allocator/Mapping, Allocator/State: the fields and loops that both strategies repeat in
--   cmd/otel-allocator/allocation (targetItems, collectors, the index collector -> job -> hash, the
--   gauge; addTargetToTargetItems, handleTargets, GetTargetsForCollectorAndJob). A *Collector is its
--   key in the map of collectors; `none` stands for a nil dereference, which panics.
-- - Allocator/LeastWeighted: cmd/otel-allocator/allocation/least_weighted.go. SetTargets and
--   SetCollectors call Maps, then handleTargets or handleCollectors.
-- - Allocator/ConsistentHashing: cmd/otel-allocator/allocation/consistent_hashing.go, over a hash ring
--   (Ring) with the documented laws of github.com/buraksezer/consistent.
-- - Allocator/PreHook, Allocator/Registry: the relabel filter of cmd/otel-allocator/prehook, which
--   SetTargets applies first, and the registries of strategies and hooks. SetConfig shares the
--   configurations with its caller; only the filter's side of that write is modelled.
-- - Kube: the fields of the Kubernetes types that the mutators read or set; the others are untouched.
-- - Instrumentation: pkg/instrumentation. Env: the helpers on environment variables (getIndexOfEnv,
--   moveEnvToListEnd, validateContainerEnv). Agents: injectJavaagent, injectNodeJSSDK,
--   injectPythonSDK, injectDotNetSDK. GoAgent: injectGoSDK. Apache: injectApacheHttpdagent. Resources:
--   createResourceMap, addParentResourceLabels. Sdk: injectCommonEnvVar, injectCommonSDKConfig.
--   Inject: inject. Mutator: Mutate, with getInstrumentationInstance and annotationValue. Webhook:
--   apis/v1alpha1/instrumentation_webhook.go (Default, validate, validateEnv), with strconv.ParseFloat
--   as a parameter (Floats).
-- - Sidecar: pkg/sidecar. Attributes: getResourceAttributesEnv. Mutator: Mutate, add, remove,
--   getCollectorInstance and podReferences.
-- - Webhook: apis/v1alpha1/opentelemetrycollector_webhook.go. Default: Default. Validate:
--   validateCRDSpec, checkAutoscalerSpec, with the check of the Prometheus receiver in
--   Prometheus/Config.
-- - Collector: pkg/collector/annotations.go (Annotations, PodAnnotations), with the text of the
--   configuration's SHA-256 sum as a parameter. Labels: pkg/collector/labels.go and
--   pkg/targetallocator/labels.go.
-- - Naming: pkg/naming/triming.go (Truncate, trimNonAlphaNumeric), over the bytes of a text, with
--   the format of fmt.Sprintf as a function of its values. Texts: the bytes of a text. Names:
--   pkg/naming/main.go. Dns: pkg/naming/dns.go (DNSName), over code points, with unicode.ToLower as
--   a parameter.
-- - Reconcile: pkg/collector/reconcile and controllers. Api: the API server, an interface with its
--   documented laws, where every call may fail. Task: the two loops that each task has a copy of
--   (expectedDeployments and deleteDeployments), and the retry of the config maps. Kinds: what each
--   kind compares and patches. Loops, Tasks: the functions of each file, such as expectedDaemonSets
--   and DaemonSets. ConfigMaps: desiredConfigMap and desiredTAConfigMap. Owned: the labels of the
--   objects against those by which they are listed. Controller: RunTasks, Reconcile and the task of
--   the routes. Memory: a server in memory, for the examples.
-- - The modules whose names end in Examples: runs on small inputs.
-- - Yaml, Yaml/Laws: the values that gopkg.in/yaml.v2 reads a configuration into, and the loops over
--   its maps. A loop visits a map in the order of its list; every key is a text. Yaml/Same: values
--   that differ by the order of keys only.
-- - Upgrade: pkg/collector/upgrade. Types: the fields of an OpenTelemetryCollector that an upgrade
--   reads or sets. Early, Middle, Renames, Late: the routines upgrade0_2_10 to upgrade0_61_0.
--   Chain: ManagedInstance, ManagedInstances and the list of the versions, with Semver for the
--   comparison of versions. The original from which a patch is computed shares its Args with the
--   upgraded collector, and is passed to the client with the arguments that the routines have left.
-- - Prometheus: pkg/targetallocator/adapters/config_to_prom_config.go. Config: its errors,
--   ConfigToPromConfig and ValidatePromConfig. Unescape: UnescapeDollarSignsInPromConfig. Rewrite:
--   AddHTTPSDConfigToPromConfig, AddTAConfigToPromConfig. Replace: ReplaceConfig of
--   pkg/collector/reconcile/config_replace.go. Admission: the webhook and ReplaceConfig on one
--   collector. Rewrite/Same and Replace/Same: neither depends on the order of keys.
-- - Receivers: pkg/collector/parser and pkg/collector/adapters. Parser: receiver.go and
--   receiver_generic.go (portFromEndpoint, portName, singlePortFromConfigEndpoint). Protocols: the
--   parsers of Jaeger and OTLP. Registry: the parsers that register themselves, BuilderFor and For.
--   Enabled: GetEnabledReceivers. Ports: ConfigToReceiverPorts. Probe: ConfigToContainerProbe.
--
-- Bounds and fuel. Counters are integers without a bound: Go's int has 64 bits, and a counter counts
-- targets held in memory. The webhook compares int32 values and computes none. Calls of an allocator
-- hold its mutex, so a call is one step. addParentResourceLabels follows the owners of owners on fuel,
-- and gives nothing where that is used up: the Go recursion ends only where the chain of ReplicaSets
-- does. Two levels are enough where a ReplicaSet is owned by a Deployment; for longer chains the
-- ranks of the ReplicaSets say how much is. A port is printed on fuel for ten digits,
-- which an int32 has at most.
--
-- Parameters. The API server (Client, Owners, Api, Collectors), the feature gates, the hash ring,
-- the port checks of k8s.io/apimachinery, gopkg.in/yaml.v2 (Yaml), semantic versions (Semver), and,
-- from packages that are not modelled, the objects that the tasks want (Built) but for the config
-- maps. The pod webhook takes the container of a collector (Builder) as a parameter. The laws of
-- Api leave out the defaults that a server sets, finalizers, and reads from a stale cache. That
-- yaml.v2 reads back what it printed is a hypothesis on one run, and up to the order of a map's keys
-- (Yaml/Same), which it sorts. That the bytes of a label read as a text is a hypothesis too. Errors are texts or constructors; log lines, events and metrics other than the
-- allocator's gauges are left out.
--
-- Not modelled: the HTTP server and the watchers of the target allocator, YAML parsing, the pod
-- specifications of the workloads (pkg/collector/container.go and the like), which are literals of
-- Kubernetes types, the status that pkg/collector/reconcile/opentelemetry.go writes, the start-up and
-- the flags of the processes, the OpAMP bridge, and generated code.
mod Prelude
pub mod GoMap
pub mod Allocator
pub mod Kube
pub mod Instrumentation
pub mod Sidecar
pub mod Webhook
pub mod Collector
pub mod Naming
pub mod Reconcile
pub mod Yaml
pub mod Upgrade
pub mod Prometheus
pub mod Receivers
