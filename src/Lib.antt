-- ===== src/Lib.antt =====
-- kdef turns .kdef files (HCL) into Kubernetes manifests. The parser (internal/parser) reads the
-- files of a directory into a KdefConfig (internal/types), or, for a project with a root.kdef, the
-- config of each entry, which it merges and checks. The generator (internal/generator) builds the
-- manifests of a config as a map from keys to lists of objects, and writes them in the order in
-- which a cluster can apply them. The Flux controller (flux-controller) downloads an artifact, renders
-- it with the same code, applies the objects and prunes those that are gone. This library models what
-- lies between the two third-party ends, HCL and the Kubernetes and YAML libraries.
--
-- The modules:
-- - Base: what Go gives the code. Text is a string as the list of its character codes, with `==`,
--   `<`, %d and %q of fmt (a code from 128 on is kept by %q, as for a printable rune). Dict is a map
--   as an association list; the laws speak of lookups, since Go's iteration has no fixed order.
--   Result is a value or the message of an error. ℤ stands for the integers of any width, which
--   are compared and stored; formatDuration divides them, and the products of parseDuration wrap
--   around as in Base.Format.Numbers, which also has strings.TrimSpace and strconv.ParseInt. The digits of a
--   number n are written with fuel n + 1, and each digit divides by ten, so they never run out.
-- - Types: the structs of internal/types, field by field, in the order of the source. The
--   Variables of a KdefConfig hold values of go-cty and are left out. Types.Hosts has AllHosts,
--   ResourceName and CertificateSecretName of app.go.
-- - Parser.Hcl: what the block parsers call of hcl and go-cty, as the record Hcl: bodies, expressions
--   and values, whose methods give nothing where go-cty panics. Parsed is the outcome of a parse
--   function: a panic, or a value with the diagnostics. An attribute that is read is one step of a
--   list of steps, in the order of the source, and a nested block a case of a switch.
-- - Parser.Blocks: the block parsers, on that record. Pod, Environment, Volumes, Probes and Containers:
--   pod_extras.go, probes.go, and the parts of app.go, deployment.go, statefulset.go and parser.go
--   that a container or a pod is made of. Services: the service, rollout, autoscale and scale
--   blocks. Ingress: the ingress blocks of app.go. Deployments, DaemonSets, StatefulSets and CronJobs:
--   the files of these names. Data and Rbac: configmap.go, secret.go, sealedsecret.go,
--   persistentvolumeclaim.go, clusterrole.go and csidriver.go. Crds and CrdVersions: crd.go. Files:
--   parseBlocksFromBody and parseFileBody of app.go, and conditional.go. Loops: expandForBlocks
--   and extractBlocksSource of loop.go. os.ReadFile, strings.ToLower, and the JSON and YAML of a
--   CRD's schema, are parameters.
-- - Parser.FileResult: FileResult of internal/parser/app.go, and appendResources of parser.go.
-- - Parser.Duplicates: internal/parser/duplicates.go, the check over all files and entries.
-- - Parser.Namespaces: injectNamespace, injectServiceAccount and validateNamespaces of parser.go.
-- - Parser.Ingresses: applyIngressDefaults and validateIngresses of parser.go.
-- - Parser.References: validateReferences of parser.go.
-- - Parser.Overrides: ApplyOverrides of override.go, after the override file was parsed.
-- - Parser.Loop: splitDots and resolveReference of loop.go.
-- - Parser.Root: loadRootProject of parser.go, which composes the modules above. The load of one
--   directory, os.Stat and filepath.Join are parameters of it.
-- - Generator.ServiceAccounts and Generator.Generate: internal/generator/generator.go. The
--   functions that build the objects of one resource are the record Generators.
-- - Generator.Kubernetes: the structs of the Kubernetes API, with the fields that the code sets.
-- - Generator.Pod, Generator.Container and Generator.PodSpec: shared.go, podspec.go, and the
--   containers and the pod of deployment_v2.go. resource.MustParse is a parameter.
-- - Generator.Routes: ingress.go, httproute.go, certificate.go and ingress_standalone.go. The
--   version of the build is a parameter.
-- - Generator.WorkloadParts and Generator.Workloads: deployment_v2.go, daemonset.go, statefulset.go,
--   hpa.go and workload_extras.go.
-- - Generator.CronJobs: cronjob.go.
-- - Generator.Resources: the generators of the other resources, and the value of Generators.
-- - Generator.Order: kindRank and the sort of RenderAllYAML in internal/generator/yaml.go. The
--   objects are the Kubernetes library's: their kind and name are parameters.
-- - Generator.Merge: the deep merge of a raw block in yaml.go.
-- - Importer.Groups, Importer.Duration and Importer.Resources: of internal/importer/mapper.go,
--   groupWorkloads, formatDuration, and the values that writeResources writes.
-- - Flux: flux-controller/api/v1alpha1/kdefrelease_types.go (Release) and
--   flux-controller/internal/controller/kdefrelease_controller.go: the decoded objects and the ids
--   of the inventory (Resources), applyObjects (Apply), pruneObjects (Prune), the source and the
--   artifact (Source), and Reconcile. The client of the Kubernetes API is a parameter, and so is what
--   it answers: the laws speak of the calls, which Recording adds to any client, and not of what
--   the API server makes of them.
-- - Tests: concrete inputs, and the theorems at them.
--
-- Loops are structural recursions. Beside the digits, two functions have fuel: flattenAnnotations
-- has one more than the depth of its value, and parseFileBody calls itself for the text of a for
-- block, once for each level of for blocks that stand in one another in its text; without fuel it
-- counts as a call that does not return. An early return of an error is
-- `>>` or `>>=` of Result, and a loop that writes to a map is a fold in the order of the source. A
-- closure of the source is a definition of its own with the variables it changes as a record.
--
-- Not modelled: the syntax and the expressions of HCL (hcl and go-cty), variables and images, the
-- place of a diagnostic in its file, the file walk, the YAML text, the unpacking of an artifact and
-- the setup of the controller's manager, the panic of resource.MustParse on a malformed quantity,
-- the rest of the importer, the language server, and the
-- command line.
pub mod Base
pub mod Types
pub mod Parser
pub mod Generator
pub mod Importer
pub mod Flux
pub mod Tests
