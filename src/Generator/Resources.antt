-- ===== src/Generator/Resources.antt =====
-- internal/generator/namespace.go, serviceaccount.go, configmap.go, secret.go, sealedsecret.go,
-- persistentvolumeclaim.go, clusterrole.go, crd.go and csidriver.go. The rules, the role reference
-- and the subjects of RBAC have the fields of the configuration.
pub mod Labels
pub mod Laws
use kdef.Base.{
  List, [], ◌∷◌, ◌++◌, map, Bool, true, false, not, ◌&&◌, if◌then◌else◌, Option, none, some, suc,
  nat_eq,
}
use kdef.Base.Dict.{Dict, null}
use kdef.Base.Format.{itoa}
use kdef.Base.Int.{ℤ, pos, negsuc}
use kdef.Base.Text.{Text, text, is_empty}
use kdef.Generator.CronJobs.{CronJob, generate_cron_job}
use kdef.Generator.Generate.{Generators}
use kdef.Generator.Kubernetes.{ObjectMeta, ClaimSpec}
use kdef.Generator.Order.{Manifest}
use kdef.Generator.Pod.{optional}
use kdef.Generator.Routes.{kdef_labels, name_label, generate_standalone_ingress}
use kdef.Generator.WorkloadParts.{Workload, WorkloadManifest, route}
use kdef.Generator.Workloads.{generate_deployment_v2, generate_daemon_set, generate_stateful_set}
use kdef.Types.{
  ServiceAccountConfig, ConfigMapConfig, SecretConfig, SealedSecretConfig,
  PersistentVolumeClaimConfig, ClusterRoleConfig, ClusterRoleBindingConfig, PolicyRuleConfig,
  RoleRefConfig, SubjectConfig, CrdConfig, CrdVersionConfig, CrdColumnConfig, CsiDriverConfig,
}
use kdef.Types.Resources.{Value, scalar, seq, object, Values, nil, cons, Fields, end, field}

pub record CsiDriverSpec : Type 0 where
  pub attach_required : Bool
  pub pod_info_on_mount : Bool
  pub requires_republish : Bool
  pub fs_group_policy : Option Text
  pub volume_lifecycle_modes : List Text

-- The objects of all kinds. A sealed secret has the metadata of its template too, and the spec of a
-- CustomResourceDefinition is a map.
pub data Resource (Q : Type 0) : Type 0 where
  workload : Workload Q → Resource Q
  cron_job : CronJob Q → Resource Q
  namespace : ObjectMeta → Resource Q
  service_account : ObjectMeta → List Text → Resource Q
  config_map : ObjectMeta → Dict Text → Resource Q
  secret : ObjectMeta → Text → Dict Text → Resource Q
  sealed_secret : ObjectMeta → ObjectMeta → Text → Dict Text → Resource Q
  persistent_volume_claim : ObjectMeta → ClaimSpec Q → Resource Q
  cluster_role : ObjectMeta → List PolicyRuleConfig → Resource Q
  cluster_role_binding : ObjectMeta → RoleRefConfig → List SubjectConfig → Resource Q
  custom_resource_definition : ObjectMeta → Fields → Resource Q
  csi_driver : ObjectMeta → CsiDriverSpec → Resource Q

unfoldable pub secret_type : Text → Text
secret_type type = if is_empty type then text "Opaque" else type

-- The core group where a rule names resources and no group.
unfoldable pub policy_rule : PolicyRuleConfig → PolicyRuleConfig
policy_rule r =
    if null r.api_groups && not (null r.resources) then record r { api_groups = [] ∷ [] } else r

abbrev pub printed_bool : Bool → Value
printed_bool b = scalar (if b then text "true" else text "false")

abbrev pub printed_int : ℤ → Value
printed_int (pos n) = scalar (itoa n)
printed_int (negsuc n) = scalar (text "-" ++ itoa (suc n))

abbrev pub values : List Value → Values
values [] = nil
values (v ∷ vs) = cons v (values vs)

-- m[key] = value, where the condition holds.
abbrev pub field_if : Bool → Text → Value → Fields → Fields
field_if true key value rest = field key value rest
field_if false key value rest = rest

unfoldable pub strings_to_interfaces : List Text → Value
strings_to_interfaces ss = seq (values (map (λ s. scalar s) ss))

abbrev pub is_zero : ℤ → Bool
is_zero (pos n) = nat_eq n 0
is_zero (negsuc n) = false

unfoldable pub column : CrdColumnConfig → Value
column c = object (
    field (text "name") (scalar c.name) (
      field (text "type") (scalar c.type) (
        field (text "jsonPath") (scalar c.json_path) (
          field_if (not (is_empty c.description)) (text "description") (scalar c.description) (
            field_if (not (is_empty c.format)) (text "format") (scalar c.format) (
              field_if (not (is_zero c.priority)) (text "priority") (printed_int c.priority)
                end))))))

-- The schema of a version, which admits any object where there is none.
abbrev pub schema_of : Option Fields → Fields
schema_of (some schema) = schema
schema_of none =
    field (text "type") (scalar (text "object"))
      (field (text "x-kubernetes-preserve-unknown-fields") (printed_bool true) end)

unfoldable pub crd_version : CrdVersionConfig → Value
unfolding column
crd_version v = object (
    field (text "name") (scalar v.name) (
      field (text "served") (printed_bool v.served) (
        field (text "storage") (printed_bool v.storage) (
          field (text "schema")
            (object (field (text "openAPIV3Schema") (object (schema_of v.schema)) end))
            (field_if v.status_subresource (text "subresources")
              (object (field (text "status") (object end) end))
              (field_if (not (null v.columns)) (text "additionalPrinterColumns")
                (seq (values (map column v.columns))) end))))))

unfoldable pub crd_names : CrdConfig → Fields
unfolding strings_to_interfaces
crd_names crd = field (text "kind") (scalar crd.kind) (
    field (text "listKind") (scalar crd.list_kind) (
      field (text "plural") (scalar crd.plural) (
        field (text "singular") (scalar crd.singular) (
          field_if (not (null crd.short_names)) (text "shortNames")
            (strings_to_interfaces crd.short_names)
            (field_if (not (null crd.categories)) (text "categories")
              (strings_to_interfaces crd.categories) end)))))

module _ {Q : Type 0} (must_parse : Text → Q) (version : Text) where
  abbrev meta : Text → Text → Dict Text → ObjectMeta
  meta name ns labels = record {
    name = name;
    namespace = ns;
    labels = kdef_labels version labels;
    annotations = [];
  }

  abbrev named : Text → ObjectMeta
  named name = meta name [] ((name_label, name) ∷ [])

  unfoldable pub generate_namespace : Text → Resource Q
  generate_namespace name = namespace (meta name [] [])

  unfoldable pub generate_service_account : ServiceAccountConfig → Text → Resource Q
  generate_service_account sa ns = service_account (meta sa.name ns []) sa.image_pull_secrets

  unfoldable pub generate_config_map : ConfigMapConfig → Resource Q
  generate_config_map cm = config_map (meta cm.name cm.namespace []) cm.data_map

  unfoldable pub generate_secret : SecretConfig → Resource Q
  unfolding secret_type
  generate_secret s = secret (meta s.name s.namespace []) (secret_type s.type) s.data_map

  unfoldable pub generate_sealed_secret : SealedSecretConfig → Resource Q
  unfolding secret_type
  generate_sealed_secret ss =
      let m = meta ss.name ss.namespace [] in sealed_secret m m (secret_type ss.type) ss.data_map

  unfoldable pub generate_persistent_volume_claim : PersistentVolumeClaimConfig → Resource Q
  generate_persistent_volume_claim pvc =
      persistent_volume_claim (meta pvc.name pvc.namespace []) (record {
        access_modes =
            if null pvc.access_modes then text "ReadWriteOnce" ∷ [] else pvc.access_modes;
        storage = must_parse pvc.storage;
        storage_class_name = optional pvc.storage_class;
      })

  unfoldable pub generate_cluster_role : ClusterRoleConfig → Resource Q
  unfolding policy_rule
  generate_cluster_role cr = cluster_role (named cr.name) (map policy_rule cr.rules)

  unfoldable pub generate_cluster_role_binding : ClusterRoleBindingConfig → Resource Q
  generate_cluster_role_binding crb =
      cluster_role_binding (named crb.name) crb.role_ref crb.subjects

  unfoldable pub generate_crd : CrdConfig → Resource Q
  unfolding crd_names crd_version
  generate_crd crd = custom_resource_definition (named crd.name) (
      field (text "group") (scalar crd.group) (
        field (text "names") (object (crd_names crd)) (
          field (text "scope") (scalar crd.scope)
            (field (text "versions") (seq (values (map crd_version crd.versions))) end))))

  unfoldable pub generate_csi_driver : CsiDriverConfig → Resource Q
  generate_csi_driver d = csi_driver (named d.name) (record {
    attach_required = d.attach_required;
    pod_info_on_mount = d.pod_info_on_mount;
    requires_republish = d.requires_republish;
    fs_group_policy = optional d.fs_group_policy;
    volume_lifecycle_modes = d.lifecycle_modes;
  })

  abbrev pub manifest_of : WorkloadManifest Q → Manifest (Resource Q)
  manifest_of m = record { object = workload m.object; raw = m.raw }

  -- The functions that Generate calls.
  unfoldable pub generators : Generators (Resource Q)
  unfolding generate_namespace generate_service_account generate_config_map generate_secret
      generate_sealed_secret generate_persistent_volume_claim generate_cluster_role
      generate_cluster_role_binding generate_crd generate_csi_driver
  generators = record {
    namespace = generate_namespace;
    service_account = generate_service_account;
    deployment =
        λ dep defaults. map manifest_of (generate_deployment_v2 must_parse version dep defaults);
    daemon_set = λ ds. map manifest_of (generate_daemon_set must_parse version ds);
    stateful_set =
        λ sts defaults. map manifest_of (generate_stateful_set must_parse version sts defaults);
    cron_job = λ cj. cron_job (generate_cron_job must_parse version cj);
    config_map = generate_config_map;
    standalone_ingress = λ ing defaults.
        map (λ r. record { object = workload (route r); raw = [] })
          (generate_standalone_ingress version ing defaults);
    secret = generate_secret;
    sealed_secret = generate_sealed_secret;
    persistent_volume_claim = generate_persistent_volume_claim;
    cluster_role = generate_cluster_role;
    cluster_role_binding = generate_cluster_role_binding;
    crd = generate_crd;
    csi_driver = generate_csi_driver;
  }
