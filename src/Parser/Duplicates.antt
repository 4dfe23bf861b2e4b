-- ===== src/Parser/Duplicates.antt =====
-- internal/parser/duplicates.go: no two resources with one kind, namespace and name.
pub mod Identity
pub mod Laws
use kdef.Base.{
  ℕ, List, [], ◌∷◌, ◌++◌, map, Option, none, some, Bool, true, false, Result, ok, err, ◌&&◌, not,
  if◌then◌else◌,
}
use kdef.Base.Dict.{Dict, lookup, insert}
use kdef.Base.Format.{quote, join}
use kdef.Base.Text.{Text, text, ◌==◌, is_empty}
use kdef.Types.{ServiceConfig, KdefConfig}

pub record DuplicateCheck : Type 0 where
  pub origins : Dict Text
  pub errs : List Text

abbrev pub new_duplicate_check : DuplicateCheck
new_duplicate_check = record { origins = []; errs = [] }

pub record ResourceId : Type 0 where
  pub id : Text
  pub service : Text

unfoldable pub resource_identity : Text → Text → Text → Text
resource_identity kind namespace name =
    if is_empty namespace
    then kind ++ (text " " ++ quote name)
    else kind ++ (text " " ++ (quote name ++ (text " in namespace " ++ quote namespace)))

-- The closure `workload`.
abbrev service_id : Text → Text → Option ServiceConfig → Text
service_id namespace name none = []
service_id namespace name (some svc) =
    resource_identity (text "service") namespace (if is_empty svc.name then name else svc.name)

abbrev pub workload : Text → Text → Text → Option ServiceConfig → ResourceId
workload kind namespace name svc = record {
  id = resource_identity kind namespace name;
  service = service_id namespace name svc;
}

-- The closure `plain`.
abbrev pub plain : Text → Text → Text → ResourceId
plain kind namespace name = record { id = resource_identity kind namespace name; service = [] }

unfoldable pub resources_of : KdefConfig → List ResourceId
resources_of c =
    map (λ r. workload (text "deployment") r.namespace r.name r.service) c.deployments
    ++ (map (λ r. workload (text "daemonset") r.namespace r.name r.service) c.daemon_sets
        ++ (map (λ r. workload (text "statefulset") r.namespace r.name r.service) c.stateful_sets
            ++ (map (λ r. plain (text "cronjob") r.namespace r.name) c.cron_jobs
                ++ (map (λ r. plain (text "configmap") r.namespace r.name) c.config_maps
                    ++ (map (λ r. plain (text "secret") r.namespace r.name) c.secrets
                        ++ (map (λ r. plain (text "sealedsecret") r.namespace r.name)
                              c.sealed_secrets
                            ++ (map (λ r. plain (text "persistentvolumeclaim") r.namespace r.name)
                                  c.persistent_volume_claims
                                ++ (map (λ r. plain (text "ingress") r.namespace r.name) c.ingresses
                                    ++ (map (λ r. plain (text "clusterrole") [] r.name)
                                          c.cluster_roles
                                        ++ (map (λ r. plain (text "clusterrolebinding") [] r.name)
                                              c.cluster_role_bindings
                                            ++ (map (λ r. plain (text "crd") [] r.name) c.crds
                                                ++ map (λ r. plain (text "csidriver") [] r.name)
                                                    c.csi_drivers)))))))))))

defined_twice : Text → Text → Text → Text
defined_twice id prev origin =
    if prev == origin
    then id ++ (text " is defined twice in " ++ origin)
    else id ++ (text " is defined in both " ++ (prev ++ (text " and " ++ origin)))

-- `record` of the source: the new state, and whether the id was free.
unfoldable pub record_id : DuplicateCheck → Text → Text → Bool × DuplicateCheck
unfolding defined_twice
record_id d id origin = elim (lookup id d.origins) [
  | none ↦ (true, record d { origins = insert id origin d.origins })
  | some prev ↦ (false, record d { errs = d.errs ++ defined_twice id prev origin ∷ [] })
]

-- One round of the loop of `add`.
unfoldable pub add_resource : DuplicateCheck → ResourceId → Text → DuplicateCheck
add_resource d r origin =
    let (fresh, d') = record_id d r.id origin in
    if fresh && not (is_empty r.service) then (record_id d' r.service origin).1 else d'

unfoldable pub add_all : DuplicateCheck → List ResourceId → Text → DuplicateCheck
add_all d [] origin = d
add_all d (r ∷ rs) origin = add_all (add_resource d r origin) rs origin

unfoldable pub add : DuplicateCheck → KdefConfig → Text → DuplicateCheck
unfolding add_all add_resource record_id
add d config origin = add_all d (resources_of config) origin

abbrev report_errs : List Text → Result (Unit {0})
report_errs [] = ok tt
report_errs (e ∷ es) = err (text "duplicate resources:\n  " ++ join (text "\n  ") (e ∷ es))

-- `err` of the source.
unfoldable pub check_result : DuplicateCheck → Result (Unit {0})
check_result d = report_errs d.errs
