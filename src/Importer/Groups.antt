-- ===== src/Importer/Groups.antt =====
-- internal/importer/mapper.go: groupWorkloads. Of the resources of the cluster there are the fields
-- that it reads.
pub mod Laws
use kdef.Base.{List, [], ◌∷◌, ◌++◌, map, Bool, true, if◌then◌else◌, Option, none, some}
use kdef.Base.Dict.{Dict, lookup, insert, contains, or_else}
use kdef.Base.Text.{Text, text, is_empty, ◌==◌}
use mathlib.Core.List.{flat_map}

pub record ClusterService : Type 0 where
  pub name : Text
  pub selector : Dict Text

-- The backends of the paths of a rule, of which one may name no service.
pub record ClusterIngress : Type 0 where
  pub name : Text
  pub rules : List (Option (List (Option Text)))

-- The governing service is that of a StatefulSet, and empty in the others.
pub record ClusterWorkload : Type 0 where
  pub name : Text
  pub labels : Dict Text
  pub service_name : Text

pub record AppGroup : Type 0 where
  pub name : Text
  pub workload : ClusterWorkload
  pub service : Option ClusterService
  pub ingresses : List ClusterIngress

pub record ClusterResources : Type 0 where
  pub deployments : List ClusterWorkload
  pub daemon_sets : List ClusterWorkload
  pub stateful_sets : List ClusterWorkload
  pub services : List ClusterService
  pub ingresses : List ClusterIngress

pub record WorkloadGroups : Type 0 where
  pub deployments : List AppGroup
  pub daemon_sets : List AppGroup
  pub stateful_sets : List AppGroup

abbrev pub or_text : Option Text → Text → Text
or_text none d = d
or_text (some s) d = s

-- The key of a service: the label of its selector, or its name.
unfoldable pub service_key : ClusterService → Text
service_key svc =
    or_text
      (or_else (lookup (text "app.kubernetes.io/name") svc.selector)
        (lookup (text "app") svc.selector))
      svc.name

unfoldable pub index_services : List ClusterService → Dict ClusterService → Dict ClusterService
unfolding service_key
index_services [] index = index
index_services (svc ∷ svcs) index =
    index_services svcs
      (if svc.name == text "kubernetes" then index else insert (service_key svc) svc index)

-- The services that the paths of an ingress name, in order.
abbrev pub path_service : Option Text → List Text
path_service none = []
path_service (some name) = name ∷ []

abbrev pub rule_services : Option (List (Option Text)) → List Text
rule_services none = []
rule_services (some paths) = flat_map path_service paths

unfoldable pub backends : ClusterIngress → List Text
backends ing = flat_map rule_services ing.rules

abbrev pub ingresses_at : Option (List ClusterIngress) → List ClusterIngress
ingresses_at none = []
ingresses_at (some ings) = ings

-- The loop over the paths of an ingress, with the services that were seen.
unfoldable pub add_backends :
    ClusterIngress → Dict Bool → List Text → Dict (List ClusterIngress) → Dict (List ClusterIngress)
add_backends ing seen [] index = index
add_backends ing seen (name ∷ names) index =
    let rest = add_backends ing seen names index in
    let added =
      add_backends ing (insert name true seen) names
        (insert name (ingresses_at (lookup name index) ++ ing ∷ []) index) in
    if contains name seen then rest else added

unfoldable pub index_ingresses :
    List ClusterIngress → Dict (List ClusterIngress) → Dict (List ClusterIngress)
unfolding add_backends backends
index_ingresses [] index = index
index_ingresses (ing ∷ ings) index = index_ingresses ings (add_backends ing [] (backends ing) index)

abbrev pub lookup_label : Option Text → Dict ClusterService → Option ClusterService
lookup_label none index = none
lookup_label (some label) index = lookup label index

unfoldable pub find_service : Dict ClusterService → ClusterWorkload → Option ClusterService
find_service index w =
    or_else (lookup w.name index)
      (lookup_label (lookup (text "app.kubernetes.io/name") w.labels) index)

-- Of a StatefulSet also the governing service is tried.
unfoldable pub find_governing : Dict ClusterService → ClusterWorkload → Option ClusterService
unfolding find_service
find_governing index w =
    or_else (find_service index w)
      (if is_empty w.service_name then none else lookup w.service_name index)

abbrev pub service_ingresses :
    Dict (List ClusterIngress) → Option ClusterService → List ClusterIngress
service_ingresses index none = []
service_ingresses index (some svc) = ingresses_at (lookup svc.name index)

unfoldable pub group :
    Dict (List ClusterIngress) → Option ClusterService → ClusterWorkload → AppGroup
group index svc w = record {
  name = w.name;
  workload = w;
  service = svc;
  ingresses = service_ingresses index svc;
}

unfoldable pub group_workloads : ClusterResources → WorkloadGroups
unfolding index_services index_ingresses find_service find_governing group
group_workloads r =
    let services = index_services r.services [] in
    let ingresses = index_ingresses r.ingresses [] in
    record {
      deployments = map (λ w. group ingresses (find_service services w) w) r.deployments;
      daemon_sets = map (λ w. group [] (find_service services w) w) r.daemon_sets;
      stateful_sets = map (λ w. group ingresses (find_governing services w) w) r.stateful_sets;
    }
