-- ===== src/Importer/Groups/Laws.antt =====
-- The ingresses of a group: those that have a path to its service.
use kdef.Base.{
  List, [], ◌∷◌, ◌++◌, map, Bool, true, not, ◌&&◌, if◌then◌else◌, Option, none, some, ◌≡◌, refl,
  sym, ap₂, arith,
}
use kdef.Base.Dict.{Dict, lookup, insert, contains, lookup-insert}
use kdef.Base.Lists.{mem}
use kdef.Base.Text.{Text, eq_iff}
use kdef.Importer.Groups.{
  ClusterService, ClusterIngress, ClusterWorkload, ClusterResources, backends, ingresses_at,
  add_backends, index_ingresses, group_workloads, group,
}
use mathlib.Core.List.{append_assoc, append-nil}

abbrev pub at : Text → Dict (List ClusterIngress) → List ClusterIngress
at k index = ingresses_at (lookup k index)

abbrev added_at : Text → ClusterIngress → List Text → Dict Bool → List ClusterIngress
added_at k ing names seen = if mem k names && not (contains k seen) then ing ∷ [] else []

at-add_backends :
    (k : Text) (ing : ClusterIngress) (seen : Dict Bool) (names : List Text)
    → (index : Dict (List ClusterIngress))
    → at k (add_backends ing seen names index) ≡ at k index ++ added_at k ing names seen
unfolding add_backends mem
at-add_backends k ing seen [] index = sym (append-nil (at k index))
at-add_backends k ing seen (name ∷ names) index = ground (
  arith,
  at-add_backends k ing seen names index,
  at-add_backends k ing (insert name true seen) names
      (insert name (at name index ++ ing ∷ []) index),
  lookup-insert name k true seen,
  lookup-insert name k (at name index ++ ing ∷ []) index,
  append-nil (at k index ++ ing ∷ []),
  eq_iff name k,
)

-- The ingresses with a path to the service, in order.
unfoldable pub routing_to : Text → List ClusterIngress → List ClusterIngress
routing_to k [] = []
routing_to k (ing ∷ ings) =
    if mem k (backends ing) then ing ∷ routing_to k ings else routing_to k ings

at-index_ingresses :
    (k : Text) (ings : List ClusterIngress) (index : Dict (List ClusterIngress))
    → at k (index_ingresses ings index) ≡ at k index ++ routing_to k ings
unfolding index_ingresses routing_to lookup
at-index_ingresses k [] index = sym (append-nil (at k index))
at-index_ingresses k (ing ∷ ings) index = ground (
  arith,
  at-index_ingresses k ings (add_backends ing [] (backends ing) index),
  at-add_backends k ing [] (backends ing) index,
  append_assoc (at k index) (added_at k ing (backends ing) []) (routing_to k ings),
  append-nil (at k index),
)

-- What a group is to have: the ingresses of the cluster with a path to its service.
unfoldable pub routed : List ClusterIngress → Option ClusterService → List ClusterIngress
routed ings none = []
routed ings (some svc) = routing_to svc.name ings

group-ingresses :
    (ings : List ClusterIngress) (svc : Option ClusterService) (w : ClusterWorkload)
    → (group (index_ingresses ings []) svc w).ingresses ≡ routed ings svc
unfolding group routed lookup
group-ingresses ings none w = refl
group-ingresses ings (some svc) w = at-index_ingresses svc.name ings []

groups-ingresses :
    (ings : List ClusterIngress) (f : ClusterWorkload → Option ClusterService)
    → (ws : List ClusterWorkload)
    → map (λ g. g.ingresses) (map (λ w. group (index_ingresses ings []) (f w) w) ws)
      ≡ map (λ g. routed ings g.service) (map (λ w. group (index_ingresses ings []) (f w) w) ws)
unfolding group
groups-ingresses ings f [] = refl
groups-ingresses ings f (w ∷ ws) =
    ap₂ (λ x xs. x ∷ xs) (group-ingresses ings (f w) w) (groups-ingresses ings f ws)

-- The group of a deployment or a stateful set has just those ingresses of the cluster that have a path
-- to its service, each once and in their order, and none where it has no service.
pub group_workloads_ingresses :
    (r : ClusterResources)
    → (map (λ g. g.ingresses) (group_workloads r).deployments
        ≡ map (λ g. routed r.ingresses g.service) (group_workloads r).deployments)
      × (map (λ g. g.ingresses) (group_workloads r).stateful_sets
          ≡ map (λ g. routed r.ingresses g.service) (group_workloads r).stateful_sets)
unfolding group_workloads
group_workloads_ingresses r =
    (groups-ingresses r.ingresses _ r.deployments, groups-ingresses r.ingresses _ r.stateful_sets)
