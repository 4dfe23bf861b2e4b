-- ===== src/Generator/Resources/Labels.antt =====
-- The metadata of the objects, and the labels of those that the ingress blocks lead to.
use kdef.Base.{
  ℕ, suc, List, [], ◌∷◌, Bool, true, false, ◌&&◌, if◌then◌else◌, Option, none, some, ◌≡◌, refl,
  arith, all, Bool-cases, inl, inr,
}
use kdef.Base.Dict.{Dict, lookup, insert, lookup-insert}
use kdef.Base.Text.{Text, text, is_empty, ◌==◌, eq_refl}
use kdef.Generator.Generate.Uniform.{both}
use kdef.Generator.Kubernetes.{ObjectMeta}
use kdef.Generator.Resources.{
  Resource, workload, cron_job, namespace, service_account, config_map, secret, sealed_secret,
  persistent_volume_claim, cluster_role, cluster_role_binding, custom_resource_definition,
  csi_driver,
}
use kdef.Generator.Routes.{
  Route, RouteApp, ingress, http_route, certificate, kdef_labels, name_label, list_of, routes_of,
  workload_routes, generate_standalone_ingress, route_meta, generate_ingress, generate_http_route,
  generate_certificate, with_mode,
}
use kdef.Generator.WorkloadParts.{
  Workload, deployment, daemon_set, stateful_set, service, autoscaler, route,
}
use kdef.Types.{IngressConfig, IngressDefaults, PortConfig}

abbrev pub route_metadata : Route → ObjectMeta
route_metadata (ingress m spec) = m
route_metadata (http_route m spec) = m
route_metadata (certificate m spec) = m

abbrev pub workload_metadata : {Q : Type 0} → Workload Q → ObjectMeta
workload_metadata (deployment m spec) = m
workload_metadata (daemon_set m spec) = m
workload_metadata (stateful_set m spec) = m
workload_metadata (service m spec) = m
workload_metadata (autoscaler m spec) = m
workload_metadata (route r) = route_metadata r

abbrev pub metadata_of : {Q : Type 0} → Resource Q → ObjectMeta
metadata_of (workload w) = workload_metadata w
metadata_of (cron_job j) = j.metadata
metadata_of (namespace m) = m
metadata_of (service_account m secrets) = m
metadata_of (config_map m data_map) = m
metadata_of (secret m type data_map) = m
metadata_of (sealed_secret m template type data_map) = m
metadata_of (persistent_volume_claim m spec) = m
metadata_of (cluster_role m rules) = m
metadata_of (cluster_role_binding m role_ref subjects) = m
metadata_of (custom_resource_definition m spec) = m
metadata_of (csi_driver m spec) = m

abbrev has_value : Text → Option Text → Bool
has_value value none = false
has_value value (some found) = found == value

-- The labels say that kdef manages the object, and the version.
unfoldable pub is_managed : Text → Dict Text → Bool
is_managed version labels =
    has_value (text "kdef") (lookup (text "app.kubernetes.io/managed-by") labels)
    && has_value version (lookup (text "kdef.dev/version") labels)

pub is_managed-kdef_labels :
    (version : Text) (labels : Dict Text) → is_managed version (kdef_labels version labels) ≡ true
unfolding is_managed kdef_labels ◌==◌
is_managed-kdef_labels version labels = ground (
  arith,
  lookup-insert (text "kdef.dev/version") (text "app.kubernetes.io/managed-by") version
      (insert (text "app.kubernetes.io/managed-by") (text "kdef") labels),
  lookup-insert (text "kdef.dev/version") (text "kdef.dev/version") version
      (insert (text "app.kubernetes.io/managed-by") (text "kdef") labels),
  lookup-insert (text "app.kubernetes.io/managed-by") (text "app.kubernetes.io/managed-by")
      (text "kdef") labels,
  eq_refl version,
)

certificate_labels-is_managed :
    (version name : Text)
    → is_managed version (
        (name_label, name)
        ∷ (text "app.kubernetes.io/managed-by", text "kdef")
        ∷ (text "kdef.dev/version", version)
        ∷ [])
      ≡ true
unfolding is_managed lookup ◌==◌
certificate_labels-is_managed version name = eq_refl version

module _ (version : Text) where
  abbrev pub route_managed : Route → Bool
  route_managed r = is_managed version (route_metadata r).labels

  app_labels-is_managed :
      (app : RouteApp) → is_managed version (route_meta version app).labels ≡ true
  unfolding route_meta
  app_labels-is_managed app = is_managed-kdef_labels version _

  all-generate_ingress :
      (app : RouteApp) → all route_managed (list_of version (generate_ingress version app)) ≡ true
  unfolding generate_ingress all
  all-generate_ingress app = ground (arith, app_labels-is_managed app)

  all-generate_http_route :
      (app : RouteApp)
      → all route_managed (list_of version (generate_http_route version app)) ≡ true
  unfolding generate_http_route all
  all-generate_http_route app = ground (arith, app_labels-is_managed app)

  all-generate_certificate :
      (app : RouteApp)
      → all route_managed (list_of version (generate_certificate version app)) ≡ true
  unfolding generate_certificate all
  all-generate_certificate app = ground (arith, certificate_labels-is_managed version app.name)

  pub all-routes_of : (app : RouteApp) → all route_managed (routes_of version app) ≡ true
  unfolding routes_of
  all-routes_of app =
      both route_managed
        (list_of version (
          if app.ingress_mode == text "gateway"
          then generate_http_route version app
          else generate_ingress version app))
        (list_of version (generate_certificate version app))
        (elim (Bool-cases (app.ingress_mode == text "gateway")) [
          | inl gateway ↦ rw gateway (all-generate_http_route app)
          | inr other ↦ rw other (all-generate_ingress app)
        ])
        (all-generate_certificate app)

  pub all-workload_routes :
      (d : Option IngressDefaults) (name ns : Text) (ports : List PortConfig) (i : ℕ)
      → (ings : List IngressConfig)
      → all route_managed (workload_routes version d name ns ports i ings) ≡ true
  unfolding workload_routes all
  all-workload_routes d name ns ports i [] = refl
  all-workload_routes d name ns ports i (ing ∷ ings) =
      both route_managed (routes_of version (with_mode version d _))
        (workload_routes version d name ns ports (suc i) ings)
        (all-routes_of (with_mode version d _)) (all-workload_routes d name ns ports (suc i) ings)

  pub all-generate_standalone_ingress :
      (ing : IngressConfig) (d : Option IngressDefaults)
      → all route_managed (generate_standalone_ingress version ing d) ≡ true
  unfolding generate_standalone_ingress
  all-generate_standalone_ingress ing d = all-routes_of (
      with_mode version d (record {
        name = if is_empty ing.service_name then ing.name else ing.service_name;
        namespace = ing.namespace;
        ports = [];
        ingress = ing;
        ingress_mode = [];
        ingress_gateway = [];
        ingress_gateway_ns = [];
      }))
