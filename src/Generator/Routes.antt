-- ===== src/Generator/Routes.antt =====
-- internal/generator/ingress.go, httproute.go, certificate.go and ingress_standalone.go, and the
-- loops over the ingress blocks in deployment_v2.go and statefulset.go; kdefLabels of shared.go. The
-- version of the build is a parameter.
pub mod Laws
use kdef.Base.{
  ℕ, suc, List, [], ◌∷◌, ◌++◌, map, Bool, true, false, not, if◌then◌else◌, Option, none, some,
}
use kdef.Base.Dict.{Dict, insert, null}
use kdef.Base.Int.{ℤ, pos, ltb_ℤ}
use kdef.Base.Text.{Text, text, is_empty, ◌==◌}
use kdef.Generator.Kubernetes.{
  ObjectMeta, Backend, IngressRule, IngressTls, IngressSpec, HttpRouteSpec, CertificateSpec,
}
use kdef.Generator.Pod.{optional}
use kdef.Types.Hosts.{all_hosts, resource_name, certificate_secret_name}
use kdef.Types.{AppConfig, IngressConfig, IngressDefaults, PortConfig}
use mathlib.Core.Option

abbrev pub name_label : Text
name_label = text "app.kubernetes.io/name"

unfoldable pub kdef_labels : Text → Dict Text → Dict Text
kdef_labels version labels =
    insert (text "kdef.dev/version") version
      (insert (text "app.kubernetes.io/managed-by") (text "kdef") labels)

-- What the generators of ingress resources read of an app.
pub record RouteApp : Type 0 where
  pub name : Text
  pub namespace : Text
  pub ports : List PortConfig
  pub ingress : IngressConfig
  pub ingress_mode : Text
  pub ingress_gateway : Text
  pub ingress_gateway_ns : Text

pub data Route : Type 0 where
  ingress : ObjectMeta → IngressSpec → Route
  http_route : ObjectMeta → HttpRouteSpec → Route
  certificate : ObjectMeta → CertificateSpec → Route

-- The backend of both kinds of routes: the port of the block, the first port of the app, or 80.
unfoldable pub first_port : List PortConfig → ℤ
first_port [] = pos 80
first_port (p ∷ ports) = p.number

unfoldable pub backend_of : RouteApp → Backend
unfolding first_port
backend_of app = record {
  service = if not (is_empty app.ingress.service_name) then app.ingress.service_name else app.name;
  port = if ltb_ℤ (pos 0) app.ingress.port then app.ingress.port else first_port app.ports;
}

unfoldable pub ingress_name : RouteApp → Text
ingress_name app = if not (is_empty app.ingress.name) then app.ingress.name else app.name

unfoldable pub tls_of : RouteApp → List Text → Option IngressTls
tls_of app hosts =
    if app.ingress.tls
    then some (record {
      hosts = hosts;
      secret_name =
          if is_empty app.ingress.tls_secret
          then certificate_secret_name app.ingress
          else app.ingress.tls_secret;
    })
    else none

unfoldable pub ingress_spec : RouteApp → IngressSpec
unfolding backend_of tls_of
ingress_spec app =
    let hosts = all_hosts app.ingress in
    record {
      ingress_class_name = if is_empty app.ingress.class then text "nginx" else app.ingress.class;
      rules = map {A = Text} (λ host. record { host = host; backend = backend_of app }) hosts;
      tls = tls_of app hosts;
    }

module _ (version : Text) where
  unfoldable pub route_meta : RouteApp → ObjectMeta
  unfolding ingress_name
  route_meta app = record {
    name = ingress_name app;
    namespace = app.namespace;
    labels = kdef_labels version ((name_label, app.name) ∷ []);
    annotations = app.ingress.annotations;
  }

  unfoldable pub generate_ingress : RouteApp → Option Route
  unfolding route_meta ingress_spec
  generate_ingress app =
      if null (all_hosts app.ingress)
      then none
      else some (ingress (route_meta app) (ingress_spec app))

  unfoldable pub generate_http_route : RouteApp → Option Route
  unfolding route_meta backend_of
  generate_http_route app =
      let hosts = all_hosts app.ingress in
      if null hosts
      then none
      else some (
          http_route (route_meta app) (record {
            gateway = app.ingress_gateway;
            gateway_namespace = optional app.ingress_gateway_ns;
            hostnames = hosts;
            backend = backend_of app;
          }))

  unfoldable pub generate_certificate : RouteApp → Option Route
  generate_certificate app =
      let secret_name = certificate_secret_name app.ingress in
      if is_empty secret_name
      then none
      else some (
          certificate
            (record {
              name = secret_name;
              namespace = app.namespace;
              labels =
                  (name_label, app.name)
                  ∷ (text "app.kubernetes.io/managed-by", text "kdef")
                  ∷ (text "kdef.dev/version", version)
                  ∷ [];
              annotations = [];
            })
            (record {
              secret_name = secret_name;
              dns_names = all_hosts app.ingress;
              issuer =
                  if is_empty app.ingress.issuer
                  then text "letsencrypt-production"
                  else app.ingress.issuer;
            }))

  abbrev pub list_of : Option Route → List Route
  list_of none = []
  list_of (some route) = route ∷ []

  -- The route, by the mode, and the certificate.
  unfoldable pub routes_of : RouteApp → List Route
  unfolding generate_ingress generate_http_route generate_certificate
  routes_of app =
      list_of (
        if app.ingress_mode == text "gateway"
        then generate_http_route app
        else generate_ingress app)
      ++ list_of (generate_certificate app)

  -- if ingressDefaults != nil
  unfoldable pub with_mode : Option IngressDefaults → RouteApp → RouteApp
  with_mode none app = app
  with_mode (some d) app = record app {
    ingress_mode = d.mode;
    ingress_gateway = d.gateway;
    ingress_gateway_ns = d.gateway_namespace;
  }

  -- The loop over the ingress blocks of a workload, from the block at an index on.
  unfoldable pub workload_routes :
      Option IngressDefaults → Text → Text → List PortConfig → ℕ → List IngressConfig → List Route
  unfolding routes_of with_mode
  workload_routes defaults name namespace ports i [] = []
  workload_routes defaults name namespace ports i (ing ∷ ings) =
      routes_of (
        with_mode defaults (record {
          name = name;
          namespace = namespace;
          ports = ports;
          ingress = record ing { name = resource_name ing name i };
          ingress_mode = [];
          ingress_gateway = [];
          ingress_gateway_ns = [];
        }))
      ++ workload_routes defaults name namespace ports (suc i) ings

  unfoldable pub generate_standalone_ingress : IngressConfig → Option IngressDefaults → List Route
  unfolding routes_of with_mode
  generate_standalone_ingress ing defaults = routes_of (
      with_mode defaults (record {
        name = if is_empty ing.service_name then ing.name else ing.service_name;
        namespace = ing.namespace;
        ports = [];
        ingress = ing;
        ingress_mode = [];
        ingress_gateway = [];
        ingress_gateway_ns = [];
      }))
