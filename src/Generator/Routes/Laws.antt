-- ===== src/Generator/Routes/Laws.antt =====
-- The Certificate of an ingress block and the Ingress that uses its secret.
use kdef.Base.{[], ◌∷◌, true, false, some, ◌≡◌, sym, arith}
use kdef.Base.Dict.{null}
use kdef.Base.Text.{Text, text, is_empty, ◌==◌}
use kdef.Generator.Kubernetes.{ObjectMeta, IngressSpec, HttpRouteSpec, CertificateSpec}
use kdef.Generator.Pod.{optional}
use kdef.Generator.Routes.{
  RouteApp, ingress, http_route, certificate, generate_ingress, generate_http_route,
  generate_certificate, ingress_spec, route_meta, backend_of, routes_of,
}
use kdef.Types.{IngressConfig}
use kdef.Types.Hosts.{all_hosts, certificate_secret_name}

-- A block with a Certificate has TLS, no secret of its own and a host.
certificate_secret_name_set :
    (i : IngressConfig)
    → is_empty (certificate_secret_name i) ≡ false
    → (i.tls ≡ true) × (is_empty i.tls_secret ≡ true) × (null (all_hosts i) ≡ false)
unfolding certificate_secret_name
certificate_secret_name_set i h = ground arith

module _ (version : Text) (app : RouteApp) where
  generate_certificate-cases :
      {m : ObjectMeta} {cert : CertificateSpec}
      → generate_certificate version app ≡ some (certificate m cert)
      → (is_empty (certificate_secret_name app.ingress) ≡ false)
        × (cert.dns_names ≡ all_hosts app.ingress)
        × (cert.secret_name ≡ certificate_secret_name app.ingress)
        × (m.namespace ≡ app.namespace)
  unfolding generate_certificate
  generate_certificate-cases h = ground arith

  -- Where a Certificate is generated, the Ingress of the same block is generated too: its TLS section
  -- has the hosts of the Certificate and reads the secret that the Certificate writes, in the same
  -- namespace.
  pub generate_ingress-certificate :
      {m : ObjectMeta} {cert : CertificateSpec}
      → generate_certificate version app ≡ some (certificate m cert)
      → (m' : ObjectMeta) × (spec : IngressSpec) × (generate_ingress version app
          ≡ some (ingress m' spec))
        × (spec.tls ≡ some (record { hosts = cert.dns_names; secret_name = cert.secret_name }))
        × (m'.namespace ≡ m.namespace)
  unfolding generate_ingress ingress_spec route_meta
  generate_ingress-certificate h =
      let (set, names, secret, namespace) = generate_certificate-cases h in
      let (tls, own, host) = certificate_secret_name_set app.ingress set in
      (
        route_meta version app,
        ingress_spec app,
        rw host,
        simp (tls, own, names, secret),
        sym namespace,
      )

  -- Where the mode is not gateway and a block has a Certificate, its manifests are an Ingress and the
  -- Certificate: the TLS section of the Ingress has the hosts of the Certificate and reads the secret
  -- that the Certificate writes, in the same namespace.
  pub routes_of-certificate :
      {m : ObjectMeta} {cert : CertificateSpec}
      → (app.ingress_mode == text "gateway") ≡ false
      → generate_certificate version app ≡ some (certificate m cert)
      → (m' : ObjectMeta) × (spec : IngressSpec) × (routes_of version app
          ≡ ingress m' spec ∷ certificate m cert ∷ [])
        × (spec.tls ≡ some (record { hosts = cert.dns_names; secret_name = cert.secret_name }))
        × (m'.namespace ≡ m.namespace)
  unfolding routes_of
  routes_of-certificate mode h =
      let (m', spec, made, tls, namespace) = generate_ingress-certificate h in
      (m', spec, ground (arith, mode, made, h), tls, namespace)

  -- Where the mode is gateway and a block has a Certificate, its manifests are an HTTPRoute and the
  -- Certificate, with the same hosts and in the same namespace.
  pub routes_of-gateway :
      {m : ObjectMeta} {cert : CertificateSpec}
      → (app.ingress_mode == text "gateway") ≡ true
      → generate_certificate version app ≡ some (certificate m cert)
      → (m' : ObjectMeta) × (spec : HttpRouteSpec) × (routes_of version app
          ≡ http_route m' spec ∷ certificate m cert ∷ [])
        × (spec.hostnames ≡ cert.dns_names)
        × (m'.namespace ≡ m.namespace)
  unfolding routes_of generate_http_route route_meta
  routes_of-gateway mode h =
      let (set, names, secret, namespace) = generate_certificate-cases h in
      let (tls, own, host) = certificate_secret_name_set app.ingress set in
      (
        route_meta version app,
        record {
          gateway = app.ingress_gateway;
          gateway_namespace = optional app.ingress_gateway_ns;
          hostnames = all_hosts app.ingress;
          backend = backend_of app;
        },
        ground (arith, mode, h, host),
        sym names,
        sym namespace,
      )
