-- ===== src/Parser/Ingresses.antt =====
-- internal/parser/parser.go: applyIngressDefaults and validateIngresses.
pub mod Defaults
pub mod Laws
use kdef.Base.{
  ℕ, zero, ◌+◌, List, [], ◌∷◌, ◌++◌, map, Bool, not, ◌&&◌, if◌then◌else◌, Option, none, some,
  Result, ok, err, ◌>>=◌,
}
use kdef.Base.Dict.{Dict, lookup, insert, merge, null}
use kdef.Base.Format.{quote, itoa}
use kdef.Base.Text.{Text, text, is_empty}
use kdef.Types.{IngressConfig, IngressDefaults, KdefConfig, DeploymentConfig, StatefulSetConfig}
use kdef.Types.Hosts.{resource_name, certificate_secret_name}

abbrev default_tls : Option Bool → Bool → Bool
default_tls none tls = tls
default_tls (some b) tls = if not tls then b else tls

abbrev default_text : Text → Text → Text
default_text fallback s = if not (is_empty fallback) && is_empty s then fallback else s

-- The closure `apply`, at an ingress that is not nil.
unfoldable pub apply_defaults : IngressDefaults → IngressConfig → IngressConfig
apply_defaults defaults ing = record ing {
  tls = default_tls defaults.tls ing.tls;
  tls_secret = default_text defaults.tls_secret ing.tls_secret;
  issuer = default_text defaults.issuer ing.issuer;
  class = default_text defaults.class ing.class;
  annotations =
      if not (null defaults.annotations)
      then merge (merge [] defaults.annotations) ing.annotations
      else ing.annotations;
}

-- Called with the defaults of the config, where they are not nil.
unfoldable pub apply_ingress_defaults : IngressDefaults → KdefConfig → KdefConfig
apply_ingress_defaults defaults config = record config {
  deployments =
      map {A = DeploymentConfig}
        (λ r. record r { ingresses = map (apply_defaults defaults) r.ingresses })
        config.deployments;
  stateful_sets =
      map {A = StatefulSetConfig}
        (λ r. record r { ingresses = map (apply_defaults defaults) r.ingresses })
        config.stateful_sets;
  ingresses = map (apply_defaults defaults) config.ingresses;
}

-- The maps `resourceNames` and `secretNames`.
pub record Seen : Type 0 where
  pub resource_names : Dict Text
  pub secret_names : Dict Text

abbrev pub key_of : Text → Text → Text
key_of namespace name = namespace ++ (text "/" ++ name)

pub resource_conflict : Text → Text → Text → Text → Text
resource_conflict desc name prev namespace =
    desc
    ++ (text " resolves to resource name "
        ++ (quote name
            ++ (text " which is already used by "
                ++ (prev ++ (text " in namespace " ++ quote namespace)))))

pub secret_conflict : Text → Text → Text → Text → Text
secret_conflict desc secret prev namespace =
    desc
    ++ (text " would generate cert-manager Certificate secret "
        ++ (quote secret
            ++ (text " which is already requested by "
                ++ (prev
                    ++ (text " in namespace "
                        ++ (quote namespace
                            ++ text
                                " — set `tls_secret` on one of them, or change the first host so the derived secret names differ"))))))

unfoldable pub record_secret : Seen → Text → Text → Text → Result Seen
record_secret s [] namespace desc = ok s
record_secret s (c ∷ cs) namespace desc = elim (lookup (key_of namespace (c ∷ cs)) s.secret_names) [
  | some prev ↦ err (secret_conflict desc (c ∷ cs) prev namespace)
  | none ↦ ok (record s { secret_names = insert (key_of namespace (c ∷ cs)) desc s.secret_names })
]

-- The closure `record`.
unfoldable pub record_ingress : Seen → IngressConfig → Text → Text → Text → Result Seen
unfolding record_secret
record_ingress s ing name namespace desc = elim (lookup (key_of namespace name) s.resource_names) [
  | some prev ↦ err (resource_conflict desc name prev namespace)
  | none ↦
      record_secret
        (record s { resource_names = insert (key_of namespace name) desc s.resource_names })
        (certificate_secret_name ing) namespace desc
]

pub local_conflict : Text → Text → ℕ → ℕ → Text → Text
local_conflict kind workload prev i name =
    kind
    ++ (text " "
        ++ (quote workload
            ++ (text ": ingress blocks #"
                ++ (itoa (prev + 1)
                    ++ (text " and #"
                        ++ (itoa (i + 1)
                            ++ (text " both resolve to resource name "
                                ++ (quote name
                                    ++ text " — set a distinct `name` on at least one"))))))))

-- Where a block came from.
pub block_desc : Text → Text → ℕ → Text
block_desc kind workload i =
    kind ++ (text " " ++ (quote workload ++ (text " ingress #" ++ itoa (i + 1))))

-- The loop of the closure `check`, from the block with index `i` on.
unfoldable pub check_from :
    Text → Text → Text → ℕ → List IngressConfig → Dict ℕ → Seen → Result Seen
check_from kind workload namespace i [] local_names s = ok s
check_from kind workload namespace i (ing ∷ rest) local_names s =
    let name = resource_name ing workload i in
    elim (lookup name local_names) [
      | some prev ↦ err (local_conflict kind workload prev i name)
      | none ↦ record_ingress s ing name namespace (block_desc kind workload i) >>= λ s'.
          check_from kind workload namespace (i + 1) rest (insert name i local_names) s'
    ]

unfoldable pub check_deployments : List DeploymentConfig → Seen → Result Seen
check_deployments [] s = ok s
check_deployments (d ∷ ds) s =
    check_from (text "deployment") d.name d.namespace 0 d.ingresses [] s >>= λ s'.
    check_deployments ds s'

unfoldable pub check_stateful_sets : List StatefulSetConfig → Seen → Result Seen
check_stateful_sets [] s = ok s
check_stateful_sets (d ∷ ds) s =
    check_from (text "statefulset") d.name d.namespace 0 d.ingresses [] s >>= λ s'.
    check_stateful_sets ds s'

unfoldable pub check_standalone : List IngressConfig → Seen → Result Seen
check_standalone [] s = ok s
check_standalone (ing ∷ rest) s =
    record_ingress s ing ing.name ing.namespace (text "top-level ingress " ++ quote ing.name)
    >>= λ s'. check_standalone rest s'

unfoldable pub validate_ingresses : KdefConfig → Result Seen
validate_ingresses config =
    check_deployments config.deployments (record { resource_names = []; secret_names = [] })
    >>= λ s.
        check_stateful_sets config.stateful_sets s >>= λ s'. check_standalone config.ingresses s'
