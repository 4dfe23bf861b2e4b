-- ===== src/Parser/Ingresses/Defaults.antt =====
-- What applyIngressDefaults fills in.
use kdef.Base.{[], Bool, false, ◌||◌, Option, none, some, ◌≡◌, if◌then◌else◌, arith}
use kdef.Base.Dict.{lookup, merge, lookup-merge, or_else}
use kdef.Base.Text.{Text, is_empty}
use kdef.Parser.Ingresses.{apply_defaults}
use kdef.Types.{IngressConfig, IngressDefaults}

abbrev pub default_or_false : Option Bool → Bool
default_or_false none = false
default_or_false (some b) = b

abbrev pub first_set : Text → Text → Text
first_set s fallback = if is_empty s then fallback else s

-- An ingress keeps the secret, the issuer and the class that it sets, and takes the default where
-- it sets none; of an annotation that both set its own value counts, and no annotation is lost. TLS
-- is on if either turns it on: an ingress cannot turn off what the defaults turn on.
pub apply_defaults_lem :
    (d : IngressDefaults) (ing : IngressConfig)
    → ((apply_defaults d ing).tls ≡ (ing.tls || default_or_false d.tls))
      × ((apply_defaults d ing).tls_secret ≡ first_set ing.tls_secret d.tls_secret)
      × ((apply_defaults d ing).issuer ≡ first_set ing.issuer d.issuer)
      × ((apply_defaults d ing).class ≡ first_set ing.class d.class)
      × ((k : Text)
          → lookup k (apply_defaults d ing).annotations
            ≡ or_else (lookup k ing.annotations) (lookup k d.annotations))
unfolding apply_defaults
apply_defaults_lem d ing = (
  ground arith,
  ground arith,
  ground arith,
  ground arith,
  λ k.
      unfold lookup in
      ground (
        arith,
        lookup-merge k (merge [] d.annotations) ing.annotations,
        lookup-merge k [] d.annotations,
      ),
)
