-- ===== src/Parser/Ingresses/Laws.antt =====
-- What validateIngresses accepts.
use kdef.Base.{
  ℕ, ◌+◌, List, [], ◌∷◌, ◌++◌, map, Bool, true, false, ◌&&◌, ◌≡◌, refl, sym, ap, ap₂, ◌∙◌, Result,
  ok, err, ◌>>=◌, is_ok, arith, none, some, Option-cases, inl, inr,
}
use kdef.Base.Dict.{Dict, lookup, insert, lookup-insert, contains}
use kdef.Base.Lists.{mem, distinct, distinct_from, distinct_from_nil}
use kdef.Base.Text.{Text, text, eq_iff, eq_refl}
use kdef.Parser.Ingresses.{
  Seen, key_of, record_secret, record_ingress, check_from, check_deployments, check_stateful_sets,
  check_standalone, validate_ingresses, block_desc,
}
use mathlib.Core.List.{append_assoc}
use kdef.Types.Hosts.{resource_name, certificate_secret_name}
use kdef.Types.{IngressConfig, KdefConfig, DeploymentConfig, StatefulSetConfig}

-- The keys of the Ingress resources and of the Certificates' secrets that a block asks for.
abbrev secret_keys : Text → Text → List Text
secret_keys namespace [] = []
secret_keys namespace (c ∷ cs) = key_of namespace (c ∷ cs) ∷ []

pub record Item : Type 0 where
  pub key : Text
  pub secrets : List Text

unfoldable pub item : Text → Text → IngressConfig → Item
item namespace name ing = record {
  key = key_of namespace name;
  secrets = secret_keys namespace (certificate_secret_name ing);
}

unfoldable pub block_items : Text → Text → ℕ → List IngressConfig → List Item
block_items workload namespace i [] = []
block_items workload namespace i (ing ∷ rest) =
    item namespace (resource_name ing workload i) ing ∷ block_items workload namespace (i + 1) rest

unfoldable pub deployment_items : List DeploymentConfig → List Item
deployment_items [] = []
deployment_items (d ∷ ds) = block_items d.name d.namespace 0 d.ingresses ++ deployment_items ds

unfoldable pub stateful_set_items : List StatefulSetConfig → List Item
stateful_set_items [] = []
stateful_set_items (d ∷ ds) = block_items d.name d.namespace 0 d.ingresses ++ stateful_set_items ds

unfoldable pub ingress_items : KdefConfig → List Item
ingress_items c =
    deployment_items c.deployments
    ++ (stateful_set_items c.stateful_sets
        ++ map (λ ing. item ing.namespace ing.name ing) c.ingresses)

unfoldable pub all_keys : List Item → List Text
all_keys [] = []
all_keys (x ∷ xs) = x.key ∷ all_keys xs

unfoldable pub all_secrets : List Item → List Text
all_secrets [] = []
all_secrets (x ∷ xs) = x.secrets ++ all_secrets xs

-- No key of `items` is in `names` or stands twice, and no secret is in `secrets` or stands twice.
abbrev free : List Text → List Text → List Item → Bool
free names secrets items =
    distinct_from names (all_keys items) && distinct_from secrets (all_secrets items)

-- `s` has recorded just `names` and `secrets`.
abbrev Records : Seen → List Text → List Text → Type 0
Records s names secrets =
    ((k : Text) → contains k s.resource_names ≡ mem k names)
    × ((k : Text) → contains k s.secret_names ≡ mem k secrets)

-- Where `names` have been recorded, the rest of a run, `k`, accepts just the items that are free.
abbrev Accepts : (Seen → Result Seen) → List Text → List Item → Type 0
Accepts k names items =
    (s : Seen) (secrets : List Text)
    → Records s names secrets
    → is_ok (k s) ≡ free names secrets items

record_secret-Accepts :
    (k : Seen → Result Seen) (rest : List Item) (secret namespace desc : Text) (s : Seen)
    (names secrets : List Text)
    → Accepts k names rest
    → Records s names secrets
    → is_ok (record_secret s secret namespace desc >>= k) ≡ (
        distinct_from names (all_keys rest)
        && distinct_from secrets (secret_keys namespace secret ++ all_secrets rest))
unfolding record_secret distinct_from
record_secret-Accepts k rest [] namespace desc s names secrets h r = h s secrets r
record_secret-Accepts k rest (c ∷ cs) namespace desc s names secrets h r =
    let key = key_of namespace (c ∷ cs) in
    let later =
      h (record s { secret_names = insert key desc s.secret_names }) (key ∷ secrets)
        (r.0, λ j. unfold mem in ground (arith, r.1 j, lookup-insert key j desc s.secret_names)) in
    ground (arith, r.1 key, later)

record_ingress-Accepts :
    (k : Seen → Result Seen) (rest : List Item) (ing : IngressConfig) (name namespace desc : Text)
    (names : List Text)
    → Accepts k (key_of namespace name ∷ names) rest
    → Accepts
        (λ s. record_ingress s ing name namespace desc >>= k)
        names
        (item namespace name ing ∷ rest)
unfolding record_ingress item all_keys all_secrets distinct_from
record_ingress-Accepts k rest ing name namespace desc names h s secrets r =
    let key = key_of namespace name in
    let later =
      record_secret-Accepts k rest (certificate_secret_name ing) namespace desc
        (record s { resource_names = insert key desc s.resource_names }) (key ∷ names) secrets h
        (
          λ j. unfold mem in ground (arith, r.0 j, lookup-insert key j desc s.resource_names),
          r.1,
        ) in
    ground (arith, r.0 key, later)

-- The names of the earlier blocks of the workload are among those that are recorded.
abbrev LocalIsRecorded : Dict ℕ → Text → List Text → Type 0
LocalIsRecorded local namespace names =
    (n : Text) → contains n local ≡ true → mem (key_of namespace n) names ≡ true

bind_assoc : (m : Result Seen) (f g : Seen → Result Seen) → (m >>= f >>= g) ≡ (m >>= λ s. f s >>= g)
bind_assoc (ok s) f g = refl
bind_assoc (err e) f g = refl

module _ (kind w ns : Text) (i : ℕ) (ing : IngressConfig) (ings : List IngressConfig)
    (local : Dict ℕ) (s : Seen) where
  check_from-fresh :
      lookup (resource_name ing w i) local ≡ none
      → check_from kind w ns i (ing ∷ ings) local s ≡ (
          record_ingress s ing (resource_name ing w i) ns (block_desc kind w i) >>= λ s'.
          check_from kind w ns (i + 1) ings (insert (resource_name ing w i) i local) s')
  unfolding check_from
  check_from-fresh e = ground (arith, e)

  check_from-taken :
      (k : Seen → Result Seen) {prev : ℕ}
      → lookup (resource_name ing w i) local ≡ some prev
      → is_ok (check_from kind w ns i (ing ∷ ings) local s >>= k) ≡ false
  unfolding check_from
  check_from-taken k e = ground (arith, e)

LocalIsRecorded-insert :
    (local : Dict ℕ) (ns name : Text) (i : ℕ) (names : List Text)
    → LocalIsRecorded local ns names
    → LocalIsRecorded (insert name i local) ns (key_of ns name ∷ names)
unfolding mem
LocalIsRecorded-insert local ns name i names l n h =
    ground (arith, lookup-insert name n i local, l n, eq_iff name n, eq_refl (key_of ns n))

check_from-Accepts :
    (ings : List IngressConfig) (k : Seen → Result Seen) (rest : List Item) (kind w ns : Text)
    (i : ℕ) (local : Dict ℕ) (names : List Text)
    → LocalIsRecorded local ns names
    → ((more : List Text) → Accepts k more rest)
    → Accepts
        (λ s. check_from kind w ns i ings local s >>= k)
        names
        (block_items w ns i ings ++ rest)
unfolding block_items
check_from-Accepts [] k rest kind w ns i local names l h s secrets r =
    unfold check_from in h names s secrets r
check_from-Accepts (ing ∷ ings) k rest kind w ns i local names l h s secrets r =
    let name = resource_name ing w i in
    elim (Option-cases (lookup name local)) [
      | inl fresh ↦
          ap (λ m. is_ok (m >>= k)) (check_from-fresh kind w ns i ing ings local s fresh)
          ∙ ap is_ok (
              bind_assoc (record_ingress s ing name ns (block_desc kind w i))
                (λ s'. check_from kind w ns (i + 1) ings (insert name i local) s') k)
          ∙ record_ingress-Accepts
              (λ s'. check_from kind w ns (i + 1) ings (insert name i local) s' >>= k)
              (block_items w ns (i + 1) ings ++ rest) ing name ns (block_desc kind w i) names
              (check_from-Accepts ings k rest kind w ns (i + 1) (insert name i local)
                (key_of ns name ∷ names) (LocalIsRecorded-insert local ns name i names l) h)
              s secrets r
      | inr (prev, taken) ↦
          check_from-taken kind w ns i ing ings local s k taken
          ∙ unfold item all_keys distinct_from in ground (arith, l name, taken)
    ]

check_deployments-Accepts :
    (ds : List DeploymentConfig) (k : Seen → Result Seen) (rest : List Item)
    → ((more : List Text) → Accepts k more rest)
    → (names : List Text)
    → Accepts (λ s. check_deployments ds s >>= k) names (deployment_items ds ++ rest)
unfolding check_deployments deployment_items
check_deployments-Accepts [] k rest h names s secrets r = h names s secrets r
check_deployments-Accepts (d ∷ ds) k rest h names s secrets r =
    ap is_ok (
      bind_assoc (check_from (text "deployment") d.name d.namespace 0 d.ingresses [] s)
        (λ s'. check_deployments ds s') k)
    ∙ check_from-Accepts d.ingresses (λ s'. check_deployments ds s' >>= k)
        (deployment_items ds ++ rest) (text "deployment") d.name d.namespace 0 [] names
        (unfold lookup in λ n e. cc) (check_deployments-Accepts ds k rest h) s secrets r
    ∙ ap (free names secrets) (
        sym
          (append_assoc (block_items d.name d.namespace 0 d.ingresses) (deployment_items ds) rest))

check_stateful_sets-Accepts :
    (ds : List StatefulSetConfig) (k : Seen → Result Seen) (rest : List Item)
    → ((more : List Text) → Accepts k more rest)
    → (names : List Text)
    → Accepts (λ s. check_stateful_sets ds s >>= k) names (stateful_set_items ds ++ rest)
unfolding check_stateful_sets stateful_set_items
check_stateful_sets-Accepts [] k rest h names s secrets r = h names s secrets r
check_stateful_sets-Accepts (d ∷ ds) k rest h names s secrets r =
    ap is_ok (
      bind_assoc (check_from (text "statefulset") d.name d.namespace 0 d.ingresses [] s)
        (λ s'. check_stateful_sets ds s') k)
    ∙ check_from-Accepts d.ingresses (λ s'. check_stateful_sets ds s' >>= k)
        (stateful_set_items ds ++ rest) (text "statefulset") d.name d.namespace 0 [] names
        (unfold lookup in λ n e. cc) (check_stateful_sets-Accepts ds k rest h) s secrets r
    ∙ ap (free names secrets) (
        sym (
          append_assoc (block_items d.name d.namespace 0 d.ingresses) (stateful_set_items ds) rest))

check_standalone-Accepts :
    (ings : List IngressConfig) (names : List Text)
    → Accepts (check_standalone ings) names (map (λ ing. item ing.namespace ing.name ing) ings)
unfolding check_standalone
check_standalone-Accepts [] names s secrets r = unfold all_keys all_secrets distinct_from in refl
check_standalone-Accepts (ing ∷ ings) names s secrets r =
    record_ingress-Accepts (check_standalone ings) (map (λ i. item i.namespace i.name i) ings) ing
      ing.name ing.namespace _ names
      (check_standalone-Accepts ings (key_of ing.namespace ing.name ∷ names)) s secrets r

-- validateIngresses succeeds exactly when the keys `namespace/name` of the Ingress resources are
-- distinct, over deployments, statefulsets and standalone blocks together, and the keys
-- `namespace/secret` of the Certificates that would be generated are distinct too.
pub validate_ingresses_lem :
    (c : KdefConfig)
    → is_ok (validate_ingresses c)
      ≡ (distinct (all_keys (ingress_items c)) && distinct (all_secrets (ingress_items c)))
unfolding validate_ingresses ingress_items
validate_ingresses_lem c =
    let empty : Seen = record { resource_names = []; secret_names = [] } in
    check_deployments-Accepts c.deployments
      (λ s. check_stateful_sets c.stateful_sets s >>= λ s'. check_standalone c.ingresses s') _
      (check_stateful_sets-Accepts c.stateful_sets (check_standalone c.ingresses) _
        (check_standalone-Accepts c.ingresses))
      [] empty [] (unfold lookup mem in (λ k. refl, λ k. refl))
    ∙ ap₂ ◌&&◌ (distinct_from_nil (all_keys (ingress_items c)))
        (distinct_from_nil (all_secrets (ingress_items c)))
