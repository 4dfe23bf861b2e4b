-- ===== src/Parser/Blocks/Files.antt =====
-- internal/parser/app.go and conditional.go: the blocks of a file, with its if blocks.
pub mod Count
pub mod Panics
use Prim.Native.String.{String}
use kdef.Base.{
  ℕ, zero, suc, [], ◌∷◌, ◌++◌, List, Bool, true, false, not, if◌then◌else◌, Option, some, none,
  Result, ok, err,
}
use kdef.Base.Dict.{Dict}
use kdef.Base.Format.{quote}
use kdef.Base.Text.{Text, text}
use kdef.Parser.Blocks.CronJobs.{parse_cron_job_block}
use kdef.Parser.Blocks.Crds.{parse_crd_block}
use kdef.Parser.Blocks.DaemonSets.{parse_daemon_set_block}
use kdef.Parser.Blocks.Data.{
  parse_config_map_block, parse_secret_block, parse_sealed_secret_block,
  parse_persistent_volume_claim_block,
}
use kdef.Parser.Blocks.Deployments.{parse_deployment_block}
use kdef.Parser.Blocks.Ingress.{parse_standalone_ingress_block}
use kdef.Parser.Blocks.Rbac.{
  parse_cluster_role_block, parse_cluster_role_binding_block, parse_csi_driver_block,
}
use kdef.Parser.Blocks.StatefulSets.{parse_stateful_set_block}
use kdef.Parser.FileResult.{FileResult}
use kdef.Parser.Hcl.{
  Hcl, Parsed, panic, parsed, Diagnostic, failure, has_errors, Schema, Block, Content, after, pure,
  expect, label, required_with, required, labelled, with_content, on_block, each_block, switch,
  ◌>>=◌,
}
use kdef.Types.{Fields}

abbrev pub top_level_schema : Schema
top_level_schema = record {
  attributes = [];
  blocks =
      labelled 1 (
        "deployment" ∷ "daemonset" ∷ "statefulset" ∷ "cronjob" ∷ "configmap" ∷ "ingress" ∷ "secret"
        ∷ "sealedsecret" ∷ "persistentvolumeclaim" ∷ "clusterrole" ∷ "clusterrolebinding" ∷ "crd"
        ∷ "csidriver" ∷ [])
      ++ labelled 0 ("images" ∷ []);
}

module _ (h : Hcl) (marshal_json : h.Value → Result Text) (unmarshal : Text → Result Fields)
    (to_lower : Text → Text) where
  open h use {Body, Expr, Value, Context}

  abbrev pub top_level_cases :
      Context → List (String × (Block Body → FileResult → Parsed FileResult))
  top_level_cases ctx =
      (
        "deployment",
        on_block (parse_deployment_block h ctx)
            (λ x r. record r { deployments = r.deployments ++ x ∷ [] }),
      )
      ∷ (
        "daemonset",
        on_block (parse_daemon_set_block h ctx)
            (λ x r. record r { daemon_sets = r.daemon_sets ++ x ∷ [] }),
      )
      ∷ (
        "statefulset",
        on_block (parse_stateful_set_block h ctx)
            (λ x r. record r { stateful_sets = r.stateful_sets ++ x ∷ [] }),
      )
      ∷ (
        "cronjob",
        on_block (parse_cron_job_block h ctx)
            (λ x r. record r { cron_jobs = r.cron_jobs ++ x ∷ [] }),
      )
      ∷ (
        "configmap",
        on_block (parse_config_map_block h ctx)
            (λ x r. record r { config_maps = r.config_maps ++ x ∷ [] }),
      )
      ∷ (
        "ingress",
        on_block (parse_standalone_ingress_block h ctx)
            (λ x r. record r { ingresses = r.ingresses ++ x ∷ [] }),
      )
      ∷ (
        "secret",
        on_block (parse_secret_block h ctx) (λ x r. record r { secrets = r.secrets ++ x ∷ [] }),
      )
      ∷ (
        "sealedsecret",
        on_block (parse_sealed_secret_block h ctx)
            (λ x r. record r { sealed_secrets = r.sealed_secrets ++ x ∷ [] }),
      )
      ∷ (
        "persistentvolumeclaim",
        on_block (parse_persistent_volume_claim_block h ctx)
            (λ x r. record r { persistent_volume_claims = r.persistent_volume_claims ++ x ∷ [] }),
      )
      ∷ (
        "clusterrole",
        on_block (parse_cluster_role_block h ctx)
            (λ x r. record r { cluster_roles = r.cluster_roles ++ x ∷ [] }),
      )
      ∷ (
        "clusterrolebinding",
        on_block (parse_cluster_role_binding_block h ctx)
            (λ x r. record r { cluster_role_bindings = r.cluster_role_bindings ++ x ∷ [] }),
      )
      ∷ (
        "crd",
        on_block (parse_crd_block h ctx marshal_json unmarshal to_lower)
            (λ x r. record r { crds = r.crds ++ x ∷ [] }),
      )
      ∷ (
        "csidriver",
        on_block (parse_csi_driver_block h ctx)
            (λ x r. record r { csi_drivers = r.csi_drivers ++ x ∷ [] }),
      )
      ∷ []

  unfoldable pub parse_blocks_from_body : Context → Body → FileResult → Parsed FileResult
  parse_blocks_from_body ctx body result =
      with_content h ctx top_level_schema body result
        λ c. each_block (switch (top_level_cases ctx)) c.blocks

  -- The body of an if block whose condition holds is added.
  unfoldable pub if_block : Context → Block Body → List Body → Parsed (List Body)
  if_block ctx b bodies =
      let schema : Schema = record { attributes = required ("condition" ∷ []); blocks = [] } in
      let (c, ds) = h.partial_content schema b.body in
      if has_errors ds
      then parsed bodies ds
      else after ds (
          required_with h ctx c "condition"
            (λ v bodies.
              expect (h.is_true v)
                (λ x. pure (if x then bodies ++ h.remain schema b.body ∷ [] else bodies)))
            bodies)

  abbrev pub if_schema : Schema
  if_schema = record { attributes = []; blocks = labelled 0 ("if" ∷ []) }

  -- The bodies to parse beside what remains.
  unfoldable pub extract_if_blocks : Context → Body → Parsed (List Body)
  unfolding if_block
  extract_if_blocks ctx body =
      let (c, ds) = h.partial_content if_schema body in
      if has_errors ds
      then parsed [] ds
      else after ds (each_block (switch (("if", if_block ctx) ∷ [])) c.blocks [])

  -- Each body in its turn: errors in one do not keep the others from being parsed.
  unfoldable pub parse_bodies : Context → List Body → FileResult → Parsed FileResult
  unfolding parse_blocks_from_body
  parse_bodies ctx [] r = pure r
  parse_bodies ctx (b ∷ bs) r = parse_blocks_from_body ctx b r >>= parse_bodies ctx bs

  -- The file without its for blocks.
  unfoldable pub parse_remaining : Context → Body → FileResult → Parsed FileResult
  unfolding extract_if_blocks parse_bodies
  parse_remaining ctx body r = elim (extract_if_blocks ctx body) [
    | panic ↦ panic
    | parsed bodies ds ↦
        if has_errors ds
        then parsed r ds
        else after ds (parse_bodies ctx (h.remain if_schema body ∷ bodies) r)
  ]
