-- ===== src/Parser/Blocks/Loops.antt =====
-- internal/parser/loop.go and app.go: the for blocks of a file. The range of a body, os.ReadFile, the
-- parser of HCL text and the variables of a context are parameters. The nested calls for the text of
-- a for block are on fuel.
use kdef.Base.{
  ℕ, zero, suc, [], ◌∷◌, ◌++◌, ◌-◌, ltb, leb, nat_eq, ◌||◌, List, not, if◌then◌else◌, Option, some,
  none, Result, ok, err,
}
use kdef.Base.Format.{quote}
use kdef.Base.Text.{Text, text}
use kdef.Parser.FileResult.{FileResult}
use kdef.Parser.Hcl.{
  Hcl, Parsed, panic, parsed, Diagnostic, failure, has_errors, Schema, Block, after, pure, expect,
  label, labelled, with_content, each_block, switch, ◌>>=◌,
}
use kdef.Types.{Fields}
use kdef.Parser.Blocks.Files.{parse_remaining}

abbrev pub empty_result : FileResult
empty_result = record {
  deployments = [];
  daemon_sets = [];
  stateful_sets = [];
  cron_jobs = [];
  config_maps = [];
  ingresses = [];
  secrets = [];
  sealed_secrets = [];
  persistent_volume_claims = [];
  cluster_roles = [];
  cluster_role_bindings = [];
  crds = [];
  csi_drivers = [];
}

unfoldable pub append_result : FileResult → FileResult → FileResult
append_result r f = record {
  deployments = r.deployments ++ f.deployments;
  daemon_sets = r.daemon_sets ++ f.daemon_sets;
  stateful_sets = r.stateful_sets ++ f.stateful_sets;
  cron_jobs = r.cron_jobs ++ f.cron_jobs;
  config_maps = r.config_maps ++ f.config_maps;
  ingresses = r.ingresses ++ f.ingresses;
  secrets = r.secrets ++ f.secrets;
  sealed_secrets = r.sealed_secrets ++ f.sealed_secrets;
  persistent_volume_claims = r.persistent_volume_claims ++ f.persistent_volume_claims;
  cluster_roles = r.cluster_roles ++ f.cluster_roles;
  cluster_role_bindings = r.cluster_role_bindings ++ f.cluster_role_bindings;
  crds = r.crds ++ f.crds;
  csi_drivers = r.csi_drivers ++ f.csi_drivers;
}

unfoldable pub append_results : FileResult → List FileResult → FileResult
unfolding append_result
append_results r [] = r
append_results r (f ∷ fs) = append_results (append_result r f) fs

-- The types that a for block may hold.
abbrev for_schema : Schema
for_schema = record {
  attributes = [];
  blocks =
      labelled 1
        ("deployment" ∷ "daemonset" ∷ "statefulset" ∷ "cronjob" ∷ "configmap" ∷ "ingress" ∷ []);
}

abbrev pub loop_schema : Schema
loop_schema = record { attributes = []; blocks = labelled 2 ("for" ∷ []) }

-- hclsyntax.Body.SrcRange: the file, and the places of the first byte and behind the last.
pub record SrcRange : Type 0 where
  pub filename : Text
  pub start : ℕ
  pub end : ℕ

-- A text without what comes before a place, and up to a place.
unfoldable pub drop : ℕ → Text → Text
drop zero src = src
drop (suc n) [] = []
drop (suc n) (c ∷ src) = drop n src

unfoldable pub take : ℕ → Text → Text
take zero src = []
take (suc n) [] = []
take (suc n) (c ∷ src) = c ∷ take n src

abbrev pub length : Text → ℕ
length [] = 0
length (c ∷ src) = suc (length src)

-- Without a { at the start.
unfoldable pub strip_open : Text → Text
strip_open [] = []
strip_open (c ∷ src) = if nat_eq c 123 then src else c ∷ src

-- Without a } at the end.
unfoldable pub strip_close : Text → Text
strip_close [] = []
strip_close (c ∷ []) = if nat_eq c 125 then [] else c ∷ []
strip_close (c ∷ d ∷ src) = c ∷ strip_close (d ∷ src)

-- The text between the braces of a body, as bytes, and the name of its file; a body without a range
-- is none of the native syntax.
unfoldable pub extract_blocks_source : (Text → Result Text) → Option SrcRange → Result (Text × Text)
unfolding drop take strip_open strip_close
extract_blocks_source read_file none = err (text "for blocks require native HCL syntax")
extract_blocks_source read_file (some rng) = elim (read_file rng.filename) [
  | err e ↦ err (text "read source: " ++ e)
  | ok src ↦
      if leb (length src) rng.start || ltb (length src) rng.end
      then err (text "source range out of bounds")
      else ok (
        strip_close (strip_open (take (rng.end - rng.start) (drop rng.start src))),
        rng.filename ++ text ":for",
      )
]

module _ (h : Hcl) (marshal_json : h.Value → Result Text) (unmarshal : Text → Result Fields)
    (to_lower : Text → Text) where
  open h use {Body, Expr, Value, Context}

  module _ (resolve : Text → Context → Result Value) (src_range : Body → Option SrcRange)
      (read_file : Text → Result Text) (parse_config : Text → Text → Body × List Diagnostic)
      (bind : Text → Value → Context → Context) where
    -- The text of a for block, and its parse, which is the same for each element.
    abbrev read_blocks : Body → Result (Body × List Diagnostic)
    read_blocks body = elim (extract_blocks_source read_file (src_range body)) [
      | err e ↦ err e
      | ok (src, filename) ↦ ok (parse_config src filename)
    ]

    -- ParseBytes for each element, with the element as the iterator's variable.
    unfoldable pub each_element :
        (Context → Body → Parsed FileResult)
        → Context
        → Text
        → Body × List Diagnostic
        → List (Value × Value)
        → List FileResult
        → Parsed (List FileResult)
    each_element parse ctx iterator source [] results = pure results
    each_element parse ctx iterator (body, ds) ((k, v) ∷ kvs) results =
        (if has_errors ds then parsed empty_result ds else parse (bind iterator v ctx) body)
        >>= λ r. each_element parse ctx iterator (body, ds) kvs (results ++ r ∷ [])

    abbrev refused : List FileResult → Text → Text → Parsed (List FileResult)
    refused results summary detail = parsed results (failure summary detail ∷ [])

    -- The text of the blocks, or why it cannot be read.
    unfoldable pub for_source :
        (Context → Body → Parsed FileResult)
        → Context
        → Text
        → Value
        → List FileResult
        → Result (Body × List Diagnostic)
        → Parsed (List FileResult)
    unfolding each_element
    for_source parse ctx iterator v results (err message) =
        refused results (text "Cannot extract for block source") message
    for_source parse ctx iterator v results (ok source) =
        expect (h.elements v) (λ kvs. each_element parse ctx iterator source kvs results)

    -- The value of the reference, or why there is none.
    unfoldable pub for_collection :
        (Context → Body → Parsed FileResult)
        → Context
        → Body
        → Text
        → Text
        → List FileResult
        → Result Value
        → Parsed (List FileResult)
    unfolding for_source
    for_collection parse ctx body iterator ref results (err message) =
        refused results (text "Invalid for collection")
          (text "Cannot resolve " ++ (quote ref ++ (text ": " ++ message)))
    for_collection parse ctx body iterator ref results (ok v) =
        if not (h.can_iterate v)
        then refused results (text "Collection not iterable")
            (quote ref ++ text " is not a list or set")
        else with_content h ctx for_schema body results
            (λ c results. for_source parse ctx iterator v results (read_blocks body))

    unfoldable pub for_block :
        (Context → Body → Parsed FileResult)
        → Context
        → Block Body
        → List FileResult
        → Parsed (List FileResult)
    unfolding for_collection
    for_block parse ctx b results = label 0 b.labels (λ iterator.
        label 1 b.labels
          (λ ref. for_collection parse ctx b.body iterator ref results (resolve ref ctx)))

    unfoldable pub expand_for_blocks :
        (Context → Body → Parsed FileResult) → Context → Body → Parsed (List FileResult)
    unfolding for_block
    expand_for_blocks parse ctx body =
        let (c, ds) = h.partial_content loop_schema body in
        if has_errors ds
        then parsed [] ds
        else after ds (each_block (switch (("for", for_block parse ctx) ∷ [])) c.blocks [])

    -- The file, with what its for blocks gave.
    unfoldable pub after_loops : Context → Body → Parsed (List FileResult) → Parsed FileResult
    unfolding append_results
    after_loops ctx body panic = panic
    after_loops ctx body (parsed results ds) =
        if has_errors ds
        then parsed empty_result ds
        else after ds (
            parse_remaining h marshal_json unmarshal to_lower ctx (h.remain loop_schema body)
              (append_results empty_result results))

    -- Without fuel the call counts as one that does not return.
    unfoldable pub parse_file_body : ℕ → Context → Body → Parsed FileResult
    unfolding expand_for_blocks after_loops
    parse_file_body zero ctx body = panic
    parse_file_body (suc fuel) ctx body =
        after_loops ctx body (expand_for_blocks (parse_file_body fuel) ctx body)
