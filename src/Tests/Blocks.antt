-- ===== src/Tests/Blocks.antt =====
-- HCL with plain values, and the blocks of internal/parser at concrete inputs.
use Prim.Native.String.{String}
use kdef.Base.Dict.{Dict, lookup, is_some, contains}
use kdef.Base.Int.{ℤ, pos}
use kdef.Base.Lists.{All, mem}
use kdef.Base.Text.{Text, text, ◌==◌}
use kdef.Base.{
  all, ℕ, suc, ◌+◌, ◌<◌, List, [], ◌∷◌, map, Bool, true, false, not, ◌&&◌, if◌then◌else◌, Option,
  none, some, ◌≡◌, refl, sym, arith, Result, ok,
}
use kdef.Parser.Blocks.Crds.Storage.{IsNamed, parse_crd_block-IsNamed}
use kdef.Parser.Blocks.Crds.{parse_crd_block, count_storage}
use kdef.Parser.Blocks.CronJobs.Laws.{AllowsConcurrency, HasLimits, parse_cron_job_block-IsCronJob}
use kdef.Parser.Blocks.CronJobs.{parse_cron_job_block}
use kdef.Parser.Blocks.Deployments.Probes.{AllProbes, parse_deployment_block-AllProbes}
use kdef.Parser.Blocks.Deployments.{parse_deployment_block}
use kdef.Parser.Blocks.Files.Count.{size, count_resources, parse_blocks_from_body-size}
use kdef.Parser.Blocks.Files.Panics.{parse_blocks_from_body-panic}
use kdef.Parser.Blocks.Files.{parse_blocks_from_body, top_level_schema}
use kdef.Parser.Blocks.Ingress.Annotations.{IsDone, flatten_annotations-IsDone}
use kdef.Parser.Blocks.Ingress.{flatten_annotations}
use kdef.Parser.Blocks.Loops.{empty_result}
use kdef.Base.Format.{is_space}
use kdef.Importer.Resources.Laws.{parse_resource_range-resource_value}
use kdef.Importer.Resources.{resource_value}
use kdef.Parser.Blocks.Environment.{parse_resource_range}
use kdef.Parser.Hcl.Laws.{Holds}
use kdef.Parser.Hcl.Valid.{Valid}
use kdef.Parser.Hcl.{Hcl, panic, Diagnostic, failure, has_errors, Schema, Block, Content}
use kdef.Types.{Fields, end, field, scalar}

mutual
  data Val : Type 0 where
    word : Text → Val
    number : ℤ → Val
    flag : Bool → Val
    object : Members → Val

  data Members : Type 0 where
    done : Members
    member : Text → Val → Members → Members

mutual
  data Bod : Type 0 where
    bod : Dict Val → Blocks → Bod

  data Blocks : Type 0 where
    last : Blocks
    block : Text → List Text → Bod → Blocks → Blocks

abbrev attrs_of : Bod → Dict Val
attrs_of (bod attrs bs) = attrs

abbrev list_of : Blocks → List (Block Bod)
list_of last = []
list_of (block t ls b bs) = (record { type = t; labels = ls; body = b }) ∷ list_of bs

abbrev blocks_of : Bod → List (Block Bod)
blocks_of (bod attrs bs) = list_of bs

-- A required attribute that is not there is an error.
abbrev missing : Dict Val → List (Text × Bool) → List Diagnostic
missing attrs [] = []
missing attrs ((name, must) ∷ rest) =
    let ds = missing attrs rest in
    if must && not (contains name attrs) then failure (text "Missing") name ∷ ds else ds

abbrev chosen : Schema → Bool → List (Block Bod) → List (Block Bod)
chosen s inside [] = []
chosen s inside (b ∷ bs) =
    let rest = chosen s inside bs in
    let has = mem b.type (map {A = Text × ℕ} (λ (name, k). name) s.blocks) in
    if (if inside then has else not has) then b ∷ rest else rest

abbrev packed : List (Block Bod) → Blocks
packed [] = last
packed (b ∷ bs) = block b.type b.labels b.body (packed bs)

abbrev read : Schema → Bod → Content Bod Val × List Diagnostic
read s b = (
  record { attributes = attrs_of b; blocks = chosen s true (blocks_of b) },
  missing (attrs_of b) s.attributes,
)

abbrev pairs : Members → List (Val × Val)
pairs done = []
pairs (member k v ms) = (word k, v) ∷ pairs ms

abbrev members : Val → Option (List (Val × Val))
members (object ms) = some (pairs ms)
members v = none

abbrev word_of : Val → Option Text
word_of (word s) = some s
word_of v = none

abbrev number_of : Val → Option ℤ
number_of (number n) = some n
number_of v = none

abbrev flag_of : Val → Option Bool
flag_of (flag b) = some b
flag_of v = none

unfoldable mutual
  nesting : Val → ℕ
  nesting (object ms) = suc (nestings ms)
  nesting (word s) = 0
  nesting (number n) = 0
  nesting (flag b) = 0

  nestings : Members → ℕ
  nestings done = 0
  nestings (member k v ms) = nesting v + nestings ms

abbrev find_member : Text → Members → Option Val
find_member k done = none
find_member k (member j v ms) = if j == k then some v else find_member k ms

abbrev get_member : Text → Val → Option Val
get_member k (object ms) = find_member k ms
get_member k v = none

abbrev plain : Hcl
plain = record {
  Body = Bod;
  Expr = Val;
  Value = Val;
  Context = List (Text × Val);
  content = read;
  partial_content = read;
  remain = λ s b. bod (attrs_of b) (packed (chosen s false (blocks_of b)));
  just_attributes = λ b. (attrs_of b, []);
  value = λ ctx v. (v, []);
  as_string = word_of;
  as_int64 = number_of;
  is_true = flag_of;
  can_iterate = λ v. is_some (members v);
  elements = members;
  depth = nesting;
  is_string = λ v. is_some (word_of v);
  is_number = λ v. is_some (number_of v);
  is_object = λ v. is_some (members v);
  is_map = λ v. false;
  has_attribute = λ k v. is_some (get_member k v);
  get_attr = get_member;
  go_string = λ v. text "cty";
  is_exact = λ v. true;
  number_text = λ v. [];
}

abbrev one : Bod → List Text → String → Block Bod
one b ls t = record { type = text t; labels = ls; body = b }

abbrev get : List (String × Val) → Dict Val
get attrs = map {A = String × Val} (λ (k, v). (text k, v)) attrs

abbrev say : String → Val
say s = word (text s)

-- crd "volumes.example.com" with one version
abbrev volumes_crd : Block Bod
volumes_crd =
    one
      (bod (get (("kind", say "Volume") ∷ []))
        (block (text "version") (text "v1" ∷ []) (bod [] last) last))
      (text "volumes.example.com" ∷ []) "crd"

abbrev marshal : Val → Result Text
marshal v = ok []

abbrev unmarshal : Text → Result Fields
unmarshal s = ok (field (text "type") (scalar s) end)

abbrev same : Text → Text
same s = s

parse_crd_block-IsNamed_example :
    Valid
      (λ c. (count_storage c.versions ≡ 1) × IsNamed same c)
      (parse_crd_block plain [] marshal unmarshal same volumes_crd)
parse_crd_block-IsNamed_example =
    parse_crd_block-IsNamed plain [] marshal unmarshal same volumes_crd

abbrev probes : Block Bod
probes =
    one
      (bod [] (
        block (text "liveness") [] (bod (get (("tcp_socket_port", number (pos 80)) ∷ [])) last)
          last))
      [] "probes"

abbrev web : Block Bod
web =
    one
      (bod [] (
        block (text "container") (text "app" ∷ [])
          (bod (get (("image", say "web") ∷ [])) (block (text "probes") [] probes.body last)) last))
      (text "web" ∷ []) "deployment"

parse_deployment_block-AllProbes_example : Holds AllProbes (parse_deployment_block plain [] web)
parse_deployment_block-AllProbes_example = parse_deployment_block-AllProbes plain [] web

abbrev nightly : Block Bod
nightly =
    one
      (bod
        (get (
          ("image", say "app")
          ∷ ("schedule", say "0 3 * * *")
          ∷ ("concurrency", say "forbid")
          ∷ ("history_limit", number (pos 3))
          ∷ []))
        last)
      (text "nightly" ∷ []) "cronjob"

parse_cron_job_block-IsCronJob_example :
    Holds
      (λ w. AllowsConcurrency plain [] w × HasLimits plain [] w)
      (parse_cron_job_block plain [] nightly)
parse_cron_job_block-IsCronJob_example = parse_cron_job_block-IsCronJob plain [] nightly

-- Every element nests less than its value.
less_members : (n : ℕ) (ms : Members) → nestings ms < n → All (λ (k, w). nesting w < n) (pairs ms)
unfolding nestings
less_members n done e = tt
less_members n (member k v ms) e = (omega arith, less_members n ms (omega arith))

less_plain :
    (v : Val) (kvs : List (Val × Val))
    → members v ≡ some kvs
    → All (λ (k, w). nesting w < nesting v) kvs
unfolding nestings
less_plain (object ms) kvs e =
    let q : pairs ms ≡ kvs = cc in rw (sym q) (less_members (nesting (object ms)) ms (omega arith))
less_plain (word s) kvs e = cc
less_plain (number n) kvs e = cc
less_plain (flag b) kvs e = cc

abbrev grouped : Val
grouped = object (member (text "nginx") (object (member (text "cors") (say "true") done)) done)

flatten_annotations-IsDone_example : IsDone (flatten_annotations plain [] 3 [] grouped)
unfolding nestings
flatten_annotations-IsDone_example =
    flatten_annotations-IsDone plain [] less_plain 3 [] grouped (omega arith)

-- A configmap and the images of the file.
abbrev file : Bod
file = bod [] (
    block (text "configmap") (text "settings" ∷ [])
      (bod (get (("namespace", say "prod") ∷ [])) last)
      (block (text "images") [] (bod [] last) last))

parse_blocks_from_body-size_example :
    Valid
      (λ r. size r ≡ count_resources (read top_level_schema file).0.blocks + size empty_result)
      (parse_blocks_from_body plain marshal unmarshal same [] file empty_result)
parse_blocks_from_body-size_example =
    parse_blocks_from_body-size plain [] marshal unmarshal same file empty_result

-- namespace = 5
abbrev wrong : Block Bod
wrong = one (bod (get (("namespace", number (pos 5)) ∷ [])) last) (text "settings" ∷ []) "configmap"

parse_blocks_from_body-panic_example :
    parse_blocks_from_body plain marshal unmarshal same []
      (bod [] (block (text "configmap") wrong.labels wrong.body last))
      empty_result
    ≡ panic
unfolding has_errors lookup mem ◌==◌
parse_blocks_from_body-panic_example =
    parse_blocks_from_body-panic plain [] marshal unmarshal same
      (bod [] (block (text "configmap") wrong.labels wrong.body last)) empty_result [] [] wrong
      (text "settings") (number (pos 5)) refl refl refl refl refl refl refl refl

parse_resource_range-resource_value_example :
    parse_resource_range (text "100m..500m") ≡ (text "100m", text "500m")
unfolding resource_value all is_space ◌==◌
parse_resource_range-resource_value_example =
    parse_resource_range-resource_value (text "100m") (some (text "500m")) (text "100m..500m") refl
      refl refl
