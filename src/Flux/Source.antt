-- ===== src/Flux/Source.antt =====
-- flux-controller/internal/controller/kdefrelease_controller.go: getSourceArtifact, fetchArtifact,
-- resolveValuesFrom and renderKdef. Reads of the cluster, HTTP, SHA-256, the archive, temporary files
-- and YAML are the record Platform.
pub mod Laws
use kdef.Base.{
  ℕ, List, [], ◌∷◌, ◌++◌, Bool, not, ◌&&◌, nat_eq, if◌then◌else◌, Option, none, some, Result, ok,
  err, ◌>>=◌, ◌>>◌,
}
use kdef.Base.Dict.{Dict, lookup}
use kdef.Base.Format.{quote, itoa}
use kdef.Base.Text.{Text, text, is_empty, ◌==◌}
use kdef.Flux.Release.{CrossNamespaceSourceReference, ValuesReference, KdefReleaseSpec}
use kdef.Flux.Resources.{Object, split_n, parse_yaml_objects}
use kdef.Generator.Generate.{Generators, generate}
use kdef.Generator.Order.{Manifest}
use kdef.Parser.Root.{LoadOptions}
use kdef.Types.{KdefConfig}

pub record Artifact : Type 0 where
  pub url : Text
  pub digest : Text
  pub revision : Text

pub record Response : Type 0 where
  pub status_code : ℕ
  pub body : Result Text

pub record Platform (O : Type 0) : Type 0 where
  pub get_source : Text → Text → Text → Result (Option Artifact)
  pub get_config_map : Text → Text → Result (Dict Text)
  pub get_secret : Text → Text → Result (Dict Text)
  pub new_request : Text → Result Text
  pub send : Text → Result Response
  pub sha256_hex : Text → Text
  pub mkdir_temp : Result Text
  pub extract_tar_gz : Text → Text → Option Text
  pub write_temp : Text → Result Text
  pub join_path : Text → Text → Text
  pub load_with_options : LoadOptions → Result KdefConfig
  pub generators : Generators O
  pub render_all_yaml : Dict (List (Manifest O)) → Result Text
  pub decode_yaml : Text → List (Result Object)

-- fmt.Errorf("...: %w", err)
abbrev pub wrap_error : Text → {A : Type 0} → Result A → Result A
wrap_error prefix (ok a) = ok a
wrap_error prefix (err e) = err (prefix ++ (text ": " ++ e))

-- if err != nil { return fmt.Errorf("...: %w", err) }
abbrev pub wrap_failure : Text → Option Text → Result (Unit {0})
wrap_failure prefix none = ok tt
wrap_failure prefix (some e) = err (prefix ++ (text ": " ++ e))

abbrev pub colon : ℕ
colon = 58

module _ {O : Type 0} (platform : Platform O) where
  unfoldable pub artifact_of : Text → Text → Option Artifact → Result Artifact
  artifact_of kind source none = err (kind ++ (text " " ++ (source ++ text " has no artifact")))
  artifact_of kind source (some artifact) = ok artifact

  -- One case of the switch on the kind of the source.
  unfoldable pub get_artifact : Text → Text → Text → Result Artifact
  unfolding artifact_of
  get_artifact kind ns name =
      let source = ns ++ (text "/" ++ name) in
      wrap_error (text "get " ++ (kind ++ (text " " ++ source))) (platform.get_source kind ns name)
      >>= λ found. artifact_of kind source found

  unfoldable pub get_source_artifact : Text → CrossNamespaceSourceReference → Result Artifact
  unfolding get_artifact
  get_source_artifact release_namespace ref =
      let ns = if is_empty ref.namespace then release_namespace else ref.namespace in
      if ref.kind == text "GitRepository"
      then get_artifact (text "GitRepository") ns ref.name
      else if ref.kind == text "OCIRepository"
      then get_artifact (text "OCIRepository") ns ref.name
      else err (text "unsupported source kind: " ++ ref.kind)

  -- The checksum of a digest that is split at its colon.
  unfoldable pub check_parts : List Text → Text → Result (Unit {0})
  check_parts (algorithm ∷ expected ∷ []) body =
      let got = platform.sha256_hex body in
      if algorithm == text "sha256" && not (got == expected)
      then err (text "checksum mismatch: expected " ++ (expected ++ (text ", got " ++ got)))
      else ok tt
  check_parts _ body = ok tt

  unfoldable pub check_digest : Text → Text → Result (Unit {0})
  unfolding check_parts split_n
  check_digest digest body =
      if is_empty digest then ok tt else check_parts (split_n colon digest 2) body

  -- if resp.StatusCode != http.StatusOK
  unfoldable pub check_status : ℕ → Result (Unit {0})
  check_status status_code =
      if nat_eq status_code 200
      then ok tt
      else err (text "download artifact: HTTP " ++ itoa status_code)

  -- The directory that the artifact was extracted to.
  unfoldable pub fetch_artifact : Artifact → Result Text
  unfolding check_digest check_status
  fetch_artifact artifact = do
    request ← wrap_error (text "create request") (platform.new_request artifact.url)
    response ← wrap_error (text "download artifact") (platform.send request)
    check_status response.status_code
    body ← wrap_error (text "read artifact") response.body
    check_digest artifact.digest body
    dir ← wrap_error (text "create temp dir") platform.mkdir_temp
    wrap_failure (text "extract artifact") (platform.extract_tar_gz body dir)
    ok dir

  unfoldable pub value_of : Text → Text → Text → Dict Text → Result Text
  value_of kind name key entries = elim (lookup key entries) [
    | none ↦ err (kind ++ (text " " ++ (name ++ (text " has no key " ++ quote key))))
    | some value ↦ ok value
  ]

  -- The path of a temporary file that holds the values.
  unfoldable pub resolve_values_from : Text → ValuesReference → Result Text
  unfolding value_of
  resolve_values_from release_namespace vf =
      let key = if is_empty vf.key then text "values.json" else vf.key in
      let values =
        if vf.kind == text "ConfigMap"
        then wrap_error (text "get ConfigMap " ++ vf.name)
            (platform.get_config_map release_namespace vf.name)
          >>= value_of (text "ConfigMap") vf.name key
        else if vf.kind == text "Secret"
        then wrap_error (text "get Secret " ++ vf.name)
            (platform.get_secret release_namespace vf.name)
          >>= value_of (text "Secret") vf.name key
        else err (text "unsupported ValuesFrom kind: " ++ vf.kind) in
      values >>= platform.write_temp

  unfoldable pub render_kdef : Text → KdefReleaseSpec → Text → Result (List Object)
  unfolding generate parse_yaml_objects
  render_kdef project_dir spec values_file = do
    config ← wrap_error (text "parse") (
        platform.load_with_options (record {
          dir = project_dir;
          root_dir = [];
          overrides = spec.set;
          values_file = values_file;
          env = spec.env;
          vars_from = [];
        }))
    yaml ←
        wrap_error (text "render") (platform.render_all_yaml (generate platform.generators config))
    parse_yaml_objects (platform.decode_yaml yaml)
