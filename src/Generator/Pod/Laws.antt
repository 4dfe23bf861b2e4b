-- ===== src/Generator/Pod/Laws.antt =====
-- What a pod refers to is what validateReferences tests.
use kdef.Base.{
  List, [], ◌∷◌, ◌++◌, map, Bool, true, Option, none, some, ◌≡◌, refl, arith, all, all-append,
  all-and, ◌&&◌,
}
use kdef.Base.Lists.{mem}
use kdef.Base.Text.{Text}
use kdef.Generator.Pod
use kdef.Parser.References.Closed.{
  names_of, is_known, is_known_env, is_known_env_from, is_known_volume, are_known,
}
use kdef.Parser.References.{Target, config_map, secret, pvc}
use kdef.Types.{KdefConfig, EnvEntry, EnvFromEntry, VolumeConfig}
use mathlib.Core.List.{flat_map}

-- The config defines the object.
abbrev pub is_defined_object : KdefConfig → Target × Text → Bool
is_defined_object c (t, k) = mem k (names_of t c)

abbrev pub named : Target → Option Text → List (Target × Text)
named t none = []
named t (some k) = (t, k) ∷ []

abbrev pub env_source_objects : Option Pod.EnvVarSource → List (Target × Text)
env_source_objects none = []
env_source_objects (some (Pod.secret_key_ref k key)) = (secret, k) ∷ []
env_source_objects (some (Pod.config_map_key_ref k key)) = (config_map, k) ∷ []
env_source_objects (some (Pod.field_ref path)) = []

abbrev pub volume_source_objects : {Q : Type 0} → Option (Pod.VolumeSource Q) → List (Target × Text)
volume_source_objects none = []
volume_source_objects (some (Pod.secret k)) = (secret, k) ∷ []
volume_source_objects (some (Pod.config_map k)) = (config_map, k) ∷ []
volume_source_objects (some (Pod.empty_dir size)) = []
volume_source_objects (some (Pod.persistent_volume_claim k read_only)) = (pvc, k) ∷ []
volume_source_objects (some (Pod.host_path path type)) = []
volume_source_objects (some (Pod.csi source)) = named secret source.node_publish_secret_ref

pub build_env_var_defined :
    (c : KdefConfig) (e : EnvEntry)
    → is_known_env c e ≡ true
    → all (is_defined_object c) (env_source_objects (Pod.build_env_var e).value_from) ≡ true
unfolding all Pod.build_env_var
build_env_var_defined c e h = ground arith

pub build_env_from_source_defined :
    (c : KdefConfig) (ef : EnvFromEntry)
    → is_known_env_from c ef ≡ true
    → all (is_defined_object c) (
        named config_map (Pod.build_env_from_source ef).config_map_ref
        ++ named secret (Pod.build_env_from_source ef).secret_ref)
      ≡ true
unfolding all Pod.build_env_from_source Pod.optional
build_env_from_source_defined c ef h = ground arith

-- The secret of a CSI volume, which validateReferences does not test, is none or is defined.
abbrev pub has_csi_secret : KdefConfig → VolumeConfig → Bool
has_csi_secret c v = is_known c secret v.csi_secret

-- validateReferences finds no fault with the volume, and its CSI secret is defined.
abbrev is_tested_volume : KdefConfig → VolumeConfig → Bool
is_tested_volume c v = is_known_volume c v && has_csi_secret c v

module _ {Q : Type 0} (must_parse : Text → Q) (c : KdefConfig) where
  build_volume_defined :
      (v : VolumeConfig)
      → is_tested_volume c v ≡ true
      → all (is_defined_object c) (volume_source_objects (Pod.build_volume must_parse v).source)
        ≡ true
  unfolding all Pod.build_volume Pod.volume_source Pod.optional
  build_volume_defined v h = ground arith

module _ {A B D : Type 0} (p : A → Bool) (q : D → Bool) (build : A → B) (objects : B → List D)
    (step : (x : A) → p x ≡ true → all q (objects (build x)) ≡ true) where
  all-flat_map_built :
      (xs : List A) → all p xs ≡ true → all q (flat_map objects (map build xs)) ≡ true
  unfolding all flat_map
  all-flat_map_built [] h = refl
  all-flat_map_built (x ∷ xs) h = ground (
    arith,
    all-append q (objects (build x)) (flat_map objects (map build xs)),
    step x,
    all-flat_map_built xs,
  )

-- The objects that a container's environment and a pod's volumes refer to.
abbrev pub env_from_objects : Pod.EnvFromSource → List (Target × Text)
env_from_objects s = named config_map s.config_map_ref ++ named secret s.secret_ref

abbrev pub pod_objects :
    {Q : Type 0}
    → List Pod.EnvVar
    → List Pod.EnvFromSource
    → List (Pod.Volume Q)
    → List (Target × Text)
pod_objects env env_from volumes =
    flat_map (λ x. env_source_objects x.value_from) env
    ++ (flat_map env_from_objects env_from
        ++ flat_map (λ v. volume_source_objects v.source) volumes)

module _ {Q : Type 0} (must_parse : Text → Q) (c : KdefConfig) where
  -- Where the config defines what environment variables, env_from and volumes name, as
  -- validateReferences tests it, and the secrets that CSI volumes name, which it does not test, the
  -- config defines every configmap, secret and claim that the generated environment and volumes refer
  -- to.
  pub pod_objects_defined :
      (env : List EnvEntry) (env_from : List EnvFromEntry) (volumes : List VolumeConfig)
      → (are_known c env env_from && all (is_known_volume c) volumes) ≡ true
      → all (has_csi_secret c) volumes ≡ true
      → all (is_defined_object c) (
          pod_objects
            (map Pod.build_env_var env)
            (map Pod.build_env_from_source env_from)
            (Pod.build_volumes must_parse volumes))
        ≡ true
  unfolding Pod.build_volumes
  pod_objects_defined env env_from volumes h k = ground (
    arith,
    all-and (is_known_volume c) (has_csi_secret c) volumes,
    all-append (is_defined_object c)
        (flat_map (λ x. env_source_objects x.value_from) (map Pod.build_env_var env))
        (flat_map env_from_objects (map Pod.build_env_from_source env_from)
          ++ flat_map (λ v. volume_source_objects v.source)
              (map (Pod.build_volume must_parse) volumes)),
    all-append (is_defined_object c)
        (flat_map env_from_objects (map Pod.build_env_from_source env_from))
        (flat_map (λ v. volume_source_objects v.source)
          (map (Pod.build_volume must_parse) volumes)),
    all-flat_map_built (is_known_env c) (is_defined_object c) Pod.build_env_var
        (λ x. env_source_objects x.value_from) (build_env_var_defined c) env,
    all-flat_map_built (is_known_env_from c) (is_defined_object c) Pod.build_env_from_source
        env_from_objects (build_env_from_source_defined c) env_from,
    all-flat_map_built (is_tested_volume c) (is_defined_object c) (Pod.build_volume must_parse)
        (λ v. volume_source_objects v.source) (build_volume_defined must_parse c) volumes,
  )
