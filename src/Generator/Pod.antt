-- ===== src/Generator/Pod.antt =====
-- internal/generator/shared.go: the parts of a pod. The Kubernetes structs are records of the
-- fields that the code sets; of a struct of optional pointers of which the code sets one, a data
-- type with a constructor for each. resource.MustParse is a parameter.
pub mod Laws
use kdef.Base.{
  List, [], ◌∷◌, ◌++◌, map, Bool, true, false, not, ◌||◌, if◌then◌else◌, Option, none, some,
}
use kdef.Base.Dict.{Dict}
use kdef.Base.Int.{ℤ}
use kdef.Base.Text.{Text, text, is_empty, ◌==◌}
use kdef.Types.{
  EnvEntry, EnvFromEntry, ResourcesConfig, VolumeConfig, SecurityContextConfig, TolerationConfig,
}

pub data EnvVarSource : Type 0 where
  secret_key_ref : Text → Text → EnvVarSource
  config_map_key_ref : Text → Text → EnvVarSource
  field_ref : Text → EnvVarSource

pub record EnvVar : Type 0 where
  pub name : Text
  pub value : Text
  pub value_from : Option EnvVarSource

-- envVar.ValueFrom = &source
abbrev pub valued_from : Text → EnvVarSource → EnvVar
valued_from name source = record { name = name; value = []; value_from = some source }

unfoldable pub build_env_var : EnvEntry → EnvVar
build_env_var e =
    if not (is_empty e.secret_name)
    then valued_from e.name (secret_key_ref e.secret_name e.secret_key)
    else if not (is_empty e.config_map_name)
    then valued_from e.name (config_map_key_ref e.config_map_name e.config_map_key)
    else if not (is_empty e.field_path)
    then valued_from e.name (field_ref e.field_path)
    else record { name = e.name; value = e.value; value_from = none }

pub record EnvFromSource : Type 0 where
  pub prefix : Text
  pub config_map_ref : Option Text
  pub secret_ref : Option Text

-- if s != "" { field = &s }
unfoldable pub optional : Text → Option Text
optional s = if not (is_empty s) then some s else none

unfoldable pub build_env_from_source : EnvFromEntry → EnvFromSource
build_env_from_source ef = record {
  prefix = ef.prefix;
  config_map_ref = optional ef.config_map;
  secret_ref = optional ef.secret;
}

pub record VolumeMount : Type 0 where
  pub name : Text
  pub mount_path : Text
  pub read_only : Bool
  pub sub_path : Text
  pub mount_propagation : Option Text

unfoldable pub build_volume_mount : VolumeConfig → VolumeMount
build_volume_mount v = record {
  name = v.name;
  mount_path = v.mount_path;
  read_only = v.read_only;
  sub_path = if not (is_empty v.sub_path) then v.sub_path else [];
  mount_propagation = optional v.mount_propagation;
}

pub record CsiSource : Type 0 where
  pub driver : Text
  pub volume_attributes : Dict Text
  pub read_only : Option Bool
  pub node_publish_secret_ref : Option Text

pub data VolumeSource (Quantity : Type 0) : Type 0 where
  secret : Text → VolumeSource Quantity
  config_map : Text → VolumeSource Quantity
  empty_dir : Option Quantity → VolumeSource Quantity
  persistent_volume_claim : Text → Bool → VolumeSource Quantity
  host_path : Text → Option Text → VolumeSource Quantity
  csi : CsiSource → VolumeSource Quantity

pub record Volume (Quantity : Type 0) : Type 0 where
  pub name : Text
  pub source : Option (VolumeSource Quantity)

pub record ResourceRequirements (Quantity : Type 0) : Type 0 where
  pub requests : Option (Dict Quantity)
  pub limits : Option (Dict Quantity)

module _ {Quantity : Type 0} (must_parse : Text → Quantity) where
  -- if s != "" { list[name] = resource.MustParse(s) }
  unfoldable pub quantity : Text → Text → Dict Quantity
  quantity name s = if not (is_empty s) then (name, must_parse s) ∷ [] else []

  unfoldable pub resource_list : Text → Text → Text → Option (Dict Quantity)
  unfolding quantity
  resource_list cpu memory ephemeral_storage =
      if not (is_empty cpu) || (not (is_empty memory) || not (is_empty ephemeral_storage))
      then some (
          quantity (text "cpu") cpu
          ++ (quantity (text "memory") memory
              ++ quantity (text "ephemeral-storage") ephemeral_storage))
      else none

  unfoldable pub build_resources : ResourcesConfig → ResourceRequirements Quantity
  build_resources r = record {
    requests = resource_list r.cpu_request r.memory_request r.ephemeral_storage_request;
    limits = resource_list r.cpu_limit r.memory_limit r.ephemeral_storage_limit;
  }

  -- The switch of buildVolume.
  unfoldable pub volume_source : VolumeConfig → Option (VolumeSource Quantity)
  volume_source v =
      if not (is_empty v.secret)
      then some (secret v.secret)
      else if not (is_empty v.config_map)
      then some (config_map v.config_map)
      else if v.empty_dir
      then some (
          empty_dir
            (if not (is_empty v.empty_dir_size) then some (must_parse v.empty_dir_size) else none))
      else if not (is_empty v.pvc)
      then some (persistent_volume_claim v.pvc v.read_only)
      else if not (is_empty v.host_path)
      then some (host_path v.host_path (optional v.host_path_type))
      else if not (is_empty v.csi_driver)
      then some (
          csi (record {
            driver = v.csi_driver;
            volume_attributes = v.csi_attributes;
            read_only = if v.read_only then some true else none;
            node_publish_secret_ref = optional v.csi_secret;
          }))
      else none

  unfoldable pub build_volume : VolumeConfig → Volume Quantity
  unfolding volume_source
  build_volume v = record { name = v.name; source = volume_source v }

  unfoldable pub build_volumes : List VolumeConfig → List (Volume Quantity)
  unfolding build_volume
  build_volumes vols = map build_volume vols

unfoldable pub volume_exists : {Quantity : Type 0} → List (Volume Quantity) → Text → Bool
volume_exists [] name = false
volume_exists (v ∷ volumes) name = v.name == name || volume_exists volumes name

pub record SecurityContext : Type 0 where
  pub run_as_user : Option ℤ
  pub run_as_group : Option ℤ
  pub run_as_non_root : Option Bool
  pub read_only_root_filesystem : Option Bool
  pub privileged : Option Bool

-- if p != nil { field = p }
abbrev pub set_pointer {ℓ} : {A : Type ℓ} → Option A → Option A
set_pointer none = none
set_pointer (some a) = some a

unfoldable pub build_security_context : SecurityContextConfig → SecurityContext
build_security_context sc = record {
  run_as_user = set_pointer sc.run_as_user;
  run_as_group = set_pointer sc.run_as_group;
  run_as_non_root = set_pointer sc.run_as_non_root;
  read_only_root_filesystem = set_pointer sc.read_only_root;
  privileged = set_pointer sc.privileged;
}

pub record Toleration : Type 0 where
  pub key : Text
  pub operator : Text
  pub value : Text
  pub effect : Text
  pub toleration_seconds : Option ℤ

unfoldable pub build_tolerations : List TolerationConfig → List Toleration
build_tolerations ts =
    map {A = TolerationConfig}
      (λ t. record {
        key = t.key;
        operator = t.operator;
        value = t.value;
        effect = t.effect;
        toleration_seconds = set_pointer t.toleration_seconds;
      })
      ts
