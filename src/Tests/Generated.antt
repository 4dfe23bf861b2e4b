-- ===== src/Tests/Generated.antt =====
-- Concrete inputs of the generator and of the for blocks, and the theorems at them.
use kdef.Base.{[], ◌∷◌, map, true, false, all, ◌≡◌, refl}
use kdef.Base.Dict.{lookup}
use kdef.Base.Text.{Text, text}
use kdef.Generator.Generate.Laws.{
  manifests_at, assigned_keys, account_keys, cluster_keys, generate_lem,
}
use kdef.Generator.Generate.{Generators, manifests_or_nil, single, generate}
use kdef.Generator.Pod
use kdef.Generator.Pod.Laws.{is_defined_object, pod_objects, pod_objects_defined}
use kdef.Parser.FileResult.{empty_config}
use kdef.Parser.Loop.Laws.{split_dots-dotted}
use kdef.Parser.Loop.{split_dots}
use kdef.Tests.{web_config}
use kdef.Types.{KdefConfig, EnvEntry, EnvFromEntry, VolumeConfig}
use kdef.Base.Lists.{mem}
use kdef.Base.Text.{◌==◌}
use kdef.Generator.ServiceAccounts.{collect_service_account_namespaces, account_uses}
use kdef.Parser.Loop.Laws.{is_name, dotted}

abbrev config : KdefConfig
config = record empty_config {
  config_maps = (record { name = text "settings"; namespace = []; data_map = [] }) ∷ [];
}

abbrev env_entry : EnvEntry
env_entry = record {
  name = text "MODE";
  value = [];
  secret_name = [];
  secret_key = [];
  config_map_name = text "settings";
  config_map_key = text "mode";
  field_path = [];
}

abbrev env_from_entry : EnvFromEntry
env_from_entry = record { config_map = text "settings"; secret = []; prefix = [] }

abbrev volume : VolumeConfig
volume = record {
  name = text "data";
  mount_path = text "/data";
  sub_path = [];
  read_only = true;
  secret = [];
  config_map = text "settings";
  empty_dir = false;
  empty_dir_size = [];
  pvc = [];
  host_path = [];
  host_path_type = [];
  csi_driver = [];
  csi_attributes = [];
  csi_secret = [];
  mount_propagation = [];
}

abbrev same_text : Text → Text
same_text s = s

pod_objects_defined_example :
    all (is_defined_object config) (
      pod_objects
        (map Pod.build_env_var (env_entry ∷ []))
        (map Pod.build_env_from_source (env_from_entry ∷ []))
        (Pod.build_volumes same_text (volume ∷ [])))
    ≡ true
unfolding all mem ◌==◌
pod_objects_defined_example =
    pod_objects_defined same_text config (env_entry ∷ []) (env_from_entry ∷ []) (volume ∷ []) refl
      refl

split_dots-dotted_example : split_dots (text "var.tenants") ≡ text "var" ∷ text "tenants" ∷ []
unfolding all is_name dotted
split_dots-dotted_example = split_dots-dotted (text "var") (text "tenants" ∷ []) refl

-- Generators that build no more than the name of each object.
abbrev pub names : Generators Text
names = record {
  namespace = λ ns. ns;
  service_account = λ sa ns. ns;
  deployment = λ d defaults. single d.name;
  daemon_set = λ d. single d.name;
  stateful_set = λ s defaults. single s.name;
  cron_job = λ c. c.name;
  config_map = λ c. c.name;
  standalone_ingress = λ i defaults. single i.name;
  secret = λ s. s.name;
  sealed_secret = λ s. s.name;
  persistent_volume_claim = λ p. p.name;
  cluster_role = λ r. r.name;
  cluster_role_binding = λ r. r.name;
  crd = λ r. r.name;
  csi_driver = λ d. d.name;
}

generate_lem_example :
    manifests_or_nil (lookup (text "web") (generate names web_config))
    ≡ manifests_at names (text "web") web_config
unfolding all assigned_keys account_keys cluster_keys mem ◌==◌ collect_service_account_namespaces
    account_uses
generate_lem_example = generate_lem names (text "web") web_config refl
