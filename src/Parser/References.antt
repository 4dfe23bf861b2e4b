-- ===== src/Parser/References.antt =====
-- internal/parser/parser.go: validateReferences. A test `if X != "" && !defined[X] { warn(msg) }`
-- of the source is a `Ref`, and the loops are lists of these, in the order of the source.
pub mod Closed
pub mod Laws
use kdef.Base.{List, [], ◌∷◌, ◌++◌, map, Bool, true, not, ◌&&◌, if◌then◌else◌}
use kdef.Base.Dict.{Dict, set_of, contains, insert}
use kdef.Base.Format.{quote}
use kdef.Base.Text.{Text, text, is_empty}
use kdef.Types.{
  EnvEntry, EnvFromEntry, VolumeConfig, ContainerConfig, InitContainerConfig, KdefConfig,
}
use mathlib.Core.List.{flat_map}

pub data Target : Type 0 where
  config_map secret pvc : Target

pub record Ref : Type 0 where
  pub target : Target
  pub name : Text
  pub message : Text

-- The maps `configMaps`, `secrets` and `pvcs`.
pub record Defined : Type 0 where
  pub config_maps : Dict Bool
  pub secrets : Dict Bool
  pub pvcs : Dict Bool

unfoldable pub defined_of : KdefConfig → Defined
defined_of c = record {
  config_maps = set_of (map (λ r. r.name) c.config_maps);
  secrets = set_of (map (λ r. r.name) c.secrets ++ map (λ r. r.name) c.sealed_secrets);
  pvcs = set_of (map (λ r. r.name) c.persistent_volume_claims);
}

-- The map `seen`, and config.Warnings.
pub record Warned : Type 0 where
  pub seen : Dict Bool
  pub warnings : List Text

unfoldable pub warn : Text → Warned → Warned
warn msg w =
    if contains msg w.seen
    then w
    else record w { seen = insert msg true w.seen; warnings = w.warnings ++ msg ∷ [] }

abbrev pub table : Target → Defined → Dict Bool
table config_map d = d.config_maps
table secret d = d.secrets
table pvc d = d.pvcs

unfoldable pub check_ref : Defined → Ref → Warned → Warned
unfolding warn
check_ref d r w =
    if not (is_empty r.name) && not (contains r.name (table r.target d))
    then warn r.message w
    else w

unfoldable pub check_refs : Defined → List Ref → Warned → Warned
check_refs d [] w = w
check_refs d (r ∷ rs) w = check_refs d rs (check_ref d r w)

-- %s %q references <what> %q (<where>) which is not defined
pub warning : Text → Text → Text → Text → Text → Text
warning kind name what target place =
    kind
    ++ (text " "
        ++ (quote name
            ++ (text " references "
                ++ (what
                    ++ (text " "
                        ++ (quote target
                            ++ (text " (" ++ (place ++ text ") which is not defined"))))))))

-- The closure `checkEnv`.
unfoldable pub env_refs : Text → Text → EnvEntry → List Ref
env_refs kind name e =
    let place = text "env var " ++ quote e.name in
    (record {
      target = config_map;
      name = e.config_map_name;
      message = warning kind name (text "configmap") e.config_map_name place;
    })
    ∷ (record {
      target = secret;
      name = e.secret_name;
      message = warning kind name (text "secret") e.secret_name place;
    })
    ∷ []

unfoldable pub env_from_refs : Text → Text → EnvFromEntry → List Ref
env_from_refs kind name e =
    (record {
      target = config_map;
      name = e.config_map;
      message = warning kind name (text "configmap") e.config_map (text "env_from");
    })
    ∷ (record {
      target = secret;
      name = e.secret;
      message = warning kind name (text "secret") e.secret (text "env_from");
    })
    ∷ []

unfoldable pub check_env : Text → Text → List EnvEntry → List EnvFromEntry → List Ref
check_env kind name env env_from =
    flat_map (env_refs kind name) env ++ flat_map (env_from_refs kind name) env_from

-- The closure `checkVolumes`.
unfoldable pub volume_refs : Text → Text → VolumeConfig → List Ref
volume_refs kind name v =
    let place = text "volume " ++ quote v.name in
    (record {
      target = config_map;
      name = v.config_map;
      message = warning kind name (text "configmap") v.config_map place;
    })
    ∷ (record {
      target = secret;
      name = v.secret;
      message = warning kind name (text "secret") v.secret place;
    })
    ∷ (record { target = pvc; name = v.pvc; message = warning kind name (text "pvc") v.pvc place })
    ∷ []

unfoldable pub check_volumes : Text → Text → List VolumeConfig → List Ref
check_volumes kind name volumes = flat_map (volume_refs kind name) volumes

-- The body of the loops over deployments, daemonsets and statefulsets.
unfoldable pub workload_refs :
    Text → Text → List VolumeConfig → List ContainerConfig → List InitContainerConfig → List Ref
workload_refs kind name volumes containers init_containers =
    check_volumes kind name volumes
    ++ (flat_map (λ c. check_env kind name c.env c.env_from ++ check_volumes kind name c.volumes)
          containers
        ++ flat_map (λ ic. check_env kind name ic.env ic.env_from) init_containers)

unfoldable pub references_of : KdefConfig → List Ref
references_of c =
    flat_map
      (λ d. workload_refs (text "deployment") d.name d.volumes d.containers d.init_containers)
      c.deployments
    ++ (flat_map
          (λ d. workload_refs (text "daemonset") d.name d.volumes d.containers d.init_containers)
          c.daemon_sets
        ++ (flat_map
              (λ d.
                workload_refs (text "statefulset") d.name d.volumes d.containers d.init_containers)
              c.stateful_sets
            ++ flat_map
                (λ j.
                  check_env (text "cronjob") j.name j.env j.env_from
                  ++ check_volumes (text "cronjob") j.name j.volumes)
                c.cron_jobs))

unfoldable pub validate_references : KdefConfig → KdefConfig
validate_references c = record c {
  warnings =
      (check_refs (defined_of c) (references_of c)
        (record { seen = []; warnings = c.warnings })).warnings;
}
