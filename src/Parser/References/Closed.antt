-- ===== src/Parser/References/Closed.antt =====
-- What the workloads of a config refer to, and whether the config defines it.
use kdef.Base.{
  List, [], ◌∷◌, ◌++◌, map, Bool, ◌||◌, ◌≡◌, refl, ap₂, ◌∙◌, arith, all, all-append, ◌&&◌,
}
use kdef.Base.Lists.{mem}
use kdef.Base.Text.{Text, text, is_empty}
use kdef.Parser.References.{
  Target, config_map, secret, pvc, Ref, references_of, env_refs, env_from_refs, check_env,
  volume_refs, check_volumes, workload_refs,
}
use kdef.Types.{
  KdefConfig, EnvEntry, EnvFromEntry, VolumeConfig, ContainerConfig, InitContainerConfig,
}
use mathlib.Core.List.{flat_map}

abbrev pub names_of : Target → KdefConfig → List Text
names_of config_map c = map (λ r. r.name) c.config_maps
names_of secret c = map (λ r. r.name) c.secrets ++ map (λ r. r.name) c.sealed_secrets
names_of pvc c = map (λ r. r.name) c.persistent_volume_claims

-- No name, or the name of a resource of the config.
unfoldable pub is_resolved : KdefConfig → Ref → Bool
is_resolved c r = is_empty r.name || mem r.name (names_of r.target c)

-- No name, or the name of a resource of the config.
abbrev pub is_known : KdefConfig → Target → Text → Bool
is_known c t k = is_empty k || mem k (names_of t c)

abbrev pub is_known_env : KdefConfig → EnvEntry → Bool
is_known_env c e = is_known c config_map e.config_map_name && is_known c secret e.secret_name

abbrev pub is_known_env_from : KdefConfig → EnvFromEntry → Bool
is_known_env_from c e = is_known c config_map e.config_map && is_known c secret e.secret

abbrev pub is_known_volume : KdefConfig → VolumeConfig → Bool
is_known_volume c v =
    is_known c config_map v.config_map && (is_known c secret v.secret && is_known c pvc v.pvc)

-- What an environment refers to is known.
abbrev pub are_known : KdefConfig → List EnvEntry → List EnvFromEntry → Bool
are_known c env env_from = all (is_known_env c) env && all (is_known_env_from c) env_from

-- What the volumes, containers and init containers of a workload refer to is known.
abbrev pub is_known_workload :
    KdefConfig → List VolumeConfig → List ContainerConfig → List InitContainerConfig → Bool
is_known_workload c volumes containers init_containers =
    all (is_known_volume c) volumes
    && (all (λ x. are_known c x.env x.env_from && all (is_known_volume c) x.volumes) containers
        && all (λ x. are_known c x.env x.env_from) init_containers)

-- What the workloads of the config refer to is known.
unfoldable pub is_closed : KdefConfig → Bool
is_closed c =
    all (λ d. is_known_workload c d.volumes d.containers d.init_containers) c.deployments
    && (all (λ d. is_known_workload c d.volumes d.containers d.init_containers) c.daemon_sets
        && (all (λ d. is_known_workload c d.volumes d.containers d.init_containers) c.stateful_sets
            && all (λ j. are_known c j.env j.env_from && all (is_known_volume c) j.volumes)
                c.cron_jobs))

all-flat_map :
    {A B : Type 0} (p : B → Bool) (f : A → List B) (q : A → Bool)
    → ((x : A) → all p (f x) ≡ q x)
    → (xs : List A) → all p (flat_map f xs) ≡ all q xs
unfolding all flat_map
all-flat_map p f q h [] = refl
all-flat_map p f q h (x ∷ xs) =
    ground (arith, all-append p (f x) (flat_map f xs), h x, all-flat_map p f q h xs)

module _ (c : KdefConfig) (kind name : Text) where
  resolved_env : (e : EnvEntry) → all (is_resolved c) (env_refs kind name e) ≡ is_known_env c e
  unfolding all is_resolved env_refs
  resolved_env e = ground arith

  resolved_env_from :
      (e : EnvFromEntry) → all (is_resolved c) (env_from_refs kind name e) ≡ is_known_env_from c e
  unfolding all is_resolved env_from_refs
  resolved_env_from e = ground arith

  resolved_volume :
      (v : VolumeConfig) → all (is_resolved c) (volume_refs kind name v) ≡ is_known_volume c v
  unfolding all is_resolved volume_refs
  resolved_volume v = ground arith

  resolved_envs :
      (env : List EnvEntry) (env_from : List EnvFromEntry)
      → all (is_resolved c) (check_env kind name env env_from) ≡ are_known c env env_from
  unfolding check_env
  resolved_envs env env_from =
      all-append (is_resolved c) (flat_map (env_refs kind name) env) _
      ∙ ap₂ ◌&&◌
          (all-flat_map (is_resolved c) (env_refs kind name) (is_known_env c) resolved_env env)
          (all-flat_map (is_resolved c) (env_from_refs kind name) (is_known_env_from c)
            resolved_env_from env_from)

  resolved_volumes :
      (vs : List VolumeConfig)
      → all (is_resolved c) (check_volumes kind name vs) ≡ all (is_known_volume c) vs
  unfolding check_volumes
  resolved_volumes =
      all-flat_map (is_resolved c) (volume_refs kind name) (is_known_volume c) resolved_volume

  -- An environment and volumes, as of a container and a cron job.
  resolved_both :
      (env : List EnvEntry) (env_from : List EnvFromEntry) (vs : List VolumeConfig)
      → all (is_resolved c) (check_env kind name env env_from ++ check_volumes kind name vs)
        ≡ (are_known c env env_from && all (is_known_volume c) vs)
  resolved_both env env_from vs =
      all-append (is_resolved c) (check_env kind name env env_from) (check_volumes kind name vs)
      ∙ ap₂ ◌&&◌ (resolved_envs env env_from) (resolved_volumes vs)

  resolved_workload :
      (vs : List VolumeConfig) (cs : List ContainerConfig) (is : List InitContainerConfig)
      → all (is_resolved c) (workload_refs kind name vs cs is) ≡ is_known_workload c vs cs is
  unfolding workload_refs
  resolved_workload vs cs is =
      all-append (is_resolved c) (check_volumes kind name vs) _
      ∙ ap₂ ◌&&◌ (resolved_volumes vs) (
          all-append (is_resolved c)
            (flat_map
              (λ x. check_env kind name x.env x.env_from ++ check_volumes kind name x.volumes) cs)
            _
          ∙ ap₂ ◌&&◌
              (all-flat_map (is_resolved c) _
                (λ x. are_known c x.env x.env_from && all (is_known_volume c) x.volumes)
                (λ x. resolved_both x.env x.env_from x.volumes) cs)
              (all-flat_map (is_resolved c) _ (λ x. are_known c x.env x.env_from)
                (λ x. resolved_envs x.env x.env_from) is))

pub resolved_closed : (c : KdefConfig) → all (is_resolved c) (references_of c) ≡ is_closed c
unfolding references_of is_closed
resolved_closed c =
    all-append (is_resolved c) (flat_map _ c.deployments) _
    ∙ ap₂ ◌&&◌
        (all-flat_map (is_resolved c) _
          (λ d. is_known_workload c d.volumes d.containers d.init_containers)
          (λ d.
            resolved_workload c (text "deployment") d.name d.volumes d.containers d.init_containers)
          c.deployments)
        (all-append (is_resolved c) (flat_map _ c.daemon_sets) _
          ∙ ap₂ ◌&&◌
              (all-flat_map (is_resolved c) _
                (λ d. is_known_workload c d.volumes d.containers d.init_containers)
                (λ d.
                  resolved_workload c (text "daemonset") d.name d.volumes d.containers
                    d.init_containers)
                c.daemon_sets)
              (all-append (is_resolved c) (flat_map _ c.stateful_sets) _
                ∙ ap₂ ◌&&◌
                    (all-flat_map (is_resolved c) _
                      (λ d. is_known_workload c d.volumes d.containers d.init_containers)
                      (λ d.
                        resolved_workload c (text "statefulset") d.name d.volumes d.containers
                          d.init_containers)
                      c.stateful_sets)
                    (all-flat_map (is_resolved c) _
                      (λ j. are_known c j.env j.env_from && all (is_known_volume c) j.volumes)
                      (λ j. resolved_both c (text "cronjob") j.name j.env j.env_from j.volumes)
                      c.cron_jobs)))
