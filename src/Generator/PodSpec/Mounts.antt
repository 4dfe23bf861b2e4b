-- ===== src/Generator/PodSpec/Mounts.antt =====
-- The mounts of a pod's containers, and the volumes that they name.
use kdef.Base.{
  all-append, List, [], ◌∷◌, ◌++◌, map, Bool, true, ◌||◌, some, ◌≡◌, refl, ap, arith, all,
  Option-cases, inl, inr,
}
use kdef.Base.Dict.{Dict, contains}
use kdef.Base.Lists.{mem, mem-append}
use kdef.Base.Text.{Text, eq_iff, eq_refl}
use kdef.Generator.Container.{build_container_v2}
use kdef.Generator.Kubernetes.{Container, PodSpec}
use kdef.Generator.Pod.{build_volumes, build_volume_mount, volume_exists}
use kdef.Generator.PodSpec.{
  PodTemplateInput, find_volume_in, find_in_containers, find_volume, mount_found,
  build_init_container, deployment_init_container, pod_spec_of, build_pod_spec, deployment_pod_spec,
}
use kdef.Generator.PodSpec.Laws.{
  names, container_names, volume_exists-build_volumes, volume_exists-add_container_volumes,
}
use kdef.Types.{ContainerConfig, InitContainerConfig, VolumeConfig}
use mathlib.Core.List.{flat_map}

-- The names of the volumes that the containers mount.
unfoldable pub mounts_of : {Q : Type 0} → List (Container Q) → List Text
mounts_of [] = []
mounts_of (c ∷ cs) = map (λ m. m.name) c.volume_mounts ++ mounts_of cs

mounted-names : (vs : List VolumeConfig) → map (λ m. m.name) (map build_volume_mount vs) ≡ names vs
unfolding build_volume_mount
mounted-names [] = refl
mounted-names (v ∷ vs) = ap (λ l. v.name ∷ l) (mounted-names vs)

find_volume_in-mem :
    (vs : List VolumeConfig) (n : Text) {v : VolumeConfig}
    → find_volume_in vs n ≡ some v
    → (v.name ≡ n) × (mem n (names vs) ≡ true)
unfolding find_volume_in mem
find_volume_in-mem [] n h = cc
find_volume_in-mem (u ∷ vs) n {v} h =
    ground (arith, find_volume_in-mem vs n {v = v}, eq_iff u.name n)

find_in_containers-mem :
    (cs : List ContainerConfig) (n : Text) {v : VolumeConfig}
    → find_in_containers cs n ≡ some v
    → (v.name ≡ n) × (mem n (container_names cs) ≡ true)
unfolding find_in_containers mem flat_map
find_in_containers-mem [] n h = cc
find_in_containers-mem (c ∷ cs) n {v} h = ground (
  arith,
  find_volume_in-mem c.volumes n {v = v},
  find_in_containers-mem cs n {v = v},
  mem-append n (names c.volumes) (container_names cs),
)

all_of_mem :
    (p : Text → Bool) (xs : List Text)
    → ((n : Text) → mem n xs ≡ true → p n ≡ true)
    → all p xs ≡ true
unfolding all mem
all_of_mem p [] h = refl
all_of_mem p (x ∷ xs) h =
    ground (arith, h x, eq_refl x, all_of_mem p xs (λ n e. h n (ground arith)))

module _ (vs : List VolumeConfig) (cs : List ContainerConfig) where
  -- The name is that of a volume of the pod or of a container.
  abbrev pub is_declared : Text → Bool
  is_declared n = mem n (names vs) || mem n (container_names cs)

  find_volume-is_declared :
      (n : Text) {v : VolumeConfig}
      → find_volume vs cs n ≡ some v
      → (v.name ≡ n) × (is_declared n ≡ true)
  unfolding find_volume
  find_volume-is_declared n {v} h =
      ground (arith, find_volume_in-mem vs n {v = v}, find_in_containers-mem cs n {v = v})

  found-is_declared :
      (wanted : List Text)
      → all is_declared
          (map (λ m. m.name) (flat_map (λ n. mount_found (find_volume vs cs n)) wanted))
        ≡ true
  unfolding all flat_map mount_found build_volume_mount
  found-is_declared [] = refl
  found-is_declared (n ∷ wanted) = elim (Option-cases (find_volume vs cs n)) [
    | inl missing ↦ rw missing (found-is_declared wanted)
    | inr (v, found) ↦
        let (same, declared) = find_volume-is_declared n {v = v} found in
        rw found (ground (arith, found-is_declared wanted, ap is_declared same))
  ]

module _ {Q : Type 0} (must_parse : Text → Q) where
  build_container_v2-volume_mounts :
      (c : ContainerConfig)
      → (build_container_v2 must_parse c).volume_mounts ≡ map build_volume_mount c.volumes
  unfolding build_container_v2
  build_container_v2-volume_mounts c = ground arith

  mounts_of-containers :
      (cs : List ContainerConfig)
      → mounts_of (map (build_container_v2 must_parse) cs) ≡ container_names cs
  unfolding mounts_of flat_map
  mounts_of-containers [] = refl
  mounts_of-containers (c ∷ cs) =
      rw (build_container_v2-volume_mounts c, mounted-names c.volumes)
        (ap (λ l. names c.volumes ++ l) (mounts_of-containers cs))

  module _ (vs : List VolumeConfig) (cs : List ContainerConfig) where
    mounts_of-init_containers :
        (ics : List InitContainerConfig)
        → all (is_declared vs cs) (mounts_of (map (build_init_container must_parse vs cs) ics))
          ≡ true
    unfolding mounts_of all build_init_container
    mounts_of-init_containers [] = refl
    mounts_of-init_containers (ic ∷ ics) = ground (
      arith,
      all-append (is_declared vs cs)
          (map (λ m. m.name) (flat_map (λ n. mount_found (find_volume vs cs n)) ic.volume_mounts))
          (mounts_of (map (build_init_container must_parse vs cs) ics)),
      found-is_declared vs cs ic.volume_mounts,
      mounts_of-init_containers ics,
    )

    mounts_of-deployment_init_containers :
        (ics : List InitContainerConfig)
        → mounts_of (map (deployment_init_container must_parse vs cs) ics)
          ≡ mounts_of (map (build_init_container must_parse vs cs) ics)
    unfolding mounts_of deployment_init_container
    mounts_of-deployment_init_containers [] = refl
    mounts_of-deployment_init_containers (ic ∷ ics) =
        ap (λ l. map (λ m. m.name) (build_init_container must_parse vs cs ic).volume_mounts ++ l)
          (mounts_of-deployment_init_containers ics)

  -- The name is that of a volume of the pod, or of a claim.
  unfoldable pub is_provided : Dict Bool → PodSpec Q → Text → Bool
  is_provided claims spec n = contains n claims || volume_exists spec.volumes n

  module _ (pod : PodTemplateInput) (claims : Dict Bool) (init : List (Container Q)) where
    is_provided-declared :
        (n : Text)
        → is_declared pod.volumes pod.containers n ≡ true
        → is_provided claims (pod_spec_of must_parse init claims pod) n ≡ true
    unfolding is_provided pod_spec_of
    is_provided-declared n h = ground (
      arith,
      volume_exists-build_volumes must_parse pod.volumes n,
      volume_exists-add_container_volumes must_parse claims (build_volumes must_parse pod.volumes)
          pod.containers n,
    )

    all-is_provided :
        (ns : List Text)
        → all (is_declared pod.volumes pod.containers) ns ≡ true
        → all (is_provided claims (pod_spec_of must_parse init claims pod)) ns ≡ true
    unfolding all
    all-is_provided [] h = refl
    all-is_provided (n ∷ ns) h = ground (arith, is_provided-declared n, all-is_provided ns)

  -- Each volume that a container or an init container of buildPodSpec mounts is a volume of the pod or
  -- a claim.
  pub build_pod_spec_mounts :
      (pod : PodTemplateInput) (claims : Dict Bool)
      → all (is_provided claims (build_pod_spec must_parse pod claims)) (
          mounts_of (build_pod_spec must_parse pod claims).containers
          ++ mounts_of (build_pod_spec must_parse pod claims).init_containers)
        ≡ true
  unfolding build_pod_spec
  build_pod_spec_mounts pod claims =
      let vs = pod.volumes in
      let cs = pod.containers in
      let init = map (build_init_container must_parse vs cs) pod.init_containers in
      all-is_provided pod claims init
        (mounts_of (map (build_container_v2 must_parse) cs) ++ mounts_of init)
        (ground (
          arith,
          all-append (is_declared vs cs) (mounts_of (map (build_container_v2 must_parse) cs))
              (mounts_of init),
          mounts_of-containers cs,
          all_of_mem (is_declared vs cs) (container_names cs) (λ n h. ground arith),
          mounts_of-init_containers vs cs pod.init_containers,
        ))

  -- The same for the pods of deployments, which have no claims.
  pub deployment_pod_spec_mounts :
      (pod : PodTemplateInput)
      → all (is_provided [] (deployment_pod_spec must_parse pod)) (
          mounts_of (deployment_pod_spec must_parse pod).containers
          ++ mounts_of (deployment_pod_spec must_parse pod).init_containers)
        ≡ true
  unfolding deployment_pod_spec
  deployment_pod_spec_mounts pod =
      let vs = pod.volumes in
      let cs = pod.containers in
      let init = map (deployment_init_container must_parse vs cs) pod.init_containers in
      all-is_provided pod [] init
        (mounts_of (map (build_container_v2 must_parse) cs) ++ mounts_of init)
        (ground (
          arith,
          all-append (is_declared vs cs) (mounts_of (map (build_container_v2 must_parse) cs))
              (mounts_of init),
          mounts_of-containers cs,
          all_of_mem (is_declared vs cs) (container_names cs) (λ n h. ground arith),
          mounts_of-deployment_init_containers vs cs pod.init_containers,
          mounts_of-init_containers vs cs pod.init_containers,
        ))
