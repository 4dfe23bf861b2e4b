-- ===== src/Generator/PodSpec/Laws.antt =====
-- Every volume that a container mounts is a volume of the pod, or a claim of its StatefulSet, and the
-- volumes of a pod have distinct names.
use kdef.Base.{List, [], ◌∷◌, ◌++◌, map, Bool, not, ◌&&◌, ◌||◌, ◌≡◌, refl, ap, arith}
use kdef.Base.Dict.{Dict, contains}
use kdef.Base.Lists.{mem, mem-append}
use kdef.Base.Text.{Text, ◌==◌, eq_iff}
use kdef.Generator.Pod.{Volume, build_volume, build_volumes, volume_exists}
use kdef.Generator.PodSpec.{add_volumes, add_container_volumes}
use kdef.Types.{ContainerConfig, VolumeConfig}
use mathlib.Core.List.{flat_map}

abbrev pub names : List VolumeConfig → List Text
names vs = map (λ v. v.name) vs

abbrev pub container_names : List ContainerConfig → List Text
container_names cs = flat_map (λ c. names c.volumes) cs

abbrev pub volume_names : {Q : Type 0} → List (Volume Q) → List Text
volume_names vs = map (λ v. v.name) vs

module _ {Q : Type 0} (must_parse : Text → Q) where
  volume_exists-mem :
      (volumes : List (Volume Q)) (n : Text)
      → volume_exists volumes n ≡ mem n (volume_names volumes)
  unfolding volume_exists mem
  volume_exists-mem [] n = refl
  volume_exists-mem (v ∷ volumes) n = ap (λ b. v.name == n || b) (volume_exists-mem volumes n)

  volume_exists-append :
      (volumes : List (Volume Q)) (v : VolumeConfig) (n : Text)
      → volume_exists (volumes ++ build_volume must_parse v ∷ []) n
        ≡ (volume_exists volumes n || v.name == n)
  unfolding volume_exists build_volume
  volume_exists-append [] v n = ground arith
  volume_exists-append (u ∷ volumes) v n = ground (arith, volume_exists-append volumes v n)

  pub volume_exists-build_volumes :
      (vs : List VolumeConfig) (n : Text)
      → volume_exists (build_volumes must_parse vs) n ≡ mem n (names vs)
  unfolding volume_exists build_volumes mem
  volume_exists-build_volumes [] n = refl
  volume_exists-build_volumes (v ∷ vs) n =
      ap (λ b. v.name == n || b) (volume_exists-build_volumes vs n)

  module _ (claims : Dict Bool) where
    volume_exists-add_volumes :
        (volumes : List (Volume Q)) (cvs : List VolumeConfig) (n : Text)
        → volume_exists (add_volumes must_parse claims volumes cvs) n
          ≡ (volume_exists volumes n || (mem n (names cvs) && not (contains n claims)))
    unfolding add_volumes mem
    volume_exists-add_volumes volumes [] n = ground arith
    volume_exists-add_volumes volumes (cv ∷ cvs) n = ground (
      arith,
      volume_exists-add_volumes volumes cvs n,
      volume_exists-add_volumes (volumes ++ build_volume must_parse cv ∷ []) cvs n,
      volume_exists-append volumes cv n,
      eq_iff cv.name n,
    )

    pub volume_exists-add_container_volumes :
        (volumes : List (Volume Q)) (cs : List ContainerConfig) (n : Text)
        → volume_exists (add_container_volumes must_parse claims volumes cs) n
          ≡ (volume_exists volumes n || (mem n (container_names cs) && not (contains n claims)))
    unfolding add_container_volumes mem flat_map
    volume_exists-add_container_volumes volumes [] n = ground arith
    volume_exists-add_container_volumes volumes (c ∷ cs) n = ground (
      arith,
      volume_exists-add_container_volumes (add_volumes must_parse claims volumes c.volumes) cs n,
      volume_exists-add_volumes volumes c.volumes n,
      mem-append n (names c.volumes) (container_names cs),
    )
