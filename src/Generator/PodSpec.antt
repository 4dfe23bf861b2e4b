-- ===== src/Generator/PodSpec.antt =====
-- internal/generator/podspec.go: buildPodSpec, and its copy in GenerateDeploymentV2 of
-- deployment_v2.go, which differs in the init containers.
pub mod Laws
pub mod Mounts
use kdef.Base.{List, [], ◌∷◌, ◌++◌, map, Bool, true, false, not, if◌then◌else◌, Option, none, some}
use kdef.Base.Dict.{Dict, contains}
use kdef.Base.Int.{ℤ}
use kdef.Base.Text.{Text, ◌==◌}
use kdef.Generator.Container.{build_container_v2}
use kdef.Generator.Kubernetes.{Container, PodSpec}
use kdef.Generator.Pod.{
  Volume, VolumeMount, build_env_var, build_env_from_source, build_volume, build_volumes,
  build_volume_mount, build_security_context, build_tolerations, volume_exists,
}
use kdef.Types.{
  ContainerConfig, InitContainerConfig, VolumeConfig, SecurityContextConfig, TolerationConfig,
}
use mathlib.Core.List.{flat_map}
use mathlib.Core.Option

pub record PodTemplateInput : Type 0 where
  pub containers : List ContainerConfig
  pub init_containers : List InitContainerConfig
  pub volumes : List VolumeConfig
  pub image_pull_secrets : List Text
  pub service_account_name : Text
  pub security_context : Option SecurityContextConfig
  pub node_selector : Dict Text
  pub tolerations : List TolerationConfig
  pub host_network : Bool
  pub host_pid : Bool
  pub host_ipc : Bool
  pub dns_policy : Text

unfoldable pub find_volume_in : List VolumeConfig → Text → Option VolumeConfig
find_volume_in [] name = none
find_volume_in (v ∷ volumes) name = if v.name == name then some v else find_volume_in volumes name

unfoldable pub find_in_containers : List ContainerConfig → Text → Option VolumeConfig
unfolding find_volume_in
find_in_containers [] name = none
find_in_containers (c ∷ containers) name =
    let rest = find_in_containers containers name in
    elim (find_volume_in c.volumes name) [ some v ↦ some v | none ↦ rest ]

-- The pod's volumes first, then those of the containers.
unfoldable pub find_volume : List VolumeConfig → List ContainerConfig → Text → Option VolumeConfig
unfolding find_volume_in find_in_containers
find_volume volumes containers name = elim (find_volume_in volumes name) [
  | some v ↦ some v
  | none ↦ find_in_containers containers name
]

-- if v, ok := findVolume(...); ok { mounts = append(mounts, buildVolumeMount(v)) }
unfoldable pub mount_found : Option VolumeConfig → List VolumeMount
mount_found none = []
mount_found (some v) = build_volume_mount v ∷ []

module _ {Q : Type 0} (must_parse : Text → Q) where
  -- The init container of buildPodSpec, with the volumes that it names.
  unfoldable pub build_init_container :
      List VolumeConfig → List ContainerConfig → InitContainerConfig → Container Q
  unfolding find_volume mount_found
  build_init_container volumes containers ic = record {
    name = ic.name;
    image = ic.image;
    image_pull_policy = ic.image_pull_policy;
    command = ic.command;
    args = ic.args;
    working_dir = [];
    ports = [];
    env = map build_env_var ic.env;
    env_from = map build_env_from_source ic.env_from;
    liveness_probe = none;
    readiness_probe = none;
    startup_probe = none;
    resources = none;
    volume_mounts =
        flat_map (λ name. mount_found (find_volume volumes containers name)) ic.volume_mounts;
    security_context = Option.map build_security_context ic.security_context;
    lifecycle = none;
  }

  -- The init container of GenerateDeploymentV2, which has no arguments.
  unfoldable pub deployment_init_container :
      List VolumeConfig → List ContainerConfig → InitContainerConfig → Container Q
  unfolding build_init_container
  deployment_init_container volumes containers ic =
      record (build_init_container volumes containers ic) { args = [] }

  -- The inner loop over the volumes of one container.
  unfoldable pub add_volumes : Dict Bool → List (Volume Q) → List VolumeConfig → List (Volume Q)
  add_volumes claims volumes [] = volumes
  add_volumes claims volumes (cv ∷ cvs) =
      add_volumes claims
        (if contains cv.name claims
          then volumes
          else if not (volume_exists volumes cv.name)
          then volumes ++ build_volume must_parse cv ∷ []
          else volumes)
        cvs

  unfoldable pub add_container_volumes :
      Dict Bool → List (Volume Q) → List ContainerConfig → List (Volume Q)
  unfolding add_volumes
  add_container_volumes claims volumes [] = volumes
  add_container_volumes claims volumes (c ∷ containers) =
      add_container_volumes claims (add_volumes claims volumes c.volumes) containers

  -- if sc != nil && sc.FSGroup != nil
  abbrev pub fs_group_of : Option SecurityContextConfig → Option ℤ
  fs_group_of none = none
  fs_group_of (some sc) = sc.fs_group

  -- The pod of the input, with its init containers.
  unfoldable pub pod_spec_of : List (Container Q) → Dict Bool → PodTemplateInput → PodSpec Q
  unfolding add_container_volumes
  pod_spec_of init_containers claims pod = record {
    containers = map (build_container_v2 must_parse) pod.containers;
    init_containers = init_containers;
    volumes = add_container_volumes claims (build_volumes must_parse pod.volumes) pod.containers;
    image_pull_secrets = pod.image_pull_secrets;
    service_account_name = pod.service_account_name;
    fs_group = fs_group_of pod.security_context;
    node_selector = pod.node_selector;
    tolerations = build_tolerations pod.tolerations;
    host_network = pod.host_network;
    host_pid = pod.host_pid;
    host_ipc = pod.host_ipc;
    dns_policy = pod.dns_policy;
    restart_policy = [];
  }

  -- `claims` are the volumes that the claim templates of a StatefulSet provide.
  unfoldable pub build_pod_spec : PodTemplateInput → Dict Bool → PodSpec Q
  unfolding pod_spec_of
  build_pod_spec pod claims =
      pod_spec_of (map (build_init_container pod.volumes pod.containers) pod.init_containers) claims
        pod

  unfoldable pub deployment_pod_spec : PodTemplateInput → PodSpec Q
  unfolding pod_spec_of
  deployment_pod_spec pod =
      pod_spec_of (map (deployment_init_container pod.volumes pod.containers) pod.init_containers)
        [] pod
