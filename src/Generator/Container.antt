-- ===== src/Generator/Container.antt =====
-- internal/generator/deployment_v2.go: buildContainerV2, its probes and its lifecycle handlers, and
-- applyProbeTuning of shared.go.
use kdef.Base.{List, [], ◌∷◌, map, not, ◌&&◌, ◌||◌, if◌then◌else◌, Option, none, some}
use kdef.Base.Dict.{null, is_none}
use kdef.Base.Int.{ℤ, pos, ltb_ℤ}
use kdef.Base.Text.{Text, is_empty}
use kdef.Generator.Kubernetes.{Handler, http_get, tcp_socket, exec, Probe, Container}
use kdef.Generator.Pod.{
  build_env_var, build_env_from_source, build_resources, build_volume_mount, build_security_context,
}
use kdef.Types.{
  ContainerConfig, PortConfig, ProbeConfig, ProbesConfig, LifecycleConfig, LifecycleHandler,
}
use mathlib.Core.Option

-- if p != nil { field = *p }, where the field was 0
abbrev pub or_zero : Option ℤ → ℤ
or_zero none = pos 0
or_zero (some n) = n

unfoldable pub apply_probe_tuning : Option Handler → PortConfig → Probe
apply_probe_tuning handler p = record {
  handler = handler;
  initial_delay_seconds = or_zero p.initial_delay;
  period_seconds = or_zero p.period;
  timeout_seconds = or_zero p.timeout;
  failure_threshold = or_zero p.failures;
  success_threshold = or_zero p.successes;
}

-- The probe of a port, for its HTTP path, and for TCP where there is none.
unfoldable pub port_probe : Text → PortConfig → Probe
unfolding apply_probe_tuning
port_probe path p =
    apply_probe_tuning
      (some (if not (is_empty path) then http_get path p.number else tcp_socket p.number)) p

-- The loop over the ports: the first one that asks for a probe sets it.
unfoldable pub liveness_of : Option Probe → List PortConfig → Option Probe
unfolding port_probe
liveness_of probe [] = probe
liveness_of probe (p ∷ ports) =
    liveness_of
      (if (not (is_empty p.health) || p.tcp_health) && is_none probe
        then some (port_probe p.health p)
        else probe)
      ports

unfoldable pub readiness_of : Option Probe → List PortConfig → Option Probe
unfolding port_probe
readiness_of probe [] = probe
readiness_of probe (p ∷ ports) =
    readiness_of
      (if (not (is_empty p.ready) || p.tcp_ready) && is_none probe
        then some (port_probe p.ready p)
        else probe)
      ports

-- The switch of buildProbe.
unfoldable pub probe_handler : ProbeConfig → Option Handler
probe_handler pc =
    if not (is_empty pc.http_path)
    then some (http_get pc.http_path pc.http_port)
    else if ltb_ℤ (pos 0) pc.tcp_port
    then some (tcp_socket pc.tcp_port)
    else if not (null pc.exec)
    then some (exec pc.exec)
    else none

unfoldable pub build_probe : ProbeConfig → Probe
unfolding probe_handler
build_probe pc = record {
  handler = probe_handler pc;
  initial_delay_seconds = or_zero pc.initial_delay;
  period_seconds = or_zero pc.period;
  timeout_seconds = or_zero pc.timeout;
  failure_threshold = or_zero pc.failures;
  success_threshold = or_zero pc.successes;
}

-- if explicit != nil { probe = buildProbe(explicit) }
abbrev pub explicit_probe : Option ProbeConfig → Option Probe → Option Probe
unfolding build_probe
explicit_probe none probe = probe
explicit_probe (some pc) probe = some (build_probe pc)

unfoldable pub build_lifecycle_handler : LifecycleHandler → Option Handler
build_lifecycle_handler h =
    if not (is_empty h.http_path)
    then some (http_get h.http_path h.http_port)
    else if not (null h.exec)
    then some (exec h.exec)
    else none

-- if h != nil { field = buildLifecycleHandler(h) }
abbrev pub optional_handler : Option LifecycleHandler → Option Handler
unfolding build_lifecycle_handler
optional_handler none = none
optional_handler (some h) = build_lifecycle_handler h

module _ {Q : Type 0} where
  unfoldable pub apply_explicit_probes : Option ProbesConfig → Container Q → Container Q
  apply_explicit_probes none c = c
  apply_explicit_probes (some p) c = record c {
    liveness_probe = explicit_probe p.liveness c.liveness_probe;
    readiness_probe = explicit_probe p.readiness c.readiness_probe;
    startup_probe = explicit_probe p.startup c.startup_probe;
  }

  unfoldable pub apply_lifecycle : Option LifecycleConfig → Container Q → Container Q
  apply_lifecycle none c = c
  apply_lifecycle (some lc) c =
      let pre_stop = optional_handler lc.pre_stop in
      let post_start = optional_handler lc.post_start in
      if not (is_none pre_stop) || not (is_none post_start)
      then record c { lifecycle = some (record { pre_stop = pre_stop; post_start = post_start }) }
      else c

module _ {Q : Type 0} (must_parse : Text → Q) where
  -- The container before its explicit probes and its lifecycle.
  unfoldable pub base_container : ContainerConfig → Container Q
  unfolding liveness_of readiness_of
  base_container c = record {
    name = c.name;
    image = c.image;
    image_pull_policy = c.image_pull_policy;
    command = c.command;
    args = c.args;
    working_dir = c.working_dir;
    ports = map {A = PortConfig} (λ p. record { name = p.name; container_port = p.number }) c.ports;
    env = map build_env_var c.env;
    env_from = map build_env_from_source c.env_from;
    liveness_probe = liveness_of none c.ports;
    readiness_probe = readiness_of none c.ports;
    startup_probe = none;
    resources = Option.map (build_resources must_parse) c.resources;
    volume_mounts = map build_volume_mount c.volumes;
    security_context = Option.map build_security_context c.security_context;
    lifecycle = none;
  }

  unfoldable pub build_container_v2 : ContainerConfig → Container Q
  unfolding base_container apply_explicit_probes apply_lifecycle
  build_container_v2 c =
      apply_lifecycle c.lifecycle (apply_explicit_probes c.probes (base_container c))
