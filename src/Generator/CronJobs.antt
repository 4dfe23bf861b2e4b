-- ===== src/Generator/CronJobs.antt =====
-- internal/generator/cronjob.go: GenerateCronJob and parseDuration.
pub mod Laws
use kdef.Base.{ℕ, List, [], ◌∷◌, map, not, if◌then◌else◌, Option, none, some, nat_eq}
use kdef.Base.Dict.{Dict, null}
use kdef.Base.Format.{trim_space, parse_int, times}
use kdef.Base.Int.{ℤ, pos, ltb_ℤ}
use kdef.Base.Text.{Text, text, is_empty, ◌==◌}
use kdef.Generator.Kubernetes.{ObjectMeta, Container, PodSpec, CronJobSpec}
use kdef.Generator.Pod.{
  build_env_var, build_env_from_source, build_resources, build_volumes, build_volume_mount,
  build_security_context, build_tolerations,
}
use kdef.Generator.Routes.{kdef_labels, name_label}
use kdef.Types.{CronJobConfig}
use mathlib.Core.Option

-- s[:len(s)-1] and s[len(s)-1] of a text that is not empty
unfoldable pub split_last : Text → Option (Text × ℕ)
split_last [] = none
split_last (c ∷ s) = elim (split_last s) [
  | none ↦ some ([], c)
  | some (front, u) ↦ some (c ∷ front, u)
]

-- The switch on the unit, a number of seconds as an `int64`.
unfoldable pub seconds_of : ℤ → ℕ → ℤ
seconds_of n u =
    if nat_eq u 115
    then n
    else if nat_eq u 109
    then times n 60
    else if nat_eq u 104
    then times n 3600
    else pos 0

abbrev pub number_seconds : Option ℤ → ℕ → ℤ
number_seconds none u = pos 0
number_seconds (some n) u = seconds_of n u

abbrev pub duration_of : Option (Text × ℕ) → ℤ
duration_of none = pos 0
duration_of (some (num, u)) = if is_empty num then pos 0 else number_seconds (parse_int num) u

unfoldable pub parse_duration : Text → ℤ
unfolding split_last seconds_of
parse_duration s = duration_of (split_last (trim_space s))

-- startingDeadlineSeconds: not set where the deadline is no positive number of seconds.
unfoldable pub starting_deadline : Text → Option ℤ
unfolding parse_duration
starting_deadline deadline =
    if is_empty deadline
    then none
    else if ltb_ℤ (pos 0) (parse_duration deadline)
    then some (parse_duration deadline)
    else none

abbrev pub concurrency_policy_of : Text → Text
concurrency_policy_of c =
    if c == text "Forbid"
    then text "Forbid"
    else if c == text "Replace"
    then text "Replace"
    else text "Allow"

pub record CronJob (Q : Type 0) : Type 0 where
  pub metadata : ObjectMeta
  pub spec : CronJobSpec Q

module _ {Q : Type 0} (must_parse : Text → Q) (version : Text) where
  unfoldable pub cron_job_container : CronJobConfig → Container Q
  cron_job_container cj = record {
    name = if not (is_empty cj.container_name) then cj.container_name else cj.name;
    image = cj.image;
    image_pull_policy = cj.image_pull_policy;
    command = cj.command;
    args = cj.args;
    working_dir = [];
    ports = [];
    env = map build_env_var cj.env;
    env_from = map build_env_from_source cj.env_from;
    liveness_probe = none;
    readiness_probe = none;
    startup_probe = none;
    resources = Option.map (build_resources must_parse) cj.resources;
    volume_mounts = map build_volume_mount cj.volumes;
    security_context = Option.map build_security_context cj.security_context;
    lifecycle = none;
  }

  unfoldable pub cron_job_pod : CronJobConfig → PodSpec Q
  unfolding cron_job_container
  cron_job_pod cj = record {
    containers = cron_job_container cj ∷ [];
    init_containers = [];
    volumes = build_volumes must_parse cj.volumes;
    image_pull_secrets = cj.image_pull_secrets;
    service_account_name = cj.service_account_name;
    fs_group = none;
    node_selector = cj.node_selector;
    tolerations = build_tolerations cj.tolerations;
    host_network = cj.host_network;
    host_pid = cj.host_pid;
    host_ipc = cj.host_ipc;
    dns_policy = cj.dns_policy;
    restart_policy = if cj.restart == text "Never" then text "Never" else text "OnFailure";
  }

  unfoldable pub generate_cron_job : CronJobConfig → CronJob Q
  unfolding cron_job_pod starting_deadline
  generate_cron_job cj =
      let labels =
        kdef_labels version
          ((name_label, cj.name) ∷ (text "app.kubernetes.io/component", text "cronjob") ∷ []) in
      record {
        metadata = record {
          name = cj.name;
          namespace = cj.namespace;
          labels = labels;
          annotations = [];
        };
        spec = record {
          schedule = cj.schedule;
          concurrency_policy = concurrency_policy_of cj.concurrency;
          template = record { labels = labels; spec = cron_job_pod cj };
          starting_deadline_seconds = starting_deadline cj.deadline;
          suspend = cj.suspend;
          successful_jobs_history_limit = cj.history_limit;
          failed_jobs_history_limit = cj.failed_history_limit;
        };
      }
