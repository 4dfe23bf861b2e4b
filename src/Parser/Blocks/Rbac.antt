-- ===== src/Parser/Blocks/Rbac.antt =====
-- internal/parser/clusterrole.go and csidriver.go: the blocks of resources that have no namespace.
-- The three flags that Go takes from a map literal, in any order, are read in one order.
use kdef.Base.{[], ◌∷◌, ◌++◌, List, Bool, false, not, if◌then◌else◌}
use kdef.Base.Format.{quote}
use kdef.Base.Lists.{mem}
use kdef.Base.Text.{Text, text}
use kdef.Parser.Hcl.{
  Hcl, Parsed, panic, parsed, Block, Content, failure, pure, report, expect, label, steps, optional,
  required, labelled, attr_with, required_with, as_text, as_bool, if_list, with_content, on_block,
  each_block, switch, texts,
}
use kdef.Types.{
  ClusterRoleConfig, PolicyRuleConfig, ClusterRoleBindingConfig, RoleRefConfig, SubjectConfig,
  CsiDriverConfig,
}

abbrev empty_rule : PolicyRuleConfig
empty_rule = record {
  api_groups = [];
  resources = [];
  resource_names = [];
  verbs = [];
  non_resource_urls = [];
}

abbrev new_driver : Text → CsiDriverConfig
new_driver name = record {
  name = name;
  attach_required = false;
  pod_info_on_mount = false;
  requires_republish = false;
  fs_group_policy = [];
  lifecycle_modes = [];
}

unfoldable pub is_mode : Text → Bool
is_mode m = mem m (text "Persistent" ∷ text "Ephemeral" ∷ [])

-- The modes that are known are kept, each other one is reported.
unfoldable pub valid_modes : List Text → Parsed (List Text)
unfolding is_mode
valid_modes [] = parsed [] []
valid_modes (m ∷ ms) = elim (valid_modes ms) [
  | panic ↦ panic
  | parsed kept ds ↦
      if is_mode m
      then parsed (m ∷ kept) ds
      else parsed kept (
          failure (text "Invalid lifecycle mode")
            (text "lifecycle mode " ++ (quote m ++ text " must be \"Persistent\" or \"Ephemeral\""))
          ∷ ds)
]

module _ (h : Hcl) (ctx : h.Context) where
  open h use {Body, Expr}

  unfoldable pub parse_policy_rule_block : Block Body → Parsed PolicyRuleConfig
  parse_policy_rule_block b =
      with_content h ctx
        (record {
          attributes =
              required ("verbs" ∷ [])
              ++ optional
                  ("api_groups" ∷ "resources" ∷ "resource_names" ∷ "non_resource_urls" ∷ []);
          blocks = [];
        })
        b.body empty_rule
        λ c. steps (
          attr_with h ctx c "api_groups" (if_list h ctx (λ ss r. record r { api_groups = ss }))
          ∷ attr_with h ctx c "resources" (if_list h ctx (λ ss r. record r { resources = ss }))
          ∷ attr_with h ctx c "resource_names"
              (if_list h ctx (λ ss r. record r { resource_names = ss }))
          ∷ attr_with h ctx c "verbs" (if_list h ctx (λ ss r. record r { verbs = ss }))
          ∷ attr_with h ctx c "non_resource_urls"
              (if_list h ctx (λ ss r. record r { non_resource_urls = ss }))
          ∷ [])

  unfoldable pub parse_cluster_role_block : Block Body → Parsed ClusterRoleConfig
  unfolding parse_policy_rule_block
  parse_cluster_role_block b = label 0 b.labels (λ name.
      with_content h ctx (record { attributes = []; blocks = labelled 0 ("rule" ∷ []) }) b.body
        (record { name = name; rules = [] })
        λ c.
          each_block
            (switch (
              (
                "rule",
                on_block parse_policy_rule_block (λ r x. record x { rules = x.rules ++ r ∷ [] }),
              )
              ∷ []))
            c.blocks)

  unfoldable pub parse_role_ref_block : Block Body → Parsed RoleRefConfig
  parse_role_ref_block b =
      with_content h ctx
        (record { attributes = required ("name" ∷ []) ++ optional ("kind" ∷ []); blocks = [] })
        b.body (record { kind = text "ClusterRole"; name = [] })
        λ c. steps (
          attr_with h ctx c "kind" (as_text h ctx (λ s r. record r { kind = s }))
          ∷ required_with h ctx c "name" (as_text h ctx (λ s r. record r { name = s }))
          ∷ [])

  unfoldable pub parse_subject_block : Block Body → Parsed SubjectConfig
  parse_subject_block b =
      with_content h ctx
        (record {
          attributes = required ("name" ∷ []) ++ optional ("kind" ∷ "namespace" ∷ []);
          blocks = [];
        })
        b.body (record { kind = text "ServiceAccount"; name = []; namespace = [] })
        λ c. steps (
          attr_with h ctx c "kind" (as_text h ctx (λ s r. record r { kind = s }))
          ∷ required_with h ctx c "name" (as_text h ctx (λ s r. record r { name = s }))
          ∷ attr_with h ctx c "namespace" (as_text h ctx (λ s r. record r { namespace = s }))
          ∷ [])

  unfoldable pub parse_cluster_role_binding_block : Block Body → Parsed ClusterRoleBindingConfig
  unfolding parse_role_ref_block parse_subject_block
  parse_cluster_role_binding_block b = label 0 b.labels (λ name.
      with_content h ctx
        (record { attributes = []; blocks = labelled 0 ("role_ref" ∷ "subject" ∷ []) }) b.body
        (record { name = name; role_ref = record { kind = []; name = [] }; subjects = [] })
        λ c.
          each_block
            (switch (
              ("role_ref", on_block parse_role_ref_block (λ r x. record x { role_ref = r }))
              ∷ (
                "subject",
                on_block parse_subject_block (λ s x. record x { subjects = x.subjects ++ s ∷ [] }),
              )
              ∷ []))
            c.blocks)

  abbrev fs_group_attr : Content Body Expr → CsiDriverConfig → Parsed CsiDriverConfig
  fs_group_attr c = attr_with h ctx c "fs_group_policy" (λ v d. expect (h.as_string v) (λ s.
      report (not (mem s (text "None" ∷ text "File" ∷ text "ReadWriteOnceWithFSType" ∷ [])))
        (failure (text "Invalid fs_group_policy") (
          text "fs_group_policy "
          ++ (quote s ++ text " must be \"None\", \"File\" or \"ReadWriteOnceWithFSType\"")))
        (record d { fs_group_policy = s })))

  abbrev modes_attr : Content Body Expr → CsiDriverConfig → Parsed CsiDriverConfig
  modes_attr c = attr_with h ctx c "lifecycle_modes" (λ v d.
      if h.can_iterate v
      then expect (h.elements v) (λ kvs. expect (texts h ctx kvs) (λ ss. elim (valid_modes ss) [
        | panic ↦ panic
        | parsed ms ds ↦ parsed (record d { lifecycle_modes = ms }) ds
      ]))
      else pure d)

  unfoldable pub parse_csi_driver_block : Block Body → Parsed CsiDriverConfig
  unfolding valid_modes
  parse_csi_driver_block b = label 0 b.labels (λ name.
      with_content h ctx
        (record {
          attributes = optional (
              "attach_required" ∷ "pod_info_on_mount" ∷ "requires_republish" ∷ "fs_group_policy"
              ∷ "lifecycle_modes" ∷ []);
          blocks = [];
        })
        b.body (new_driver name)
        λ c. steps (
          attr_with h ctx c "attach_required"
            (as_bool h ctx (λ x d. record d { attach_required = x }))
          ∷ attr_with h ctx c "pod_info_on_mount"
              (as_bool h ctx (λ x d. record d { pod_info_on_mount = x }))
          ∷ attr_with h ctx c "requires_republish"
              (as_bool h ctx (λ x d. record d { requires_republish = x }))
          ∷ fs_group_attr c
          ∷ modes_attr c
          ∷ []))
