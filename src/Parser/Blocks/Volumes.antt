-- ===== src/Parser/Blocks/Volumes.antt =====
-- internal/parser/app.go and statefulset.go: the volume and volume_claim blocks. The attributes that
-- Go takes from a map literal, in any order, are read in one order.
use kdef.Base.{[], ◌∷◌, ◌++◌, Bool, false, not, ◌&&◌, ◌||◌, none, some}
use kdef.Base.Dict.{lookup}
use kdef.Base.Format.{quote}
use kdef.Base.Lists.{mem}
use kdef.Base.Text.{Text, text, is_empty}
use kdef.Parser.Hcl.{
  Hcl, Parsed, failure, has_errors, Schema, Block, Content, expect, label, report, steps, optional,
  required, attr_with, required_with, as_text, as_bool, if_list, if_map, with_content,
}
use kdef.Types.{VolumeConfig, VolumeClaimTemplate}

abbrev new_volume : Text → VolumeConfig
new_volume name = record {
  name = name;
  mount_path = [];
  sub_path = [];
  read_only = false;
  secret = [];
  config_map = [];
  empty_dir = false;
  empty_dir_size = [];
  pvc = [];
  host_path = [];
  host_path_type = [];
  csi_driver = [];
  csi_attributes = [];
  csi_secret = [];
  mount_propagation = [];
}

unfoldable pub is_propagation : Text → Bool
is_propagation s = mem s (text "None" ∷ text "HostToContainer" ∷ text "Bidirectional" ∷ [])

abbrev volume_schema : Schema
volume_schema = record {
  attributes =
      required ("mount_path" ∷ [])
      ++ optional (
          "sub_path" ∷ "read_only" ∷ "secret" ∷ "config_map" ∷ "empty_dir" ∷ "size_limit" ∷ "pvc"
          ∷ "host_path" ∷ "host_path_type" ∷ "csi_driver" ∷ "csi_attributes" ∷ "csi_secret"
          ∷ "mount_propagation" ∷ []);
  blocks = [];
}

module _ (h : Hcl) (ctx : h.Context) where
  open h use {Body, Expr}

  -- vol.CSIAttributes != nil: the attribute has a value that can be iterated over.
  unfoldable pub has_csi_attributes : Content Body Expr → Bool
  has_csi_attributes c = elim (lookup (text "csi_attributes") c.attributes) [
    | none ↦ false
    | some e ↦ let (v, ds) = h.value ctx e in not (has_errors ds) && h.can_iterate v
  ]

  unfoldable pub check_csi : Content Body Expr → VolumeConfig → Parsed VolumeConfig
  unfolding has_csi_attributes
  check_csi c v =
      report ((has_csi_attributes c || not (is_empty v.csi_secret)) && is_empty v.csi_driver)
        (failure (text "csi_driver required") (
          text "volume "
          ++ (quote v.name ++ text " sets csi_attributes or csi_secret without csi_driver")))
        v

  unfoldable pub mount_propagation_attr : Content Body Expr → VolumeConfig → Parsed VolumeConfig
  mount_propagation_attr c = attr_with h ctx c "mount_propagation" (λ v a.
      expect (h.as_string v) (λ s.
        report (not (is_propagation s))
          (failure (text "Invalid mount_propagation") (
            text "mount_propagation "
            ++ (quote s ++ text " must be \"None\", \"HostToContainer\" or \"Bidirectional\"")))
          (record a { mount_propagation = s })))

  unfoldable pub parse_volume_block : Block Body → Parsed VolumeConfig
  parse_volume_block b = label 0 b.labels (λ name.
      with_content h ctx volume_schema b.body (new_volume name) λ c. steps (
        required_with h ctx c "mount_path" (as_text h ctx (λ s v. record v { mount_path = s }))
        ∷ attr_with h ctx c "sub_path" (as_text h ctx (λ s v. record v { sub_path = s }))
        ∷ attr_with h ctx c "read_only" (as_bool h ctx (λ x v. record v { read_only = x }))
        ∷ attr_with h ctx c "secret" (as_text h ctx (λ s v. record v { secret = s }))
        ∷ attr_with h ctx c "config_map" (as_text h ctx (λ s v. record v { config_map = s }))
        ∷ attr_with h ctx c "empty_dir" (as_bool h ctx (λ x v. record v { empty_dir = x }))
        ∷ attr_with h ctx c "size_limit" (as_text h ctx (λ s v. record v { empty_dir_size = s }))
        ∷ attr_with h ctx c "pvc" (as_text h ctx (λ s v. record v { pvc = s }))
        ∷ attr_with h ctx c "host_path" (as_text h ctx (λ s v. record v { host_path = s }))
        ∷ attr_with h ctx c "host_path_type"
            (as_text h ctx (λ s v. record v { host_path_type = s }))
        ∷ attr_with h ctx c "csi_driver" (as_text h ctx (λ s v. record v { csi_driver = s }))
        ∷ attr_with h ctx c "csi_secret" (as_text h ctx (λ s v. record v { csi_secret = s }))
        ∷ attr_with h ctx c "csi_attributes" (if_map h ctx (λ m v. record v { csi_attributes = m }))
        ∷ check_csi c
        ∷ mount_propagation_attr c
        ∷ []))

  abbrev new_claim : Text → VolumeClaimTemplate
  new_claim name = record {
    name = name;
    mount_path = [];
    sub_path = [];
    read_only = false;
    storage_class = [];
    access_modes = [];
    storage = [];
  }

  abbrev claim_schema : Schema
  claim_schema = record {
    attributes =
        required ("mount_path" ∷ "storage" ∷ [])
        ++ optional ("sub_path" ∷ "read_only" ∷ "storage_class" ∷ "access_modes" ∷ []);
    blocks = [];
  }

  unfoldable pub parse_volume_claim_template_block : Block Body → Parsed VolumeClaimTemplate
  parse_volume_claim_template_block b = label 0 b.labels (λ name.
      with_content h ctx claim_schema b.body (new_claim name) λ c. steps (
        required_with h ctx c "mount_path" (as_text h ctx (λ s v. record v { mount_path = s }))
        ∷ required_with h ctx c "storage" (as_text h ctx (λ s v. record v { storage = s }))
        ∷ attr_with h ctx c "sub_path" (as_text h ctx (λ s v. record v { sub_path = s }))
        ∷ attr_with h ctx c "read_only" (as_bool h ctx (λ x v. record v { read_only = x }))
        ∷ attr_with h ctx c "storage_class" (as_text h ctx (λ s v. record v { storage_class = s }))
        ∷ attr_with h ctx c "access_modes" (if_list h ctx (λ ss v. record v { access_modes = ss }))
        ∷ []))
