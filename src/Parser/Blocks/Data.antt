-- ===== src/Parser/Blocks/Data.antt =====
-- internal/parser/configmap.go, secret.go, sealedsecret.go and persistentvolumeclaim.go.
use kdef.Base.{[], ◌∷◌, ◌++◌}
use kdef.Base.Text.{Text, text}
use kdef.Parser.Hcl.{
  Hcl, Parsed, Schema, Block, label, steps, optional, required, attr_with, required_with, as_text,
  if_list, if_map, with_content,
}
use kdef.Types.{ConfigMapConfig, SecretConfig, SealedSecretConfig, PersistentVolumeClaimConfig}

abbrev pub config_map_schema : Schema
config_map_schema = record { attributes = optional ("namespace" ∷ "data" ∷ []); blocks = [] }

module _ (h : Hcl) (ctx : h.Context) where
  open h use {Body}

  unfoldable pub parse_config_map_block : Block Body → Parsed ConfigMapConfig
  parse_config_map_block b = label 0 b.labels (λ name.
      with_content h ctx config_map_schema b.body
        (record { name = name; namespace = []; data_map = [] })
        λ c. steps (
          attr_with h ctx c "namespace" (as_text h ctx (λ s x. record x { namespace = s }))
          ∷ attr_with h ctx c "data" (if_map h ctx (λ m x. record x { data_map = m }))
          ∷ []))

  unfoldable pub parse_secret_block : Block Body → Parsed SecretConfig
  parse_secret_block b = label 0 b.labels (λ name.
      with_content h ctx
        (record { attributes = optional ("namespace" ∷ "type" ∷ "data" ∷ []); blocks = [] }) b.body
        (record { name = name; namespace = []; type = text "Opaque"; data_map = [] })
        λ c. steps (
          attr_with h ctx c "namespace" (as_text h ctx (λ s x. record x { namespace = s }))
          ∷ attr_with h ctx c "type" (as_text h ctx (λ s x. record x { type = s }))
          ∷ attr_with h ctx c "data" (if_map h ctx (λ m x. record x { data_map = m }))
          ∷ []))

  unfoldable pub parse_sealed_secret_block : Block Body → Parsed SealedSecretConfig
  parse_sealed_secret_block b = label 0 b.labels (λ name.
      with_content h ctx
        (record { attributes = optional ("namespace" ∷ "type" ∷ "data" ∷ []); blocks = [] }) b.body
        (record { name = name; namespace = []; type = text "Opaque"; data_map = [] })
        λ c. steps (
          attr_with h ctx c "namespace" (as_text h ctx (λ s x. record x { namespace = s }))
          ∷ attr_with h ctx c "type" (as_text h ctx (λ s x. record x { type = s }))
          ∷ attr_with h ctx c "data" (if_map h ctx (λ m x. record x { data_map = m }))
          ∷ []))

  abbrev new_pvc : Text → PersistentVolumeClaimConfig
  new_pvc name = record {
    name = name;
    namespace = [];
    storage_class = [];
    access_modes = [];
    storage = [];
  }

  unfoldable pub parse_persistent_volume_claim_block :
      Block Body → Parsed PersistentVolumeClaimConfig
  parse_persistent_volume_claim_block b = label 0 b.labels (λ name.
      with_content h ctx
        (record {
          attributes =
              required ("storage" ∷ [])
              ++ optional ("namespace" ∷ "storage_class" ∷ "access_modes" ∷ []);
          blocks = [];
        })
        b.body (new_pvc name)
        λ c. steps (
          attr_with h ctx c "namespace" (as_text h ctx (λ s x. record x { namespace = s }))
          ∷ attr_with h ctx c "storage_class"
              (as_text h ctx (λ s x. record x { storage_class = s }))
          ∷ attr_with h ctx c "access_modes"
              (if_list h ctx (λ ss x. record x { access_modes = ss }))
          ∷ required_with h ctx c "storage" (as_text h ctx (λ s x. record x { storage = s }))
          ∷ []))
