-- ===== src/Parser/Blocks/Environment.antt =====
-- internal/parser/app.go: the resources, env and env_from blocks.
use Prim.Native.String.{String}
use kdef.Base.{List, [], ◌∷◌, Bool, ◌&&◌, nat_eq, if◌then◌else◌, Option, none, some}
use kdef.Base.Dict.{Dict}
use kdef.Base.Format.{trim_space}
use kdef.Base.Text.{Text, text, ltb_text}
use kdef.Parser.Hcl.{
  Hcl, Parsed, parsed, has_errors, Block, pure, after, expect, steps, optional, attr_with, as_text,
  with_content, ◌>>=◌,
}
use kdef.Types.{ResourcesConfig, EnvEntry, EnvFromEntry}

-- What stands before and after the first "..": strings.SplitN(s, "..", 2).
unfoldable pub split_range : Text → Option (Text × Text)
split_range [] = none
split_range (c ∷ []) = none
split_range (c ∷ d ∷ s) =
    let rest = split_range (d ∷ s) in
    if nat_eq c b'.' && nat_eq d b'.'
    then some ([], s)
    else elim rest [ none ↦ none | some (before, behind) ↦ some (c ∷ before, behind) ]

abbrev pub range_of : Text → Option (Text × Text) → Text × Text
range_of s none = (s, s)
range_of s (some (request, limit)) = (trim_space request, trim_space limit)

-- The request and the limit.
unfoldable pub parse_resource_range : Text → Text × Text
unfolding split_range
parse_resource_range s = range_of s (split_range s)

abbrev empty_resources : ResourcesConfig
empty_resources = record {
  cpu_request = [];
  cpu_limit = [];
  memory_request = [];
  memory_limit = [];
  ephemeral_storage_request = [];
  ephemeral_storage_limit = [];
}

abbrev pub new_env : Text → EnvEntry
new_env name = record {
  name = name;
  value = [];
  secret_name = [];
  secret_key = [];
  config_map_name = [];
  config_map_key = [];
  field_path = [];
}

-- The names of an env block, sorted.
insert_name : {V : Type 0} → Text × V → Dict V → Dict V
insert_name (k, v) [] = (k, v) ∷ []
insert_name (k, v) ((j, w) ∷ rest) =
    if ltb_text j k then (j, w) ∷ insert_name (k, v) rest else (k, v) ∷ (j, w) ∷ rest

unfoldable pub sort_names : {V : Type 0} → Dict V → Dict V
unfolding insert_name
sort_names [] = []
sort_names (kv ∷ rest) = insert_name kv (sort_names rest)

module _ (h : Hcl) (ctx : h.Context) where
  open h use {Body, Expr, Value}

  unfoldable pub parse_resources_block : Block Body → Parsed ResourcesConfig
  parse_resources_block b =
      with_content h ctx
        (record {
          attributes = optional ("cpu" ∷ "memory" ∷ "ephemeral_storage" ∷ []);
          blocks = [];
        })
        b.body empty_resources
        λ c. steps (
          attr_with h ctx c "cpu" (
            as_text h ctx (λ s r.
              let (request, limit) = parse_resource_range s in
              record r { cpu_request = request; cpu_limit = limit }))
          ∷ attr_with h ctx c "memory" (
              as_text h ctx (λ s r.
                let (request, limit) = parse_resource_range s in
                record r { memory_request = request; memory_limit = limit }))
          ∷ attr_with h ctx c "ephemeral_storage" (
              as_text h ctx (λ s r.
                let (request, limit) = parse_resource_range s in
                record r { ephemeral_storage_request = request; ephemeral_storage_limit = limit }))
          ∷ [])

  -- val.GetAttr(name).AsString()
  abbrev member_text : {A : Type 0} → String → Value → (Text → Parsed A) → Parsed A
  member_text name v k = expect (h.get_attr (text name) v) (λ w. expect (h.as_string w) k)

  -- val.Type().IsObjectType() && val.Type().HasAttribute(name)
  abbrev has_name : String → Value → Bool
  has_name name v = h.is_object v && h.has_attribute (text name) v

  unfoldable pub value_entry : Text → Value → Parsed EnvEntry
  value_entry name v =
      let e = new_env name in
      if has_name "__secret_name" v
      then member_text "__secret_name" v (λ s.
        member_text "__secret_key" v (λ k. pure (record e { secret_name = s; secret_key = k })))
      else if has_name "__configmap_name" v
      then member_text "__configmap_name" v (λ s.
        member_text "__configmap_key" v
          (λ k. pure (record e { config_map_name = s; config_map_key = k })))
      else if has_name "__field_path" v
      then member_text "__field_path" v (λ s. pure (record e { field_path = s }))
      else if h.is_string v
      then expect (h.as_string v) (λ s. pure (record e { value = s }))
      else pure (record e { value = h.go_string v })

  unfoldable pub env_entries : Dict Expr → Parsed (List EnvEntry)
  unfolding value_entry
  env_entries [] = pure []
  env_entries ((name, e) ∷ rest) =
      let (v, ds) = h.value ctx e in
      let others = env_entries rest in
      if has_errors ds
      then after ds others
      else after ds (value_entry name v >>= λ entry. others >>= λ entries. pure (entry ∷ entries))

  unfoldable pub parse_env_block : Block Body → Parsed (List EnvEntry)
  unfolding env_entries
  parse_env_block b =
      let (attrs, ds) = h.just_attributes b.body in
      if has_errors ds then parsed [] ds else after ds (env_entries (sort_names attrs))

  unfoldable pub parse_env_from_block : Block Body → Parsed EnvFromEntry
  parse_env_from_block b =
      with_content h ctx
        (record { attributes = optional ("config_map" ∷ "secret" ∷ "prefix" ∷ []); blocks = [] })
        b.body (record { config_map = []; secret = []; prefix = [] })
        λ c. steps (
          attr_with h ctx c "config_map" (as_text h ctx (λ s e. record e { config_map = s }))
          ∷ attr_with h ctx c "secret" (as_text h ctx (λ s e. record e { secret = s }))
          ∷ attr_with h ctx c "prefix" (as_text h ctx (λ s e. record e { prefix = s }))
          ∷ [])
