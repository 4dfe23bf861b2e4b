-- ===== src/Types/Resources.antt =====
-- internal/types: the resources that are no workloads. The schema of a CRD version is of any type:
-- nothing modelled here looks into it.
use kdef.Base.{Bool, List, Option}
use kdef.Base.Int.{ℤ}
use kdef.Base.Dict.{Dict}
use kdef.Base.Text.{Text}

pub record ConfigMapConfig : Type 0 where
  pub name : Text
  pub namespace : Text
  pub data_map : Dict Text

pub record SecretConfig : Type 0 where
  pub name : Text
  pub namespace : Text
  pub type : Text
  pub data_map : Dict Text

pub record SealedSecretConfig : Type 0 where
  pub name : Text
  pub namespace : Text
  pub type : Text
  pub data_map : Dict Text

pub record PersistentVolumeClaimConfig : Type 0 where
  pub name : Text
  pub namespace : Text
  pub storage_class : Text
  pub access_modes : List Text
  pub storage : Text

pub record CsiDriverConfig : Type 0 where
  pub name : Text
  pub attach_required : Bool
  pub pod_info_on_mount : Bool
  pub requires_republish : Bool
  pub fs_group_policy : Text
  pub lifecycle_modes : List Text

pub record CrdColumnConfig : Type 0 where
  pub name : Text
  pub type : Text
  pub json_path : Text
  pub description : Text
  pub format : Text
  pub priority : ℤ

-- A Go `interface{}` value read from YAML, JSON or an HCL object. A scalar is its printed form.
mutual
  pub data Value : Type 0 where
    scalar : Text → Value
    seq : Values → Value
    object : Fields → Value

  pub data Values : Type 0 where
    nil : Values
    cons : Value → Values → Values

  pub data Fields : Type 0 where
    end : Fields
    field : Text → Value → Fields → Fields

pub record CrdVersionConfig : Type 0 where
  pub name : Text
  pub served : Bool
  pub storage : Bool
  pub schema : Option Fields
  pub status_subresource : Bool
  pub columns : List CrdColumnConfig

pub record CrdConfig : Type 0 where
  pub name : Text
  pub group : Text
  pub plural : Text
  pub kind : Text
  pub singular : Text
  pub list_kind : Text
  pub short_names : List Text
  pub categories : List Text
  pub scope : Text
  pub versions : List CrdVersionConfig

pub record PolicyRuleConfig : Type 0 where
  pub api_groups : List Text
  pub resources : List Text
  pub resource_names : List Text
  pub verbs : List Text
  pub non_resource_urls : List Text

pub record ClusterRoleConfig : Type 0 where
  pub name : Text
  pub rules : List PolicyRuleConfig

pub record RoleRefConfig : Type 0 where
  pub kind : Text
  pub name : Text

pub record SubjectConfig : Type 0 where
  pub kind : Text
  pub name : Text
  pub namespace : Text

pub record ClusterRoleBindingConfig : Type 0 where
  pub name : Text
  pub role_ref : RoleRefConfig
  pub subjects : List SubjectConfig
