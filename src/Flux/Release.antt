-- ===== src/Flux/Release.antt =====
-- flux-controller/api/v1alpha1/kdefrelease_types.go: the KdefRelease. Its conditions are a list that
-- the Kubernetes libraries keep, of an abstract type.
use kdef.Base.{Bool, List, Option}
use kdef.Base.Dict.{Dict}
use kdef.Base.Int.{ℤ}
use kdef.Base.Text.{Text}

pub record CrossNamespaceSourceReference : Type 0 where
  pub kind : Text
  pub name : Text
  pub namespace : Text

pub record ValuesReference : Type 0 where
  pub kind : Text
  pub name : Text
  pub key : Text

pub record KdefReleaseSpec : Type 0 where
  pub source_ref : CrossNamespaceSourceReference
  pub path : Text
  pub env : Text
  pub set : Dict Text
  pub values_from : Option ValuesReference
  pub interval : ℤ
  pub prune : Bool
  pub target_namespace : Text
  pub service_account_name : Text
  pub suspend : Bool

pub record ResourceRef : Type 0 where
  pub id : Text
  pub version : Text

pub record ResourceInventory : Type 0 where
  pub entries : List ResourceRef

-- What the code sets of a metav1.Condition.
pub record Condition : Type 0 where
  pub type : Text
  pub status : Bool
  pub reason : Text
  pub message : Text
  pub observed_generation : ℤ

pub record KdefReleaseStatus (Conditions : Type 0) : Type 0 where
  pub conditions : Conditions
  pub last_applied_revision : Text
  pub last_attempted_revision : Text
  pub inventory : Option ResourceInventory
  pub observed_generation : ℤ
  pub last_handled_reconcile_at : Text

-- The metadata that the code reads, the spec and the status.
pub record KdefRelease (Conditions : Type 0) : Type 0 where
  pub name : Text
  pub namespace : Text
  pub generation : ℤ
  pub annotations : Dict Text
  pub spec : KdefReleaseSpec
  pub status : KdefReleaseStatus Conditions
