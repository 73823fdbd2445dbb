-- ===== src/K8s/Meta.antt =====
-- Object metadata, workloads' labels, and references.
use operator_for_ai_chips_on.Common.{ℕ, String, Bool, Option, none, List, []}

-- metav1.OwnerReference, as far as the operator relies on it: whose object it is and whether that
-- owner is the controller.
pub record OwnerReference : Type 0 where
  pub owner_kind : String
  pub owner_name : String
  pub controller : Bool

-- metav1.ObjectMeta. Of a deletion timestamp only its presence is read.
pub record ObjectMeta : Type 0 where
  pub namespace : String
  pub name : String
  pub deletion_timestamp : Option ℕ
  pub finalizers : List String
  pub owner_references : List OwnerReference

-- types.NamespacedName
pub record NamespacedName : Type 0 where
  pub namespace : String
  pub name : String

-- v1.LocalObjectReference
pub record LocalObjectReference : Type 0 where
  pub name : String

-- metav1.ObjectMeta{Namespace: …, Name: …}
abbrev pub named : String → String → ObjectMeta
named ns n = record {
  namespace = ns;
  name = n;
  deletion_timestamp = none;
  finalizers = [];
  owner_references = [];
}
