-- ===== src/Api/DeepCopy/Pointers.antt =====
-- api/v1alpha1/zz_generated.deepcopy.go: the two pointers in (*DeviceConfigSpec).DeepCopyInto.
use mathlib.Core.Path.{fun_ext}
use operator_for_ai_chips_on.Common.{
  String, ◌≡◌, refl, ap, ◌∙◌, Option, none, some, [], arith, is_some,
}
use operator_for_ai_chips_on.Common.Dict.{Dict, lookup}
use operator_for_ai_chips_on.K8s.{ObjectMeta, LocalObjectReference}
use operator_for_ai_chips_on.Api.Heap.{Ptr, Heap}
use operator_for_ai_chips_on.Api.DeepCopy.{Runtime, copy_entries, copy_secret, copy_selector}
use operator_for_ai_chips_on.Api.DeepCopy.Maps.{HasDistinctKeys, lookup-copy_entries}
use operator_for_ai_chips_on.Api.DeepCopy.Store.{
  Returns, secret_at, map_at, IsExtended, IsSecretPtr, IsMapPtr, IsNew, IsExtended-refl, update-new,
  with_secret, with_map, IsExtended-with_secret, IsExtended-with_map,
}

-- What `range` visits is each key of the map once, with its value, and `copy_meta` gives metadata
-- of the same value (`meta_value`) and changes that of no other.
pub record IsFair {M R : Type 0} (rt : Runtime M R) : Type 0 where
  pub distinct : (m : Dict String) → HasDistinctKeys (rt.range m)
  pub visits : (m : Dict String) (k : String) → lookup k (rt.range m) ≡ lookup k m
  pub meta_value : M → R → ObjectMeta
  pub copied :
      (m : M) (r : R) → meta_value (rt.copy_meta m r).0 (rt.copy_meta m r).1 ≡ meta_value m r
  pub kept : (m n : M) (r : R) → meta_value n (rt.copy_meta m r).1 ≡ meta_value n r

module _ {M R : Type 0} (rt : Runtime M R) (fair : IsFair rt) where
  copy_secret-some :
      (p : Ptr) (h : Heap M R) (v : LocalObjectReference)
      → h.secrets p ≡ some v
      → copy_secret rt (some p) h ≡ some (some h.next, with_secret h v)
  unfolding copy_secret
  copy_secret-some p h v e = ground arith

  copy_selector-some :
      (p : Ptr) (h : Heap M R) (m : Dict String)
      → h.maps p ≡ some m
      → copy_selector rt (some p) h ≡ some (some h.next, with_map h (copy_entries (rt.range m) []))
  unfolding copy_selector
  copy_selector-some p h m e = ground arith

  pub copy_secret_lem :
      (o : Option Ptr) (h : Heap M R)
      → IsSecretPtr h o
      → Returns (copy_secret rt o h) λ o' h'.
        (secret_at h' o' ≡ secret_at h o)
        × IsSecretPtr h' o'
        × IsNew h o'
        × IsExtended fair.meta_value h h'
  unfolding copy_secret
  copy_secret_lem none h ok = (refl, tt, tt, IsExtended-refl fair.meta_value h)
  copy_secret_lem (some p) h ok = split (h.secrets p) refl
    where
      split :
          (v : Option LocalObjectReference)
          → h.secrets p ≡ v
          → Returns (copy_secret rt (some p) h) λ o' h'.
            (secret_at h' o' ≡ secret_at h (some p))
            × IsSecretPtr h' o'
            × IsNew h o'
            × IsExtended fair.meta_value h h'
      split none e = cc (e, ok.1)
      split (some v) e =
          rw (copy_secret-some p h v e, e)
            (
              update-new h.secrets v h.next,
              (omega arith, ap is_some (update-new h.secrets v h.next)),
              omega arith,
              IsExtended-with_secret fair.meta_value h v,
            )

  pub copy_selector_lem :
      (o : Option Ptr) (h : Heap M R)
      → IsMapPtr h o
      → Returns (copy_selector rt o h) λ o' h'.
        (map_at h' o' ≡ map_at h o) × IsMapPtr h' o' × IsNew h o' × IsExtended fair.meta_value h h'
  unfolding copy_selector
  copy_selector_lem none h ok = (refl, tt, tt, IsExtended-refl fair.meta_value h)
  copy_selector_lem (some p) h ok = split (h.maps p) refl
    where
      split :
          (m : Option (Dict String))
          → h.maps p ≡ m
          → Returns (copy_selector rt (some p) h) λ o' h'.
            (map_at h' o' ≡ map_at h (some p))
            × IsMapPtr h' o'
            × IsNew h o'
            × IsExtended fair.meta_value h h'
      split none e = cc (e, ok.1)
      split (some m) e =
          rw (copy_selector-some p h m e, e)
            (
              rw update-new (
                  ap some (
                    fun_ext
                      λ k. lookup-copy_entries (rt.range m) k (fair.distinct m) ∙ fair.visits m k)),
              (omega arith, ap is_some (update-new h.maps (copy_entries (rt.range m) []) h.next)),
              omega arith,
              IsExtended-with_map fair.meta_value h (copy_entries (rt.range m) []),
            )
