-- ===== src/Kube/Memory/Tables.antt =====
-- Reading and writing the tables of the server in memory.
use mathlib.Core.Path.{subst}
use operator_for_ai_chips_on.Common.{
  ap, ◌∙◌, String, List, ◌∷◌, Option, false, is_some, is_ok, ◌≡◌, ◌≢◌, refl, sym, ◌↔◌, ◌⊎◌, eq_iff,
  Bool, true, none, some, [], Error, external, ok, err, arith,
}
use operator_for_ai_chips_on.K8s.{NamespacedName}
use operator_for_ai_chips_on.Api.{DeviceConfig}
use operator_for_ai_chips_on.Kube.Defs.{
  Kind, module_kind, daemon_set_kind, deployment_kind, Obj, GoError, OperationResult,
}
use operator_for_ai_chips_on.Kube.Traced.{obj_key, key_of}
use operator_for_ai_chips_on.Kube.Lawful.{images_given_to, IsMerged, IsPatched}
use operator_for_ai_chips_on.Kube.Memory.{
  named_so, deleted_of, released, release, memory_util, server, same_texts, merge, kept,
  patch_stored, same_name, Table, write, World, table, set_table, admit, find, apply_written,
  Failure, get_or, not_found,
}

Kind-discrete : Discrete Kind
Kind-discrete = hlevel

pub same_name_iff : (a b : NamespacedName) → (same_name a b ≡ true) ↔ (a ≡ b)
same_name_iff a b = ground (arith, eq_iff a.namespace b.namespace, eq_iff a.name b.name)

table-set_table : (k : Kind) (t : Table (Obj k)) (w : World) → table k (set_table k t w) ≡ t
table-set_table module_kind t w = refl
table-set_table daemon_set_kind t w = refl
table-set_table deployment_kind t w = refl

configs-set_table :
    (k : Kind) (t : Table (Obj k)) (w : World) → (set_table k t w).configs ≡ w.configs
configs-set_table module_kind t w = refl
configs-set_table daemon_set_kind t w = refl
configs-set_table deployment_kind t w = refl

table-set_table_other :
    (k : Kind) (t : Table (Obj k)) (w : World) (j : Kind)
    → j ≢ k
    → table j (set_table k t w) ≡ table j w
table-set_table_other module_kind t w module_kind d = absurd (d refl)
table-set_table_other module_kind t w daemon_set_kind d = refl
table-set_table_other module_kind t w deployment_kind d = refl
table-set_table_other daemon_set_kind t w module_kind d = refl
table-set_table_other daemon_set_kind t w daemon_set_kind d = absurd (d refl)
table-set_table_other daemon_set_kind t w deployment_kind d = refl
table-set_table_other deployment_kind t w module_kind d = refl
table-set_table_other deployment_kind t w daemon_set_kind d = refl
table-set_table_other deployment_kind t w deployment_kind d = absurd (d refl)

obj_key-admit : (k : Kind) (o : Obj k) → obj_key k (admit k o) ≡ obj_key k o
obj_key-admit module_kind o = refl
obj_key-admit daemon_set_kind o = refl
obj_key-admit deployment_kind o = ground arith

pub find-set_table_other :
    (k : Kind) (t : Table (Obj k)) (w : World) (j : Kind) (n : NamespacedName)
    → j ≢ k
    → find j n (set_table k t w) ≡ find j n w
find-set_table_other k t w j n d = rw (table-set_table_other k t w j d) refl

-- What is deleted, or released, keeps its name.
named_so-deleted_of :
    (k : Kind) (n : NamespacedName) (o : Option (Obj k))
    → named_so k n o ≡ none
    → named_so k n (deleted_of k o) ≡ none
named_so-deleted_of k n none p = refl
named_so-deleted_of module_kind n (some o) p = ground arith
named_so-deleted_of daemon_set_kind n (some o) p = ground arith
named_so-deleted_of deployment_kind n (some o) p = ground arith

named_so-released :
    (k : Kind) (n : NamespacedName) (o : Option (Obj k))
    → named_so k n o ≡ none
    → named_so k n (released k o) ≡ none
named_so-released k n none p = refl
named_so-released k n (some o) p = ground arith

released-deleted_of : (k : Kind) (o : Option (Obj k)) → released k (deleted_of k o) ≡ none
released-deleted_of k none = refl
released-deleted_of module_kind (some o) = ground arith
released-deleted_of daemon_set_kind (some o) = ground arith
released-deleted_of deployment_kind (some o) = ground arith

table-release :
    (k : Kind) (n : NamespacedName) (w : World) → table k (release w) n ≡ released k (table k w n)
table-release module_kind n w = refl
table-release daemon_set_kind n w = refl
table-release deployment_kind n w = refl

pub release_find_lem :
    (k : Kind) (n : NamespacedName) (w : World) → find k n w ≡ none → find k n (release w) ≡ none
release_find_lem k n w p = rw (table-release k n w) (named_so-released k n (table k w n) p)

delete_same_lem :
    (strict : Bool) (k : Kind) (o : Obj k) (w : World) (n : NamespacedName)
    → find k n w ≡ none
    → find k n ((server strict).delete k o w).1 ≡ none
delete_same_lem strict k o w n p =
    rw
      (table-set_table k (write (obj_key k o) (deleted_of k (table k w (obj_key k o))) (table k w))
        w)
      (ground (arith, same_name_iff (obj_key k o) n, named_so-deleted_of k n (table k w n) p))

pub patch_find_lem :
    (d b : DeviceConfig) (w : World) (k : Kind) (n : NamespacedName) (o : Option DeviceConfig)
    → find k n (patch_stored d b w o).2 ≡ find k n w
patch_find_lem d b w k n none = refl
patch_find_lem d b w module_kind n (some c) = refl
patch_find_lem d b w daemon_set_kind n (some c) = refl
patch_find_lem d b w deployment_kind n (some c) = refl

pub delete_find_lem :
    (strict : Bool) (k : Kind) (o : Obj k) (w : World) (j : Kind) (n : NamespacedName)
    → find j n w ≡ none
    → find j n ((server strict).delete k o w).1 ≡ none
delete_find_lem strict k o w j n p = elim (Kind-discrete j k) [
  | yes same ↦
      subst (λ i. find i n w ≡ none → find i n ((server strict).delete k o w).1 ≡ none) (sym same)
        (delete_same_lem strict k o w n) p
  | no differ ↦
      rw
        (find-set_table_other k
          (write (obj_key k o) (deleted_of k (table k w (obj_key k o))) (table k w)) w j n differ)
        p
]

pub delete_gone_lem :
    (strict : Bool) (k : Kind) (o : Obj k) (w : World)
    → find k (obj_key k o) (release ((server strict).delete k o w).1) ≡ none
delete_gone_lem strict k o w =
    let n : NamespacedName = obj_key k o in
    let t : Table (Obj k) = write n (deleted_of k (table k w n)) (table k w) in
    let there : t n ≡ deleted_of k (table k w n) = rw ((same_name_iff n n).1 refl) refl in
    ap (named_so k n) (
      table-release k n (set_table k t w)
      ∙ (ap (λ (u : Table (Obj k)). released k (u n)) (table-set_table k t w)
          ∙ (ap (released k) there ∙ released-deleted_of k (table k w n))))

pub apply_stored_lem :
    (strict : Bool) (k : Kind) (n : NamespacedName) (r : Obj k × GoError memory_util) (old : Bool)
    (w : World)
    → (apply_written strict k n r old w).2.configs ≡ w.configs
apply_stored_lem strict k n (o, some e) old w = refl
apply_stored_lem strict k n (o, none) old w =
    (ground (arith, configs-set_table k (write n (some (admit k o)) (table k w)) w))

pub apply_ok_lem :
    (strict : Bool) (k : Kind) (n : NamespacedName) (r : Obj k × GoError memory_util) (old : Bool)
    (w : World) (x : OperationResult)
    → (apply_written strict k n r old w).0 ≡ ok x
    → (r.1 ≡ none) × (find k n (apply_written strict k n r old w).2 ≡ some (admit k r.0))
apply_ok_lem strict k n (o, some e) old w x p = cc
apply_ok_lem strict k n (o, none) old w x p =
    (ground (
      arith,
      table-set_table k (write n (some (admit k o)) (table k w)) w,
      same_name_iff n n,
      same_name_iff (obj_key k o) n,
      obj_key-admit k o,
    ))

pub apply_other_kind_lem :
    (strict : Bool) (k : Kind) (n : NamespacedName) (r : Obj k × GoError memory_util) (old : Bool)
    (w : World) (j : Kind) (m : NamespacedName)
    → j ≢ k
    → find j m (apply_written strict k n r old w).2 ≡ find j m w
apply_other_kind_lem strict k n (o, some e) old w j m d = refl
apply_other_kind_lem strict k n (o, none) old w j m d =
    ground (arith, find-set_table_other k (write n (some (admit k o)) (table k w)) w j m d)

pub apply_other_name_lem :
    (strict : Bool) (k : Kind) (n : NamespacedName) (r : Obj k × GoError memory_util) (old : Bool)
    (w : World) (m : NamespacedName)
    → m ≢ n
    → find k m (apply_written strict k n r old w).2 ≡ find k m w
apply_other_name_lem strict k n (o, some e) old w m d = refl
apply_other_name_lem strict k n (o, none) old w m d =
    ground (arith, table-set_table k (write n (some (admit k o)) (table k w)) w, same_name_iff n m)

pub before_lem :
    (k : Kind) (o : Obj k) (w : World)
    → let before = get_or (find k (obj_key k o) w) o in
      (find k (obj_key k o) w ≡ some before) ⊎ ((find k (obj_key k o) w ≡ none) × (before ≡ o))
before_lem k o w = ground arith

same_texts_iff : (fs gs : List String) → (same_texts fs gs ≡ true) ↔ (fs ≡ gs)
same_texts_iff [] [] = ground arith
same_texts_iff [] (g ∷ gs) = ground arith
same_texts_iff (f ∷ fs) [] = ground arith
same_texts_iff (f ∷ fs) (g ∷ gs) = ground (arith, eq_iff f g, same_texts_iff fs gs)

merge-IsMerged : (d b c : DeviceConfig) → IsMerged d b c (merge d b c)
merge-IsMerged d b c = record {
  same = λ s. ground arith;
  finalizers = ground (arith, same_texts_iff d.meta.finalizers b.meta.finalizers);
  spec = λ s. ground arith;
}

kept-left :
    (e : DeviceConfig)
    → (kept e ≡ some e)
      ⊎ ((kept e ≡ none) × (e.meta.finalizers ≡ []) × (is_some e.meta.deletion_timestamp ≡ true))
kept-left e = ground arith

pub patch_succeeded_lem :
    (d b : DeviceConfig) (w : World) (o : Option DeviceConfig)
    → w.configs (key_of d.meta) ≡ o
    → (patch_stored d b w o).0 ≡ none
    → IsPatched d b o ((patch_stored d b w o).2.configs (key_of d.meta)) (patch_stored d b w o).1
patch_succeeded_lem d b w none p nil = cc (nil)
patch_succeeded_lem d b w (some c) p nil =
    let written : write (key_of d.meta) (kept (merge d b c)) w.configs (key_of d.meta)
        ≡ kept (merge d b c) =
      rw ((same_name_iff (key_of d.meta) (key_of d.meta)).1 refl) refl in
    record { merged = (c, refl, merge-IsMerged d b c); left = rw written (kept-left (merge d b c)) }

pub patch_failed_lem :
    (d b : DeviceConfig) (w : World) (o : Option DeviceConfig)
    → (patch_stored d b w o).0 ≢ none
    → (patch_stored d b w o).2 ≡ w
patch_failed_lem d b w none p = refl
patch_failed_lem d b w (some c) p = absurd (p refl)

pub get_absent_lem :
    (strict : Bool) (k : Kind) (n : NamespacedName) (w : World) (e : Error Failure)
    → ((server strict).get k n w).0 ≡ err e
    → find k n w ≡ none
get_absent_lem strict k n w e p = ground arith

pub delete_stored_lem :
    (strict : Bool) (k : Kind) (o : Obj k) (w : World)
    → ((server strict).delete k o w).1.configs ≡ w.configs
delete_stored_lem strict k o w =
    configs-set_table k (write (obj_key k o) (deleted_of k (table k w (obj_key k o))) (table k w)) w

pub get_not_found_lem :
    (strict : Bool) (k : Kind) (n : NamespacedName) (w : World)
    → find k n w ≡ none
    → ((server strict).get k n w).0 ≡ err (external not_found)
get_not_found_lem strict k n w p = ground arith

pub get_found_lem :
    (strict : Bool) (k : Kind) (n : NamespacedName) (w : World) (o : Obj k)
    → find k n w ≡ some o
    → ((server strict).get k n w).0 ≡ ok o
get_found_lem strict k n w o p = ground arith

pub apply_succeeds_lem :
    (strict : Bool) (k : Kind) (n : NamespacedName) (r : Obj k × GoError memory_util) (old : Bool)
    (w : World)
    → r.1 ≡ none
    → obj_key k r.0 ≡ n
    → images_given_to k r.0 ≡ true
    → is_ok (apply_written strict k n r old w).0 ≡ true
apply_succeeds_lem strict k n (o, some e) old w p q i = cc (p)
apply_succeeds_lem strict k n (o, none) old w p q i = ground (arith, same_name_iff (obj_key k o) n)

pub refused_lem :
    (k : Kind) (n : NamespacedName) (r : Obj k × GoError memory_util) (old : Bool) (w : World)
    → images_given_to k r.0 ≡ false
    → (is_ok (apply_written true k n r old w).0 ≡ false) × ((apply_written true k n r old w).2 ≡ w)
refused_lem k n (o, some e) old w i = (refl, refl)
refused_lem k n (o, none) old w i = ground arith
