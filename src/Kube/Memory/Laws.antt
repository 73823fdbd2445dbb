-- ===== src/Kube/Memory/Laws.antt =====
-- The server in memory behaves as the hypotheses about the libraries say.

use operator_for_ai_chips_on.Common.{
  Bool, ◌≡◌, ◌≢◌, refl, ap, ◌∙◌, String, eq_iff, true, false, inl, none, some, List, [], ◌∷◌, ◌++◌,
  external, ok, is_ok, arith,
}
use operator_for_ai_chips_on.K8s.{ObjectMeta, NamespacedName}
use operator_for_ai_chips_on.Api.{DeviceConfig}
use operator_for_ai_chips_on.Kube.Defs.{Kind, Obj, GoError}
use operator_for_ai_chips_on.Kube.Traced.{obj_key, key_of}
use operator_for_ai_chips_on.Kube.Lawful.{
  SameObject, HandlesFinalizers, HandlesOwners, IsSteady, IsQuiet, IsPrompt, IsReleasing,
  IsValidating, images_given_to,
}
use operator_for_ai_chips_on.Kube.Memory.Tables.{
  apply_succeeds_lem, same_name_iff, patch_find_lem, delete_find_lem, delete_gone_lem,
  apply_stored_lem, apply_ok_lem, apply_other_kind_lem, apply_other_name_lem, before_lem,
  get_absent_lem, delete_stored_lem, get_not_found_lem, get_found_lem, patch_succeeded_lem,
  patch_failed_lem, refused_lem, release_find_lem,
}
use operator_for_ai_chips_on.Kube.Memory.{
  memory_util, server, memory_client, strict_client, patch_stored, release, contains, without,
  Table, World, admit, find, get_or, not_found,
}

contains-append : (fs : List String) (f : String) → contains (fs ++ (f ∷ [])) f ≡ true
contains-append [] f = ground (arith, eq_iff f f)
contains-append (g ∷ gs) f = ground (arith, contains-append gs f)

contains-without : (fs : List String) (f : String) → contains (without fs f) f ≡ false
contains-without [] f = refl
contains-without (g ∷ gs) f = ground (arith, contains-without gs f)

contains-add_lem :
    (m : ObjectMeta) (f : String) → contains (memory_util.add_finalizer m f).finalizers f ≡ true
contains-add_lem m f = ground (arith, contains-append m.finalizers f)

add-SameObject_lem : (m : ObjectMeta) (f : String) → SameObject (memory_util.add_finalizer m f) m
add-SameObject_lem m f = ground arith

pub memory_util-HandlesFinalizers : HandlesFinalizers memory_util
memory_util-HandlesFinalizers = record {
  contains_of_finalizers = λ m n f p. rw p;
  contains-nil = λ m f p. rw p;
  contains-add = contains-add_lem;
  contains-remove = λ m f. contains-without m.finalizers f;
  add-SameObject = add-SameObject_lem;
  remove-SameObject = λ m f. record { namespace = refl; name = refl; deletion_timestamp = refl };
}

module _ (strict : Bool) where
  pub get_present_lem :
      (k : Kind) (n : NamespacedName) (w : World) (o : Obj k)
      → ((server strict).get k n w).0 ≡ ok o
      → (find k n w ≡ some o) × (obj_key k o ≡ n)
  get_present_lem k n w o p = (ground (arith, same_name_iff (obj_key k o) n))

  pub patch_failed-lem :
      (d b : DeviceConfig) (w : World) (n : NamespacedName)
      → ((server strict).patch d b w).0 ≢ none
      → ((server strict).patch d b w).2.configs n ≡ w.configs n
  patch_failed-lem d b w n p =
      ap (λ (v : World). v.configs n) (patch_failed_lem d b w (w.configs (key_of d.meta)) p)

  abbrev pub server-IsQuiet : IsQuiet (server strict)
  server-IsQuiet = record {
    find = find;
    stored = λ n w. w.configs n;
    admit = admit;
    get_world = λ k n w. refl;
    get_present = get_present_lem;
    get_absent = λ k n w e p q. get_absent_lem strict k n w e p;
    delete_find = delete_find_lem strict;
    delete_stored =
        λ k o w n. ap (λ (t : Table DeviceConfig). t n) (delete_stored_lem strict k o w);
    patch_find = λ d b w k n. patch_find_lem d b w k n (w.configs (key_of d.meta));
    patch_succeeded = λ d b w p. patch_succeeded_lem d b w (w.configs (key_of d.meta)) refl p;
    patch_failed = λ d b w n p. inl (patch_failed-lem d b w n p);
    apply_stored = λ k o f w n.
        ap (λ (t : Table DeviceConfig). t n)
          (apply_stored_lem strict k (obj_key k o) (f (get_or (find k (obj_key k o) w) o)) _ w);
    apply_ok = λ k o f w r p.
        let before = get_or (find k (obj_key k o) w) o in
        let done = apply_ok_lem strict k (obj_key k o) (f before) _ w r p in
        (before, before_lem k o w, done.0, done.1);
    apply_other_kind = λ k o f w j n d.
        apply_other_kind_lem strict k (obj_key k o) (f (get_or (find k (obj_key k o) w) o)) _ w j n
          d;
    apply_other_name = λ k o f w n d.
        apply_other_name_lem strict k (obj_key k o) (f (get_or (find k (obj_key k o) w) o)) _ w n d;
  }

  pub patch_ok_lem :
      (d b c : DeviceConfig) (w : World)
      → w.configs (key_of d.meta) ≡ some c
      → ((server strict).patch d b w).0 ≡ none
  patch_ok_lem d b c w p = ap (λ o. (patch_stored d b w o).0) p

  pub server-IsPrompt : IsPrompt server-IsQuiet
  server-IsPrompt = record {
    get_found = get_found_lem strict;
    get_not_found = λ k n w p. (external not_found, get_not_found_lem strict k n w p, refl);
    delete_ok = λ k o w p. refl;
    patch_ok = patch_ok_lem;
    apply_succeeds =
        λ k o f w a p q i. rw a (apply_succeeds_lem strict k (obj_key k o) (f o) false w p q i);
  }

  -- An object without finalizers is gone before anybody could release it.
  abbrev pub server-IsReleasing : IsReleasing server-IsQuiet
  server-IsReleasing = record {
    release = release;
    release_find = release_find_lem;
    release_stored = λ n w. refl;
    delete_released = λ k o w p. delete_gone_lem strict k o w;
  }

  pub server-IsSteady : IsSteady server-IsQuiet
  server-IsSteady = record {
    admit_module = λ o. refl;
    admit_module_others = λ o. refl;
    admit_daemon_set = λ o. refl;
    admit_deployment = λ o. ground arith;
  }

pub refused-lem :
    (k : Kind) (o : Obj k) (f : Obj k → Obj k × GoError memory_util) (w : World)
    → find k (obj_key k o) w ≡ none
    → images_given_to k (f o).0 ≡ false
    → (is_ok (strict_client.create_or_patch k o f w).0 ≡ false)
      × (find k (obj_key k o) (strict_client.create_or_patch k o f w).2 ≡ none)
refused-lem k o f w a i =
    let r = refused_lem k (obj_key k o) (f o) false w i in
    rw a (r.0, ap (find k (obj_key k o)) r.1 ∙ a)

pub strict_client-IsValidating : IsValidating (server-IsQuiet true)
strict_client-IsValidating = record { refused = refused-lem }

abbrev pub memory_client-IsQuiet : IsQuiet memory_client
memory_client-IsQuiet = server-IsQuiet false

abbrev pub strict_client-IsQuiet : IsQuiet strict_client
strict_client-IsQuiet = server-IsQuiet true

reference_again_lem :
    (d : DeviceConfig) (m : ObjectMeta) (scheme : Unit {0})
    → (memory_util.set_controller_reference d m scheme).1 ≡ none
    → (memory_util.set_controller_reference d
        (memory_util.set_controller_reference d m scheme).0
        scheme).0
      ≡ (memory_util.set_controller_reference d m scheme).0
reference_again_lem d m scheme p = ground (arith, eq_iff d.meta.name d.meta.name)

pub memory_util-HandlesOwners : HandlesOwners memory_util
memory_util-HandlesOwners = record {
  reference_SameObject = λ d m s. ground arith;
  reference_again = reference_again_lem;
  reference_ok = λ d m s p. rw p refl;
}
