-- ===== src/Kube/Lawful.antt =====
-- Documented behaviour of the libraries, as hypotheses of the theorems that need it.
use operator_for_ai_chips_on.Common.{
  ◌≡◌, ◌≢◌, ◌⊎◌, String, Bool, is_some, true, false, Option, none, some, [], Error, ok, err, is_ok,
}
use operator_for_ai_chips_on.K8s.{ObjectMeta, NamespacedName, Module, DaemonSet, Deployment}
use operator_for_ai_chips_on.Api.{DeviceConfig}
use operator_for_ai_chips_on.Kube.Defs.{
  module_kind, daemon_set_kind, deployment_kind, Kind, Obj, Util, Client, GoError, OperationResult,
}
use operator_for_ai_chips_on.Kube.Traced.{obj_key}
use operator_for_ai_chips_on.K8s.Selectors.{images_given}

-- Two pieces of metadata that differ in finalizers and owners at most.
pub record SameObject (m n : ObjectMeta) : Type 0 where
  pub namespace : m.namespace ≡ n.namespace
  pub name : m.name ≡ n.name
  pub deletion_timestamp : m.deletion_timestamp ≡ n.deletion_timestamp

-- What a merge patch with the difference of `d` to its base `b`, which are the same object, makes of
-- the DeviceConfig `c` that is stored: a list is sent as a whole if it differs, and not at all if not.
pub record IsMerged (d b c e : DeviceConfig) : Type 0 where
  pub same : SameObject d.meta b.meta → SameObject e.meta c.meta
  pub finalizers :
      ((d.meta.finalizers ≢ b.meta.finalizers) × (e.meta.finalizers ≡ d.meta.finalizers))
      ⊎ ((d.meta.finalizers ≡ b.meta.finalizers) × (e.meta.finalizers ≡ c.meta.finalizers))
  pub spec : d.spec ≡ b.spec → e.spec ≡ c.spec

-- The DeviceConfig that is stored before and after a patch that took effect, with the answer `e`. It
-- goes away if it is being deleted and no finalizer is left.
pub record IsPatched (d b : DeviceConfig) (before after : Option DeviceConfig) (e : DeviceConfig)
    : Type 0 where
  pub merged : (c : DeviceConfig) × (before ≡ some c) × IsMerged d b c e
  pub left :
      (after ≡ some e)
      ⊎ ((after ≡ none) × (e.meta.finalizers ≡ []) × (is_some e.meta.deletion_timestamp ≡ true))

-- controllerutil's functions on finalizers.
pub record HandlesFinalizers (U : Util) : Type 0 where
  pub contains_of_finalizers :
      (m n : ObjectMeta) (f : String)
      → m.finalizers ≡ n.finalizers
      → U.contains_finalizer m f ≡ U.contains_finalizer n f
  pub contains-nil :
      (m : ObjectMeta) (f : String) → m.finalizers ≡ [] → U.contains_finalizer m f ≡ false
  pub contains-add :
      (m : ObjectMeta) (f : String) → U.contains_finalizer (U.add_finalizer m f) f ≡ true
  pub contains-remove :
      (m : ObjectMeta) (f : String) → U.contains_finalizer (U.remove_finalizer m f) f ≡ false
  pub add-SameObject : (m : ObjectMeta) (f : String) → SameObject (U.add_finalizer m f) m
  pub remove-SameObject : (m : ObjectMeta) (f : String) → SameObject (U.remove_finalizer m f) m

-- A client that reads what the API server holds, at a time when nobody else writes to the objects
-- in question. Any call may fail.
pub record IsQuiet {U : Util} (C : Client U) : Type 0 where
  -- What the server holds, and what it makes of an object that is written (its defaults).
  pub find : (k : Kind) → NamespacedName → C.World → Option (Obj k)
  pub stored : NamespacedName → C.World → Option DeviceConfig
  pub admit : (k : Kind) → Obj k → Obj k
  -- Get
  pub get_world : (k : Kind) (n : NamespacedName) (w : C.World) → (C.get k n w).1 ≡ w
  pub get_present :
      (k : Kind) (n : NamespacedName) (w : C.World) (o : Obj k)
      → (C.get k n w).0 ≡ ok o
      → (find k n w ≡ some o) × (obj_key k o ≡ n)
  pub get_absent :
      (k : Kind) (n : NamespacedName) (w : C.World)
      → (e : Error U.Failure) → (C.get k n w).0 ≡ err e
      → U.is_not_found e ≡ true
      → find k n w ≡ none
  -- Delete makes no object appear.
  pub delete_find :
      (k : Kind) (o : Obj k) (w : C.World) (j : Kind) (n : NamespacedName)
      → find j n w ≡ none
      → find j n (C.delete k o w).1 ≡ none
  pub delete_stored :
      (k : Kind) (o : Obj k) (w : C.World) (n : NamespacedName)
      → stored n (C.delete k o w).1 ≡ stored n w
  -- Patch of a DeviceConfig touches no Module, DaemonSet or Deployment. A patch that succeeds found
  -- the DeviceConfig of that name and merged the difference into it; one that fails did so too, and
  -- its answer was lost, or it changed nothing.
  pub patch_find :
      (d b : DeviceConfig) (w : C.World) (k : Kind) (n : NamespacedName)
      → find k n (C.patch d b w).2 ≡ find k n w
  pub patch_succeeded :
      (d b : DeviceConfig) (w : C.World)
      → (C.patch d b w).0 ≡ none
      → let n : NamespacedName = record { namespace = d.meta.namespace; name = d.meta.name } in
        IsPatched d b (stored n w) (stored n (C.patch d b w).2) (C.patch d b w).1
  pub patch_failed :
      (d b : DeviceConfig) (w : C.World) (n : NamespacedName)
      → (C.patch d b w).0 ≢ none
      → (stored n (C.patch d b w).2 ≡ stored n w)
        ⊎ ((e : DeviceConfig) × IsPatched d b (stored n w) (stored n (C.patch d b w).2) e)
  -- CreateOrPatch stores what the function makes of the object that is there, or of the given one.
  pub apply_stored :
      (k : Kind) (o : Obj k) (f : Obj k → Obj k × GoError U) (w : C.World) (n : NamespacedName)
      → stored n (C.create_or_patch k o f w).2 ≡ stored n w
  pub apply_ok :
      (k : Kind) (o : Obj k) (f : Obj k → Obj k × GoError U) (w : C.World) (r : OperationResult)
      → (C.create_or_patch k o f w).0 ≡ ok r
      → (before : Obj k) × ((find k (obj_key k o) w ≡ some before)
          ⊎ ((find k (obj_key k o) w ≡ none) × (before ≡ o)))
        × ((f before).1 ≡ none)
        × (find k (obj_key k o) (C.create_or_patch k o f w).2 ≡ some (admit k (f before).0))
  pub apply_other_kind :
      (k : Kind) (o : Obj k) (f : Obj k → Obj k × GoError U) (w : C.World) (j : Kind)
      (n : NamespacedName)
      → j ≢ k
      → find j n (C.create_or_patch k o f w).2 ≡ find j n w
  pub apply_other_name :
      (k : Kind) (o : Obj k) (f : Obj k → Obj k × GoError U) (w : C.World) (n : NamespacedName)
      → n ≢ obj_key k o
      → find k n (C.create_or_patch k o f w).2 ≡ find k n w

-- The API server refuses a workload that has a container without an image.
abbrev pub images_given_to : (k : Kind) → Obj k → Bool
images_given_to module_kind o = true
images_given_to daemon_set_kind o = images_given o.spec.template.spec
images_given_to deployment_kind o = images_given o.spec.template.spec

-- Every call succeeds, but for the writes of workloads that have a container without an image.
pub record IsPrompt {U : Util} {C : Client U} (Q : IsQuiet C) : Type 0 where
  pub get_found :
      (k : Kind) (n : NamespacedName) (w : C.World) (o : Obj k)
      → Q.find k n w ≡ some o
      → (C.get k n w).0 ≡ ok o
  pub get_not_found :
      (k : Kind) (n : NamespacedName) (w : C.World)
      → Q.find k n w ≡ none
      → (e : Error U.Failure) × ((C.get k n w).0 ≡ err e) × (U.is_not_found e ≡ true)
  pub delete_ok :
      (k : Kind) (o : Obj k) (w : C.World)
      → Q.find k (obj_key k o) w ≡ some o
      → (C.delete k o w).0 ≡ none
  pub patch_ok :
      (d b c : DeviceConfig) (w : C.World)
      → Q.stored (record { namespace = d.meta.namespace; name = d.meta.name }) w ≡ some c
      → (C.patch d b w).0 ≡ none
  pub apply_succeeds :
      (k : Kind) (o : Obj k) (f : Obj k → Obj k × GoError U) (w : C.World)
      → Q.find k (obj_key k o) w ≡ none
      → (f o).1 ≡ none
      → obj_key k (f o).0 ≡ obj_key k o
      → images_given_to k (f o).0 ≡ true
      → is_ok (C.create_or_patch k o f w).0 ≡ true

-- The API server validates what is created: it refuses, and does not store, a workload that has a
-- container without an image.
pub record IsValidating {U : Util} {C : Client U} (Q : IsQuiet C) : Type 0 where
  pub refused :
      (k : Kind) (o : Obj k) (f : Obj k → Obj k × GoError U) (w : C.World)
      → Q.find k (obj_key k o) w ≡ none
      → images_given_to k (f o).0 ≡ false
      → (is_ok (C.create_or_patch k o f w).0 ≡ false)
        × (Q.find k (obj_key k o) (C.create_or_patch k o f w).2 ≡ none)

-- What the other controllers do between two calls of Reconcile: of an object that was deleted they
-- take off the finalizers that they put on it, after which the API server removes it.
pub record IsReleasing {U : Util} {C : Client U} (Q : IsQuiet C) : Type 0 where
  pub release : C.World → C.World
  pub release_find :
      (k : Kind) (n : NamespacedName) (w : C.World)
      → Q.find k n w ≡ none
      → Q.find k n (release w) ≡ none
  pub release_stored : (n : NamespacedName) (w : C.World) → Q.stored n (release w) ≡ Q.stored n w
  pub delete_released :
      (k : Kind) (o : Obj k) (w : C.World)
      → (C.delete k o w).0 ≡ none
      → Q.find k (obj_key k o) (release (C.delete k o w).1) ≡ none

-- controllerutil.SetControllerReference changes the owners alone, and succeeds on an object that
-- has none.
pub record HandlesOwners (U : Util) : Type 0 where
  pub reference_SameObject :
      (d : DeviceConfig) (m : ObjectMeta) (scheme : U.Scheme)
      → SameObject (U.set_controller_reference d m scheme).0 m
  pub reference_ok :
      (d : DeviceConfig) (m : ObjectMeta) (scheme : U.Scheme)
      → m.owner_references ≡ []
      → (U.set_controller_reference d m scheme).1 ≡ none
  -- A second call finds the owner there.
  pub reference_again :
      (d : DeviceConfig) (m : ObjectMeta) (scheme : U.Scheme)
      → (U.set_controller_reference d m scheme).1 ≡ none
      → (U.set_controller_reference d (U.set_controller_reference d m scheme).0 scheme).0
        ≡ (U.set_controller_reference d m scheme).0

-- The defaults of the API server leave the metadata of a workload alone, and the fields of a Module
-- that the operator does not name.
pub record IsSteady {U : Util} {C : Client U} (Q : IsQuiet C) : Type 0 where
  pub admit_module : (o : Module) → (Q.admit module_kind o).meta ≡ o.meta
  pub admit_module_others : (o : Module) → (Q.admit module_kind o).spec.others ≡ o.spec.others
  pub admit_daemon_set : (o : DaemonSet) → (Q.admit daemon_set_kind o).meta ≡ o.meta
  pub admit_deployment : (o : Deployment) → (Q.admit deployment_kind o).meta ≡ o.meta
