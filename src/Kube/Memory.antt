-- ===== src/Kube/Memory.antt =====
-- An API server in memory and library functions that behave as documented: the values at which the
-- theorems about abstract libraries are applied.
pub mod Tables
pub mod Laws
use operator_for_ai_chips_on.Common.{
  ℕ, String, ◌<>◌, ◌==◌, Bool, true, false, ◌&&◌, ◌||◌, not, Option, none, some, List, [], ◌∷◌,
  ◌++◌, Error, external, errorf, Result, ok, err, if◌then◌else◌, is_some,
}
use operator_for_ai_chips_on.K8s.{
  ObjectMeta, NamespacedName, OwnerReference, Module, DaemonSet, Deployment,
}
use operator_for_ai_chips_on.Api.{DeviceConfig}
use operator_for_ai_chips_on.Kube.Defs.{
  Kind, module_kind, daemon_set_kind, deployment_kind, Obj, Util, Client, GoError, OperationResult,
  created, updated,
}
use operator_for_ai_chips_on.Kube.Traced.{obj_key, key_of}
use operator_for_ai_chips_on.Kube.Lawful.{images_given_to}

pub data Failure : Type 0 where
  not_found already_owned renamed invalid : Failure

abbrev message : Failure → String
message not_found = "not found"
message already_owned = "already owned"
message renamed = "renamed"
message invalid = "invalid"

abbrev is_not_found : Error Failure → Bool
is_not_found (external not_found) = true
is_not_found (external already_owned) = false
is_not_found (external renamed) = false
is_not_found (external invalid) = false
is_not_found (errorf s) = false

abbrev pub contains : List String → String → Bool
contains [] f = false
contains (g ∷ gs) f = g == f || contains gs f

abbrev pub without : List String → String → List String
without [] f = []
without (g ∷ gs) f = let rest = without gs f in if g == f then rest else g ∷ rest

abbrev add : ObjectMeta → String → ObjectMeta
add m f = if contains m.finalizers f then m else record m { finalizers = m.finalizers ++ (f ∷ []) }

abbrev remove : ObjectMeta → String → ObjectMeta
remove m f = record m { finalizers = without m.finalizers f }

-- Some other DeviceConfig is the controller.
abbrev owned_by_other : List OwnerReference → String → Bool
owned_by_other [] n = false
owned_by_other (o ∷ os) n = (o.controller && not (o.owner_name == n)) || owned_by_other os n

abbrev owned_by : List OwnerReference → String → Bool
owned_by [] n = false
owned_by (o ∷ os) n = (o.controller && o.owner_name == n) || owned_by os n

abbrev set_controller_reference :
    DeviceConfig → ObjectMeta → Unit {0} → ObjectMeta × Option (Error Failure)
set_controller_reference d m _ =
    if owned_by_other m.owner_references d.meta.name
    then (m, some (external already_owned))
    else if owned_by m.owner_references d.meta.name
    then (m, none)
    else (
      record m {
        owner_references =
            record { owner_kind = "DeviceConfig"; owner_name = d.meta.name; controller = true }
            ∷ m.owner_references;
      },
      none,
    )

abbrev pub memory_util : Util
memory_util = record {
  Failure = Failure;
  message = message;
  is_not_found = is_not_found;
  render_name = λ n. n.namespace <> ("/" <> n.name);
  Scheme = Unit {0};
  set_controller_reference = set_controller_reference;
  contains_finalizer = λ m f. contains m.finalizers f;
  add_finalizer = add;
  remove_finalizer = remove;
  kernel_module_ready_node_label =
      λ ns n. "kmm.node.kubernetes.io/" <> (ns <> ("." <> (n <> ".ready")));
}

abbrev pub same_name : NamespacedName → NamespacedName → Bool
same_name a b = a.namespace == b.namespace && a.name == b.name

abbrev pub Table : Type 0 → Type 0
Table A = NamespacedName → Option A

abbrev pub write : {A : Type 0} → NamespacedName → Option A → Table A → Table A
write n v t m = if same_name n m then v else t m

pub record World : Type 0 where
  pub modules : Table Module
  pub daemon_sets : Table DaemonSet
  pub deployments : Table Deployment
  pub configs : Table DeviceConfig

abbrev pub table : (k : Kind) → World → Table (Obj k)
table module_kind w = w.modules
table daemon_set_kind w = w.daemon_sets
table deployment_kind w = w.deployments

abbrev pub set_table : (k : Kind) → Table (Obj k) → World → World
set_table module_kind t w = record w { modules = t }
set_table daemon_set_kind t w = record w { daemon_sets = t }
set_table deployment_kind t w = record w { deployments = t }

-- The server's default of a Deployment's strategy.
abbrev pub admit : (k : Kind) → Obj k → Obj k
admit module_kind o = o
admit daemon_set_kind o = o
admit deployment_kind o =
    if o.spec.strategy_type == ""
    then record o { spec = record (o.spec) { strategy_type = "RollingUpdate" } }
    else o

abbrev to_result : {A : Type 0} → Option A → Result Failure A
to_result none = err (external not_found)
to_result (some a) = ok a

-- A DeviceConfig that is being deleted goes away with its last finalizer.
abbrev pub kept : DeviceConfig → Option DeviceConfig
kept d = elim d.meta.finalizers [
  | [] ↦ if is_some d.meta.deletion_timestamp then none else some d
  | f ∷ fs ↦ some d
]

abbrev pub meta_of : (k : Kind) → Obj k → ObjectMeta
meta_of module_kind o = o.meta
meta_of daemon_set_kind o = o.meta
meta_of deployment_kind o = o.meta

abbrev marked : (k : Kind) → Obj k → Obj k
marked module_kind o = record o { meta = record (o.meta) { deletion_timestamp = some 0 } }
marked daemon_set_kind o = record o { meta = record (o.meta) { deletion_timestamp = some 0 } }
marked deployment_kind o = record o { meta = record (o.meta) { deletion_timestamp = some 0 } }

-- An object with finalizers stays, with a deletion timestamp, when it is deleted.
abbrev pub deleted_of : (k : Kind) → Option (Obj k) → Option (Obj k)
deleted_of k none = none
deleted_of k (some o) = elim (meta_of k o).finalizers [ [] ↦ none | f ∷ fs ↦ some (marked k o) ]

-- What is left of it once the controllers took their finalizers off.
abbrev pub released : (k : Kind) → Option (Obj k) → Option (Obj k)
released k none = none
released k (some o) = if is_some (meta_of k o).deletion_timestamp then none else some o

abbrev pub release : World → World
release w = record w {
  modules = λ n. released module_kind (w.modules n);
  daemon_sets = λ n. released daemon_set_kind (w.daemon_sets n);
  deployments = λ n. released deployment_kind (w.deployments n);
}

abbrev pub get_or : {A : Type 0} → Option A → A → A
get_or none a = a
get_or (some b) a = b

-- What the server holds under a name. An object that stands under another name is not seen.
abbrev pub named_so : (k : Kind) → NamespacedName → Option (Obj k) → Option (Obj k)
named_so k n none = none
named_so k n (some o) = if same_name (obj_key k o) n then some o else none

abbrev pub find : (k : Kind) → NamespacedName → World → Option (Obj k)
find k n w = named_so k n (table k w n)

-- A function that renames its object is refused, and a strict server refuses containers without an
-- image.
abbrev pub apply_written :
    Bool
    → (k : Kind) → NamespacedName
    → Obj k × Option (Error Failure)
    → Bool
    → World
    → Result Failure OperationResult × Obj k × World
apply_written strict k n (o, some e) old w = (err e, o, w)
apply_written strict k n (o, none) old w =
    if not (same_name (obj_key k o) n)
    then (err (external renamed), o, w)
    else if strict && not (images_given_to k o)
    then (err (external invalid), o, w)
    else (
      ok (if old then updated else created),
      admit k o,
      set_table k (write n (some (admit k o)) (table k w)) w,
    )

abbrev pub same_texts : List String → List String → Bool
same_texts [] [] = true
same_texts [] (g ∷ gs) = false
same_texts (f ∷ fs) [] = false
same_texts (f ∷ fs) (g ∷ gs) = let rest = same_texts fs gs in f == g && rest

-- A merge patch of the stored DeviceConfig `c` with the difference of `d` to `b`, which for the
-- operator's patches is at most one of finalizers.
abbrev pub merge : DeviceConfig → DeviceConfig → DeviceConfig → DeviceConfig
merge d b c =
    if same_texts d.meta.finalizers b.meta.finalizers
    then c
    else record c { meta = record (c.meta) { finalizers = d.meta.finalizers } }

abbrev pub patch_stored :
    DeviceConfig
    → DeviceConfig
    → World
    → Option DeviceConfig
    → Option (Error Failure) × DeviceConfig × World
patch_stored d b w none = (some (external not_found), d, w)
patch_stored d b w (some c) =
    (none, merge d b c, record w { configs = write (key_of d.meta) (kept (merge d b c)) w.configs })

abbrev pub server : (strict : Bool) → Client memory_util
server strict = record {
  World = World;
  get = λ k n w. (to_result (find k n w), w);
  delete = λ k o w. (
    none,
    set_table k (write (obj_key k o) (deleted_of k (table k w (obj_key k o))) (table k w)) w,
  );
  patch = λ d b w. patch_stored d b w (w.configs (key_of d.meta));
  create_or_patch = λ k o f w.
      apply_written strict k (obj_key k o) (f (get_or (find k (obj_key k o) w) o))
        (is_some (find k (obj_key k o) w)) w;
}

-- A server that does not look into containers, and one that does.
abbrev pub memory_client : Client memory_util
memory_client = server false

abbrev pub strict_client : Client memory_util
strict_client = server true
