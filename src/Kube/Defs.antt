-- ===== src/Kube/Defs.antt =====
-- The interfaces of the libraries that the operator calls.
use operator_for_ai_chips_on.Common.{String, ◌<>◌, Bool, Option, Error, external, errorf, Result}
use operator_for_ai_chips_on.K8s.{ObjectMeta, NamespacedName, Module, DaemonSet, Deployment}
use operator_for_ai_chips_on.Api.{DeviceConfig}

-- The kinds of object that the operator creates or deletes.
pub data Kind : Type 0 where
  module_kind daemon_set_kind deployment_kind : Kind

abbrev pub Obj : Kind → Type 0
Obj module_kind = Module
Obj daemon_set_kind = DaemonSet
Obj deployment_kind = Deployment

-- controllerutil.OperationResult
pub data OperationResult : Type 0 where
  unchanged created updated : OperationResult

pub record Util : Type 1 where
  -- What an error of a library is, and its `Error()`.
  pub Failure : Type 0
  pub message : Failure → String
  -- k8serrors.IsNotFound
  pub is_not_found : Error Failure → Bool
  -- types.NamespacedName.String
  pub render_name : NamespacedName → String
  -- *runtime.Scheme
  pub Scheme : Type 0
  -- controllerutil.SetControllerReference, on the metadata of the controlled object
  pub set_controller_reference :
      DeviceConfig → ObjectMeta → Scheme → ObjectMeta × Option (Error Failure)
  -- controllerutil.ContainsFinalizer, AddFinalizer and RemoveFinalizer, on the object's metadata
  pub contains_finalizer : ObjectMeta → String → Bool
  pub add_finalizer : ObjectMeta → String → ObjectMeta
  pub remove_finalizer : ObjectMeta → String → ObjectMeta
  -- labels.GetKernelModuleReadyNodeLabel of kernel-module-management
  pub kernel_module_ready_node_label : String → String → String

module _ (U : Util) where
  -- A Go `error`, nil being `none`.
  abbrev pub GoError : Type 0
  GoError = Option (Error U.Failure)

  -- `err.Error()`
  unfoldable pub error_text : Error U.Failure → String
  error_text (external e) = U.message e
  error_text (errorf s) = s

  -- `fmt.Errorf(prefix + "%v", err)`
  unfoldable pub wrapf : String → Error U.Failure → Error U.Failure
  unfolding error_text
  wrapf prefix e = errorf (prefix <> error_text e)

-- client.Client and controllerutil.CreateOrPatch. A call may change the world whatever it returns:
-- the world holds the API server, the caches, and all other actors.
pub record Client (U : Util) : Type 1 where
  pub World : Type 0
  pub get : (k : Kind) → NamespacedName → World → Result U.Failure (Obj k) × World
  pub delete : (k : Kind) → Obj k → World → GoError U × World
  -- Patch(ctx, obj, client.MergeFrom(base)): `obj` is overwritten with the server's answer.
  pub patch : DeviceConfig → (base : DeviceConfig) → World → GoError U × DeviceConfig × World
  -- CreateOrPatch(ctx, client, obj, mutate): `obj` is overwritten too.
  pub create_or_patch :
      (k : Kind)
      → Obj k
      → (mutate : Obj k → Obj k × GoError U) → World
      → Result U.Failure OperationResult × Obj k × World
