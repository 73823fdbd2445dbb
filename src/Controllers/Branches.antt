-- ===== src/Controllers/Branches.antt =====
-- internal/controllers/device_config_reconciler.go: the branches of finalizeDeviceConfig, over a client whose
-- reads change nothing.

use operator_for_ai_chips_on.Common.{◌<>◌, ◌≡◌, true, false, some, Error, errorf, ok, err, arith}
use operator_for_ai_chips_on.K8s.{Module, DaemonSet}
use operator_for_ai_chips_on.Api.{DeviceConfig}
use operator_for_ai_chips_on.Kube.{module_kind, daemon_set_kind, Util, Client, error_text}
use operator_for_ai_chips_on.Kube.Lawful.{HandlesFinalizers, IsQuiet}
use operator_for_ai_chips_on.Controllers.Objects.{Helper, module_name, metrics_name}
use operator_for_ai_chips_on.Controllers.Helper.{finalize_device_config, finalize_module}
use operator_for_ai_chips_on.Controllers.FinalizeSteps.{at, without_finalizer}

module _ {U : Util} {C : Client U} (Q : IsQuiet C) (F : HandlesFinalizers U) (h : Helper U)
    (d : DeviceConfig) (w : C.World) where
  pub finalize_module-ok :
      (o : Module)
      → (C.get module_kind (module_name d) w).0 ≡ ok o
      → finalize_module C h (at Q d w)
        ≡ ((C.delete module_kind o w).0, at Q d (C.delete module_kind o w).1)
  unfolding finalize_module
  finalize_module-ok o found = ground (arith, found, Q.get_world module_kind (module_name d) w)

  pub finalize_module-absent :
      (e : Error U.Failure)
      → (C.get module_kind (module_name d) w).0 ≡ err e
      → U.is_not_found e ≡ true
      → finalize_module C h (at Q d w)
        ≡ (let (r, answer, v) = C.patch (without_finalizer Q F h d) d w in (r, at Q answer v))
  unfolding finalize_module
  finalize_module-absent e found absent =
      ground (arith, found, absent, Q.get_world module_kind (module_name d) w)

  pub finalize_module-err :
      (e : Error U.Failure)
      → (C.get module_kind (module_name d) w).0 ≡ err e
      → U.is_not_found e ≡ false
      → finalize_module C h (at Q d w) ≡ (
        some (
            errorf (
              "failed to get the requested Module "
              <> (U.render_name (module_name d) <> (": " <> error_text U e)))),
        at Q d w,
      )
  unfolding finalize_module
  finalize_module-err e found other =
      ground (arith, found, other, Q.get_world module_kind (module_name d) w)

  pub finalize_device_config-ok :
      (o : DaemonSet)
      → (C.get daemon_set_kind (metrics_name d) w).0 ≡ ok o
      → finalize_device_config C h (at Q d w)
        ≡ ((C.delete daemon_set_kind o w).0, at Q d (C.delete daemon_set_kind o w).1)
  unfolding finalize_device_config
  finalize_device_config-ok o found =
      ground (arith, found, Q.get_world daemon_set_kind (metrics_name d) w)

  pub finalize_device_config-absent :
      (e : Error U.Failure)
      → (C.get daemon_set_kind (metrics_name d) w).0 ≡ err e
      → U.is_not_found e ≡ true
      → finalize_device_config C h (at Q d w) ≡ finalize_module C h (at Q d w)
  unfolding finalize_device_config
  finalize_device_config-absent e found absent =
      ground (arith, found, absent, Q.get_world daemon_set_kind (metrics_name d) w)

  pub finalize_device_config-err :
      (e : Error U.Failure)
      → (C.get daemon_set_kind (metrics_name d) w).0 ≡ err e
      → U.is_not_found e ≡ false
      → finalize_device_config C h (at Q d w) ≡ (
        some (
            errorf (
              "failed to get nodemetrics daemonset "
              <> (U.render_name (metrics_name d) <> (": " <> error_text U e)))),
        at Q d w,
      )
  unfolding finalize_device_config
  finalize_device_config-err e found other =
      ground (arith, found, other, Q.get_world daemon_set_kind (metrics_name d) w)
