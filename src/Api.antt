-- ===== src/Api.antt =====
-- api/v1alpha1/deviceconfig_types.go
pub mod Heap
pub mod DeepCopy
pub mod Registration
pub mod Copies
pub mod Json
use operator_for_ai_chips_on.Common.{ℤ, String, Bool, Option}
use operator_for_ai_chips_on.Common.Dict.{Dict}
use operator_for_ai_chips_on.K8s.{ObjectMeta, LocalObjectReference}

abbrev pub pci_vendor_id : String
pci_vendor_id = "1d0f"

-- A nil secret and a nil selector are `none`.
pub record DeviceConfigSpec : Type 0 where
  pub use_in_tree_drivers : Bool
  pub drivers_image : String
  pub device_plugin_image : String
  pub custom_scheduler_image : String
  pub scheduler_extension_image : String
  pub image_repo_secret : Option LocalObjectReference
  pub selector : Option (Dict String)

pub record DeploymentStatus : Type 0 where
  pub nodes_matching_selector_number : ℤ
  pub desired_number : ℤ
  pub available_number : ℤ

pub record DeviceConfigStatus : Type 0 where
  pub device_plugin : DeploymentStatus
  pub drivers : DeploymentStatus

pub record DeviceConfig : Type 0 where
  pub meta : ObjectMeta
  pub spec : DeviceConfigSpec
  pub status : DeviceConfigStatus
