-- ===== src/Tests/Copies.antt =====
-- Deep copies with a concrete runtime: metadata that is copied by value, and a `range` that visits
-- the entries of a map in their order, each key once.
use operator_for_ai_chips_on.Common.{
  pos, String, ◌≡◌, refl, false, none, some, [], ◌∷◌, arith, if◌then◌else◌, ◌==ℕ◌,
}
use operator_for_ai_chips_on.Common.Dict.{Dict}
use operator_for_ai_chips_on.K8s.{ObjectMeta, named}
use operator_for_ai_chips_on.Api.Heap.{ConfigCell, Heap}
use operator_for_ai_chips_on.Api.DeepCopy.{Runtime, deep_copy}
use operator_for_ai_chips_on.Api.Copies.{ListCell, Store, device_config_list, deep_copy_object}
use operator_for_ai_chips_on.Api.Copies.Values
use operator_for_ai_chips_on.Api.Copies.Values.{IsCopied, deep_copy_status-IsCopied}
use operator_for_ai_chips_on.Api.Copies.Whole.{IsObjectCopy, deep_copy_object-IsObjectCopy}
use operator_for_ai_chips_on.Tests.Maps.{in_order, in_order-HasDistinctKeys, lookup-in_order}
use operator_for_ai_chips_on.Api.DeepCopy.Store.{Returns}
use operator_for_ai_chips_on.Api.DeepCopy.Pointers.{IsFair}
use operator_for_ai_chips_on.Api.DeepCopy.Objects.{IsDeepCopy, deep_copy-IsDeepCopy}

abbrev plain : Runtime ObjectMeta (Unit {0})
plain = record { copy_meta = λ m r. (m, r); range = in_order }

abbrev plain-IsFair : IsFair plain
plain-IsFair = record {
  distinct = in_order-HasDistinctKeys;
  visits = lookup-in_order;
  meta_value = λ m r. m;
  copied = λ m r. refl;
  kept = λ m n r. refl;
}

-- A DeviceConfig at address 2 with a secret at address 0 and a selector at address 1.
abbrev cell : ConfigCell ObjectMeta
cell = record {
  type_meta = record { kind = "DeviceConfig"; api_version = "k8s.aws/v1alpha1" };
  object_meta = named "ai" "neuron";
  spec = record {
    use_in_tree_drivers = false;
    drivers_image = "drivers";
    device_plugin_image = "plugin";
    custom_scheduler_image = "scheduler";
    scheduler_extension_image = "extension";
    image_repo_secret = some 0;
    selector = some 1;
  };
  status = record {
    device_plugin = record {
      nodes_matching_selector_number = pos 3;
      desired_number = pos 3;
      available_number = pos 2;
    };
    drivers = record {
      nodes_matching_selector_number = pos 3;
      desired_number = pos 3;
      available_number = pos 3;
    };
  };
}

abbrev labels : Dict String
labels = ("tier", "gpu") ∷ ("zone", "a") ∷ []

abbrev store : Heap ObjectMeta (Unit {0})
store = record {
  next = 3;
  secrets = λ p. if p ==ℕ 0 then some (record { name = "pull" }) else none;
  maps = λ p. if p ==ℕ 1 then some labels else none;
  configs = λ p. if p ==ℕ 2 then some cell else none;
  arrays = λ p. none;
  metas = tt;
}

deep_copy-IsDeepCopy_example :
    (deep_copy plain none store ≡ some (none, store))
    × Returns (deep_copy plain (some 2) store) (IsDeepCopy plain plain-IsFair store cell)
deep_copy-IsDeepCopy_example =
    deep_copy-IsDeepCopy plain plain-IsFair 2 store cell refl
      ((omega arith, refl), (omega arith, refl))

-- The same two DeviceConfigs in an array at address 3.
abbrev with_items : Heap ObjectMeta (Unit {0})
with_items = record store {
  next = 4;
  arrays = λ p. if p ==ℕ 3 then some (cell ∷ cell ∷ []) else none;
}

-- A store with a list at address 4 of those items, and structs of the other types.
abbrev list_cell : ListCell String
list_cell = record {
  type_meta = record { kind = "DeviceConfigList"; api_version = "k8s.aws/v1alpha1" };
  list_meta = "7";
  items = some 3;
}

abbrev everything : Store ObjectMeta (Unit {0}) String (Unit {0})
everything = record {
  heap = record with_items { next = 8 };
  lists = λ p. if p ==ℕ 4 then some list_cell else none;
  specs = λ p. if p ==ℕ 5 then some (cell.spec) else none;
  statuses = λ p. if p ==ℕ 6 then some (cell.status) else none;
  deployment_statuses = λ p. if p ==ℕ 7 then some (cell.status.drivers) else none;
  list_metas = tt;
}

abbrev copy_resource_version : String → Unit {0} → String × Unit {0}
copy_resource_version l r = (l, r)

deep_copy_object-IsObjectCopy_example :
    Values.Returns
      (deep_copy_object plain copy_resource_version (device_config_list (some 4)) everything)
      (IsObjectCopy plain plain-IsFair copy_resource_version
        (λ l r. l)
        (λ l r. refl)
        everything
        (device_config_list (some 4))
        (
          list_cell,
          (
            cell ∷ cell ∷ [],
            refl,
            (
              ((omega arith, refl), (omega arith, refl)),
              (((omega arith, refl), (omega arith, refl)), tt),
            ),
          ),
          refl,
        ))
deep_copy_object-IsObjectCopy_example =
    deep_copy_object-IsObjectCopy plain plain-IsFair copy_resource_version (λ l r. l) (λ l r. refl)
      everything (device_config_list (some 4))
      (
        list_cell,
        (
          cell ∷ cell ∷ [],
          refl,
          (
            ((omega arith, refl), (omega arith, refl)),
            (((omega arith, refl), (omega arith, refl)), tt),
          ),
        ),
        refl,
      )
