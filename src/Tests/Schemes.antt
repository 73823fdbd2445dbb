-- ===== src/Tests/Schemes.antt =====
-- The init of cmd/main.go, over schemes in memory.
use operator_for_ai_chips_on.Common.{
  String, ◌==◌, ◌≡◌, refl, Bool, true, false, ◌&&◌, ◌||◌, none, some, List, [], ◌∷◌, all, arith,
  eq_iff, external, if◌then◌else◌,
}
use operator_for_ai_chips_on.Kube.{module_kind, daemon_set_kind, deployment_kind, Util}
use operator_for_ai_chips_on.Kube.Memory.{memory_util, renamed}
use operator_for_ai_chips_on.Api.Registration.{
  GroupVersion, ObjectType, device_config, device_config_list, Builders, add_to_scheme,
}
use operator_for_ai_chips_on.Main.Scheme.{Libraries, panicked, init}
use operator_for_ai_chips_on.Main.Scheme.Recognized.{Documented, EndsInit, init-EndsInit}

-- A scheme says what it recognizes.
abbrev Recognizer : Type 0
Recognizer = GroupVersion → String → Bool

abbrev util : Util
util = record memory_util {
  Scheme = Recognizer;
  set_controller_reference = λ d m s. memory_util.set_controller_reference d m tt;
}

abbrev has_config : List ObjectType → Bool
has_config [] = false
has_config (device_config ∷ ts) = true
has_config (device_config_list ∷ ts) = has_config ts

abbrev has_list : List ObjectType → Bool
has_list [] = false
has_list (device_config ∷ ts) = has_list ts
has_list (device_config_list ∷ ts) = true

abbrev same_group_version : GroupVersion → GroupVersion → Bool
same_group_version g h = g.group == h.group && g.version == h.version

abbrev among : List ObjectType → String → Bool
among types kind =
    if kind == "DeviceConfig"
    then has_config types
    else if kind == "DeviceConfigList"
    then has_list types
    else false

abbrev with_types : GroupVersion → List ObjectType → Recognizer → Recognizer
with_types gv types s g kind = s g kind || same_group_version g gv && among types kind

abbrev with_kind : String → String → Recognizer → Recognizer
with_kind group name s g kind = s g kind || g.group == group && kind == name

abbrev builders : Builders util
builders = record {
  Builder = GroupVersion × List ObjectType;
  new_builder = λ gv. (gv, []);
  register = λ b types. (b.0, types);
  add_to_scheme = λ b s. (none, with_types b.0 b.1 s);
  recognizes = λ s. s;
}

abbrev libraries : Libraries util
libraries = record {
  builders = builders;
  new_scheme = λ gv kind. false;
  client_go_add_to_scheme =
      λ s. (none, with_kind "apps" "Deployment" (with_kind "apps" "DaemonSet" s));
  kmm_add_to_scheme = λ s. (none, with_kind "kmm.sigs.x-k8s.io" "Module" s);
  must = λ e. e;
}

or_true : (b : Bool) → (b || true) ≡ true
or_true b = ground arith

same_group_version_refl : (g : GroupVersion) → same_group_version g g ≡ true
same_group_version_refl g = ground (arith, eq_iff g.group g.group, eq_iff g.version g.version)

all-types :
    (f : ObjectType → Bool) (types : List ObjectType)
    → (has_config types ≡ true → f device_config ≡ true)
    → (has_list types ≡ true → f device_config_list ≡ true)
    → all f types ≡ true
all-types f [] c l = refl
all-types f (device_config ∷ ts) c l = rw (c refl) (all-types f ts (λ _. c refl) l)
all-types f (device_config_list ∷ ts) c l = rw (l refl) (all-types f ts c λ _. l refl)

libraries-Documented : Documented libraries
libraries-Documented = record {
  named = λ k. elim k [
    | module_kind ↦ (record { group = "kmm.sigs.x-k8s.io"; version = "v1beta1" }, "Module")
    | daemon_set_kind ↦ (record { group = "apps"; version = "v1" }, "DaemonSet")
    | deployment_kind ↦ (record { group = "apps"; version = "v1" }, "Deployment")
  ];
  must_panics = λ e. refl;
  builder_adds = λ gv types s nil.
      all-types _ types
        (λ has. rw (same_group_version_refl gv, has) (or_true (s gv "DeviceConfig")))
        λ has. rw (same_group_version_refl gv, has) (or_true (s gv "DeviceConfigList"));
  builder_keeps = λ b s g kind r. rw r refl;
  client_go_adds = λ s nil. (ground arith, or_true _);
  kmm_adds = λ s nil. or_true _;
  kmm_keeps = λ s gv kind r. rw r refl;
}

-- Of the init of a process whose Module cannot be registered, nothing is left.
broken_init :
    init (record libraries { kmm_add_to_scheme = λ s. (some (external renamed), s) })
    ≡ panicked (external renamed)
unfolding init add_to_scheme
broken_init = refl

init-EndsInit_example : EndsInit libraries libraries-Documented (init libraries)
init-EndsInit_example = init-EndsInit libraries libraries-Documented
