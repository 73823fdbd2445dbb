-- ===== src/K8s/Selectors.antt =====
-- What the API server asks of a workload: its selector matches the labels of its own pods, and
-- every mount of a container names a volume of the pod.
use operator_for_ai_chips_on.Common.{
  String, Bool, true, false, Option, none, some, List, [], ◌∷◌, ◌==◌, ◌||◌, ◌&&◌, all,
  if◌then◌else◌,
}
use operator_for_ai_chips_on.Common.Dict.{Dict, lookup}
use operator_for_ai_chips_on.K8s.Pods.{Volume, VolumeMount, PodSpec, LabelSelector}

-- The label is present with this value.
has_label : Dict String → String → String → Bool
unfolding lookup
has_label labels k v = elim (lookup k labels) [ none ↦ false | some w ↦ w == v ]

-- Every required label is present.
unfoldable pub selects : Dict String → Dict String → Bool
unfolding has_label
selects [] labels = true
selects ((k, v) ∷ required) labels = has_label labels k v && selects required labels

-- A nil selector selects nothing.
unfoldable pub selector_selects : Option LabelSelector → Dict String → Bool
unfolding selects
selector_selects none labels = false
selector_selects (some s) labels = selects s.match_labels labels

unfoldable pub declares : List Volume → String → Bool
declares [] n = false
declares (v ∷ vs) n = v.name == n || declares vs n

unfoldable pub mounts_declared : List VolumeMount → List Volume → Bool
unfolding declares
mounts_declared mounts volumes = all (λ m. declares volumes m.name) mounts

-- Of every container of the pod.
unfoldable pub pod_mounts_declared : PodSpec → Bool
unfolding mounts_declared
pod_mounts_declared p = all (λ c. mounts_declared c.volume_mounts p.volumes) p.containers

-- A container without an image is refused by the API server.
unfoldable pub images_given : PodSpec → Bool
images_given p = all (λ c. if c.image == "" then false else true) p.containers
