-- ===== src/Api/DeepCopy/Objects.antt =====
-- api/v1alpha1/zz_generated.deepcopy.go: (*DeviceConfig).DeepCopy.
use operator_for_ai_chips_on.Common.{suc, ◌≤◌, String, ◌≡◌, refl, ◌∙◌, Option, none, some, arith}
use operator_for_ai_chips_on.Common.Dict.{Dict}
use operator_for_ai_chips_on.K8s.{LocalObjectReference}
use operator_for_ai_chips_on.Api.Heap.{Ptr, ConfigCell, Heap, update}
use operator_for_ai_chips_on.Api.DeepCopy.{Runtime, copy_config, deep_copy}
use operator_for_ai_chips_on.Api.DeepCopy.Store.{
  Returns, Returns-bind, IsExtended, IsExtended-trans, IsNew, config_value, IsValidSpec, update-old,
  update-new, config_value-extended,
}
use operator_for_ai_chips_on.Api.DeepCopy.Pointers.{IsFair}
use operator_for_ai_chips_on.Api.DeepCopy.Laws.{copy_config_lem}

module _ {M R : Type 0} where
  abbrev pub config_at : Heap M R → Option Ptr → Option (ConfigCell M)
  config_at h none = none
  config_at h (some p) = h.configs p

  -- `c.Spec.Selector = m`'s effect on the map that the pointer leads to, for a whole map `m`.
  abbrev pub write_selector : ConfigCell M → Dict String → Heap M R → Heap M R
  write_selector c m h = elim c.spec.selector [
    | none ↦ h
    | some q ↦ record h { maps = update h.maps q m }
  ]

  abbrev pub write_secret : ConfigCell M → LocalObjectReference → Heap M R → Heap M R
  write_secret c v h = elim c.spec.image_repo_secret [
    | none ↦ h
    | some q ↦ record h { secrets = update h.secrets q v }
  ]

module _ {M R : Type 0} (rt : Runtime M R) (fair : IsFair rt) where
  -- The pointer `o` that a copy of the struct `c` in `h` returns, and the store `h'` that it leaves:
  -- the pointer is new and leads to a struct of the same value, and whatever is written over the
  -- map or the secret of that struct, `c` keeps its value.
  pub record IsDeepCopy (h : Heap M R) (c : ConfigCell M) (o : Option Ptr) (h' : Heap M R)
      : Type 0 where
    pub pointer : IsNew h o
    pub copy : ConfigCell M
    pub cell : config_at h' o ≡ some copy
    pub same : config_value fair.meta_value h' copy ≡ config_value fair.meta_value h c
    pub map_isolated :
        (m : Dict String)
        → config_value fair.meta_value (write_selector copy m h') c
          ≡ config_value fair.meta_value h c
    pub secret_isolated :
        (v : LocalObjectReference)
        → config_value fair.meta_value (write_secret copy v h') c ≡ config_value fair.meta_value h c

  -- Writing at new addresses extends the store.
  write_map-IsExtended :
      (h h' : Heap M R) (q : Ptr) (m : Dict String)
      → h.next ≤ q
      → IsExtended fair.meta_value h h'
      → IsExtended fair.meta_value h (record h' { maps = update h'.maps q m })
  write_map-IsExtended h h' q m l e = record {
    next = e.next;
    secrets = e.secrets;
    maps = λ p k. update-old h'.maps m q p (omega (arith, l, k)) ∙ e.maps p k;
    configs = e.configs;
    arrays = e.arrays;
    metas = e.metas;
  }

  write_secret-IsExtended :
      (h h' : Heap M R) (q : Ptr) (v : LocalObjectReference)
      → h.next ≤ q
      → IsExtended fair.meta_value h h'
      → IsExtended fair.meta_value h (record h' { secrets = update h'.secrets q v })
  write_secret-IsExtended h h' q v l e = record {
    next = e.next;
    secrets = λ p k. update-old h'.secrets v q p (omega (arith, l, k)) ∙ e.secrets p k;
    maps = e.maps;
    configs = e.configs;
    arrays = e.arrays;
    metas = e.metas;
  }

  abbrev with_config : Heap M R → ConfigCell M → Heap M R
  with_config h c = record h { next = suc h.next; configs = update h.configs h.next c }

  with_config-IsExtended :
      (h : Heap M R) (c : ConfigCell M) → IsExtended fair.meta_value h (with_config h c)
  with_config-IsExtended h c = record {
    next = omega arith;
    secrets = λ p _. refl;
    maps = λ p _. refl;
    configs = λ p l. update-old h.configs c h.next p l;
    arrays = λ p _. refl;
    metas = λ _. refl;
  }

  write_selector-keeps :
      (h h' : Heap M R) (c c' : ConfigCell M) (m : Dict String)
      → IsValidSpec h c.spec
      → IsNew h c'.spec.selector
      → IsExtended fair.meta_value h h'
      → config_value fair.meta_value (write_selector c' m h') c ≡ config_value fair.meta_value h c
  write_selector-keeps h h' c c' m ok f e = split c'.spec.selector refl
    where
      split :
          (o : Option Ptr)
          → c'.spec.selector ≡ o
          → config_value fair.meta_value (write_selector c' m h') c
            ≡ config_value fair.meta_value h c
      split none p = rw p (config_value-extended fair.meta_value h h' e c ok)
      split (some q) p = rw p (
          config_value-extended fair.meta_value h (record h' { maps = update h'.maps q m })
            (write_map-IsExtended h h' q m (rw p at f) e) c ok)

  write_secret-keeps :
      (h h' : Heap M R) (c c' : ConfigCell M) (v : LocalObjectReference)
      → IsValidSpec h c.spec
      → IsNew h c'.spec.image_repo_secret
      → IsExtended fair.meta_value h h'
      → config_value fair.meta_value (write_secret c' v h') c ≡ config_value fair.meta_value h c
  write_secret-keeps h h' c c' v ok f e = split c'.spec.image_repo_secret refl
    where
      split :
          (o : Option Ptr)
          → c'.spec.image_repo_secret ≡ o
          → config_value fair.meta_value (write_secret c' v h') c ≡ config_value fair.meta_value h c
      split none p = rw p (config_value-extended fair.meta_value h h' e c ok)
      split (some q) p = rw p (
          config_value-extended fair.meta_value h (record h' { secrets = update h'.secrets q v })
            (write_secret-IsExtended h h' q v (rw p at f) e) c ok)

  deep_copy-some :
      (p : Ptr) (h : Heap M R) (c : ConfigCell M)
      → h.configs p ≡ some c
      → deep_copy rt (some p) h ≡ elim (copy_config rt c h) [
        | none ↦ none
        | some (c', h') ↦ some (some h'.next, with_config h' c')
      ]
  unfolding deep_copy
  deep_copy-some p h c e = ground arith

  -- DeepCopy of nil is nil. DeepCopy of a pointer to a struct with valid pointers does not fault,
  -- and returns a new pointer to a struct of the same value; whatever is then written over the map
  -- or the secret of the copy, the original keeps its value.
  pub deep_copy-IsDeepCopy :
      (p : Ptr) (h : Heap M R) (c : ConfigCell M)
      → h.configs p ≡ some c
      → IsValidSpec h c.spec
      → (deep_copy rt none h ≡ some (none, h)) × Returns (deep_copy rt (some p) h) (IsDeepCopy h c)
  unfolding deep_copy
  deep_copy-IsDeepCopy p h c e ok = (
    refl,
    rw (deep_copy-some p h c e) (
        Returns-bind (copy_config rt c h) _ _ (IsDeepCopy h c) (copy_config_lem rt fair c h ok)
          λ c' h' k.
            let f =
              IsExtended-trans fair.meta_value h h' (with_config h' c') k.extended
                (with_config-IsExtended h' c') in
            record {
              pointer = omega (arith, k.extended.next);
              copy = c';
              cell = update-new h'.configs c' h'.next;
              same = k.same;
              map_isolated = λ m. write_selector-keeps h (with_config h' c') c c' m ok k.apart.1 f;
              secret_isolated = λ v. write_secret-keeps h (with_config h' c') c c' v ok k.apart.0 f;
            }),
  )
