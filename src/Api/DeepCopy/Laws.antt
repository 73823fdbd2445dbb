-- ===== src/Api/DeepCopy/Laws.antt =====
-- api/v1alpha1/zz_generated.deepcopy.go: DeepCopyInto of a DeviceConfigSpec and of a DeviceConfig.
use operator_for_ai_chips_on.Common.{◌≡◌, refl, arith}
use operator_for_ai_chips_on.Api.Heap.{SpecCell, ConfigCell, Heap}
use operator_for_ai_chips_on.Api.DeepCopy.{
  Runtime, copy_secret, copy_selector, copy_spec, copy_object_meta, copy_config,
}
use operator_for_ai_chips_on.Api.DeepCopy.Store.{
  Returns, Returns-bind, IsExtended, IsExtended-trans, spec_value, config_value, IsValidSpec,
  IsNewSpec, secret_at-extended, map_at-extended, IsSecretPtr-extended, IsMapPtr-extended,
  IsNew-extended,
}
use operator_for_ai_chips_on.Api.DeepCopy.Pointers.{IsFair, copy_secret_lem, copy_selector_lem}

module _ {M R : Type 0} (rt : Runtime M R) (fair : IsFair rt) where
  -- What a copy `s'`, left in `h'`, of the struct `s` in `h` is like.
  pub record IsSpecCopy (h : Heap M R) (s : SpecCell) (s' : SpecCell) (h' : Heap M R) : Type 0 where
    pub same : spec_value h' s' ≡ spec_value h s
    pub valid : IsValidSpec h' s'
    pub apart : IsNewSpec h s'
    pub extended : IsExtended fair.meta_value h h'

  pub copy_spec_lem :
      (s : SpecCell) (h : Heap M R) → IsValidSpec h s → Returns (copy_spec rt s h) (IsSpecCopy h s)
  unfolding copy_spec
  copy_spec_lem s h ok =
      Returns-bind (copy_secret rt s.image_repo_secret h) _ _ (IsSpecCopy h s)
        (copy_secret_lem rt fair s.image_repo_secret h ok.0)
        λ secret h₁ a.
          Returns-bind (copy_selector rt s.selector h₁) _ _ (IsSpecCopy h s)
            (copy_selector_lem rt fair s.selector h₁
              (IsMapPtr-extended fair.meta_value h h₁ a.3 s.selector ok.1))
            λ selector h₂ b. record {
              same = cc (
                a.0,
                b.0,
                secret_at-extended fair.meta_value h₁ h₂ b.3 secret a.1,
                map_at-extended fair.meta_value h h₁ a.3 s.selector ok.1,
              );
              valid = (IsSecretPtr-extended fair.meta_value h₁ h₂ b.3 secret a.1, b.1);
              apart = (a.2, IsNew-extended fair.meta_value h h₁ a.3 selector b.2);
              extended = IsExtended-trans fair.meta_value h h₁ h₂ a.3 b.3;
            }

  copy_meta-IsExtended :
      (m : M) (h : Heap M R)
      → IsExtended fair.meta_value h (record h { metas = (rt.copy_meta m h.metas).1 })
  copy_meta-IsExtended m h = record {
    next = omega arith;
    secrets = λ p _. refl;
    maps = λ p _. refl;
    configs = λ p _. refl;
    arrays = λ p _. refl;
    metas = λ n. fair.kept m n h.metas;
  }

  pub record IsConfigCopy (h : Heap M R) (c : ConfigCell M) (c' : ConfigCell M) (h' : Heap M R)
      : Type 0 where
    pub same : config_value fair.meta_value h' c' ≡ config_value fair.meta_value h c
    pub valid : IsValidSpec h' c'.spec
    pub apart : IsNewSpec h c'.spec
    pub extended : IsExtended fair.meta_value h h'

  pub copy_config_lem :
      (c : ConfigCell M) (h : Heap M R)
      → IsValidSpec h c.spec
      → Returns (copy_config rt c h) (IsConfigCopy h c)
  unfolding copy_config copy_object_meta
  copy_config_lem c h ok =
      let h₁ : Heap M R = record h { metas = (rt.copy_meta c.object_meta h.metas).1 } in
      Returns-bind (copy_spec rt c.spec h₁) _ _ (IsConfigCopy h c) (copy_spec_lem c.spec h₁ ok)
        λ spec h₂ a. record {
          same = cc (
            a.same,
            a.extended.metas (rt.copy_meta c.object_meta h.metas).0,
            fair.copied c.object_meta h.metas,
          );
          valid = a.valid;
          apart = a.apart;
          extended =
              IsExtended-trans fair.meta_value h h₁ h₂ (copy_meta-IsExtended c.object_meta h)
                a.extended;
        }
