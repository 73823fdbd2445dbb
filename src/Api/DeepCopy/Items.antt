-- ===== src/Api/DeepCopy/Items.antt =====
-- api/v1alpha1/zz_generated.deepcopy.go: the items of (*DeviceConfigList).DeepCopyInto.
use operator_for_ai_chips_on.Common.{◌≡◌, refl, List, [], ◌∷◌, map}
use operator_for_ai_chips_on.Api.Heap.{ConfigCell, Heap}
use operator_for_ai_chips_on.Api.DeepCopy.{Runtime, copy_config, copy_items}
use operator_for_ai_chips_on.Api.DeepCopy.Store.{
  Returns, Returns-bind, IsExtended, IsExtended-refl, IsExtended-trans, config_value, IsValidSpec,
  IsNewSpec, config_value-extended, IsValidSpec-extended, IsNew-extended,
}
use operator_for_ai_chips_on.Api.DeepCopy.Pointers.{IsFair}
use operator_for_ai_chips_on.Api.DeepCopy.Laws.{copy_config_lem}

module _ {M R : Type 0} where
  abbrev pub AreValid : Heap M R → List (ConfigCell M) → Type 0
  AreValid h [] = Unit {0}
  AreValid h (c ∷ cs) = IsValidSpec h c.spec × AreValid h cs

  abbrev pub AreNew : Heap M R → List (ConfigCell M) → Type 0
  AreNew h [] = Unit {0}
  AreNew h (c ∷ cs) = IsNewSpec h c.spec × AreNew h cs

module _ {M R : Type 0} (rt : Runtime M R) (fair : IsFair rt) where
  -- The items `ds`, left in `h'`, have one by one the values of the items `cs` in `h`; no pointer of
  -- theirs leads to a cell of `h`, and the cells of `h` are as they were.
  pub record IsItemsCopy (h : Heap M R) (cs : List (ConfigCell M)) (ds : List (ConfigCell M))
      (h' : Heap M R) : Type 0 where
    pub same : map (config_value fair.meta_value h') ds ≡ map (config_value fair.meta_value h) cs
    pub valid : AreValid h' ds
    pub apart : AreNew h ds
    pub extended : IsExtended fair.meta_value h h'

  module _ (h h' : Heap M R) (e : IsExtended fair.meta_value h h') where
    pub AreValid-extended : (cs : List (ConfigCell M)) → AreValid h cs → AreValid h' cs
    AreValid-extended [] ok = tt
    AreValid-extended (c ∷ cs) ok =
        (IsValidSpec-extended fair.meta_value h h' e c.spec ok.0, AreValid-extended cs ok.1)

    AreNew-extended : (cs : List (ConfigCell M)) → AreNew h' cs → AreNew h cs
    AreNew-extended [] f = tt
    AreNew-extended (c ∷ cs) f = (
      (
        IsNew-extended fair.meta_value h h' e c.spec.image_repo_secret f.0.0,
        IsNew-extended fair.meta_value h h' e c.spec.selector f.0.1,
      ),
      AreNew-extended cs f.1,
    )

    items-extended :
        (cs : List (ConfigCell M))
        → AreValid h cs
        → map (config_value fair.meta_value h') cs ≡ map (config_value fair.meta_value h) cs
    items-extended [] ok = refl
    items-extended (c ∷ cs) ok =
        cc (config_value-extended fair.meta_value h h' e c ok.0, items-extended cs ok.1)

  -- The loop over the items does not fault if the pointers of every item are nil or valid, and its
  -- result has one by one the values of the items, in their order; no pointer of a copy leads to a
  -- cell that was there before, and those cells are as they were.
  pub copy_items-IsItemsCopy :
      (cs : List (ConfigCell M)) (h : Heap M R)
      → AreValid h cs
      → Returns (copy_items rt cs h) (IsItemsCopy h cs)
  unfolding copy_items
  copy_items-IsItemsCopy [] h ok = record {
    same = refl;
    valid = tt;
    apart = tt;
    extended = IsExtended-refl fair.meta_value h;
  }
  copy_items-IsItemsCopy (c ∷ cs) h ok =
      Returns-bind (copy_config rt c h) _ _ (IsItemsCopy h (c ∷ cs))
        (copy_config_lem rt fair c h ok.0)
        λ d h₁ a.
          Returns-bind (copy_items rt cs h₁) _ _ (IsItemsCopy h (c ∷ cs))
            (copy_items-IsItemsCopy cs h₁ (AreValid-extended h h₁ a.extended cs ok.1))
            λ ds h₂ b. record {
              same = cc (
                a.same,
                config_value-extended fair.meta_value h₁ h₂ b.extended d a.valid,
                b.same,
                items-extended h h₁ a.extended cs ok.1,
              );
              valid =
                  (IsValidSpec-extended fair.meta_value h₁ h₂ b.extended d.spec a.valid, b.valid);
              apart = (a.apart, AreNew-extended h h₁ a.extended ds b.apart);
              extended = IsExtended-trans fair.meta_value h h₁ h₂ a.extended b.extended;
            }
