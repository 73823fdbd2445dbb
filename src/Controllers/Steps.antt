-- ===== src/Controllers/Steps.antt =====
-- internal/controllers/device_config_reconciler.go: the chains of methods, `if err != nil { return … }`.
use operator_for_ai_chips_on.Common.{
  String, ◌≡◌, ◌≢◌, refl, ap, ◌∙◌, true, false, ◌⊎◌, inl, inr, none, some, Error, is_some, arith,
}
use operator_for_ai_chips_on.Kube.{Util, Client, GoError, wrapf}
use operator_for_ai_chips_on.Controllers.Reconcile.{
  State, Step, HelperApi, no_result, reconcile, reconcile_live, ◌>>◌, or_fail,
}

module _ {U : Util} {C : Client U} (m : Step C) (s : State C) where
  -- The first method fails, and the second is not called.
  pub >>-of_error :
      (n : Step C) (e : Error U.Failure) → (m s).0 ≡ some e → (m >> n) s ≡ (some e, (m s).1)
  unfolding ◌>>◌
  >>-of_error n e h = rw (h, ◌>>◌)

  -- The first method returns nil, and the second is called in the state that it leaves.
  pub >>-of_nil : (n : Step C) → (m s).0 ≡ none → (m >> n) s ≡ n (m s).1
  unfolding ◌>>◌
  >>-of_nil n h = rw (h, ◌>>◌)

  pub or_fail-of_error :
      (prefix : String) (e : Error U.Failure)
      → (m s).0 ≡ some e
      → or_fail prefix m s ≡ (some (wrapf U prefix e), (m s).1)
  unfolding or_fail
  or_fail-of_error prefix e h = rw (h, or_fail)

  pub or_fail-of_nil : (prefix : String) → (m s).0 ≡ none → or_fail prefix m s ≡ (none, (m s).1)
  unfolding or_fail
  or_fail-of_nil prefix h = rw (h, or_fail)

  -- A method either fails or returns nil.
  pub error_cases : ((e : Error U.Failure) × ((m s).0 ≡ some e)) ⊎ ((m s).0 ≡ none)
  error_cases = split (m s).0
    where
      split : (r : GoError U) → ((e : Error U.Failure) × (r ≡ some e)) ⊎ (r ≡ none)
      split none = inr refl
      split (some e) = inl (e, refl)

-- `or_fail` changes the error alone.
module _ {U : Util} {C : Client U} (prefix : String) (m : Step C) (s : State C) where
  pub or_fail-state : (or_fail prefix m s).1 ≡ (m s).1
  or_fail-state = elim (error_cases m s) [
    | inl (e, h) ↦ rw (or_fail-of_error m s prefix e h)
    | inr h ↦ rw (or_fail-of_nil m s prefix h)
  ]

  pub or_fail-nil : (or_fail prefix m s).0 ≡ none → (m s).0 ≡ none
  or_fail-nil p = elim (error_cases m s) [
    | inl (e, h) ↦ cc (p, ap (λ (r : GoError U × State C). r.0) (or_fail-of_error m s prefix e h))
    | inr h ↦ h
  ]

-- What the first method establishes and the second keeps holds after the chain.
module _ {ℓ} {U : Util} {C : Client U} (P : State C → Type ℓ) (m n : Step C) (s : State C) where
  pub >>-post : P (m s).1 → P (n (m s).1).1 → P ((m >> n) s).1
  >>-post p q = elim (error_cases m s) [
    | inl (e, h) ↦ rw (>>-of_error m s n e h) p
    | inr h ↦ rw (>>-of_nil m s n h) q
  ]

-- The two branches of Reconcile, whose result is always the empty one.
module _ {U : Util} {C : Client U} (api : HelperApi C) (s : State C) where
  pub reconcile-live :
      is_some s.dev_config.meta.deletion_timestamp ≡ false
      → reconcile api s ≡ (no_result, (reconcile_live api s).0, (reconcile_live api s).1)
  unfolding reconcile
  reconcile-live live = rw live

  pub reconcile-deleted :
      is_some s.dev_config.meta.deletion_timestamp ≡ true
      → let (e, t) = or_fail "failed to finalize DeviceConfig: " api.finalize_device_config s in
        reconcile api s ≡ (no_result, e, t)
  unfolding reconcile
  reconcile-deleted deleting = rw deleting

-- A chain whose error is not that of its first method ran both of its methods, and the first one
-- returned nil.
pub or_fail->>-later :
    {U : Util} {C : Client U} (prefix : String) (m n : Step C) (s : State C)
    → ((e : Error U.Failure) → ((or_fail prefix m >> n) s).0 ≢ some (wrapf U prefix e))
    → ((m s).0 ≡ none) × ((or_fail prefix m >> n) s ≡ n (m s).1)
or_fail->>-later {U} {C} prefix m n s p =
    let fst : GoError U × State C → GoError U = λ r. r.0 in
    elim (error_cases m s) [
      | inl (e, h) ↦ absurd (
          p e (
            ap fst
              (>>-of_error (or_fail prefix m) s n _ (ap fst (or_fail-of_error m s prefix e h)))))
      | inr h ↦ (
        h,
        >>-of_nil (or_fail prefix m) s n (ap fst (or_fail-of_nil m s prefix h))
            ∙ ap n (or_fail-state prefix m s),
      )
    ]

-- So did a chain that returns nil.
pub or_fail->>-nil :
    {U : Util} {C : Client U} (prefix : String) (m n : Step C) (s : State C)
    → ((or_fail prefix m >> n) s).0 ≡ none
    → ((m s).0 ≡ none) × ((or_fail prefix m >> n) s ≡ n (m s).1)
or_fail->>-nil {U} {C} prefix m n s p = or_fail->>-later prefix m n s (λ e q. ground (arith, p, q))

-- A chain whose first method returns nil is its second one.
pub or_fail->>-passes :
    {U : Util} {C : Client U} (prefix : String) (m n : Step C) (s : State C)
    → (m s).0 ≡ none
    → (or_fail prefix m >> n) s ≡ n (m s).1
or_fail->>-passes {U} {C} prefix m n s h =
    >>-of_nil (or_fail prefix m) s n
      (ap (λ (r : GoError U × State C). r.0) (or_fail-of_nil m s prefix h))
    ∙ ap n (or_fail-state prefix m s)

-- A chain returns nil if both of its methods do.
pub or_fail->>-returns :
    {U : Util} {C : Client U} (prefix : String) (m n : Step C) (s : State C)
    → (m s).0 ≡ none
    → (n (m s).1).0 ≡ none
    → ((or_fail prefix m >> n) s).0 ≡ none
or_fail->>-returns {U} {C} prefix m n s p q =
    let fst : GoError U × State C → GoError U = λ r. r.0 in
    ap fst (
      >>-of_nil (or_fail prefix m) s n (ap fst (or_fail-of_nil m s prefix p))
      ∙ ap n (or_fail-state prefix m s))
    ∙ q
