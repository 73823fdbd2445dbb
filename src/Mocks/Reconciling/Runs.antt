-- ===== src/Mocks/Reconciling/Runs.antt =====
-- Runs of the methods of the mocked helper of internal/controllers/device_config_reconciler.go, from
-- what is expected of them.
use operator_for_ai_chips_on.Common.{
  ℕ, none, some, List, [], ◌∷◌, map, ◌≡◌, Error, sym, ap, ◌∙◌, inl, inr, Option-cases,
}
use mathlib.Core.Path.{subst}
use operator_for_ai_chips_on.Api.{DeviceConfig}
use operator_for_ai_chips_on.Kube.{GoError, wrapf}
use operator_for_ai_chips_on.Controllers.Reconcile.{State, or_fail}
use operator_for_ai_chips_on.Controllers.Steps.{
  >>-of_error, >>-of_nil, or_fail-of_error, or_fail-of_nil,
}
use operator_for_ai_chips_on.Mocks.Gomock.{context_type, Interface, Gomock, IsGomock, Expectation}
use operator_for_ai_chips_on.Mocks.Doubles.{Testing}
use operator_for_ai_chips_on.Mocks.Script.{Entry}
use operator_for_ai_chips_on.Mocks.Script.Replay.{
  IsReady, AllReady, AllReady-library, expectation, invoke_entry-answers,
}
use operator_for_ai_chips_on.Mocks.Reconciling.{
  Setting, values, test_client, HelperMethod, entry, text_of, cut, until_error, or_else,
  first_error,
}
use operator_for_ai_chips_on.Mocks.Reconciling.Steps.{step_of, at, step_of-invoke, run_all}

module _ (X : Setting) {G : Gomock (values X)} (L : IsGomock G) (c : G.Controller) (m : ℕ)
    (ctx : Interface (values X) context_type) (d : DeviceConfig)
    (errors : HelperMethod → GoError X.util) where
  -- The calls that are expected.
  abbrev pub entries_of : List HelperMethod → List (Entry (values X))
  entries_of hs = map (λ h. entry X ctx m h d (errors h)) hs

  -- Where the first of the expected calls is that of the method, it returns its error.
  step_of-answers :
      (h : HelperMethod) (rest : List (Expectation (values X))) (t : Testing G)
      → IsReady L c t (entry X ctx m h d (errors h))
      → L.expected c t.library ≡ expectation (entry X ctx m h d (errors h)) ∷ rest
      → (s : G.State) × (step_of X {G = G} m ctx h (at X m ctx d t)
          ≡ (errors h, at X m ctx d (record t { library = s })))
        × (L.expected c s ≡ rest)
  step_of-answers h rest t r x =
      let (s, e, y) = invoke_entry-answers L c (entry X ctx m h d (errors h)) rest t r x in
      (s, step_of-invoke X m ctx h d (errors h) t (record t { library = s }) e, y)

  abbrev pub Meets : GoError X.util × State (test_client X G) → GoError X.util → Testing G → Type 0
  Meets r e t =
      (s : G.State) × (r ≡ (e, at X m ctx d (record t { library = s }))) × (L.expected c s ≡ [])

  -- A run from a step that fails, and from one that does not.
  module _ (h : HelperMethod) (t : Testing G) (s : G.State)
      (g : step_of X {G = G} m ctx h (at X m ctx d t)
        ≡ (errors h, at X m ctx d (record t { library = s }))) where
    abbrev after : State (test_client X G)
    after = at X m ctx d (record t { library = s })

    or_fail-fails :
        (f : Error X.util.Failure)
        → errors h ≡ some f
        → or_fail (text_of h) (step_of X {G = G} m ctx h) (at X m ctx d t)
          ≡ (some (wrapf X.util (text_of h) f), after)
    or_fail-fails f p =
        or_fail-of_error _ _ (text_of h) f (ap (λ r. r.0) g ∙ p)
        ∙ ap (λ r. (some (wrapf X.util (text_of h) f), r.1)) g

    or_fail-passes :
        errors h ≡ none
        → or_fail (text_of h) (step_of X {G = G} m ctx h) (at X m ctx d t) ≡ (none, after)
    or_fail-passes p =
        or_fail-of_nil _ _ (text_of h) (ap (λ r. r.0) g ∙ p) ∙ ap (λ r. (none, r.1)) g

    run_all-fails :
        (ks : List HelperMethod) (f : Error X.util.Failure)
        → errors h ≡ some f
        → run_all X {G = G} m ctx h ks (at X m ctx d t) ≡ (some (wrapf X.util (text_of h) f), after)
    run_all-fails [] f p = or_fail-fails f p
    run_all-fails (k ∷ ks) f p =
        >>-of_error _ _ (run_all X {G = G} m ctx k ks) (wrapf X.util (text_of h) f)
          (ap (λ r. r.0) (or_fail-fails f p))
        ∙ ap (λ r. (some (wrapf X.util (text_of h) f), r.1)) (or_fail-fails f p)

    run_all-passes :
        (k : HelperMethod) (ks : List HelperMethod)
        → errors h ≡ none
        → run_all X {G = G} m ctx h (k ∷ ks) (at X m ctx d t) ≡ run_all X {G = G} m ctx k ks after
    run_all-passes k ks p =
        >>-of_nil _ _ (run_all X {G = G} m ctx k ks) (ap (λ r. r.0) (or_fail-passes p))
        ∙ ap (λ r. run_all X {G = G} m ctx k ks r.1) (or_fail-passes p)

  -- What a run from a method meets.
  abbrev pub MeetsAll : HelperMethod → List HelperMethod → Testing G → Type 0
  MeetsAll h ks t =
      AllReady L c t (entries_of (until_error errors (h ∷ ks)))
      → L.expected c t.library ≡ map expectation (entries_of (until_error errors (h ∷ ks)))
      → Meets (run_all X {G = G} m ctx h ks (at X m ctx d t)) (first_error X.util errors (h ∷ ks)) t

  module _ (h : HelperMethod) (t : Testing G) where
    MeetsAll-fails :
        (ks : List HelperMethod) (f : Error X.util.Failure) → errors h ≡ some f → MeetsAll h ks t
    MeetsAll-fails ks f p (r, rs) x =
        let (s, g, y) = step_of-answers h _ t r x in
        (
          s,
          run_all-fails h t s g ks f p
              ∙ ap
                  (λ e.
                    (or_else X.util (text_of h) e (first_error X.util errors ks), after h t s g))
                  (sym p),
          y ∙ ap (λ e. map expectation (entries_of (cut e (until_error errors ks)))) p,
        )

    MeetsAll-passes_last : errors h ≡ none → MeetsAll h [] t
    MeetsAll-passes_last p (r, rs) x =
        let (s, g, y) = step_of-answers h _ t r x in
        (
          s,
          or_fail-passes h t s g p
              ∙ ap (λ e. (or_else X.util (text_of h) e none, after h t s g)) (sym p),
          y ∙ ap (λ e. map expectation (entries_of (cut e []))) p,
        )

    MeetsAll-passes :
        (k : HelperMethod) (ks : List HelperMethod)
        → errors h ≡ none
        → ((u : Testing G) → MeetsAll k ks u)
        → MeetsAll h (k ∷ ks) t
    MeetsAll-passes k ks p ih (r, rs) x =
        let (s, g, y) = step_of-answers h _ t r x in
        let rest = until_error errors (k ∷ ks) in
        let (s', g', y') =
          ih (record t { library = s })
            (subst (λ e. AllReady L c (record t { library = s }) (entries_of (cut e rest))) p
              (AllReady-library L c (entries_of (cut (errors h) rest)) t s rs))
            (y ∙ ap (λ e. map expectation (entries_of (cut e rest))) p) in
        (
          s',
          run_all-passes h t s g k ks p
              ∙ g'
              ∙ ap
                  (λ e. (
                    or_else X.util (text_of h) e (first_error X.util errors (k ∷ ks)),
                    at X {G = G} m ctx d (record t { library = s' }),
                  ))
                  (sym p),
          y',
        )

  pub run_all-MeetsAll :
      (h : HelperMethod) (ks : List HelperMethod) (t : Testing G) → MeetsAll h ks t
  run_all-MeetsAll h [] t = elim (Option-cases (errors h)) [
    | inr (f, p) ↦ MeetsAll-fails h t [] f p
    | inl p ↦ MeetsAll-passes_last h t p
  ]
  run_all-MeetsAll h (k ∷ ks) t = elim (Option-cases (errors h)) [
    | inr (f, p) ↦ MeetsAll-fails h t (k ∷ ks) f p
    | inl p ↦ MeetsAll-passes h t k ks p (run_all-MeetsAll k ks)
  ]
