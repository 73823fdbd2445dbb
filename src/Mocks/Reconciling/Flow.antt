-- ===== src/Mocks/Reconciling/Flow.antt =====
-- Reconcile of internal/controllers/device_config_reconciler.go meets what is expected of the mock of
-- its helper.
use operator_for_ai_chips_on.Common.{
  ℕ, true, none, some, List, [], ◌∷◌, ◌++◌, map, ◌≡◌, refl, ap, ◌∙◌, is_some,
}
use operator_for_ai_chips_on.Api.{DeviceConfig}
use operator_for_ai_chips_on.Kube.{GoError}
use operator_for_ai_chips_on.Controllers.Reconcile.{no_result, reconcile}
use operator_for_ai_chips_on.Mocks.Gomock.{
  error_type, device_config_type, context_type, Values, any, value, Interface, HasType, exact,
  absent, Gomock, IsGomock, finished, match_all,
}
use operator_for_ai_chips_on.Mocks.Doubles.{Testing}
use operator_for_ai_chips_on.Mocks.Links.{IsLinked}
use operator_for_ai_chips_on.Mocks.Helper.Calls.{describe}
use operator_for_ai_chips_on.Mocks.Script.{describe_call, announce_all}
use operator_for_ai_chips_on.Mocks.Script.Replay.{
  IsGiven, AllReady, AllReady-library, expectation, announce_all-expects,
}
use operator_for_ai_chips_on.Mocks.Reconciling.{
  Setting, values, mock_helper, HelperMethod, finalizing, setting_finalizer, handling_module,
  handling_scheduler, handling_metrics, entry, first_of_methods, rest_of_methods, methods_of,
  until_error, first_error,
}
use operator_for_ai_chips_on.Mocks.Reconciling.Steps.{at, reconcile-run_all}
use operator_for_ai_chips_on.Mocks.Reconciling.Runs.{entries_of, run_all-MeetsAll}

any-HasType :
    (V : Values) (e : Interface V error_type)
    → HasType {V = V} error_type (any {V = V} error_type e)
any-HasType V none = absent error_type refl
any-HasType V (some e) = exact error_type e

module _ (X : Setting) {G : Gomock (values X)} (L : IsGomock G) (c : G.Controller) (m : ℕ)
    (ctx : Interface (values X) context_type) (d : DeviceConfig)
    (errors : HelperMethod → GoError X.util) where
  -- Arguments that match themselves make every entry ready.
  module _ (t : Testing G) (l : IsLinked {G = G} t.store c m)
      (ctx_matches : L.matches (any context_type ctx) (any context_type ctx) ≡ true)
      (d_matches : L.matches (value device_config_type d) (value device_config_type d) ≡ true) where
    entry-matches :
        (h : HelperMethod)
        → let xs = (describe_call (entry X ctx m h d (errors h)).call).arguments in
          match_all L.matches xs xs ≡ true
    unfolding describe_call describe
    entry-matches finalizing = rw (ctx_matches, d_matches)
    entry-matches setting_finalizer = rw (ctx_matches, d_matches)
    entry-matches handling_module = rw (ctx_matches, d_matches)
    entry-matches handling_scheduler = rw (ctx_matches, d_matches)
    entry-matches handling_metrics = rw (ctx_matches, d_matches)

    entry-IsGiven : (h : HelperMethod) → IsGiven (entry X ctx m h d (errors h))
    unfolding describe_call describe
    entry-IsGiven finalizing = (any-HasType (values X) (errors finalizing), tt)
    entry-IsGiven setting_finalizer = (any-HasType (values X) (errors setting_finalizer), tt)
    entry-IsGiven handling_module = (any-HasType (values X) (errors handling_module), tt)
    entry-IsGiven handling_scheduler = (any-HasType (values X) (errors handling_scheduler), tt)
    entry-IsGiven handling_metrics = (any-HasType (values X) (errors handling_metrics), tt)

    entries_of-AllReady :
        (hs : List HelperMethod) → AllReady L c t (entries_of X L c m ctx d errors hs)
    entries_of-AllReady [] = tt
    entries_of-AllReady (h ∷ hs) = ((l, entry-IsGiven h, entry-matches h), entries_of-AllReady hs)

-- Reconcile over the mock of its helper. For any DeviceConfig and any errors that the methods are to
-- return: if the mock is linked to its recorder, its controller expects nothing yet, and the context
-- and the DeviceConfig match themselves, then the calls can be announced of finalizeDeviceConfig alone
-- where the DeviceConfig is being deleted, and otherwise of setFinalizer, handleKMMModule,
-- handleCustomScheduler and handleNodeMetrics up to the first that is to return an error; and
-- Reconcile that follows makes just these calls: it is not stopped, returns the empty result with the
-- first error under the text of its method, or nil, and leaves nothing expected and the DeviceConfig
-- and the mocks as they were.
pub reconcile-mocked :
    (X : Setting) {G : Gomock (values X)} (L : IsGomock G) (c : G.Controller) (m : ℕ)
    (ctx : Interface (values X) context_type) (d : DeviceConfig)
    (errors : HelperMethod → GoError X.util) (t : Testing G)
    → IsLinked {G = G} t.store c m
    → L.matches (any context_type ctx) (any context_type ctx) ≡ true
    → L.matches (value device_config_type d) (value device_config_type d) ≡ true
    → L.expected c t.library ≡ []
    → let hs = methods_of (is_some d.meta.deletion_timestamp) in
      (s s' : G.State) × (announce_all G (entries_of X L c m ctx d errors (until_error errors hs)) t
        ≡ finished tt (record t { library = s }))
      × (reconcile
            (mock_helper X G m ctx)
            (record { world = some (record t { library = s }); dev_config = d })
          ≡ (
            no_result,
            first_error X.util errors hs,
            record { world = some (record t { library = s' }); dev_config = d },
          ))
      × (L.expected c s' ≡ [])
reconcile-mocked X {G} L c m ctx d errors t l p q x =
    let b = is_some d.meta.deletion_timestamp in
    let es = entries_of X L c m ctx d errors (until_error errors (methods_of b)) in
    let ready : AllReady L c t es =
      entries_of-AllReady X L c m ctx d errors t l p q (until_error errors (methods_of b)) in
    let (s, g, y) = announce_all-expects L c es t ready in
    let (s', g', y') =
      run_all-MeetsAll X L c m ctx d errors (first_of_methods b) (rest_of_methods b)
        (record t { library = s }) (AllReady-library L c es t s ready)
        (y ∙ ap (λ xs. xs ++ map expectation es) x) in
    (
      s,
      s',
      g,
      reconcile-run_all X m ctx (at X m ctx d (record t { library = s })) b refl
          ∙ ap (λ r. (no_result, r.0, r.1)) g',
      y',
    )
