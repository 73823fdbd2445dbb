-- ===== src/Mocks/Links.antt =====
-- The constructors of the generated mocks: a mock and its recorder refer to each other.
use operator_for_ai_chips_on.Common.{
  ℕ, zero, suc, String, some, none, List, [], ◌∷◌, ◌++◌, ◌≡◌, refl, ap, ◌∙◌,
}
use operator_for_ai_chips_on.Mocks.Gomock.{Values, Any, MethodType, Gomock, finished}
use operator_for_ai_chips_on.Mocks.Doubles.{
  length, get_elem?, set, Mock, Store, Testing, Run, pure, ◌>>=◌, or_panic, load_mock, lift,
  new_mock, alloc_mock, alloc_recorder, set_recorder, recorder_of, call_method, record_method,
}
use operator_for_ai_chips_on.Mocks.Client.{new_mock_client}
use operator_for_ai_chips_on.Mocks.StatusWriter.{new_mock_status_writer}
use operator_for_ai_chips_on.Mocks.Helper.{new_mock_device_config_reconciler_helper_api}
use operator_for_ai_chips_on.Mocks.Scheduler.{new_mock_custom_scheduler}
use operator_for_ai_chips_on.Mocks.Module.{new_mock_kmm_module_api}
use operator_for_ai_chips_on.Mocks.Metrics.{new_mock_node_metrics}

pub data MockType : Type 0 where
  client status_writer helper custom_scheduler kmm_module node_metrics : MockType

module _ {V : Values} (G : Gomock V) where
  -- The constructor of each mock.
  unfoldable pub construct : MockType → G.Controller → Run G ℕ
  construct client = new_mock_client G
  construct status_writer = new_mock_status_writer G
  construct helper = new_mock_device_config_reconciler_helper_api G
  construct custom_scheduler = new_mock_custom_scheduler G
  construct kmm_module = new_mock_kmm_module_api G
  construct node_metrics = new_mock_node_metrics G

module _ {V : Values} {G : Gomock V} where
  -- The mock at an address has the controller, and a recorder that has the mock.
  abbrev pub IsLinked : Store G → G.Controller → ℕ → Type 0
  IsLinked s c m =
      (r : ℕ) × (get_elem? s.mocks m ≡ some (record { ctrl = c; recorder = some r }))
      × (get_elem? s.recorders r ≡ some (record { mock = m }))

module _ {A : Type 0} where
  get_elem?-append_self : (xs : List A) (x : A) → get_elem? (xs ++ (x ∷ [])) (length xs) ≡ some x
  get_elem?-append_self [] x = refl
  get_elem?-append_self (y ∷ xs) x = get_elem?-append_self xs x

  set-append_self : (xs : List A) (x y : A) → set (xs ++ (x ∷ [])) (length xs) y ≡ xs ++ (y ∷ [])
  set-append_self [] x y = refl
  set-append_self (z ∷ xs) x y = ap (λ ys. z ∷ ys) (set-append_self xs x y)

  get_elem?-append :
      (xs ys : List A) (i : ℕ) {x : A} → get_elem? xs i ≡ some x → get_elem? (xs ++ ys) i ≡ some x
  get_elem?-append [] ys i e = cc
  get_elem?-append (x ∷ xs) ys zero e = e
  get_elem?-append (x ∷ xs) ys (suc i) e = get_elem?-append xs ys i e

  get_elem?-length : (xs : List A) → get_elem? xs (length xs) ≡ none
  get_elem?-length [] = refl
  get_elem?-length (x ∷ xs) = get_elem?-length xs

module _ {V : Values} {G : Gomock V} where
  -- The store with a mock of the controller and its recorder beside what it had.
  abbrev pub with_mock : Store G → G.Controller → Store G
  with_mock s c = record {
    mocks = s.mocks ++ (record { ctrl = c; recorder = some (length s.recorders) } ∷ []);
    recorders = s.recorders ++ (record { mock = length s.mocks } ∷ []);
  }

  pub new_mock_lem :
      (c : G.Controller) (t : Testing G)
      → new_mock {G = G} c t
        ≡ finished (length t.store.mocks) (record t { store = with_mock t.store c })
  unfolding new_mock alloc_mock alloc_recorder set_recorder
  new_mock_lem c t =
      ap (λ x. ((or_panic {G = G} x >>= link) >>= λ _. pure m) made)
        (get_elem?-append_self t.store.mocks (record { ctrl = c; recorder = none }))
      ∙ ap
          (λ x. finished m (record t {
            store = record {
              mocks = x;
              recorders = t.store.recorders ++ (record { mock = m } ∷ []);
            };
          }))
          (set-append_self t.store.mocks (record { ctrl = c; recorder = none })
            (record { ctrl = c; recorder = some (length t.store.recorders) }))
    where
      m : ℕ
      m = length t.store.mocks

      made : Testing G
      made = record t {
        store = record {
          mocks = t.store.mocks ++ (record { ctrl = c; recorder = none } ∷ []);
          recorders = t.store.recorders ++ (record { mock = m } ∷ []);
        };
      }

      link : Mock G → Run G (Unit {0})
      link mock u = finished tt (record u {
        store = record u.store {
          mocks = set u.store.mocks m (record mock { recorder = some (length t.store.recorders) });
        };
      })

  pub with_mock-IsLinked :
      (s : Store G) (c : G.Controller) → IsLinked {G = G} (with_mock s c) c (length s.mocks)
  with_mock-IsLinked s c =
      (length s.recorders, get_elem?-append_self s.mocks _, get_elem?-append_self s.recorders _)

  -- The mocks that are linked stay so.
  pub IsLinked-with_mock :
      (s : Store G) (c c' : G.Controller) (m : ℕ)
      → IsLinked {G = G} s c' m
      → IsLinked {G = G} (with_mock s c) c' m
  IsLinked-with_mock s c c' m (r, h, k) =
      (r, get_elem?-append s.mocks _ m h, get_elem?-append s.recorders _ r k)

module _ {V : Values} {G : Gomock V} {c : G.Controller} {m : ℕ} (t : Testing G)
    (l : IsLinked {G = G} t.store c m) where
  pub recorder_of-linked : recorder_of {G = G} m t ≡ finished l.0 t
  unfolding recorder_of
  recorder_of-linked = ap (λ x. (or_panic {G = G} x >>= λ mock. or_panic mock.recorder) t) l.1

  pub call_method-linked :
      (method : String) (xs : List (Any V))
      → call_method {G = G} m method xs t ≡ lift (G.call c m method xs (G.helper c t.library)) t
  unfolding call_method
  call_method-linked method xs =
      ap
        (λ x.
          (or_panic {G = G} x >>= λ mock u.
          lift (G.call mock.ctrl m method xs (G.helper mock.ctrl u.library)) u)
            t)
        l.1

  pub record_method-linked :
      (method : String) (type : MethodType) (xs : List (Any V))
      → record_method {G = G} l.0 method type xs t ≡ (
          let (call, s) = G.record_call c m method type xs (G.helper c t.library) in
          finished call (record t { library = s }))
  unfolding record_method
  record_method-linked method type xs =
      ap (λ x. (or_panic {G = G} x >>= λ recorder. recorded recorder.mock) t) l.2
      ∙ ap (λ x. (or_panic {G = G} x >>= λ mock. recorded_with mock m) t) l.1
    where
      recorded_with : Mock G → ℕ → Run G G.Call
      recorded_with mock a u =
          let (call, s) = G.record_call mock.ctrl a method type xs (G.helper mock.ctrl u.library) in
          finished call (record u { library = s })

      recorded : ℕ → Run G G.Call
      recorded a = load_mock a >>= λ mock. recorded_with mock a

module _ {V : Values} {G : Gomock V} where
  construct-new_mock :
      (k : MockType) (c : G.Controller) (t : Testing G) → construct G k c t ≡ new_mock {G = G} c t
  unfolding construct new_mock_client new_mock_status_writer
      new_mock_device_config_reconciler_helper_api new_mock_custom_scheduler new_mock_kmm_module_api
      new_mock_node_metrics
  construct-new_mock client c t = refl
  construct-new_mock status_writer c t = refl
  construct-new_mock helper c t = refl
  construct-new_mock custom_scheduler c t = refl
  construct-new_mock kmm_module c t = refl
  construct-new_mock node_metrics c t = refl

-- Each of the six constructors ends with the address of a new mock that has the controller and is
-- linked to its recorder, and leaves the library's state alone; and a mock that was linked to its
-- recorder stays so.
pub construct-IsLinked :
    {V : Values} {G : Gomock V} (k : MockType) (c c' : G.Controller) (m' : ℕ) (t : Testing G)
    → IsLinked {G = G} t.store c' m'
    → (m : ℕ) × (s : Store G) × (construct G k c t ≡ finished m (record t { store = s }))
      × (get_elem? t.store.mocks m ≡ none)
      × IsLinked {G = G} s c m
      × IsLinked {G = G} s c' m'
construct-IsLinked {G} k c c' m' t l = (
  length t.store.mocks,
  with_mock {G = G} t.store c,
  construct-new_mock k c t ∙ new_mock_lem c t,
  get_elem?-length t.store.mocks,
  with_mock-IsLinked t.store c,
  IsLinked-with_mock t.store c c' m' l,
)
