-- ===== src/Mocks/Doubles.antt =====
-- What the generated mocks share: the mocks and their recorders in a store with addresses, and the
-- lines that each of their methods has. The lines are those of internal/client/mock_client.go.
use operator_for_ai_chips_on.Common.{
  ℕ, zero, suc, String, Bool, Option, none, some, List, [], ◌∷◌, ◌++◌,
}
use operator_for_ai_chips_on.Mocks.Gomock.{
  GoType, bool_type, error_type, group_version_kind_type, rest_mapper_type, scheme_type,
  sub_resource_writer_type, sub_resource_client_type, Values, Any, value, any, Interface,
  MethodType, Outcome, finished, failed, panicked, Gomock,
}

abbrev pub length : {A : Type 0} → List A → ℕ
length [] = 0
length (x ∷ xs) = suc (length xs)

abbrev pub get_elem? : {A : Type 0} → List A → ℕ → Option A
get_elem? [] i = none
get_elem? (x ∷ xs) zero = some x
get_elem? (x ∷ xs) (suc i) = get_elem? xs i

abbrev pub set : {A : Type 0} → List A → ℕ → A → List A
set [] i v = []
set (x ∷ xs) zero v = v ∷ xs
set (x ∷ xs) (suc i) v = x ∷ set xs i v

module _ {V : Values} (G : Gomock V) where
  -- A mock: its controller and the address of its recorder, nil until the recorder is made.
  pub record Mock : Type 0 where
    pub ctrl : G.Controller
    pub recorder : Option ℕ

  -- A recorder: the address of its mock.
  pub record MockRecorder : Type 0 where
    pub mock : ℕ

  pub record Store : Type 0 where
    pub mocks : List Mock
    pub recorders : List MockRecorder

  -- A test that runs: the library's state, and the mocks.
  pub record Testing : Type 0 where
    pub library : G.State
    pub store : Store

  abbrev pub Run : Type 0 → Type 0
  Run A = Testing → Outcome Testing A

module _ {V : Values} {G : Gomock V} where
  abbrev pub pure : {A : Type 0} → A → Run G A
  pure a t = finished a t

  infixl 5 ◌>>=◌ ◌>>◌
  abbrev pub ◌>>=◌ : {A B : Type 0} → Run G A → (A → Run G B) → Run G B
  ◌>>=◌ m f t = elim (m t) [ finished a t' ↦ f a t' | failed ↦ failed | panicked ↦ panicked ]

  abbrev pub ◌>>◌ : {A B : Type 0} → Run G A → Run G B → Run G B
  m >> k = m >>= λ _. k

  -- A read through a nil pointer, or beyond a slice.
  abbrev pub or_panic : {A : Type 0} → Option A → Run G A
  or_panic none t = panicked
  or_panic (some a) t = finished a t

  abbrev pub lift : {A : Type 0} → Outcome G.State A → Run G A
  lift (finished a s) t = finished a (record t { library = s })
  lift failed t = failed
  lift panicked t = panicked

  abbrev pub load_mock : ℕ → Run G (Mock G)
  load_mock m t = or_panic (get_elem? t.store.mocks m) t

  abbrev pub load_recorder : ℕ → Run G (MockRecorder G)
  load_recorder r t = or_panic (get_elem? t.store.recorders r) t

  -- &Mock{ctrl: ctrl}
  unfoldable pub alloc_mock : G.Controller → Run G ℕ
  alloc_mock ctrl t = finished (length t.store.mocks) (record t {
    store = record t.store {
      mocks = t.store.mocks ++ (record { ctrl = ctrl; recorder = none } ∷ []);
    };
  })

  -- &MockRecorder{mock}
  unfoldable pub alloc_recorder : ℕ → Run G ℕ
  alloc_recorder m t = finished (length t.store.recorders) (record t {
    store = record t.store { recorders = t.store.recorders ++ (record { mock = m } ∷ []) };
  })

  -- mock.recorder = r
  unfoldable pub set_recorder : ℕ → ℕ → Run G (Unit {0})
  set_recorder m r = do
    mock ← load_mock m
    λ t. finished tt (record t {
      store = record t.store { mocks = set t.store.mocks m (record mock { recorder = some r }) };
    })

  -- The three statements of a constructor.
  unfoldable pub new_mock : G.Controller → Run G ℕ
  unfolding alloc_mock alloc_recorder set_recorder
  new_mock ctrl = do
    mock ← alloc_mock ctrl
    recorder ← alloc_recorder mock
    _ ← set_recorder mock recorder
    pure mock

  -- m.recorder
  unfoldable pub recorder_of : ℕ → Run G ℕ
  recorder_of m = do mock ← load_mock m; or_panic mock.recorder

  -- m.ctrl.T.Helper() and m.ctrl.Call(m, method, args...)
  unfoldable pub call_method : ℕ → String → List (Any V) → Run G (List (Any V))
  call_method m method args = do
    mock ← load_mock m
    λ t. lift (G.call mock.ctrl m method args (G.helper mock.ctrl t.library)) t

  -- mr.mock.ctrl.T.Helper() and mr.mock.ctrl.RecordCallWithMethodType(mr.mock, method, t, args...)
  unfoldable pub record_method : ℕ → String → MethodType → List (Any V) → Run G G.Call
  record_method mr method type args = do
    recorder ← load_recorder mr
    mock ← load_mock recorder.mock
    λ t.
        let (call, s) =
          G.record_call mock.ctrl recorder.mock method type args (G.helper mock.ctrl t.library) in
        finished call (record t { library = s })

-- for _, a := range rest { varargs = append(varargs, a) }
unfoldable pub append_each :
    {V : Values} (k : GoType) → List (Any V) → List (Interface V k) → List (Any V)
append_each k varargs [] = varargs
append_each k varargs (a ∷ rest) = append_each k (varargs ++ (any k a ∷ [])) rest

module _ {V : Values} where
  -- `ret0, _ := ret[0].(T)` gives the zero value of T where the assertion fails.
  abbrev pub as_error : Any V → Interface V error_type
  as_error (value error_type e) = some e
  as_error _ = none

  abbrev pub as_bool : Any V → Bool
  as_bool (value bool_type b) = b
  as_bool _ = Bool.false

  abbrev pub as_group_version_kind : Any V → V.Value group_version_kind_type
  as_group_version_kind (value group_version_kind_type k) = k
  as_group_version_kind _ = V.empty_kind

  abbrev pub as_rest_mapper : Any V → Interface V rest_mapper_type
  as_rest_mapper (value rest_mapper_type m) = some m
  as_rest_mapper _ = none

  abbrev pub as_scheme : Any V → V.Value scheme_type
  as_scheme (value scheme_type s) = s
  as_scheme _ = V.nil_scheme

  abbrev pub as_sub_resource_writer : Any V → Interface V sub_resource_writer_type
  as_sub_resource_writer (value sub_resource_writer_type w) = some w
  as_sub_resource_writer _ = none

  abbrev pub as_sub_resource_client : Any V → Interface V sub_resource_client_type
  as_sub_resource_client (value sub_resource_client_type c) = some c
  as_sub_resource_client _ = none

module _ {V : Values} {G : Gomock V} where
  -- ret[i]
  abbrev pub result_at : ℕ → List (Any V) → Run G (Any V)
  result_at i ret = or_panic (get_elem? ret i)

  -- `ret0, _ := ret[0].(error)` and `return ret0`, as in most methods
  unfoldable pub error_result : List (Any V) → Run G (Interface V error_type)
  error_result ret = do ret0 ← result_at 0 ret; pure (as_error ret0)
