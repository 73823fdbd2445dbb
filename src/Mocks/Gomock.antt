-- ===== src/Mocks/Gomock.antt =====
-- go.uber.org/mock/gomock, which the generated mocks call, with the Go values that pass through it
-- as `any`. The library is a parameter; its documented behaviour is IsGomock.
use operator_for_ai_chips_on.Common.{
  ℕ, String, Bool, true, false, ◌&&◌, ◌≡◌, Option, none, some, List, [], ◌∷◌, ◌++◌, map, ◌==◌,
  ◌==ℕ◌, if◌then◌else◌,
}

-- The Go types that the mocked methods take and return.
pub data GoType : Type 0 where
  bool_type string_type error_type : GoType
  -- context.Context, runtime.Object, client.Object, client.ObjectList and client.Patch
  context_type runtime_object_type object_type object_list_type patch_type : GoType
  -- types.NamespacedName and schema.GroupVersionKind
  namespaced_name_type group_version_kind_type : GoType
  -- meta.RESTMapper, *runtime.Scheme, client.SubResourceWriter and client.SubResourceClient
  rest_mapper_type scheme_type sub_resource_writer_type sub_resource_client_type : GoType
  -- The options of the methods of a client and of a status writer.
  create_option_type delete_option_type delete_all_of_option_type get_option_type : GoType
  list_option_type patch_option_type update_option_type : GoType
  sub_resource_create_option_type sub_resource_patch_option_type : GoType
  sub_resource_update_option_type : GoType
  -- *v1alpha1.DeviceConfig, *v1beta1.Module, *v1.DaemonSet and *v1.Deployment
  device_config_type module_type daemon_set_type deployment_type : GoType

-- A type whose zero value is the nil interface.
abbrev pub is_interface : GoType → Bool
is_interface bool_type = false
is_interface string_type = false
is_interface namespaced_name_type = false
is_interface group_version_kind_type = false
is_interface scheme_type = false
is_interface device_config_type = false
is_interface module_type = false
is_interface daemon_set_type = false
is_interface deployment_type = false
is_interface _ = true

-- The values of the library's types: of an interface those that are not nil.
pub record Values : Type 1 where
  pub Value : GoType → Type 0
  -- schema.GroupVersionKind{} and the nil *runtime.Scheme
  pub empty_kind : Value group_version_kind_type
  pub nil_scheme : Value scheme_type

module _ (V : Values) where
  abbrev pub At : GoType → Type 0
  At bool_type = Bool
  At string_type = String
  At k = V.Value k

  -- Go's `any`: nil, or a value with the type that it is used at.
  pub data Any : Type 0 where
    nil : Any
    value : (k : GoType) → At k → Any

  -- A variable of an interface type.
  abbrev pub Interface : GoType → Type 0
  Interface k = Option (At k)

module _ {V : Values} where
  abbrev pub any : (k : GoType) → Interface V k → Any V
  any k none = nil
  any k (some x) = value k x

  -- A value that a variable of the type can hold.
  pub data HasType : GoType → Any V → Type 0 where
    exact : (k : GoType) (x : At V k) → HasType k (value k x)
    absent : (k : GoType) → is_interface k ≡ true → HasType k nil

  abbrev pub HasTypes : List GoType → List (Any V) → Type 0
  HasTypes [] [] = Unit
  HasTypes (k ∷ ks) (v ∷ vs) = HasType k v × HasTypes ks vs
  HasTypes _ _ = ⊥

-- reflect.Type of a method: what it takes, whether the last of it is variadic, what it returns.
pub record MethodType : Type 0 where
  pub inputs : List GoType
  pub is_variadic : Bool
  pub outputs : List GoType

-- A test that runs on with a value; that T.Fatalf stopped; or that panicked.
pub data Outcome (S A : Type 0) : Type 0 where
  finished : A → S → Outcome S A
  failed : Outcome S A
  panicked : Outcome S A

-- A controller with its testing.T, and the calls that it expects, are in the state; a receiver is
-- the address of a mock.
pub record Gomock (V : Values) : Type 1 where
  pub Controller : Type 0
  pub State : Type 0
  pub Call : Type 0
  -- ctrl.T.Helper
  pub helper : Controller → State → State
  -- (*Controller).Call
  pub call :
      Controller → (receiver : ℕ) → String → List (Any V) → State → Outcome State (List (Any V))
  -- (*Controller).RecordCallWithMethodType
  pub record_call :
      Controller → (receiver : ℕ) → String → MethodType → List (Any V) → State → Call × State
  -- (*Call).Return, which the tests make of an expected call
  pub return_values : Call → List (Any V) → State → Outcome State (Unit {0})

-- A call that a controller expects once, and what it is answered with.
pub record Expectation (V : Values) : Type 0 where
  pub receiver : ℕ
  pub method : String
  pub arguments : List (Any V)
  pub results : List (Any V)

module _ {V : Values} where
  -- reflect.Zero, which answers where Return was not called; the other types are not returned.
  abbrev pub zero_value : GoType → Any V
  zero_value bool_type = value bool_type false
  zero_value group_version_kind_type = value group_version_kind_type V.empty_kind
  zero_value scheme_type = value scheme_type V.nil_scheme
  zero_value _ = nil

  abbrev pub match_all : (Any V → Any V → Bool) → List (Any V) → List (Any V) → Bool
  match_all f [] [] = true
  match_all f (x ∷ xs) (y ∷ ys) = f x y && match_all f xs ys
  match_all f _ _ = false

  -- The first expectation that passes, and the others.
  unfoldable pub pick :
      (Expectation V → Bool) → List (Expectation V) → Option (Expectation V × List (Expectation V))
  pick p [] = none
  pick p (e ∷ es) =
      if p e
      then some (e, es)
      else elim (pick p es) [ none ↦ none | some (x, xs) ↦ some (x, e ∷ xs) ]

  abbrev pub fits :
      (List (Any V) → List (Any V) → Bool)
      → (receiver : ℕ) → String
      → List (Any V)
      → Expectation V
      → Bool
  fits matches r m xs e = (e.receiver ==ℕ r) && (e.method == m) && matches e.arguments xs

-- A recorded call is expected once, after those that were recorded before it; a call is answered
-- by the first expectation that fits it, which is then used up.
pub record IsGomock {V : Values} (G : Gomock V) : Type 0 where
  -- A matcher, or a value that reflect.DeepEqual compares.
  pub matches : Any V → Any V → Bool
  -- The arguments of a call, of which a matcher may match the variadic ones as a whole. They match if
  -- each of them does.
  pub matches_arguments : List (Any V) → List (Any V) → Bool
  pub matches_each :
      (xs ys : List (Any V)) → match_all matches xs ys ≡ true → matches_arguments xs ys ≡ true
  pub expected : G.Controller → G.State → List (Expectation V)
  pub helper_quiet : (c : G.Controller) (s : G.State) → expected c (G.helper c s) ≡ expected c s
  pub recorded :
      (c : G.Controller) (r : ℕ) (m : String) (t : MethodType) (xs : List (Any V)) (s : G.State)
      → expected c (G.record_call c r m t xs s).1
        ≡ expected c s
          ++ (record {
            receiver = r;
            method = m;
            arguments = xs;
            results = map zero_value t.outputs;
          }
              ∷ [])
  pub returned :
      (c : G.Controller) (r : ℕ) (m : String) (t : MethodType) (xs vs : List (Any V)) (s : G.State)
      → HasTypes t.outputs vs
      → let (k, s') = G.record_call c r m t xs s in
        (s'' : G.State) × (G.return_values k vs s' ≡ finished tt s'')
        × (expected c s''
            ≡ expected c s
              ++ (record { receiver = r; method = m; arguments = xs; results = vs } ∷ []))
  pub answered :
      (c : G.Controller) (r : ℕ) (m : String) (xs : List (Any V)) (s : G.State) (e : Expectation V)
      (rest : List (Expectation V))
      → pick (fits matches_arguments r m xs) (expected c s) ≡ some (e, rest)
      → (s' : G.State) × (G.call c r m xs s ≡ finished e.results s') × (expected c s' ≡ rest)
