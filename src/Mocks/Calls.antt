-- ===== src/Mocks/Calls.antt =====
-- Calls of the generated mocks as data: what they have in common, and the results that a method
-- makes of those of gomock's Call.
use operator_for_ai_chips_on.Common.{ℕ, String, List, [], ◌∷◌, ◌++◌, map, ◌≡◌, sym, ap, ◌∙◌}
use operator_for_ai_chips_on.Mocks.Gomock.{
  GoType, bool_type, error_type, group_version_kind_type, rest_mapper_type, scheme_type,
  sub_resource_writer_type, sub_resource_client_type, Values, At, Any, value, any, Interface,
  MethodType, Gomock, Outcome,
}
use operator_for_ai_chips_on.Mocks.Doubles.{
  Run, Testing, pure, call_method, ◌>>=◌, append_each, result_at, error_result, as_error, as_bool,
  as_group_version_kind, as_rest_mapper, as_scheme, as_sub_resource_writer, as_sub_resource_client,
}
use mathlib.Core.List.{append-nil, append_assoc}

-- A call: the method's name and type, and the arguments.
pub record Description (V : Values) : Type 0 where
  pub method : String
  pub signature : MethodType
  pub arguments : List (Any V)

module _ {V : Values} {G : Gomock V} where
  -- The results of a method, as values.
  abbrev pub return_error : Run G (Interface V error_type) → Run G (List (Any V))
  return_error m = do e ← m; pure (any error_type e ∷ [])

  abbrev pub return_pair :
      (k : GoType) → Run G (At V k × Interface V error_type) → Run G (List (Any V))
  return_pair k m = do p ← m; pure (value k p.0 ∷ any error_type p.1 ∷ [])

  abbrev pub return_interface : (k : GoType) → Run G (Interface V k) → Run G (List (Any V))
  return_interface k m = do x ← m; pure (any k x ∷ [])

  abbrev pub return_value : (k : GoType) → Run G (At V k) → Run G (List (Any V))
  return_value k m = do x ← m; pure (value k x ∷ [])

  abbrev pub return_nothing : Run G (Unit {0}) → Run G (List (Any V))
  return_nothing m = do _ ← m; pure []

-- The loop of a method with options appends what `append` of the recorder does.
pub append_each_lem :
    {V : Values} (k : GoType) (xs : List (Any V)) (os : List (Interface V k))
    → append_each k xs os ≡ xs ++ map (any k) os
unfolding append_each
append_each_lem k xs [] = sym (append-nil xs)
append_each_lem {V} k xs (o ∷ os) =
    append_each_lem k (xs ++ (any k o ∷ [])) os
    ∙ append_assoc xs (any {V = V} k o ∷ []) (map (any k) os)

module _ {V : Values} {G : Gomock V} (m : ℕ) (method : String) (t : Testing G) where
  -- A call with the arguments that the loop makes is one with those that `append` makes.
  pub appended :
      (k : GoType) (xs : List (Any V)) (os : List (Interface V k))
      {r : Outcome (Testing G) (List (Any V))}
      → call_method m method (xs ++ map (any k) os) t ≡ r
      → call_method m method (append_each k xs os) t ≡ r
  appended k xs os e = ap (λ ys. call_method m method ys t) (append_each_lem k xs os) ∙ e

-- What each kind of method returns, where Call ended so.
module _ {V : Values} (G : Gomock V) (t : Testing G) where
  abbrev pub Ended : Type 0
  Ended = Outcome (Testing G) (List (Any V))

  abbrev pub error_results : Ended → Ended
  error_results x = return_error ((λ _. x) >>= error_result {G = G}) t

  abbrev pub rest_mapper_results : Ended → Ended
  rest_mapper_results x =
      return_interface {G = G} rest_mapper_type
        (do ret ← λ _. x; ret0 ← result_at 0 ret; pure (as_rest_mapper ret0)) t

  abbrev pub scheme_results : Ended → Ended
  scheme_results x =
      return_value {G = G} scheme_type
        (do ret ← λ _. x; ret0 ← result_at 0 ret; pure (as_scheme ret0)) t

  abbrev pub sub_resource_writer_results : Ended → Ended
  sub_resource_writer_results x =
      return_interface {G = G} sub_resource_writer_type
        (do ret ← λ _. x; ret0 ← result_at 0 ret; pure (as_sub_resource_writer ret0)) t

  abbrev pub sub_resource_client_results : Ended → Ended
  sub_resource_client_results x =
      return_interface {G = G} sub_resource_client_type
        (do ret ← λ _. x; ret0 ← result_at 0 ret; pure (as_sub_resource_client ret0)) t

  abbrev pub bool_results : Ended → Ended
  bool_results x =
      return_pair {G = G} bool_type
        (do
          ret ← λ _. x
          ret0 ← result_at 0 ret
          ret1 ← result_at 1 ret
          pure (as_bool ret0, as_error ret1))
        t

  abbrev pub kind_results : Ended → Ended
  kind_results x =
      return_pair {G = G} group_version_kind_type
        (do
          ret ← λ _. x
          ret0 ← result_at 0 ret
          ret1 ← result_at 1 ret
          pure (as_group_version_kind ret0, as_error ret1))
        t

  abbrev pub nothing_results : Ended → Ended
  nothing_results x = return_nothing {G = G} (do _ ← λ _. x; pure tt) t
