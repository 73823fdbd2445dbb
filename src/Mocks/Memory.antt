-- ===== src/Mocks/Memory.antt =====
-- A gomock in memory with one controller, whose matchers tell nil from values, as those that
-- gomock.Nil and gomock.Not make do. It satisfies IsGomock.
use operator_for_ai_chips_on.Common.{
  ℕ, zero, suc, Bool, true, false, Option, none, some, List, [], ◌∷◌, ◌++◌, map, ◌≡◌, refl, ap,
}
use operator_for_ai_chips_on.Mocks.Gomock.{
  Values, Any, nil, value, zero_value, Outcome, finished, failed, Gomock, Expectation, IsGomock,
  fits, pick, match_all,
}
use operator_for_ai_chips_on.Mocks.Doubles.{length}

-- A value matches a value, and nil matches nil.
abbrev pub same_nil : {V : Values} → Any V → Any V → Bool
same_nil nil nil = true
same_nil (value _ _) (value _ _) = true
same_nil _ _ = false

module _ {V : Values} where
  -- Return of the call that was recorded n-th: it replaces the results.
  abbrev with_results : List (Any V) → Expectation V → Expectation V
  with_results vs e = record e { results = vs }

  abbrev give_nth : List (Expectation V) → ℕ → List (Any V) → List (Expectation V)
  give_nth [] n vs = []
  give_nth (e ∷ es) zero vs = with_results vs e ∷ es
  give_nth (e ∷ es) (suc n) vs = e ∷ give_nth es n vs

  abbrev outcome_of :
      Option (Expectation V × List (Expectation V)) → Outcome (List (Expectation V)) (List (Any V))
  outcome_of none = failed
  outcome_of (some (e, rest)) = finished e.results rest

  pub give_nth-append :
      (s : List (Expectation V)) (e : Expectation V) (vs : List (Any V))
      → give_nth (s ++ (e ∷ [])) (length s) vs ≡ s ++ (with_results vs e ∷ [])
  give_nth-append [] e vs = refl
  give_nth-append (x ∷ s) e vs = ap (λ xs. x ∷ xs) (give_nth-append s e vs)

module _ (V : Values) where
  -- The state is the list of the calls that are expected, and a call is its place in it.
  abbrev pub in_memory : Gomock V
  in_memory = record {
    Controller = Unit;
    State = List (Expectation V);
    Call = ℕ;
    helper = λ c s. s;
    call = λ c r m xs s. outcome_of (pick (fits (match_all same_nil) r m xs) s);
    record_call = λ c r m t xs s. (
      length s,
      s
          ++ (record {
            receiver = r;
            method = m;
            arguments = xs;
            results = map zero_value t.outputs;
          }
              ∷ []),
    );
    return_values = λ n vs s. finished tt (give_nth s n vs);
  }

  abbrev pub in_memory-IsGomock : IsGomock in_memory
  in_memory-IsGomock = record {
    matches = same_nil;
    matches_arguments = match_all same_nil;
    matches_each = λ xs ys h. h;
    expected = λ c s. s;
    helper_quiet = λ c s. refl;
    recorded = λ c r m t xs s. refl;
    returned = λ c r m t xs vs s h. (
      give_nth
          (s
            ++ (record {
              receiver = r;
              method = m;
              arguments = xs;
              results = map zero_value t.outputs;
            }
                ∷ []))
          (length s) vs,
      refl,
      give_nth-append s _ vs,
    );
    answered = λ c r m xs s e rest h. (rest, ap outcome_of h, refl);
  }
