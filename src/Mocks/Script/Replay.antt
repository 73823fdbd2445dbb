-- ===== src/Mocks/Script/Replay.antt =====
-- A script that is announced is answered.
use operator_for_ai_chips_on.Common.{
  ℕ, String, Bool, true, Option, none, some, List, [], ◌∷◌, ◌++◌, map, ◌≡◌, refl, sym, ap, ◌∙◌,
  eq_iff, arith,
}
use mathlib.Core.List.{append_assoc, append-nil}
use operator_for_ai_chips_on.Mocks.Gomock.{
  GoType, MethodType, Values, Any, HasTypes, zero_value, Gomock, Expectation, IsGomock, match_all,
  fits, pick, finished,
}
use operator_for_ai_chips_on.Mocks.Doubles.{Testing, pure, ◌>>=◌, ◌>>◌, lift, record_method}
use operator_for_ai_chips_on.Mocks.Links.{
  IsLinked, recorder_of-linked, call_method-linked, record_method-linked,
}
use operator_for_ai_chips_on.Mocks.Script.{
  Entry, describe_call, answer_of, invoke_call, announce_entry, give, announce_all, invoke_all,
  answer_or_zero,
}
use operator_for_ai_chips_on.Mocks.Script.Answers.{
  invoke_call-answers, announce_call-records, outputs-zero_call,
}

module _ {V : Values} where
  -- What is to be returned, if anything, has the types of the method's results.
  abbrev pub HasResults : List GoType → Option (List (Any V)) → Type 0
  HasResults ks none = Unit
  HasResults ks (some vs) = HasTypes ks vs

  abbrev pub IsGiven : Entry V → Type 0
  IsGiven e = HasResults (describe_call e.call).signature.outputs e.answer

  -- What a controller expects for an entry.
  abbrev pub expectation : Entry V → Expectation V
  expectation e = record {
    receiver = e.mock;
    method = (describe_call e.call).method;
    arguments = (describe_call e.call).arguments;
    results = answer_of e;
  }

  answer-HasTypes :
      (ks : List GoType) (a : Option (List (Any V)))
      → HasTypes {V = V} ks (map zero_value ks)
      → HasResults ks a
      → HasTypes {V = V} ks (answer_or_zero ks a)
  answer-HasTypes ks none z h = z
  answer-HasTypes ks (some vs) z h = h

  pick_self :
      (p : Expectation V → Bool) (x : Expectation V) (xs : List (Expectation V))
      → p x ≡ true
      → pick p (x ∷ xs) ≡ some (x, xs)
  unfolding pick
  pick_self p x xs h = rw h

  expectation-fits :
      (matches : List (Any V) → List (Any V) → Bool) (e : Entry V)
      → matches (describe_call e.call).arguments (describe_call e.call).arguments ≡ true
      → fits matches e.mock
          (describe_call e.call).method
          (describe_call e.call).arguments
          (expectation e)
        ≡ true
  expectation-fits matches e h =
      ground (arith, eq_iff (describe_call e.call).method (describe_call e.call).method, h)

module _ {V : Values} {G : Gomock V} (L : IsGomock G) (c : G.Controller) where
  -- A mock of the controller, results of the right types, and arguments that match themselves.
  abbrev pub IsReady : Testing G → Entry V → Type 0
  IsReady t e =
      IsLinked {G = G} t.store c e.mock
      × IsGiven e
      × (match_all L.matches (describe_call e.call).arguments (describe_call e.call).arguments
          ≡ true)

  abbrev pub AllReady : Testing G → List (Entry V) → Type 0
  AllReady t [] = Unit
  AllReady t (e ∷ es) = IsReady t e × AllReady t es

  pub AllReady-library :
      (es : List (Entry V)) (t : Testing G) (s : G.State)
      → AllReady t es
      → AllReady (record t { library = s }) es
  AllReady-library [] t s h = tt
  AllReady-library (e ∷ es) t s (h, hs) = (h, AllReady-library es t s hs)

  -- A recorded call, with or without results of its own, is expected.
  give-expects :
      (m : ℕ) (method : String) (type : MethodType) (xs : List (Any V)) (a : Option (List (Any V)))
      (s : G.State) (t : Testing G)
      → HasResults type.outputs a
      → let (call, s') = G.record_call c m method type xs s in
        (s'' : G.State) × (give G a call (record t { library = s' })
          ≡ finished tt (record t { library = s'' }))
        × (L.expected c s''
            ≡ L.expected c s
              ++ (record {
                receiver = m;
                method = method;
                arguments = xs;
                results = answer_or_zero type.outputs a;
              }
                  ∷ []))
  unfolding give
  give-expects m method type xs none s t h =
      ((G.record_call c m method type xs s).1, refl, L.recorded c m method type xs s)
  give-expects m method type xs (some vs) s t h =
      let (s'', e, x) = L.returned c m method type xs vs s h in
      (
        s'',
        ap (λ o. lift {G = G} o (record t { library = (G.record_call c m method type xs s).1 })) e,
        x,
      )

  announce_entry-expects :
      (e : Entry V) (t : Testing G)
      → IsReady t e
      → (s : G.State) × (announce_entry G e t ≡ finished tt (record t { library = s }))
        × (L.expected c s ≡ L.expected c t.library ++ (expectation e ∷ []))
  unfolding announce_entry
  announce_entry-expects e t (l, h, _) =
      let d = describe_call e.call in
      let (s, g, x) =
        give-expects e.mock d.method d.signature d.arguments e.answer (G.helper c t.library) t h in
      (
        s,
        ap (λ o. ((λ _. o) >>= give G e.answer) t)
              (announce_call-records G e.mock t e.call
                ∙ ap (λ o. ((λ _. o) >>= λ r. record_method r d.method d.signature d.arguments) t)
                    (recorder_of-linked t l)
                ∙ record_method-linked t l d.method d.signature d.arguments)
            ∙ g,
        x ∙ ap (λ es. es ++ (expectation e ∷ [])) (L.helper_quiet c t.library),
      )

  pub announce_all-expects :
      (es : List (Entry V)) (t : Testing G)
      → AllReady t es
      → (s : G.State) × (announce_all G es t ≡ finished tt (record t { library = s }))
        × (L.expected c s ≡ L.expected c t.library ++ map expectation es)
  unfolding announce_all
  announce_all-expects [] t r = (t.library, refl, sym (append-nil _))
  announce_all-expects (e ∷ es) t (r, rs) =
      let (s, g, x) = announce_entry-expects e t r in
      let (s', g', x') =
        announce_all-expects es (record t { library = s }) (AllReady-library es t s rs) in
      (
        s',
        ap (λ o. ((λ _. o) >>= λ _. announce_all G es) t) g ∙ g',
        x'
            ∙ ap (λ xs. xs ++ map expectation es) x
            ∙ append_assoc (L.expected c t.library) (expectation e ∷ []) (map expectation es),
      )

  -- The first expectation is used up.
  pub invoke_entry-answers :
      (e : Entry V) (rest : List (Expectation V)) (t : Testing G)
      → IsReady t e
      → L.expected c t.library ≡ expectation e ∷ rest
      → (s : G.State) × (invoke_call G e.call e.mock t
          ≡ finished (answer_of e) (record t { library = s }))
        × (L.expected c s ≡ rest)
  invoke_entry-answers e rest t (l, h, k) x =
      let d = describe_call e.call in
      let (s, a, y) =
        L.answered c e.mock d.method d.arguments (G.helper c t.library) (expectation e) rest (
          ap (pick (fits L.matches_arguments e.mock d.method d.arguments))
            (L.helper_quiet c t.library ∙ x)
          ∙ pick_self _ (expectation e) rest
              (expectation-fits L.matches_arguments e (L.matches_each _ _ k))) in
      (
        s,
        invoke_call-answers G e.mock t e.call (answer_of e) (record t { library = s })
            (call_method-linked t l d.method d.arguments ∙ ap (λ o. lift {G = G} o t) a)
            (answer-HasTypes d.signature.outputs e.answer (outputs-zero_call e.call) h),
        y,
      )

  invoke_all-answers :
      (es : List (Entry V)) (t : Testing G)
      → AllReady t es
      → L.expected c t.library ≡ map expectation es
      → (s : G.State) × (invoke_all G es t ≡ finished (map answer_of es) (record t { library = s }))
        × (L.expected c s ≡ [])
  unfolding invoke_all
  invoke_all-answers [] t r x = (t.library, refl, x)
  invoke_all-answers (e ∷ es) t (r, rs) x =
      let (s, g, y) = invoke_entry-answers e (map expectation es) t r x in
      let (s', g', y') =
        invoke_all-answers es (record t { library = s }) (AllReady-library es t s rs) y in
      (
        s',
        ap (λ o. ((λ _. o) >>= λ vs. invoke_all G es >>= λ rest. pure (vs ∷ rest)) t) g
            ∙ ap (λ o. ((λ _. o) >>= λ rest. pure (answer_of e ∷ rest)) t) g',
        y',
      )

  -- A script that is announced on mocks of one controller that expects nothing else, and then run,
  -- ends: each call returns the results that were given for it, or the zero values of the method's
  -- where none were given, in the order of the script, no mock is changed, and nothing is expected
  -- any more. The mocks are linked to their recorders, the results have the types of the method's, and
  -- the arguments match themselves.
  pub replay-answers :
      (es : List (Entry V)) (t : Testing G)
      → AllReady t es
      → L.expected c t.library ≡ []
      → (s : G.State) × ((announce_all G es >> invoke_all G es) t
          ≡ finished (map answer_of es) (record t { library = s }))
        × (L.expected c s ≡ [])
  replay-answers es t r x =
      let (s, g, y) = announce_all-expects es t r in
      let (s', g', y') =
        invoke_all-answers es (record t { library = s }) (AllReady-library es t s r)
          (y ∙ ap (λ xs. xs ++ map expectation es) x) in
      (s', ap (λ o. ((λ _. o) >>= λ _. invoke_all G es) t) g ∙ g', y')
