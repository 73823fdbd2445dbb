-- ===== src/Mocks/Script/Typed.antt =====
-- What a mocked method makes of the results of gomock's Call.
use operator_for_ai_chips_on.Common.{ℕ, List, ◌≡◌, ap, ◌∙◌}
use operator_for_ai_chips_on.Mocks.Gomock.{Values, Any, HasTypes, Gomock, finished}
use operator_for_ai_chips_on.Mocks.Doubles.{Testing, lift}
use operator_for_ai_chips_on.Mocks.Links.{IsLinked, call_method-linked}
use operator_for_ai_chips_on.Mocks.Script.{MockCall, describe_call, invoke_call}
use operator_for_ai_chips_on.Mocks.Script.Answers.{invoke_call-answers}

-- For any gomock and any method of the six mocks: where Call of the mock's controller, given the
-- mock, the method's name and its arguments, returns results that have the types of the method's
-- reflected type, the method returns just these, with no panic and no assertion that drops one, and
-- no mock is changed.
pub invoke_call-IsTyped :
    {V : Values} (G : Gomock V) (c : G.Controller) (m : ℕ) (call : MockCall V) (t : Testing G)
    (vs : List (Any V)) (s : G.State)
    → IsLinked {G = G} t.store c m
    → G.call c m (describe_call call).method (describe_call call).arguments (G.helper c t.library)
      ≡ finished vs s
    → HasTypes (describe_call call).signature.outputs vs
    → invoke_call G call m t ≡ finished vs (record t { library = s })
invoke_call-IsTyped G c m call t vs s l e h =
    let d = describe_call call in
    invoke_call-answers G m t call vs (record t { library = s })
      (call_method-linked t l d.method d.arguments ∙ ap (λ o. lift {G = G} o t) e) h
