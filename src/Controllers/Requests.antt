-- ===== src/Controllers/Requests.antt =====
-- internal/controllers/device_config_reconciler.go: the requests that a chain of methods sends to the API
-- server.
use mathlib.Core.Path.{subst}
use mathlib.Core.List.{append_assoc}
use operator_for_ai_chips_on.Common.{
  String, ◌≡◌, refl, sym, ap, ◌∙◌, ◌⊎◌, none, some, inl, inr, List, [], ◌∷◌, ◌++◌, map, Error,
}
use operator_for_ai_chips_on.Api.{DeviceConfig}
use operator_for_ai_chips_on.Controllers.Config.{KeepsConfig}
use operator_for_ai_chips_on.Kube.{Kind, Obj, Util, Client, GoError, wrapf}
use operator_for_ai_chips_on.Kube.Traced.{Call, applied, obj_key, traced}
use operator_for_ai_chips_on.Controllers.Reconcile.{State, Step, ◌>>◌, or_fail}
use operator_for_ai_chips_on.Controllers.Helper.{error_of}
use operator_for_ai_chips_on.Controllers.Steps.{
  >>-of_error, >>-of_nil, error_cases, or_fail-of_error, or_fail-of_nil,
}

module _ {U : Util} (C : Client U) where
  -- A request, the call that it is, and the error that is returned for its own error.
  pub record Request : Type 0 where
    pub call : Call
    pub send : C.World → GoError U × C.World
    pub text : Error U.Failure → Error U.Failure

  abbrev pub Reply : Type 0
  Reply = GoError U × List Call × C.World

  -- The requests in order, up to the first one that fails: the error, the calls that were made, and
  -- the world.
  unfoldable pub run : List Request → C.World → Reply
  run [] w = (none, [], w)
  run (r ∷ rs) w =
      let (e, w') = r.send w in
      let rest = run rs w' in
      elim e [
        | some f ↦ (some (r.text f), r.call ∷ [], w')
        | none ↦ (rest.0, r.call ∷ rest.1, rest.2)
      ]

  -- CreateOrPatch
  abbrev pub applying :
      (k : Kind)
      → Obj k
      → (Obj k → Obj k × GoError U)
      → (Error U.Failure → Error U.Failure)
      → Request
  applying k o f text = record {
    call = applied k (obj_key k o);
    send = λ w. let (r, _, w') = C.create_or_patch k o f w in (error_of r, w');
    text = text;
  }

  abbrev pub under : String → Request → Request
  under prefix r = record r { text = λ e. wrapf U prefix (r.text e) }

  abbrev pub wrapped : String → GoError U → GoError U
  wrapped prefix none = none
  wrapped prefix (some e) = some (wrapf U prefix e)

  abbrev under_reply : String → Reply → Reply
  under_reply prefix x = (wrapped prefix x.0, x.1, x.2)

  -- The reply of requests after those that made the calls `cs`.
  abbrev after_calls : List Call → Reply → Reply
  after_calls cs x = (x.0, cs ++ x.1, x.2)

  run-of_error :
      (r : Request) (rs : List Request) (w : C.World) (e : Error U.Failure)
      → (r.send w).0 ≡ some e
      → run (r ∷ rs) w ≡ (some (r.text e), r.call ∷ [], (r.send w).1)
  unfolding run
  run-of_error r rs w e p = rw p refl

  run-of_nil :
      (r : Request) (rs : List Request) (w : C.World)
      → (r.send w).0 ≡ none
      → run (r ∷ rs) w ≡ (let rest = run rs (r.send w).1 in (rest.0, r.call ∷ rest.1, rest.2))
  unfolding run
  run-of_nil r rs w p = rw p refl

  run-one :
      (r : Request) (w : C.World)
      → (r.send w).0 ≡ none
      → run (r ∷ []) w ≡ (none, r.call ∷ [], (r.send w).1)
  unfolding run
  run-one r w p = run-of_nil r [] w p

  nil_or_error : (e : GoError U) → ((f : Error U.Failure) × (e ≡ some f)) ⊎ (e ≡ none)
  nil_or_error none = inr refl
  nil_or_error (some f) = inl (f, refl)

  run-under :
      (prefix : String) (rs : List Request) (w : C.World)
      → run (map (under prefix) rs) w ≡ under_reply prefix (run rs w)
  unfolding run
  run-under prefix [] w = refl
  run-under prefix (r ∷ rs) w = elim (nil_or_error (r.send w).0) [
    | inl (f, p) ↦
        run-of_error (under prefix r) (map (under prefix) rs) w f p
        ∙ ap (under_reply prefix) (sym (run-of_error r rs w f p))
    | inr p ↦
        run-of_nil (under prefix r) (map (under prefix) rs) w p
        ∙ (ap (λ (x : Reply). (x.0, r.call ∷ x.1, x.2)) (run-under prefix rs (r.send w).1)
            ∙ ap (under_reply prefix) (sym (run-of_nil r rs w p)))
  ]

  run-append_of_nil :
      (rs qs : List Request) (w : C.World)
      → (run rs w).0 ≡ none
      → run (rs ++ qs) w ≡ after_calls (run rs w).1 (run qs (run rs w).2)
  unfolding run
  run-append_of_nil [] qs w nil = refl
  run-append_of_nil (r ∷ rs) qs w nil = elim (nil_or_error (r.send w).0) [
    | inl (f, p) ↦ cc (nil, ap (λ (x : Reply). x.0) (run-of_error r rs w f p))
    | inr p ↦
        let rest_nil : (run rs (r.send w).1).0 ≡ none =
          ap (λ (x : Reply). x.0) (sym (run-of_nil r rs w p)) ∙ nil in
        run-of_nil r (rs ++ qs) w p
        ∙ (ap (λ (x : Reply). (x.0, r.call ∷ x.1, x.2))
              (run-append_of_nil rs qs (r.send w).1 rest_nil)
            ∙ ap (λ (x : Reply). after_calls x.1 (run qs x.2)) (sym (run-of_nil r rs w p)))
  ]

  run-append_of_error :
      (rs qs : List Request) (w : C.World) (e : Error U.Failure)
      → (run rs w).0 ≡ some e
      → run (rs ++ qs) w ≡ run rs w
  unfolding run
  run-append_of_error [] qs w e fails = cc (fails)
  run-append_of_error (r ∷ rs) qs w e fails = elim (nil_or_error (r.send w).0) [
    | inl (f, p) ↦ run-of_error r (rs ++ qs) w f p ∙ sym (run-of_error r rs w f p)
    | inr p ↦
        let rest_fails : (run rs (r.send w).1).0 ≡ some e =
          ap (λ (x : Reply). x.0) (sym (run-of_nil r rs w p)) ∙ fails in
        run-of_nil r (rs ++ qs) w p
        ∙ (ap (λ (x : Reply). (x.0, r.call ∷ x.1, x.2))
              (run-append_of_error rs qs (r.send w).1 e rest_fails)
            ∙ sym (run-of_nil r rs w p))
  ]

  -- The error, the calls and the world that a method leaves over the client that records.
  abbrev pub reply_of : GoError U × State (traced C) → Reply
  reply_of r = (r.0, r.1.world.1, r.1.world.0)

  -- The method sends these requests from the state, until one fails.
  abbrev pub Sends : Step (traced C) → State (traced C) → List Request → Type 0
  Sends m s rs = reply_of (m s) ≡ after_calls s.world.1 (run rs s.world.0)

  module _ (m : Step (traced C)) (s : State (traced C)) where
    -- A method that makes one call and returns its error.
    pub Sends-one :
        (call : Call) (send : C.World → GoError U × C.World)
        → reply_of (m s) ≡ ((send s.world.0).0, s.world.1 ++ (call ∷ []), (send s.world.0).1)
        → Sends m s (record { call = call; send = send; text = λ e. e } ∷ [])
    Sends-one call send p = p ∙ split (send s.world.0).0 refl
      where
        r : Request
        r = record { call = call; send = send; text = λ e. e }

        split :
            (e : GoError U)
            → (send s.world.0).0 ≡ e
            → ((send s.world.0).0, s.world.1 ++ (call ∷ []), (send s.world.0).1)
              ≡ after_calls s.world.1 (run (r ∷ []) s.world.0)
        split none q =
            ap (λ x. (x, s.world.1 ++ (call ∷ []), (send s.world.0).1)) q
            ∙ ap (after_calls s.world.1) (sym (run-one r s.world.0 q))
        split (some e) q =
            ap (λ x. (x, s.world.1 ++ (call ∷ []), (send s.world.0).1)) q
            ∙ ap (after_calls s.world.1) (sym (run-of_error r [] s.world.0 e q))

    pub Sends-or_fail :
        (prefix : String) (rs : List Request)
        → Sends m s rs
        → Sends (or_fail prefix m) s (map (under prefix) rs)
    Sends-or_fail prefix rs p =
        or_fail-reply prefix
        ∙ (ap (under_reply prefix) p
            ∙ ap (after_calls s.world.1) (sym (run-under prefix rs s.world.0)))
      where
        or_fail-reply : (t : String) → reply_of (or_fail t m s) ≡ under_reply t (reply_of (m s))
        or_fail-reply t = elim (error_cases m s) [
          | inl (e, h) ↦
              ap reply_of (or_fail-of_error m s t e h)
              ∙ ap (λ x. (wrapped t x, (m s).1.world.1, (m s).1.world.0)) (sym h)
          | inr h ↦
              ap reply_of (or_fail-of_nil m s t h)
              ∙ ap (λ x. (wrapped t x, (m s).1.world.1, (m s).1.world.0)) (sym h)
        ]

    pub Sends->> :
        (n : Step (traced C)) (rs qs : List Request)
        → Sends m s rs
        → Sends n (m s).1 qs
        → Sends (m >> n) s (rs ++ qs)
    Sends->> n rs qs p q = elim (error_cases m s) [
      | inl (e, h) ↦
          let fails : (run rs s.world.0).0 ≡ some e = ap (λ (x : Reply). x.0) (sym p) ∙ h in
          ap reply_of (>>-of_error m s n e h)
          ∙ (ap (λ (f : GoError U). (f, (m s).1.world.1, (m s).1.world.0)) (sym h)
              ∙ (p
                  ∙ ap (after_calls s.world.1) (sym (run-append_of_error rs qs s.world.0 e fails))))
      | inr h ↦
          let y : Reply = run qs (run rs s.world.0).2 in
          let nil : (run rs s.world.0).0 ≡ none = ap (λ (x : Reply). x.0) (sym p) ∙ h in
          ap reply_of (>>-of_nil m s n h)
          ∙ (q
              ∙ (ap (λ (x : Reply). after_calls x.1 (run qs x.2)) p
                  ∙ (ap (λ l. (y.0, l, y.2)) (append_assoc s.world.1 (run rs s.world.0).1 y.1)
                      ∙ ap (after_calls s.world.1) (sym (run-append_of_nil rs qs s.world.0 nil)))))
    ]

-- From every state `m` sends the requests that `f` gives for the DeviceConfig of that state.
abbrev pub Performs :
    {U : Util} (C : Client U) → Step (traced C) → (DeviceConfig → List (Request C)) → Type 0
Performs C m f = (s : State (traced C)) → Sends C m s (f s.dev_config)

module _ {U : Util} (C : Client U) (m : Step (traced C)) (f : DeviceConfig → List (Request C)) where
  pub or_fail-Performs :
      (prefix : String)
      → Performs C m f
      → Performs C (or_fail prefix m) (λ d. map (under C prefix) (f d))
  or_fail-Performs prefix r s = Sends-or_fail C m s prefix (f s.dev_config) (r s)

  pub >>-Performs :
      (n : Step (traced C)) (g : DeviceConfig → List (Request C))
      → KeepsConfig m
      → Performs C m f
      → Performs C n g
      → Performs C (m >> n) (λ d. f d ++ g d)
  >>-Performs n g k r q s =
      Sends->> C m s n (f s.dev_config) (g s.dev_config) (r s)
        (subst (λ d. Sends C n (m s).1 (g d)) (k s) (q (m s).1))
