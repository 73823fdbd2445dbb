-- ===== src/Main/Scheme/Recognized.antt =====
-- cmd/main.go: the kinds that the scheme recognizes.
use mathlib.Core.Path.{subst}
use operator_for_ai_chips_on.Common.{
  String, Bool, ◌&&◌, Error, ◌≡◌, refl, sym, true, none, some, List, [], ◌∷◌, arith, all, ◌⊎◌, inl,
  inr,
}
use operator_for_ai_chips_on.Kube.{
  Kind, module_kind, daemon_set_kind, deployment_kind, Util, GoError,
}
use operator_for_ai_chips_on.Api.Registration.{
  GroupVersion, group_version, ObjectType, device_config, device_config_list, type_name,
  add_to_scheme, registered_builder, scheme_builder,
}
use operator_for_ai_chips_on.Main.Scheme.{Libraries, Init, ready, panicked, after_must, init}
use operator_for_ai_chips_on.Controllers.Setup.{registration}

both : (a b : Bool) → (a && (b && true)) ≡ true → (a ≡ true) × (b ≡ true)
both a b e = ground (arith, e)

three : (a b c : Bool) → a ≡ true → b ≡ true → c ≡ true → (a && (b && (c && true))) ≡ true
three a b c p q r = rw (p, q, r) refl

module _ {U : Util} (lib : Libraries U) where
  -- Adding to a scheme keeps what it recognizes.
  abbrev Keeps : (U.Scheme → GoError U × U.Scheme) → Type 0
  Keeps add =
      (s : U.Scheme) (gv : GroupVersion) (kind : String)
      → lib.builders.recognizes s gv kind ≡ true
      → lib.builders.recognizes (add s).1 gv kind ≡ true

  -- What the libraries document, for the group, version and kind `named` of the objects: a builder
  -- adds the types that were registered with it, client-go those of the API server,
  -- kernel-module-management its Module, none takes a kind away, and Must panics with an error that is
  -- not nil.
  pub record Documented : Type 0 where
    pub named : Kind → GroupVersion × String
    pub must_panics : (e : GoError U) → lib.must e ≡ e
    pub builder_adds :
        (gv : GroupVersion) (types : List ObjectType) (s : U.Scheme)
        → (lib.builders.add_to_scheme
            (lib.builders.register (lib.builders.new_builder gv) types)
            s).0
          ≡ none
        → all
            (λ t.
              lib.builders.recognizes
                (lib.builders.add_to_scheme
                  (lib.builders.register (lib.builders.new_builder gv) types)
                  s).1
                gv
                (type_name t))
            types
          ≡ true
    pub builder_keeps : (b : lib.builders.Builder) → Keeps (lib.builders.add_to_scheme b)
    pub client_go_adds :
        (s : U.Scheme)
        → (lib.client_go_add_to_scheme s).0 ≡ none
        → (lib.builders.recognizes
              (lib.client_go_add_to_scheme s).1
              (named daemon_set_kind).0
              (named daemon_set_kind).1
            ≡ true)
          × (lib.builders.recognizes
                (lib.client_go_add_to_scheme s).1
                (named deployment_kind).0
                (named deployment_kind).1
              ≡ true)
    pub kmm_adds :
        (s : U.Scheme)
        → (lib.kmm_add_to_scheme s).0 ≡ none
        → lib.builders.recognizes
            (lib.kmm_add_to_scheme s).1
            (named module_kind).0
            (named module_kind).1
          ≡ true
    pub kmm_keeps : Keeps lib.kmm_add_to_scheme

  -- The scheme recognizes the kind of the DeviceConfig, under which SetupWithManager registers the
  -- controller, that of the list of DeviceConfigs, and those that the controller owns.
  pub record RecognizesAll (L : Documented) (s : U.Scheme) : Type 0 where
    pub config : lib.builders.recognizes s group_version registration.for_kind ≡ true
    pub config_list : lib.builders.recognizes s group_version "DeviceConfigList" ≡ true
    pub owned :
        all (λ k. lib.builders.recognizes s (L.named k).0 (L.named k).1) registration.owns ≡ true

  -- The three calls of init.
  abbrev first : GoError U × U.Scheme
  first = lib.client_go_add_to_scheme lib.new_scheme

  abbrev second : GoError U × U.Scheme
  second = add_to_scheme lib.builders first.1

  abbrev third : GoError U × U.Scheme
  third = lib.kmm_add_to_scheme second.1

  -- What init does with the scheme after the first and after the second of them.
  abbrev from_third : U.Scheme → Init U
  from_third scheme = after_must lib (lib.kmm_add_to_scheme scheme) ready

  abbrev from_second : U.Scheme → Init U
  from_second scheme = after_must lib (add_to_scheme lib.builders scheme) from_third

  -- How init ends: with the scheme, or with the panic of the first AddToScheme that fails.
  abbrev pub EndsInit : Documented → Init U → Type 0
  EndsInit L (ready s) = (first.0 ≡ none) × (second.0 ≡ none) × (third.0 ≡ none) × RecognizesAll L s
  EndsInit L (panicked e) =
      (first.0 ≡ some e)
      ⊎ ((first.0 ≡ none) × (second.0 ≡ some e))
      ⊎ ((first.0 ≡ none) × (second.0 ≡ none) × (third.0 ≡ some e))

  after_must-cases :
      (L : Documented) (P : Init U → Type 0) (r : GoError U × U.Scheme) (rest : U.Scheme → Init U)
      → ((e : Error U.Failure) → r.0 ≡ some e → P (panicked e))
      → (r.0 ≡ none → P (rest r.1))
      → P (after_must lib r rest)
  after_must-cases L P (none, s) rest failed passed =
      subst (λ (o : GoError U). P (elim o [ none ↦ rest s | some e ↦ panicked e ]))
        (sym (L.must_panics none)) (passed refl)
  after_must-cases L P (some e, s) rest failed passed =
      subst (λ (o : GoError U). P (elim o [ none ↦ rest s | some x ↦ panicked x ]))
        (sym (L.must_panics (some e))) (failed e refl)

  third-RecognizesAll :
      (L : Documented) → first.0 ≡ none → second.0 ≡ none → third.0 ≡ none → RecognizesAll L third.1
  unfolding add_to_scheme registered_builder scheme_builder
  third-RecognizesAll L a b c =
      let own =
        both _ _
          (L.builder_adds group_version (device_config ∷ device_config_list ∷ []) first.1 b) in
      let kept : Kind → Bool = λ k. lib.builders.recognizes third.1 (L.named k).0 (L.named k).1 in
      let still : (k : Kind)
          → lib.builders.recognizes first.1 (L.named k).0 (L.named k).1 ≡ true
          → kept k ≡ true =
        λ k r. L.kmm_keeps second.1 (L.named k).0 (L.named k).1 (
          L.builder_keeps (registered_builder lib.builders) first.1 (L.named k).0 (L.named k).1
            r) in
      let of_api_server = L.client_go_adds lib.new_scheme a in
      record {
        config = L.kmm_keeps second.1 group_version "DeviceConfig" own.0;
        config_list = L.kmm_keeps second.1 group_version "DeviceConfigList" own.1;
        owned =
            three (kept module_kind) (kept daemon_set_kind) (kept deployment_kind)
              (L.kmm_adds second.1 c) (still daemon_set_kind of_api_server.0)
              (still deployment_kind of_api_server.1);
      }

  -- init either panics, with the error of the first AddToScheme that fails, or ends with a scheme
  -- that recognizes DeviceConfig, under which SetupWithManager registers the controller, in the group
  -- k8s.aws/v1alpha1, the list of DeviceConfigs and every kind that the controller owns. It is
  -- assumed that a builder adds the types that were registered with it, client-go DaemonSet and
  -- Deployment, kernel-module-management its Module, that none of them takes a kind away, and
  -- that Must panics with an error that is not nil, and only then.
  pub init-EndsInit : (L : Documented) → EndsInit L (init lib)
  unfolding init
  init-EndsInit L =
      after_must-cases L (EndsInit L) first from_second (λ e p. inl p)
        λ a.
          after_must-cases L (EndsInit L) second from_third (λ e p. inr (inl (a, p)))
            λ b.
              after_must-cases L (EndsInit L) third ready (λ e p. inr (inr (a, b, p)))
                λ c. (a, b, c, third-RecognizesAll L a b c)
