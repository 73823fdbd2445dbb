-- ===== src/Main/Laws.antt =====
-- cmd/main.go: the start of the operator, and how it ends.
use mathlib.Core.Path.{subst}
use operator_for_ai_chips_on.Common.{
  sym, String, ◌≡◌, refl, ◌⊎◌, inl, inr, [], ◌∷◌, none, some, Error, Result, ok, err,
}
use operator_for_ai_chips_on.Kube.{Util, GoError}
use operator_for_ai_chips_on.Controllers.Setup.{registration, setup_with_manager}
use operator_for_ai_chips_on.Config.{Config, parse_file}
use operator_for_ai_chips_on.Cmd.{
  logged, started, Outcome, running, exited, Process, ◌>>=◌, fatal_error,
}
use operator_for_ai_chips_on.Cmd.Laws.{>>=-running, >>=-exited}
use operator_for_ai_chips_on.Main.{
  Platform, check, check_result, reconciler_of, options_of, start_manager, set_up, main,
}

module _ {U : Util} (platform : Platform U) where
  -- Every step before mgr.Start succeeds.
  pub record IsUp (config_file : String) (cfg : Config) (m : platform.Manager) : Type 0 where
    pub parsed : parse_file U platform.files config_file ≡ ok cfg
    pub created : platform.new_manager (options_of platform cfg) ≡ ok m
    pub registered : platform.complete m registration (reconciler_of platform m) ≡ none
    pub healthy : platform.add_healthz_check m "healthz" ≡ none
    pub ready : platform.add_readyz_check m "readyz" ≡ none

  -- The whole run of a process with the manager `m`.
  abbrev pub run_of : GoError U → Outcome U.Failure (Unit {0})
  run_of none = running tt (started ∷ [])
  run_of (some e) = exited 1 (started ∷ logged e "problem running manager" ∷ [])

  -- The step of set_up that fails, the ones before it having succeeded, with its error and the text
  -- that is logged.
  pub data SetupStops (m : platform.Manager) : Error U.Failure → String → Type 0 where
    not_registered :
        {e : Error U.Failure}
        → platform.complete m registration (reconciler_of platform m) ≡ some e
        → SetupStops m e "unable to create controller"
    not_healthy :
        {e : Error U.Failure}
        → platform.complete m registration (reconciler_of platform m) ≡ none
        → platform.add_healthz_check m "healthz" ≡ some e
        → SetupStops m e "unable to set up health check"
    not_ready :
        {e : Error U.Failure}
        → platform.complete m registration (reconciler_of platform m) ≡ none
        → platform.add_healthz_check m "healthz" ≡ none
        → platform.add_readyz_check m "readyz" ≡ some e
        → SetupStops m e "unable to set up ready check"

  -- The same of main, before the manager is started.
  pub data Stops (config_file : String) : Error U.Failure → String → Type 0 where
    not_parsed :
        {e : Error U.Failure}
        → parse_file U platform.files config_file ≡ err e
        → Stops config_file e "could not parse the configuration file"
    not_created :
        {cfg : Config} {e : Error U.Failure}
        → parse_file U platform.files config_file ≡ ok cfg
        → platform.new_manager (options_of platform cfg) ≡ err e
        → Stops config_file e "unable to create manager"
    not_set_up :
        {cfg : Config} {m : platform.Manager} {e : Error U.Failure} {msg : String}
        → parse_file U platform.files config_file ≡ ok cfg
        → platform.new_manager (options_of platform cfg) ≡ ok m
        → SetupStops m e msg
        → Stops config_file e msg

  -- The process logs the error and ends with status 1. The manager was not started.
  abbrev pub failed : {A : Type 0} → Error U.Failure → String → Outcome U.Failure A
  failed e msg = exited 1 (logged e msg ∷ [])

  -- A process that goes on with a value, for which `P` holds, or fails, for the cause `E`.
  abbrev Splits :
      {A : Type 0}
      → (A → Type 0)
      → (Error U.Failure → String → Type 0)
      → Outcome U.Failure A
      → Type 0
  Splits {A} P E o =
      ((a : A) × P a × (o ≡ running a []))
      ⊎ ((e : Error U.Failure) × (msg : String) × E e msg × (o ≡ failed e msg))

  check-Splits :
      (r : GoError U) (msg : String)
      → Splits (λ _. r ≡ none) (λ e t. (r ≡ some e) × (t ≡ msg)) (check platform r msg [])
  unfolding check fatal_error
  check-Splits none msg = inl (tt, refl, refl)
  check-Splits (some e) msg = inr (e, msg, (refl, refl), refl)

  check_result-Splits :
      {A : Type 0} (r : Result U.Failure A) (msg : String)
      → Splits (λ a. r ≡ ok a) (λ e t. (r ≡ err e) × (t ≡ msg)) (check_result platform r msg [])
  unfolding check_result fatal_error
  check_result-Splits (ok a) msg = inl (a, refl, refl)
  check_result-Splits (err e) msg = inr (e, msg, (refl, refl), refl)

  start_manager-run_of :
      (m : platform.Manager) → start_manager platform m [] ≡ run_of (platform.start m)
  unfolding start_manager check fatal_error
  start_manager-run_of m = split (platform.start m) refl
    where
      split :
          (e : GoError U)
          → platform.start m ≡ e
          → start_manager platform m [] ≡ run_of (platform.start m)
      split none p = rw p refl
      split (some e) p = rw p refl

  -- What holds of the rest after a step that succeeds, and of a failure, holds of the whole.
  >>=-post :
      {A B : Type 0} (R : Outcome U.Failure B → Type 0) {P : A → Type 0}
      {E : Error U.Failure → String → Type 0} (m : Process U.Failure A)
      (f : A → Process U.Failure B)
      → Splits P E (m [])
      → ((e : Error U.Failure) (msg : String) → E e msg → R (failed e msg))
      → ((a : A) → P a → R (f a []))
      → R ((m >>= f) [])
  >>=-post R m f (inl (a, p, q)) e k = subst R (sym (>>=-running m f q)) (k a p)
  >>=-post R m f (inr (x, msg, c, q)) e k = subst R (sym (>>=-exited m f q)) (e x msg c)

  -- The steps on a manager.
  abbrev IsSetUp : platform.Manager → Type 0
  IsSetUp m =
      (platform.complete m registration (reconciler_of platform m) ≡ none)
      × (platform.add_healthz_check m "healthz" ≡ none)
      × (platform.add_readyz_check m "readyz" ≡ none)

  abbrev SetsUp : platform.Manager → Outcome U.Failure (Unit {0}) → Type 0
  SetsUp m = Splits (λ _. IsSetUp m) (SetupStops m)

  abbrev health : platform.Manager → Process U.Failure (Unit {0})
  health m = check platform (platform.add_healthz_check m "healthz") "unable to set up health check"

  abbrev readiness : platform.Manager → Process U.Failure (Unit {0})
  readiness m = check platform (platform.add_readyz_check m "readyz") "unable to set up ready check"

  set_up-SetsUp : (m : platform.Manager) → SetsUp m (set_up platform m [])
  unfolding set_up setup_with_manager
  set_up-SetsUp m =
      let r = platform.complete m registration (reconciler_of platform m) in
      >>=-post (SetsUp m) (check platform r "unable to create controller")
        (λ _. (health m >>= λ _. readiness m)) (check-Splits r _)
        (λ e t (c, p).
          subst (λ x. SetsUp m (failed e x)) (sym p) (inr (e, _, not_registered c, refl)))
        λ _ a.
          >>=-post (SetsUp m) (health m) (λ _. readiness m) (check-Splits _ _)
            (λ e t (c, p).
              subst (λ x. SetsUp m (failed e x)) (sym p) (inr (e, _, not_healthy a c, refl)))
            λ _ b.
              elim (check-Splits (platform.add_readyz_check m "readyz")
                "unable to set up ready check") [
                  | inl (x, c, p) ↦ inl (x, (a, b, c), p)
                  | inr (e, t, (c, p), q) ↦
                      inr (e, t, subst (SetupStops m e) (sym p) (not_ready a b c), q)
                ]

  -- A run of main.
  abbrev pub Ends : String → Outcome U.Failure (Unit {0}) → Type 0
  Ends config_file o =
      ((cfg : Config) × (m : platform.Manager) × IsUp config_file cfg m
        × (o ≡ run_of (platform.start m)))
      ⊎ ((e : Error U.Failure) × (msg : String) × Stops config_file e msg × (o ≡ failed e msg))

  -- Either every step before mgr.Start succeeds, with the manager that is made from the options of
  -- the configuration file, and then the manager is started, and the process ends with status 1
  -- exactly if mgr.Start returns an error, which is logged; or one of the steps fails, those before
  -- it having succeeded, and the process logs the error of that step with the text of that step and
  -- ends with status 1, without starting the manager.
  pub main-Ends : (config_file : String) → Ends config_file (main platform config_file [])
  unfolding main
  main-Ends config_file =
      let parsed = parse_file U platform.files config_file in
      >>=-post (Ends config_file)
        (check_result platform parsed "could not parse the configuration file")
        (λ cfg.
          (check_result platform (platform.new_manager (options_of platform cfg))
              "unable to create manager"
            >>= λ m. (set_up platform m >>= λ _. start_manager platform m)))
        (check_result-Splits _ _)
        (λ e t (c, p). inr (e, t, subst (Stops config_file e) (sym p) (not_parsed c), refl))
        λ cfg a.
          >>=-post (Ends config_file)
            (check_result platform (platform.new_manager (options_of platform cfg))
              "unable to create manager")
            (λ m. (set_up platform m >>= λ _. start_manager platform m)) (check_result-Splits _ _)
            (λ e t (c, p). inr (e, t, subst (Stops config_file e) (sym p) (not_created a c), refl))
            λ m b.
              >>=-post (Ends config_file) (set_up platform m) (λ _. start_manager platform m)
                (set_up-SetsUp m) (λ e t c. inr (e, t, not_set_up a b c, refl))
                λ _ (c, d, e). inl (
                  cfg,
                  m,
                  record { parsed = a; created = b; registered = c; healthy = d; ready = e },
                  start_manager-run_of m,
                )
