-- ===== src/Cmd/Laws.antt =====
-- internal/cmd/cmdutils.go: reading the environment, and chains of processes.
use operator_for_ai_chips_on.Common.{
  ℕ, String, ◌≡◌, ◌≢◌, ◌↔◌, List, [], ◌∷◌, ◌++◌, errorf, arith, eq_iff,
}
use operator_for_ai_chips_on.Cmd.{
  Event, logged, running, exited, Process, ◌>>=◌, fatal_error, get_env_or_fatal_error,
}

-- GetEnvOrFatalError returns the value `v` exactly if that is the value of the variable and not
-- empty, and the process has then done nothing else; and it ends the process exactly if the
-- value is empty, with status 1 and one error in the log.
pub get_env_or_fatal_error_lem :
    {E : Type 0} (getenv : String → String) (name v : String) (log : List (Event E))
    → ((get_env_or_fatal_error getenv name log ≡ running v log) ↔ ((getenv name ≡ v) × (v ≢ "")))
      × ((get_env_or_fatal_error getenv name log
            ≡ exited 1 (
                log
                ++ (logged (errorf "empty value") "Could not get the environment variable" ∷ [])))
          ↔ (getenv name ≡ ""))
unfolding get_env_or_fatal_error fatal_error
get_env_or_fatal_error_lem getenv name v log = ground (arith, eq_iff (getenv name) "")

module _ {E A B : Type 0} (m : Process E A) (f : A → Process E B) where
  -- A part that runs on hands its value and its log to the rest.
  pub >>=-running :
      {a : A} {log log' : List (Event E)} → m log ≡ running a log' → (m >>= f) log ≡ f a log'
  >>=-running p = ground arith

  -- The rest of a process that has ended does not run.
  pub >>=-exited :
      {n : ℕ} {log log' : List (Event E)} → m log ≡ exited n log' → (m >>= f) log ≡ exited n log'
  >>=-exited p = ground arith
