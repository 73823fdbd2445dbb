-- ===== src/Cmd.antt =====
-- internal/cmd/cmdutils.go: errors that end the process.
pub mod Laws
use operator_for_ai_chips_on.Common.{
  ℕ, String, ◌==◌, List, [], ◌∷◌, ◌++◌, Error, errorf, if◌then◌else◌,
}

-- What the process does that others see. The informational log is left out.
pub data Event (E : Type 0) : Type 0 where
  -- l.Error(err, msg)
  logged : Error E → String → Event E
  -- The manager runs.
  started : Event E

-- A process that runs on with a value, or has ended with a status, and what it did so far.
pub data Outcome (E A : Type 0) : Type 0 where
  running : A → List (Event E) → Outcome E A
  exited : ℕ → List (Event E) → Outcome E A

abbrev pub Process : (E A : Type 0) → Type 0
Process E A = List (Event E) → Outcome E A

module _ {E : Type 0} where
  abbrev pub pure : {A : Type 0} → A → Process E A
  pure a log = running a log

  infixl 5 ◌>>=◌
  abbrev pub ◌>>=◌ : {A B : Type 0} → Process E A → (A → Process E B) → Process E B
  ◌>>=◌ m f log = elim (m log) [ running a log' ↦ f a log' | exited n log' ↦ exited n log' ]

  -- l.Error and os.Exit(1), which does not return.
  unfoldable pub fatal_error : {A : Type 0} → Error E → String → Process E A
  fatal_error e msg log = exited 1 (log ++ (logged e msg ∷ []))

  -- `getenv` is os.Getenv, which gives the empty text for a variable that is not set.
  unfoldable pub get_env_or_fatal_error : (getenv : String → String) → String → Process E String
  unfolding fatal_error
  get_env_or_fatal_error getenv name =
      let val = getenv name in
      if val == ""
      then fatal_error (errorf "empty value") "Could not get the environment variable"
      else pure val
