-- ===== src/Main/Scheme.antt =====
-- cmd/main.go: init, which fills the scheme.
pub mod Recognized
use operator_for_ai_chips_on.Common.{none, some, Error}
use operator_for_ai_chips_on.Kube.{Util, GoError}
use operator_for_ai_chips_on.Api.Registration.{Builders, add_to_scheme}

-- What the libraries add to a scheme.
pub record Libraries (U : Util) : Type 1 where
  pub builders : Builders U
  -- runtime.NewScheme()
  pub new_scheme : U.Scheme
  -- AddToScheme of k8s.io/client-go/kubernetes/scheme
  pub client_go_add_to_scheme : U.Scheme → GoError U × U.Scheme
  -- AddToScheme of api/v1beta1 of kernel-module-management
  pub kmm_add_to_scheme : U.Scheme → GoError U × U.Scheme
  -- utilruntime.Must: the error that it panics with, if it does
  pub must : GoError U → GoError U

-- The end of init: the scheme, or a panic with an error.
pub data Init (U : Util) : Type 0 where
  ready : U.Scheme → Init U
  panicked : Error U.Failure → Init U

module _ {U : Util} (lib : Libraries U) where
  -- utilruntime.Must(err), and then the rest of init on the scheme
  abbrev pub after_must : GoError U × U.Scheme → (U.Scheme → Init U) → Init U
  after_must (err, scheme) rest = elim (lib.must err) [ none ↦ rest scheme | some e ↦ panicked e ]

  unfoldable pub init : Init U
  unfolding add_to_scheme
  init = after_must (lib.client_go_add_to_scheme lib.new_scheme) λ scheme.
      after_must (add_to_scheme lib.builders scheme)
        λ scheme. after_must (lib.kmm_add_to_scheme scheme) ready
