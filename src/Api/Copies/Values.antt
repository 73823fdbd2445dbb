-- ===== src/Api/Copies/Values.antt =====
-- api/v1alpha1/zz_generated.deepcopy.go: DeepCopy of the statuses.
use operator_for_ai_chips_on.Common.{◌<◌, ◌≡◌, refl, Option, none, some, arith}
use operator_for_ai_chips_on.Api.{DeploymentStatus, DeviceConfigStatus}
use operator_for_ai_chips_on.Api.Heap.{Ptr}
use operator_for_ai_chips_on.Api.DeepCopy.{copy_status, copy_deployment_status}
use operator_for_ai_chips_on.Api.DeepCopy.Store.{IsNew, update-old, update-new}
use operator_for_ai_chips_on.Api.Copies.{
  Store, Run, load, deep_copy_status, deep_copy_deployment_status,
}

module _ {M R L S : Type 0} where
  -- The run does not fault, and its result satisfies the predicate.
  abbrev pub Returns :
      {A : Type 0} → Option (A × Store M R L S) → (A → Store M R L S → Type 0) → Type 0
  Returns none P = ⊥
  Returns (some (a, s)) P = P a s

  pub Returns-bind :
      {A B : Type 0} (m : Option (A × Store M R L S)) (f : A → Run M R L S B)
      (P : A → Store M R L S → Type 0) (Q : B → Store M R L S → Type 0)
      → Returns m P
      → ((a : A) (s : Store M R L S) → P a s → Returns (f a s) Q)
      → Returns (elim m [ none ↦ none | some (a, s) ↦ f a s ]) Q
  Returns-bind none f P Q r k = absurd r
  Returns-bind (some (a, s)) f P Q r k = k a s r

  pub Returns-load :
      {A B : Type 0} (cells : Store M R L S → Ptr → Option A) (p : Ptr) (f : A → Run M R L S B)
      (s : Store M R L S) (a : A) (Q : B → Store M R L S → Type 0)
      → cells s p ≡ some a
      → Returns (f a s) Q
      → Returns (elim (load cells p s) [ none ↦ none | some (b, s') ↦ f b s' ]) Q
  Returns-load cells p f s a Q e r = rw e r

  -- The pointer `o` is new and leads to `a` among the cells of the store `s'`; the cells that were
  -- there in `s` are as they were.
  pub record IsCopied {A : Type 0} (cells : Store M R L S → Ptr → Option A) (a : A)
      (s : Store M R L S) (o : Option Ptr) (s' : Store M R L S) : Type 0 where
    pub address : Ptr
    pub pointer : o ≡ some address
    pub is_new : IsNew s.heap o
    pub cell : cells s' address ≡ some a
    pub kept : (p : Ptr) → p < s.heap.next → cells s' p ≡ cells s p

  -- DeepCopy of a nil DeviceConfigStatus and of a nil DeploymentStatus is nil. Of a pointer to one it
  -- does not fault, and returns a new pointer to the same value; those that were there before are as
  -- they were.
  pub deep_copy_status-IsCopied :
      (s : Store M R L S) (p q : Ptr) (a : DeviceConfigStatus) (b : DeploymentStatus)
      → s.statuses p ≡ some a
      → s.deployment_statuses q ≡ some b
      → (deep_copy_status none s ≡ some (none, s))
        × (deep_copy_deployment_status none s ≡ some (none, s))
        × Returns (deep_copy_status (some p) s) (IsCopied (λ s. s.statuses) a s)
        × Returns
            (deep_copy_deployment_status (some q) s)
            (IsCopied (λ s. s.deployment_statuses) b s)
  unfolding deep_copy_status deep_copy_deployment_status copy_status copy_deployment_status
  deep_copy_status-IsCopied s p q a b e f = (
    refl,
    refl,
    Returns-load (λ t. t.statuses) p _ s a (IsCopied (λ t. t.statuses) a s) e
        (record {
          address = s.heap.next;
          pointer = refl;
          is_new = omega arith;
          cell = update-new s.statuses a s.heap.next;
          kept = λ r l. update-old s.statuses a s.heap.next r l;
        }),
    Returns-load (λ t. t.deployment_statuses) q _ s b (IsCopied (λ t. t.deployment_statuses) b s) f
        (record {
          address = s.heap.next;
          pointer = refl;
          is_new = omega arith;
          cell = update-new s.deployment_statuses b s.heap.next;
          kept = λ r l. update-old s.deployment_statuses b s.heap.next r l;
        }),
  )
