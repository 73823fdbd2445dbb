-- ===== src/Kube/Traced.antt =====
-- A client that records the calls that are made of another one, as a mock does, and changes nothing
-- else.
use operator_for_ai_chips_on.Common.{
  ℕ, suc, Bool, true, false, ◌||◌, List, [], ◌∷◌, ◌++◌, Result, ok, err, if◌then◌else◌,
}
use operator_for_ai_chips_on.K8s.{ObjectMeta, NamespacedName}
use operator_for_ai_chips_on.Api.{DeviceConfig}
use operator_for_ai_chips_on.Kube.Defs.{
  Kind, module_kind, daemon_set_kind, deployment_kind, Obj, Util, Client,
}

-- What a read found.
pub data Found : Type 0 where
  present absent failed : Found

pub data Call : Type 0 where
  got : Kind → NamespacedName → Found → Call
  deleted : Kind → NamespacedName → Call
  patched : (obj base : DeviceConfig) → Call
  applied : Kind → NamespacedName → Call

abbrev pub key_of : ObjectMeta → NamespacedName
key_of m = record { namespace = m.namespace; name = m.name }

abbrev pub is_patch : Call → Bool
is_patch (patched _ _) = true
is_patch _ = false

abbrev pub is_apply : Call → Bool
is_apply (applied _ _) = true
is_apply _ = false

abbrev pub same_kind : Kind → Kind → Bool
same_kind module_kind module_kind = true
same_kind daemon_set_kind daemon_set_kind = true
same_kind deployment_kind deployment_kind = true
same_kind _ _ = false

abbrev pub is_delete : Kind → Call → Bool
is_delete k (deleted j _) = same_kind k j
is_delete k _ = false

abbrev pub any : (Call → Bool) → List Call → Bool
any p [] = false
any p (c ∷ cs) = p c || any p cs

-- The number of calls that write to the cluster.
abbrev pub writes : List Call → ℕ
writes [] = 0
writes (got _ _ _ ∷ cs) = writes cs
writes (deleted _ _ ∷ cs) = suc (writes cs)
writes (patched _ _ ∷ cs) = suc (writes cs)
writes (applied _ _ ∷ cs) = suc (writes cs)

-- client.ObjectKeyFromObject
abbrev pub obj_key : (k : Kind) → Obj k → NamespacedName
obj_key module_kind o = key_of o.meta
obj_key daemon_set_kind o = key_of o.meta
obj_key deployment_kind o = key_of o.meta

abbrev pub found_of : (U : Util) {A : Type 0} → Result U.Failure A → Found
found_of U (ok _) = present
found_of U (err e) = if U.is_not_found e then absent else failed

module _ {U : Util} where
  abbrev pub traced : Client U → Client U
  traced C = record {
    World = C.World × List Call;
    get = λ k n (w, log).
        let (r, w') = C.get k n w in (r, (w', log ++ (got k n (found_of U r) ∷ [])));
    delete = λ k o (w, log).
        let (e, w') = C.delete k o w in (e, (w', log ++ (deleted k (obj_key k o) ∷ [])));
    patch = λ d base (w, log).
        let (e, d', w') = C.patch d base w in (e, d', (w', log ++ (patched d base ∷ [])));
    create_or_patch = λ k o f (w, log).
        let (r, o', w') = C.create_or_patch k o f w in
        (r, o', (w', log ++ (applied k (obj_key k o) ∷ [])));
  }
