-- ===== src/Mocks/Kept.antt =====
-- The assertions of the generated mocks keep results that have the types of the method's.
use operator_for_ai_chips_on.Common.{some, List, [], ◌∷◌, ◌≡◌, refl, ap, ◌∙◌}
use operator_for_ai_chips_on.Mocks.Gomock.{
  GoType, bool_type, error_type, group_version_kind_type, rest_mapper_type, scheme_type,
  sub_resource_writer_type, sub_resource_client_type, Values, Any, any, HasType, exact, absent,
  HasTypes, Gomock, finished,
}
use operator_for_ai_chips_on.Mocks.Doubles.{
  Testing, as_error, as_bool, error_result, as_group_version_kind, as_rest_mapper, as_scheme,
  as_sub_resource_writer, as_sub_resource_client,
}
use operator_for_ai_chips_on.Mocks.Calls.{
  error_results, rest_mapper_results, scheme_results, sub_resource_writer_results,
  sub_resource_client_results, bool_results, kind_results, nothing_results,
}

module _ {V : Values} where
  -- An assertion keeps a value of its type.
  error-kept : {v : Any V} → HasType error_type v → any error_type (as_error v) ≡ v
  error-kept (exact _ x) = refl
  error-kept (absent _ _) = refl

  rest_mapper-kept :
      {v : Any V} → HasType rest_mapper_type v → any rest_mapper_type (as_rest_mapper v) ≡ v
  rest_mapper-kept (exact _ x) = refl
  rest_mapper-kept (absent _ _) = refl

  sub_resource_writer-kept :
      {v : Any V}
      → HasType sub_resource_writer_type v
      → any sub_resource_writer_type (as_sub_resource_writer v) ≡ v
  sub_resource_writer-kept (exact _ x) = refl
  sub_resource_writer-kept (absent _ _) = refl

  sub_resource_client-kept :
      {v : Any V}
      → HasType sub_resource_client_type v
      → any sub_resource_client_type (as_sub_resource_client v) ≡ v
  sub_resource_client-kept (exact _ x) = refl
  sub_resource_client-kept (absent _ _) = refl

  bool-kept : {v : Any V} → HasType bool_type v → any {V = V} bool_type (some (as_bool v)) ≡ v
  bool-kept (exact _ x) = refl
  bool-kept (absent _ e) = cc

  kind-kept :
      {v : Any V}
      → HasType group_version_kind_type v
      → any {V = V} group_version_kind_type (some (as_group_version_kind v)) ≡ v
  kind-kept (exact _ x) = refl
  kind-kept (absent _ e) = cc

  scheme-kept :
      {v : Any V} → HasType scheme_type v → any {V = V} scheme_type (some (as_scheme v)) ≡ v
  scheme-kept (exact _ x) = refl
  scheme-kept (absent _ e) = cc

module _ {V : Values} where
  -- A property of the results holds if it holds of one result, or of two.
  single :
      {k : GoType} (P : List (Any V) → Type 0) (vs : List (Any V))
      → HasTypes (k ∷ []) vs
      → ((v : Any V) → HasType k v → P (v ∷ []))
      → P vs
  single P [] h f = elim h [ ]
  single P (v ∷ []) h f = f v h.0
  single P (v ∷ w ∷ vs) h f = elim h.1 [ ]

  pair :
      {k j : GoType} (P : List (Any V) → Type 0) (vs : List (Any V))
      → HasTypes (k ∷ j ∷ []) vs
      → ((v w : Any V) → HasType k v → HasType j w → P (v ∷ w ∷ []))
      → P vs
  pair P [] h f = elim h [ ]
  pair P (v ∷ vs) h f = single (λ ws. P (v ∷ ws)) vs h.1 (λ w hw. f v w h.0 hw)

module _ {V : Values} (G : Gomock V) (t : Testing G) (vs : List (Any V)) (t' : Testing G) where
  pub error_results-kept :
      HasTypes (error_type ∷ []) vs → error_results G t (finished vs t') ≡ finished vs t'
  unfolding error_result
  error_results-kept h =
      single (λ xs. error_results G t (finished xs t') ≡ finished xs t') vs h
        (λ v hv. ap (λ x. finished (x ∷ []) t') (error-kept hv))

  pub rest_mapper_results-kept :
      HasTypes (rest_mapper_type ∷ []) vs
      → rest_mapper_results G t (finished vs t') ≡ finished vs t'
  rest_mapper_results-kept h =
      single (λ xs. rest_mapper_results G t (finished xs t') ≡ finished xs t') vs h
        (λ v hv. ap (λ x. finished (x ∷ []) t') (rest_mapper-kept hv))

  pub scheme_results-kept :
      HasTypes (scheme_type ∷ []) vs → scheme_results G t (finished vs t') ≡ finished vs t'
  scheme_results-kept h =
      single (λ xs. scheme_results G t (finished xs t') ≡ finished xs t') vs h
        (λ v hv. ap (λ x. finished (x ∷ []) t') (scheme-kept hv))

  pub sub_resource_writer_results-kept :
      HasTypes (sub_resource_writer_type ∷ []) vs
      → sub_resource_writer_results G t (finished vs t') ≡ finished vs t'
  sub_resource_writer_results-kept h =
      single (λ xs. sub_resource_writer_results G t (finished xs t') ≡ finished xs t') vs h
        (λ v hv. ap (λ x. finished (x ∷ []) t') (sub_resource_writer-kept hv))

  pub sub_resource_client_results-kept :
      HasTypes (sub_resource_client_type ∷ []) vs
      → sub_resource_client_results G t (finished vs t') ≡ finished vs t'
  sub_resource_client_results-kept h =
      single (λ xs. sub_resource_client_results G t (finished xs t') ≡ finished xs t') vs h
        (λ v hv. ap (λ x. finished (x ∷ []) t') (sub_resource_client-kept hv))

  pub bool_results-kept :
      HasTypes (bool_type ∷ error_type ∷ []) vs → bool_results G t (finished vs t') ≡ finished vs t'
  bool_results-kept h =
      pair (λ xs. bool_results G t (finished xs t') ≡ finished xs t') vs h
        (λ v e hv he.
          ap (λ x. finished (x ∷ any error_type (as_error e) ∷ []) t') (bool-kept hv)
          ∙ ap (λ x. finished (v ∷ x ∷ []) t') (error-kept he))

  pub kind_results-kept :
      HasTypes (group_version_kind_type ∷ error_type ∷ []) vs
      → kind_results G t (finished vs t') ≡ finished vs t'
  kind_results-kept h =
      pair (λ xs. kind_results G t (finished xs t') ≡ finished xs t') vs h
        (λ v e hv he.
          ap (λ x. finished (x ∷ any error_type (as_error e) ∷ []) t') (kind-kept hv)
          ∙ ap (λ x. finished (v ∷ x ∷ []) t') (error-kept he))

  pub nothing_results-kept : HasTypes [] vs → nothing_results G t (finished vs t') ≡ finished vs t'
  nothing_results-kept h = none-left vs h
    where
      none-left :
          (ws : List (Any V))
          → HasTypes [] ws
          → nothing_results G t (finished ws t') ≡ finished ws t'
      none-left [] h = refl
      none-left (w ∷ ws) h = elim h [ ]
