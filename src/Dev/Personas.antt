-- ===== src/Dev/Personas.antt =====
-- The sessions of runtime/src/argus/api/dev.py, read by runtime/src/argus/core/auth.py.
use argus_services.Prelude.{
  ℕ, String, true, false, ◌+◌, ◌<◌, ◌≤◌, ◌≡◌, ◌≢◌, inl, inr, refl, sym, subst, Option, none, some,
  str_eq, Bool-cases, arith,
}
use argus_services.Exec.{ok}
use argus_services.Domain.Enums.{
  UserRole, root_admin, tenant_admin, watcher, role_value, role_of_value,
}
use argus_services.Domain.Json.{null, str, Fields, get_field}
use argus_services.Seed.Id
use argus_services.Auth.{
  Claims, payload, AuthSettings, auth_context_from_token, get_edge_auth_context, validate_jwt,
  extract_standard_claims, claim, get_or_default, parse_role, parse_tenant_id, uuid, truthy,
  is_client_credentials,
}
use argus_services.Auth.Tokens.{get_edge_auth_context_returns}
use argus_services.Dev.{
  TokenSettings, DevSession, demo_tenant_id, demo_camera_id, camera_claim, create_mock_token,
  create_mock_m2m_token, root_admin_session, persona_session, edge_session, create_dev_session,
}
use argus_services.Dev.Reading.{
  user_claims, edge_claims, Decodes, Reads, context_of, no_claim, IsRead,
}

module _ (S : AuthSettings) where
  validate_jwt-payload :
      (token sub : String) (claims : Fields)
      → S.decode token ≡ payload sub claims
      → validate_jwt S token ≡ ok (extract_standard_claims S sub claims)
  unfolding validate_jwt
  validate_jwt-payload token sub claims h = rw (h, validate_jwt)

  claim_missing :
      (claims : Fields) (name : String)
      → get_field name claims ≡ none
      → get_field (S.qualified name) claims ≡ none
      → claim S claims name ≡ null
  unfolding claim
  claim_missing claims name plain qualified =
      rw (plain, claim) (rw (qualified, get_or_default) refl)

  context_from_claims :
      (token : String) (c : Claims) (role : UserRole) (tenant_id : Option ℕ)
      → validate_jwt S token ≡ ok c
      → parse_role c.role ≡ ok role
      → parse_tenant_id S c.tenant_id role ≡ ok tenant_id
      → c.camera_id ≡ null
      → auth_context_from_token S token ≡ ok (context_of c.sub tenant_id role token)
  unfolding auth_context_from_token truthy
  context_from_claims token c role tenant_id hc hr ht no_camera =
      rw hc (rw hr (rw ht (rw no_camera refl)))

module _ (T : TokenSettings) (S : AuthSettings) (at : ℕ) (reads : Reads T S at) where
  no_camera_claim :
      (sub tenant_id role : String)
      → (extract_standard_claims S sub (user_claims T sub tenant_id role)).camera_id ≡ null
  unfolding extract_standard_claims camera_claim get_field
  no_camera_claim sub tenant_id role =
      claim_missing S (user_claims T sub tenant_id role) "camera_id" refl
        (no_claim T (S.qualified "camera_id") sub tenant_id role reads.qualified_camera_id)

  -- The token of a user, read while it is valid.
  user_context :
      (sub tenant_id role : String) (r : UserRole) (t : Option ℕ)
      → Decodes T S at (user_claims T sub tenant_id role)
      → T.now ≤ at
      → at < T.now + 3600
      → parse_role (str role) ≡ ok r
      → parse_tenant_id S (str tenant_id) r ≡ ok t
      → auth_context_from_token S (create_mock_token T sub tenant_id role 3600 none)
        ≡ ok (context_of sub t r (create_mock_token T sub tenant_id role 3600 none))
  unfolding create_mock_token extract_standard_claims claim get_field camera_claim
  user_context sub tenant_id role r t decodes made fresh hr ht =
      let claims = user_claims T sub tenant_id role in
      context_from_claims S (T.encode claims) (extract_standard_claims S sub claims) r t
        (validate_jwt-payload S (T.encode claims) sub claims
          (decodes sub T.now (T.now + 3600) refl refl refl refl refl made fresh))
        hr ht (no_camera_claim sub tenant_id role)

  uuid-tenant : uuid S (str demo_tenant_id) ≡ ok Id.tenant
  unfolding uuid
  uuid-tenant = rw (reads.uuid_of-tenant, uuid) refl

  uuid-camera : uuid S (str demo_camera_id) ≡ ok Id.camera
  unfolding uuid
  uuid-camera = rw (reads.uuid_of-camera, uuid) refl

  root_admin_session-IsRead : T.now ≤ at → at < T.now + 3600 → IsRead S (root_admin_session T)
  unfolding role_value role_of_value parse_role parse_tenant_id truthy
  root_admin_session-IsRead made fresh = (
    _,
    user_context "auth0|seed-root-admin" "" "root_admin" root_admin none reads.decodes.0 made fresh
        refl refl,
    refl,
    refl,
  )

  persona_session-IsRead :
      (persona sub : String) (r : UserRole)
      → Decodes T S at (user_claims T sub demo_tenant_id (role_value r))
      → T.now ≤ at
      → at < T.now + 3600
      → r ≢ root_admin
      → IsRead S (persona_session T persona sub (role_value r))
  unfolding role_value role_of_value parse_role parse_tenant_id truthy
  persona_session-IsRead persona sub root_admin decodes made fresh n = absurd (n refl)
  persona_session-IsRead persona sub tenant_admin decodes made fresh n = (
    _,
    user_context sub demo_tenant_id "tenant_admin" tenant_admin (some Id.tenant) decodes made fresh
        refl (rw uuid-tenant refl),
    refl,
    sym reads.uuid_of-tenant,
  )
  persona_session-IsRead persona sub watcher decodes made fresh n = (
    _,
    user_context sub demo_tenant_id "watcher" watcher (some Id.tenant) decodes made fresh refl
        (rw uuid-tenant refl),
    refl,
    sym reads.uuid_of-tenant,
  )

  returned : (a : DevSession) {s : DevSession} → ok a ≡ ok s → IsRead S a → IsRead S s
  returned a {s} h read = (let eq : a ≡ s = ground (arith, h) in subst (IsRead S) eq read)

  -- Each session but the edge's, made in mock mode and read while its token is valid, gives a context of
  -- the role and the tenant that the session names.
  pub create_dev_session-IsRead :
      (persona : String) (s : DevSession)
      → create_dev_session T true persona ≡ ok s
      → str_eq persona "edge" ≡ false
      → T.now ≤ at
      → at < T.now + 3600
      → IsRead S s
  unfolding create_dev_session role_value
  create_dev_session-IsRead persona s h no_edge made fresh =
      elim (Bool-cases (str_eq persona "root")) [
        | inl is_it ↦
            returned (root_admin_session T) (rw is_it at h) (root_admin_session-IsRead made fresh)
        | inr no_root ↦ elim (Bool-cases (str_eq persona "admin")) [
          | inl is_it ↦
              returned (persona_session T "admin" "auth0|seed-tenant-admin" "tenant_admin")
                (rw (no_root, is_it) at h)
                (persona_session-IsRead "admin" "auth0|seed-tenant-admin" tenant_admin
                  reads.decodes.1.0 made fresh (λ e. cc))
          | inr no_admin ↦ elim (Bool-cases (str_eq persona "watcher")) [
            | inl is_it ↦
                returned (persona_session T "watcher" "auth0|seed-watcher" "watcher")
                  (rw (no_root, no_admin, is_it) at h)
                  (persona_session-IsRead "watcher" "auth0|seed-watcher" watcher reads.decodes.1.1.0
                    made fresh (λ e. cc))
            | inr unknown ↦ (let no_session = rw (no_root, no_admin, unknown, no_edge) at h in cc)
          ]
        ]
      ]

  -- The edge's session, made in mock mode and read while its token is valid, is a machine's token for the
  -- camera and the tenant of the seed.
  create_dev_session-edge :
      (s : DevSession)
      → create_dev_session T true "edge" ≡ ok s
      → T.now ≤ at
      → at < T.now + 3600
      → get_edge_auth_context S (some (record { is_bearer = true; credentials = s.token }))
        ≡ ok (record {
          sub = "edge-device-demo-001@clients";
          tenant_id = Id.tenant;
          camera_id = Id.camera;
          token = s.token;
        })
  unfolding create_dev_session create_mock_m2m_token extract_standard_claims claim get_field
      is_client_credentials truthy
  create_dev_session-edge s h made fresh =
      let eq : edge_session T ≡ s = ground (arith, h) in
      let sub : String = "edge-device-demo-001@clients" in
      let claims = edge_claims T in
      subst
        (λ x.
          get_edge_auth_context S (some (record { is_bearer = true; credentials = x.token }))
          ≡ ok
              (record { sub = sub; tenant_id = Id.tenant; camera_id = Id.camera; token = x.token }))
        eq
        (get_edge_auth_context_returns S (T.encode claims) (extract_standard_claims S sub claims)
          Id.tenant Id.camera
          (validate_jwt-payload S (T.encode claims) sub claims
            (reads.decodes.1.1.1.0 sub T.now (T.now + 3600) refl refl refl refl refl made fresh))
          refl refl uuid-tenant uuid-camera)
