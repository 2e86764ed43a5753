-- ===== src/Gateway/Sound.antt =====
-- What a verified signature and an authenticated tenant show.
use kube_cost.Prelude.{
  ℕ, String, false, Option, none, some, str_eq, eq_iff, ltb, ◌≡◌, ◌≢◌, ◌⊎◌, inl, inr, refl, sym,
  arith, Bool-cases, Option-cases, not, ◌&&◌,
}
use kube_cost.Wire.{ℤ}
use kube_cost.Http.{json, >>=-eq-json, refuse_if, refuse_if-eq-json}
use kube_cost.Gateway.{
  Library, Request, Environment, tenant_header, identity_header, timestamp_header, signature_header,
  secret_header, header_get, signature, is_outside, verify_signed, verify_request, allowed_skew,
  forbid_if, trusted_gateway, authenticated_tenant, SignatureError,
}

-- What a request has when it is verified under a key that is not blank: all three headers, a time
-- of signing within the skew, and the signature of its own method, path, query and tenant.
pub record IsSigned (lib : Library) (r : Request) (key : String) (now skew : ℕ) : Type 0 where
  pub signed_at : ℤ
  pub read : lib.parse_int (lib.trim_space (header_get r timestamp_header)) ≡ some signed_at
  pub recent : (ltb 0 skew && is_outside now signed_at skew) ≡ false
  pub exact :
      lib.trim_space (header_get r signature_header)
      ≡ signature lib r
          (lib.trim_space (header_get r identity_header))
          (lib.trim_space (header_get r timestamp_header))
          (lib.trim_space key)

verify_signed_sound :
    (lib : Library) (r : Request) (identity timestamp actual key : String) (now skew : ℕ)
    → verify_signed lib r identity timestamp actual key now skew ≡ none
    → (seconds : ℤ) × (lib.parse_int timestamp ≡ some seconds)
      × ((ltb 0 skew && is_outside now seconds skew) ≡ false)
      × (actual ≡ signature lib r identity timestamp key)
unfolding verify_signed
verify_signed_sound lib r identity timestamp actual key now skew h =
    elim (Option-cases (lib.parse_int timestamp)) [
      | inl e ↦ absurd (ground (arith, h, e))
      | inr (seconds, e) ↦ elim (Bool-cases (ltb 0 skew && is_outside now seconds skew)) [
        | inl o ↦ absurd (ground (arith, h, e, o))
        | inr o ↦ (
          seconds,
          e,
          o,
          ground (arith, h, e, o, eq_iff actual (signature lib r identity timestamp key)),
        )
      ]
    ]

verify_request_unfold :
    (lib : Library) (r : Request) (key : String) (now skew : ℕ)
    → str_eq (lib.trim_space key) "" ≡ false
    → verify_request lib r key now skew ≡ none
    → verify_signed lib r
        (lib.trim_space (header_get r identity_header))
        (lib.trim_space (header_get r timestamp_header))
        (lib.trim_space (header_get r signature_header))
        (lib.trim_space key)
        now
        skew
      ≡ none
unfolding verify_request
verify_request_unfold lib r key now skew named h = ground (arith, h, named)

pub verify_request_sound :
    (lib : Library) (r : Request) (key : String) (now skew : ℕ)
    → str_eq (lib.trim_space key) "" ≡ false
    → verify_request lib r key now skew ≡ none
    → IsSigned lib r key now skew
verify_request_sound lib r key now skew named h =
    let found =
      verify_signed_sound lib r _ _ _ _ now skew
        (verify_request_unfold lib r key now skew named h) in
    record { signed_at = found.0; read = found.1; recent = found.2; exact = found.3 }

forbid_if-eq-json : (o : Option SignatureError) {x : Unit {0}} → forbid_if o ≡ json x → o ≡ none
forbid_if-eq-json none h = refl
forbid_if-eq-json (some e) h = cc

-- A request is taken for a tenant only if the tenant is the trimmed header of that name and not
-- blank, the gateway's secret is the one configured, when one is, and the signature is verified,
-- when a key is configured.
pub authenticated_tenant_sound :
    (lib : Library) (env : Environment) (r : Request) (now : ℕ) {tenant : String}
    → authenticated_tenant lib env r now ≡ json tenant
    → (tenant ≡ lib.trim_space (header_get r tenant_header))
      × (tenant ≢ "")
      × ((lib.trim_space env.gateway_secret ≡ "")
          ⊎ (header_get r secret_header ≡ lib.trim_space env.gateway_secret))
      × ((lib.trim_space (lib.trim_space env.signing_key) ≡ "")
          ⊎ IsSigned lib r (lib.trim_space env.signing_key) now allowed_skew)
unfolding authenticated_tenant trusted_gateway
authenticated_tenant_sound lib env r now {tenant = tenant} h =
    let key = lib.trim_space env.signing_key in
    let secret = lib.trim_space env.gateway_secret in
    let given = header_get r secret_header in
    let (u, trusted, rest) = >>=-eq-json (trusted_gateway lib env r now) _ h in
    let (u', open_gate, checked) =
      >>=-eq-json
        (refuse_if (not (str_eq secret "") && not (str_eq given secret)) 403 "forbidden"
          "X-Kube-Cost-Gateway-Secret is required")
        _ trusted in
    let gate =
      refuse_if-eq-json _ 403 "forbidden" "X-Kube-Cost-Gateway-Secret is required" open_gate in
    let verified : verify_request lib r key now allowed_skew ≡ none = forbid_if-eq-json _ checked in
    let (u'', named, last) =
      >>=-eq-json
        (refuse_if (str_eq (lib.trim_space (header_get r tenant_header)) "") 401 "unauthenticated"
          "X-Kube-Cost-Tenant-ID is required")
        _ rest in
    let full =
      refuse_if-eq-json _ 401 "unauthenticated" "X-Kube-Cost-Tenant-ID is required" named in
    let same : lib.trim_space (header_get r tenant_header) ≡ tenant = ground (arith, last) in
    (
      sym same,
      ground (arith, full, same, eq_iff tenant ""),
      ground (arith, gate, eq_iff secret "", eq_iff given secret),
      elim (Bool-cases (str_eq (lib.trim_space key) "")) [
        | inl e ↦ inl ((eq_iff (lib.trim_space key) "").0 e)
        | inr e ↦ inr (verify_request_sound lib r key now allowed_skew e verified)
      ],
    )
