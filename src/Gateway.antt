-- ===== src/Gateway.antt =====
-- internal/gatewayauth/gatewayauth.go: the gateway's signature of a request, and its verification;
-- and `trustedGateway` and `authenticatedTenant` of services/query/server.go, which the services
-- call first. Times are nanoseconds since 1970. The names of headers are the canonical ones.
pub mod Signing
pub mod Sound
use kube_cost.Prelude.{
  ℕ, ◌+◌, ◌-◌, ◌*◌, ◌/◌, String, Bool, true, false, ◌&&◌, ◌||◌, not, Option, none, some, List, [],
  ◌∷◌, str_eq, if◌then◌else◌, ltb,
}
use kube_cost.Prelude.Dict.{get, put}
use kube_cost.Wire.{ℤ, pos, negsuc}
use kube_cost.Http.{Problem, Reply, json, problem, refuse_if, ◌>>=◌, ◌>>◌}
use Prim.Native.String.{◌++◌}

-- What the code calls of Go's packages strings, strconv and crypto: `mac` is HMAC-SHA-256 of a
-- message under a key, in unpadded base64url.
pub record Library : Type 0 where
  pub trim_space : String → String
  pub to_lower : String → String
  pub format_int : ℕ → String
  pub parse_int : String → Option ℤ
  pub mac : String → String → String

-- The parts of http.Request that the services read. `value` is URL.Query().Get.
pub record Request : Type 0 where
  pub method : String
  pub escaped_path : String
  pub raw_query : String
  pub header : List (String × String)
  pub value : String → String
  pub path_value : String → String

abbrev pub tenant_header : String
tenant_header = "X-Kube-Cost-Tenant-ID"

abbrev pub identity_header : String
identity_header = "X-Kube-Cost-Gateway-Identity"

abbrev pub timestamp_header : String
timestamp_header = "X-Kube-Cost-Gateway-Timestamp"

abbrev pub signature_header : String
signature_header = "X-Kube-Cost-Gateway-Signature"

abbrev pub secret_header : String
secret_header = "X-Kube-Cost-Gateway-Secret"

abbrev pub header_get : Request → String → String
header_get r name = elim (get r.header name) [ none ↦ "" | some v ↦ v ]

abbrev pub header_set : Request → String → String → Request
header_set r name v = record r { header = put r.header name v }

unfoldable pub signature : Library → Request → String → String → String → String
signature lib r identity timestamp key = lib.mac key (
    r.method
    ++ "\n"
    ++ r.escaped_path
    ++ "\n"
    ++ r.raw_query
    ++ "\n"
    ++ header_get r tenant_header
    ++ "\n"
    ++ identity
    ++ "\n"
    ++ timestamp)

abbrev pub second : ℕ
second = 1000000000

-- The identity that is sent for one that was configured.
abbrev pub sent_identity : String → String
sent_identity identity = if str_eq identity "" then "gateway" else identity

abbrev pub sign_with : Library → Request → String → String → String → Request
sign_with lib r identity timestamp key =
    let named = header_set (header_set r identity_header identity) timestamp_header timestamp in
    header_set named signature_header (signature lib named identity timestamp key)

unfoldable pub sign_request : Library → Request → String → String → ℕ → Request
sign_request lib r identity key now =
    if str_eq (lib.trim_space key) ""
    then r
    else sign_with lib r (sent_identity (lib.trim_space identity)) (lib.format_int (now / second))
        (lib.trim_space key)

pub data SignatureError : Type 0 where
  missing_signature invalid_timestamp expired_signature invalid_signature : SignatureError

abbrev pub error_text : SignatureError → String
error_text missing_signature = "gateway signature is required"
error_text invalid_timestamp = "gateway signature timestamp is invalid"
error_text expired_signature = "gateway signature timestamp is outside allowed skew"
error_text invalid_signature = "gateway signature is invalid"

-- `now - signedAt > maxSkew || signedAt - now > maxSkew`, for a time of signing in seconds.
abbrev pub is_outside : ℕ → ℤ → ℕ → Bool
is_outside now (pos seconds) skew =
    ltb skew (now - seconds * second) || ltb skew (seconds * second - now)
is_outside now (negsuc n) skew = ltb skew (now + (n + 1) * second)

-- The last part of `VerifyRequest`; a skew of zero or less is not tested.
unfoldable pub verify_signed :
    Library → Request → String → String → String → String → ℕ → ℕ → Option SignatureError
verify_signed lib r identity timestamp actual key now max_skew = elim (lib.parse_int timestamp) [
  | none ↦ some invalid_timestamp
  | some seconds ↦
      if ltb 0 max_skew && is_outside now seconds max_skew
      then some expired_signature
      else if str_eq actual (signature lib r identity timestamp key)
      then none
      else some invalid_signature
]

unfoldable pub verify_request : Library → Request → String → ℕ → ℕ → Option SignatureError
verify_request lib r key now max_skew =
    let identity = lib.trim_space (header_get r identity_header) in
    let timestamp = lib.trim_space (header_get r timestamp_header) in
    let actual = lib.trim_space (header_get r signature_header) in
    if str_eq (lib.trim_space key) ""
    then none
    else if str_eq identity "" || str_eq timestamp "" || str_eq actual ""
    then some missing_signature
    else verify_signed lib r identity timestamp actual (lib.trim_space key) now max_skew

-- TRUSTED_GATEWAY_SECRET and TRUSTED_GATEWAY_SIGNING_KEY; empty when they are not set.
pub record Environment : Type 0 where
  pub gateway_secret : String
  pub signing_key : String

-- `5*time.Minute`
abbrev pub allowed_skew : ℕ
allowed_skew = 300 * second

abbrev pub forbid_if : Option SignatureError → Reply (Unit {0})
forbid_if none = json tt
forbid_if (some e) = problem (record { status = 403; code = "forbidden"; detail = error_text e })

unfoldable pub trusted_gateway : Library → Environment → Request → ℕ → Reply (Unit {0})
trusted_gateway lib env r now = do
  let expected = lib.trim_space env.gateway_secret
  refuse_if (not (str_eq expected "") && not (str_eq (header_get r secret_header) expected)) 403
      "forbidden" (secret_header ++ " is required")
  forbid_if (verify_request lib r (lib.trim_space env.signing_key) now allowed_skew)

unfoldable pub authenticated_tenant : Library → Environment → Request → ℕ → Reply String
unfolding trusted_gateway
authenticated_tenant lib env r now = do
  trusted_gateway lib env r now
  let tenant = lib.trim_space (header_get r tenant_header)
  refuse_if (str_eq tenant "") 401 "unauthenticated" (tenant_header ++ " is required")
  json tenant
