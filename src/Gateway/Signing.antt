-- ===== src/Gateway/Signing.antt =====
-- The gateway's own signatures are verified.
use kube_cost.Prelude.{
  ℕ, ◌+◌, ◌*◌, ◌/◌, ◌≤◌, ◌<◌, ◌^◌, String, true, false, none, some, str_eq, eq_iff, if◌then◌else◌,
  ◌≡◌, inl, inr, refl, sym, ap, arith, Bool-cases, ◌∙◌,
}
use kube_cost.Prelude.Dict.{get-put}
use kube_cost.Wire.{pos}
use kube_cost.Gateway.{
  Library, Request, tenant_header, identity_header, timestamp_header, signature_header, header_get,
  header_set, signature, second, sent_identity, sign_with, sign_request, is_outside, verify_signed,
  verify_request,
}

-- What the code relies on in the library: trimming twice is trimming once and leaves the texts that
-- the code writes alone, a printed time is read back, and neither it nor a signature is empty.
pub record IsLawful (lib : Library) : Type 0 where
  pub trim_trim : (s : String) → lib.trim_space (lib.trim_space s) ≡ lib.trim_space s
  pub trim_gateway : lib.trim_space "gateway" ≡ "gateway"
  pub trim_int : (n : ℕ) → lib.trim_space (lib.format_int n) ≡ lib.format_int n
  pub trim_mac : (key message : String) → lib.trim_space (lib.mac key message) ≡ lib.mac key message
  pub int_named : (n : ℕ) → str_eq (lib.format_int n) "" ≡ false
  pub mac_named : (key message : String) → str_eq (lib.mac key message) "" ≡ false
  pub parse_format : (n : ℕ) → n < 2 ^ 63 → lib.parse_int (lib.format_int n) ≡ some (pos n)

get_set :
    (r : Request) (name other v : String)
    → header_get (header_set r name v) other ≡ (if str_eq name other then v else header_get r other)
get_set r name other v = ground (arith, get-put r.header name other v)

-- The signature reads no header but the tenant's.
signature-set :
    (lib : Library) (r : Request) (name v identity timestamp key : String)
    → str_eq name tenant_header ≡ false
    → signature lib (header_set r name v) identity timestamp key
      ≡ signature lib r identity timestamp key
unfolding signature
signature-set lib r name v identity timestamp key h =
    ground (arith, get_set r name tenant_header v, h)

sent_identity_named :
    (lib : Library)
    → IsLawful lib
    → (s : String) → str_eq (sent_identity (lib.trim_space s)) "" ≡ false
sent_identity_named lib laws s = elim (Bool-cases (str_eq (lib.trim_space s) "")) [
  | inl e ↦ rw e refl
  | inr e ↦ rw (e, e) refl
]

sent_identity_trimmed :
    (lib : Library)
    → IsLawful lib
    → (s : String)
    → lib.trim_space (sent_identity (lib.trim_space s)) ≡ sent_identity (lib.trim_space s)
sent_identity_trimmed lib laws s = elim (Bool-cases (str_eq (lib.trim_space s) "")) [
  | inl e ↦ rw e laws.trim_gateway
  | inr e ↦ rw e (laws.trim_trim s)
]

signature_trimmed :
    (lib : Library)
    → IsLawful lib
    → (r : Request) (identity timestamp key : String)
    → lib.trim_space (signature lib r identity timestamp key)
      ≡ signature lib r identity timestamp key
unfolding signature
signature_trimmed lib laws r identity timestamp key = laws.trim_mac key _

signature_named :
    (lib : Library)
    → IsLawful lib
    → (r : Request) (identity timestamp key : String)
    → str_eq (signature lib r identity timestamp key) "" ≡ false
unfolding signature
signature_named lib laws r identity timestamp key = laws.mac_named key _

verify_signed-none :
    (lib : Library) (r : Request) (identity timestamp actual key : String) (now skew seconds : ℕ)
    → lib.parse_int timestamp ≡ some (pos seconds)
    → is_outside now (pos seconds) skew ≡ false
    → actual ≡ signature lib r identity timestamp key
    → verify_signed lib r identity timestamp actual key now skew ≡ none
unfolding verify_signed
verify_signed-none lib r identity timestamp actual key now skew seconds p o e =
    ground (arith, p, o, e, eq_iff actual (signature lib r identity timestamp key))

-- The headers that `sign_with` leaves.
signed-header :
    (lib : Library) (r : Request) (identity timestamp key : String)
    → (header_get (sign_with lib r identity timestamp key) identity_header ≡ identity)
      × (header_get (sign_with lib r identity timestamp key) timestamp_header ≡ timestamp)
      × (header_get (sign_with lib r identity timestamp key) signature_header
          ≡ signature lib r identity timestamp key)
      × (signature lib (sign_with lib r identity timestamp key) identity timestamp key
          ≡ signature lib r identity timestamp key)
signed-header lib r identity timestamp key =
    let r1 = header_set r identity_header identity in
    let r2 = header_set r1 timestamp_header timestamp in
    let mac = signature lib r2 identity timestamp key in
    let kept : mac ≡ signature lib r identity timestamp key =
      signature-set lib r1 timestamp_header timestamp identity timestamp key refl
      ∙ signature-set lib r identity_header identity identity timestamp key refl in
    (
      get_set r2 signature_header identity_header mac
          ∙ get_set r1 timestamp_header identity_header timestamp
          ∙ get_set r identity_header identity_header identity,
      get_set r2 signature_header timestamp_header mac
          ∙ get_set r1 timestamp_header timestamp_header timestamp,
      get_set r2 signature_header signature_header mac ∙ kept,
      signature-set lib r2 signature_header mac identity timestamp key refl ∙ kept,
    )

verify_request-sign_with :
    (lib : Library)
    → IsLawful lib
    → (r : Request) (identity key : String) (n now skew : ℕ) → str_eq identity "" ≡ false
    → lib.trim_space identity ≡ identity
    → str_eq (lib.trim_space key) "" ≡ false
    → n < 2 ^ 63
    → is_outside now (pos n) skew ≡ false
    → verify_request lib
        (sign_with lib r identity (lib.format_int n) (lib.trim_space key))
        key
        now
        skew
      ≡ none
unfolding verify_request
verify_request-sign_with lib laws r identity key n now skew ni ti nk small inside =
    let k = lib.trim_space key in
    let t = lib.format_int n in
    let signed = sign_with lib r identity t k in
    let headers = signed-header lib r identity t k in
    let mac = signature lib r identity t k in
    let id : lib.trim_space (header_get signed identity_header) ≡ identity =
      ap lib.trim_space headers.0 ∙ ti in
    let time : lib.trim_space (header_get signed timestamp_header) ≡ t =
      ap lib.trim_space headers.1 ∙ laws.trim_int n in
    let sig : lib.trim_space (header_get signed signature_header) ≡ mac =
      ap lib.trim_space headers.2 ∙ signature_trimmed lib laws r identity t k in
    let checked =
      verify_signed-none lib signed identity t mac k now skew n (laws.parse_format n small) inside
        (sym headers.3) in
    ground (
      arith,
      id,
      time,
      sig,
      checked,
      nk,
      ni,
      laws.int_named n,
      signature_named lib laws r identity t k,
    )

verify_request-unsigned :
    (lib : Library) (r : Request) (key : String) (now skew : ℕ)
    → str_eq (lib.trim_space key) "" ≡ true
    → verify_request lib r key now skew ≡ none
unfolding verify_request
verify_request-unsigned lib r key now skew e = rw e refl

-- Where the library trims, prints and reads numbers as documented: a request that the gateway signed
-- at a time `now` before the year 2262 is verified under the same key by a service whose clock is
-- within the allowed skew of the second of signing, whatever the request's own headers were.
pub verify_request-sign_request :
    (lib : Library)
    → IsLawful lib
    → (r : Request) (identity key : String) (now later skew : ℕ) → now < 2 ^ 63
    → now / second * second ≤ later + skew
    → later ≤ now / second * second + skew
    → verify_request lib (sign_request lib r identity key now) key later skew ≡ none
unfolding sign_request
verify_request-sign_request lib laws r identity key now later skew small early late =
    elim (Bool-cases (str_eq (lib.trim_space key) "")) [
      | inl e ↦ rw e (verify_request-unsigned lib r key later skew e)
      | inr e ↦ rw e (
          verify_request-sign_with lib laws r (sent_identity (lib.trim_space identity)) key
            (now / second) later skew (sent_identity_named lib laws identity)
            (sent_identity_trimmed lib laws identity) e (omega arith) (ground (arith, early, late)))
    ]
