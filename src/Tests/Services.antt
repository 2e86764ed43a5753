-- ===== src/Tests/Services.antt =====
-- The HTTP services at concrete inputs: a library of concrete functions, in which a number is
-- printed as so many strokes and a cursor is its offset, one database, and one store of jobs.
use kube_cost.Prelude.{
  ℕ, zero, suc, ◌-◌, ◌≡◌, ◌≢◌, ◌⊎◌, refl, sym, ap, ◌∙◌, arith, false, String, str_eq, eq_iff,
  if◌then◌else◌, none, some, [], ◌∷◌, Bool-cases, inl, inr,
}
use kube_cost.Prelude.Dict.{get}
use kube_cost.Wire.{pos}
use kube_cost.Http.{json}
use kube_cost.Gateway
use kube_cost.Gateway.{
  Request, Environment, tenant_header, authenticated_tenant, trusted_gateway, verify_request,
  sign_request, header_get, secret_header, allowed_skew,
}
use kube_cost.Gateway.Signing
use kube_cost.Gateway.Signing.{verify_request-sign_request}
use kube_cost.Gateway.Sound.{authenticated_tenant_sound, IsSigned}
use Prim.Native.String.{◌++◌ as append, count}
use text.Mathlib.TextLemmas.{length-append as count-append}

-- `n` strokes and one more.
pub strokes : ℕ → String
strokes zero = "1"
strokes (suc n) = append "1" (strokes n)

pub count-strokes : (n : ℕ) → count (strokes n) ≡ suc n
unfolding strokes
count-strokes zero = refl
count-strokes (suc n) = count-append "1" (strokes n) ∙ omega (arith, count-strokes n)

pub strokes_named : (n : ℕ) → str_eq (strokes n) "" ≡ false
strokes_named n = elim (Bool-cases (str_eq (strokes n) "")) [
  | inl e ↦
      let none_at_all : suc n ≡ 0 =
        sym (count-strokes n) ∙ ap count ((eq_iff (strokes n) "").0 e) in
      absurd (omega (arith, none_at_all))
  | inr e ↦ e
]

abbrev pub mac_of : String → String → String
mac_of key message = if str_eq key message then "equal" else "other"

abbrev pub library : Gateway.Library
library = record {
  trim_space = λ s. s;
  to_lower = λ s. s;
  format_int = strokes;
  parse_int = λ s. some (pos (count s - 1));
  mac = mac_of;
}

mac_named : (key message : String) → str_eq (mac_of key message) "" ≡ false
mac_named key message = elim (Bool-cases (str_eq key message)) [
  | inl e ↦ rw e refl
  | inr e ↦ rw e refl
]

library-IsLawful : Signing.IsLawful library
library-IsLawful = record {
  trim_trim = λ s. refl;
  trim_gateway = refl;
  trim_int = λ n. refl;
  trim_mac = λ key message. refl;
  int_named = strokes_named;
  mac_named = mac_named;
  parse_format = λ n small.
      let e : count (strokes n) - 1 ≡ n = omega (arith, count-strokes n) in
      ap (λ k. some (pos k)) e;
}

abbrev pub values : String → String → String
values cursor name =
    if str_eq name "cursor"
    then cursor
    else if str_eq name "start"
    then "early"
    else if str_eq name "limit"
    then "1"
    else if str_eq name "end"
    then "late"
    else ""

abbrev pub request : String → Request
request cursor = record {
  method = "GET";
  escaped_path = "/api/v1/usage";
  raw_query = "";
  header = (tenant_header, "t") ∷ [];
  value = values cursor;
  path_value = λ name. "";
}

verify_request-sign_request_example :
    verify_request library (sign_request library (request "") "g" "key" 5) "key" 7 allowed_skew
    ≡ none
verify_request-sign_request_example =
    verify_request-sign_request library library-IsLawful (request "") "g" "key" 5 7 allowed_skew
      (omega arith) (omega arith) (omega arith)

abbrev pub environment : Environment
environment = record { gateway_secret = ""; signing_key = "" }

pub is_tenant :
    (cursor : String) → authenticated_tenant library environment (request cursor) 0 ≡ json "t"
unfolding authenticated_tenant trusted_gateway verify_request get
is_tenant cursor = refl

authenticated_tenant_sound_example :
    ("t" ≡ header_get (request "") tenant_header)
    × (◌≢◌ {A = String} "t" "")
    × ((◌≡◌ {A = String} "" "") ⊎ (header_get (request "") secret_header ≡ ""))
    × ((◌≡◌ {A = String} "" "") ⊎ IsSigned library (request "") "" 0 allowed_skew)
authenticated_tenant_sound_example =
    authenticated_tenant_sound library environment (request "") 0 (is_tenant "")
