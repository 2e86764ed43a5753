-- ===== src/Http.antt =====
-- What the HTTP services share: `writeJSON` and `writeProblem` of services/query/server.go, as the
-- two ways in which a handler ends. A handler is a chain of steps that stops at its first problem.
use kube_cost.Prelude.{ℕ, String, Bool, true, false, ◌≡◌, refl}

pub record Problem : Type 0 where
  pub status : ℕ
  pub code : String
  pub detail : String

-- A step's result, or the problem that was written; a handler's reply.
pub data Reply {ℓ} (A : Type ℓ) : Type ℓ where
  json : A → Reply A
  problem : Problem → Reply A

infixl 5 ◌>>=◌ ◌>>◌
abbrev pub ◌>>=◌ {ℓ κ} : {A : Type ℓ} {B : Type κ} → Reply A → (A → Reply B) → Reply B
json a >>= f = f a
problem p >>= f = problem p

abbrev pub ◌>>◌ {ℓ} : {B : Type ℓ} → Reply (Unit {0}) → Reply B → Reply B
m >> k = m >>= λ _. k

-- `if condition { writeProblem(…); return }`
abbrev pub refuse_if : Bool → ℕ → String → String → Reply (Unit {0})
refuse_if true status code detail =
    problem (record { status = status; code = code; detail = detail })
refuse_if false status code detail = json tt

abbrev pub bad_request : String → Problem
bad_request detail = record { status = 400; code = "invalid_request"; detail = detail }

-- Inversion of a chain that did not stop.
pub >>=-eq-json {ℓ κ} :
    {A : Type ℓ} {B : Type κ} (m : Reply A) (f : A → Reply B) {b : B}
    → (m >>= f) ≡ json b
    → (a : A) × (m ≡ json a) × (f a ≡ json b)
>>=-eq-json (json a) f h = (a, refl, h)
>>=-eq-json (problem p) f h = cc

pub refuse_if-eq-json :
    (b : Bool) (status : ℕ) (code detail : String) {x : Unit {0}}
    → refuse_if b status code detail ≡ json x
    → b ≡ false
refuse_if-eq-json true status code detail h = cc
refuse_if-eq-json false status code detail h = refl

-- Two chains that go on alike from what the first step gives are alike.
pub >>=_agree {ℓ κ} :
    {A : Type ℓ} {B : Type κ} (m : Reply A) (f g : A → Reply B)
    → ((a : A) → m ≡ json a → f a ≡ g a)
    → (m >>= f) ≡ (m >>= g)
>>=_agree (json a) f g h = h a refl
>>=_agree (problem p) f g h = refl
