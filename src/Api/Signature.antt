-- ===== src/Api/Signature.antt =====
-- app/pkg/api/signature/middleware.go: the check that a request comes from the gateway.
pub mod Coverage
use Prim.Native.Char.{code}
use text.Mathlib.Text.{starts_with}
use tasks_service.Prelude.{
  ℕ, ◌+◌, ◌-◌, ◌*◌, ◌^◌, Bool, true, false, ◌&&◌, ◌||◌, ◌==◌, String, Option, none, some, List, [],
  ◌∷◌, ◌++◌, ltb, leb, nat_eq, any, join, split, if◌then◌else◌,
}

-- `header` is `r.Header.Get`, which gives "" for a header that is missing.
pub record Request : Type 0 where
  pub method : String
  pub path : String
  pub header : String → String

-- The values that the middleware puts into the context of the request.
pub record Context : Type 0 where
  pub verified : Bool
  pub user_id : Option String
  pub session_id : Option String
  pub subscription : Option String
  pub roles : Option (List String)

-- A refusal has the status 401; a request that passes goes to the handler with its context.
pub data Outcome : Type 0 where
  refused : String → Outcome
  passed : Context → Outcome

abbrev pub empty_context : Context
empty_context = record {
  verified = false;
  user_id = none;
  session_id = none;
  subscription = none;
  roles = none;
}

-- The secret, or none where the start of the service panics.
unfoldable pub load_secret : (String → String) → Option String
load_secret env =
    if env "GATEWAY_SIGN" == ""
    then (if env "SIGN_SECRET" == "" then none else some (env "SIGN_SECRET"))
    else some (env "GATEWAY_SIGN")

abbrev pub public_routes : List String
public_routes =
    "/health" ∷ "/metrics" ∷ "/ready" ∷ "/live" ∷ "/docs" ∷ "/swagger" ∷ "/favicon.ico" ∷ []

unfoldable pub is_public_route : String → Bool
is_public_route path = any (starts_with path) public_routes

-- The digits of a text read after those of `acc`.
unfoldable pub digits : ℕ → String → Option ℕ
digits acc String.[] = some acc
digits acc (String.◌∷◌ c s) =
    let rest = digits (acc * 10 + (code c - 48)) s in
    if leb 48 (code c) && leb (code c) 57 then rest else none

-- An int64 as its sign and its absolute value.
pub record Seconds : Type 0 where
  pub is_negative : Bool
  pub size : ℕ

unfoldable pub within : Bool → ℕ → Option ℕ → Option Seconds
within negative bound none = none
within negative bound (some n) =
    if ltb n bound then some (record { is_negative = negative; size = n }) else none

-- A sign needs a digit after it.
abbrev pub unsigned : String → Option ℕ
unsigned String.[] = none
unsigned (String.◌∷◌ c s) = digits 0 (String.◌∷◌ c s)

-- strconv.ParseInt(s, 10, 64)
unfoldable pub parse_int : String → Option Seconds
parse_int String.[] = none
parse_int (String.◌∷◌ c s) =
    if nat_eq (code c) 45
    then within true (2 ^ 63 + 1) (unsigned s)
    else if nat_eq (code c) 43
    then within false (2 ^ 63) (unsigned s)
    else within false (2 ^ 63) (digits 0 (String.◌∷◌ c s))

-- Durations and the clock are in nanoseconds, the clock since 1970.
abbrev pub second : ℕ
second = 1000000000

abbrev pub max_age : ℕ
max_age = 5 * 60 * second

-- The seconds from the year 1 to 1970; `time.Unix` adds them in 64 bits, so a time near the end of
-- the range stands before the year 1.
abbrev pub unix_to_internal : ℕ
unix_to_internal = 62135596800

-- time.Since(time.Unix(timestamp, 0)) > 5*time.Minute
unfoldable pub is_too_old : ℕ → Seconds → Bool
is_too_old now t =
    if t.is_negative
    then ltb max_age (now + t.size * second)
    else (leb (2 ^ 63) (t.size + unix_to_internal) || ltb (t.size * second + max_age) now)

abbrev pub if_present : String → List String
if_present s = if s == "" then [] else s ∷ []

-- What the signature covers.
unfoldable pub signed_parts : Request → List String
signed_parts r =
    r.method
    ∷ r.path
    ∷ r.header "X-Timestamp"
    ∷ (if_present (r.header "X-User-ID")
        ++ (if_present (r.header "X-Session-ID") ++ if_present (r.header "X-User-Subscription")))

abbrev pub signed_text : Request → String
signed_text r = join "|" (signed_parts r)

abbrev pub roles_of : String → Option (List String)
roles_of roles = if roles == "" then none else some (split 44 roles)

abbrev pub context_of : Request → Context
context_of r = record {
  verified = true;
  user_id = some (r.header "X-User-ID");
  session_id = some (r.header "X-Session-ID");
  subscription = some (r.header "X-User-Subscription");
  roles = roles_of (r.header "X-User-Roles");
}

-- `hmac secret text` is the HMAC-SHA256 of the text in hexadecimal.
module _ (hmac : String → String → String) (secret : String) (now : ℕ) where
  -- Once the timestamp is read.
  unfoldable pub check_signature : Request → Option Seconds → Outcome
  check_signature r none = refused "Invalid timestamp"
  check_signature r (some t) =
      if is_too_old now t
      then refused "Request too old"
      else if r.header "X-Signature" == hmac secret (signed_text r)
      then passed (context_of r)
      else refused "Invalid signature"

  unfoldable pub middleware : Request → Outcome
  middleware r =
      if is_public_route r.path
      then passed empty_context
      else if r.header "X-Signature" == "" || r.header "X-Timestamp" == ""
      then refused "Signature required"
      else if r.header "X-Service-Name" == "gateway"
      then check_signature r (parse_int (r.header "X-Timestamp"))
      else refused "Invalid service source"
