-- ===== src/Api/Examples.antt =====
-- Runs of the middlewares of app/pkg/api at concrete requests, and the theorems applied to them.
use tasks_service.Prelude.{
  ◌≡◌, refl, String, some, [], ◌∷◌, ◌<>◌, ◌==◌, any, join, split, lacks, if◌then◌else◌,
}
use tasks_service.Api.Signature.{
  Request, is_public_route, signed_parts, context_of, roles_of, middleware, check_signature,
  parse_int, within, digits, is_too_old,
}
use tasks_service.Api.Signature.Coverage.{
  with_header, with_roles, as_user, session_moved, IsPlain, IsAuthentic, signed_text-injective,
  middleware-IsAuthentic, roles_unsigned, session_as_user,
}
use tasks_service.Api.Sort.{sort_options, query_get, to_upper, letter_at}

-- A signature that can be followed: the secret before the text.
abbrev stamp : String → String → String
stamp secret text = secret <> text

abbrev headers : String → String → String → String → String
headers user session signature name =
    if name == "X-User-ID"
    then user
    else if name == "X-Session-ID"
    then session
    else if name == "X-User-Subscription"
    then "pro"
    else if name == "X-Timestamp"
    then "1000"
    else if name == "X-Service-Name"
    then "gateway"
    else if name == "X-Signature"
    then signature
    else ""

abbrev request : String → String → String → Request
request user session signature = record {
  method = "GET";
  path = "/tasks";
  header = headers user session signature;
}

abbrev full : Request
full = request "u1" "s1" "kGET|/tasks|1000|u1|s1|pro"

abbrev by_session : Request
by_session = request "" "s1" "kGET|/tasks|1000|s1|pro"

abbrev full_as_admin : Request
full_as_admin = with_header "X-User-Roles" "admin" full

full-IsPlain : IsPlain full
unfolding lacks
full-IsPlain = ((refl, (refl, (refl, (refl, (refl, (refl, tt)))))), refl, refl, refl)

signed_text-injective_example :
    (full.method ≡ full_as_admin.method)
    × (full.path ≡ full_as_admin.path)
    × (full.header "X-Timestamp" ≡ full_as_admin.header "X-Timestamp")
    × (full.header "X-User-ID" ≡ full_as_admin.header "X-User-ID")
    × (full.header "X-Session-ID" ≡ full_as_admin.header "X-Session-ID")
    × (full.header "X-User-Subscription" ≡ full_as_admin.header "X-User-Subscription")
unfolding signed_parts
signed_text-injective_example =
    signed_text-injective full full_as_admin full-IsPlain full-IsPlain refl

middleware-IsAuthentic_example : IsAuthentic stamp "k" 1200000000000 full (context_of full)
unfolding middleware check_signature parse_int within digits is_too_old signed_parts join split
    is_public_route any
middleware-IsAuthentic_example =
    middleware-IsAuthentic stamp "k" 1200000000000 full (context_of full) refl refl

roles_unsigned_example :
    middleware stamp "k" 1200000000000 (with_header "X-User-Roles" "admin" full)
    ≡ with_roles (roles_of "admin") (middleware stamp "k" 1200000000000 full)
unfolding is_public_route any
roles_unsigned_example = roles_unsigned stamp "k" 1200000000000 full "admin" refl

session_as_user_example :
    middleware stamp "k" 1200000000000 (session_moved by_session)
    ≡ as_user "s1" (middleware stamp "k" 1200000000000 by_session)
unfolding is_public_route any
session_as_user_example = session_as_user stamp "k" 1200000000000 by_session refl refl

sort_by_title :
    sort_options "created_at" "ASC" (("sort_order", "desc" ∷ []) ∷ ("sort_by", "title" ∷ []) ∷ [])
    ≡ some (record { fields = "title"; order = "DESC" })
unfolding sort_options query_get to_upper letter_at
sort_by_title = refl
