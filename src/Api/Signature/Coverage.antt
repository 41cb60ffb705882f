-- ===== src/Api/Signature/Coverage.antt =====
-- What app/pkg/api/signature/middleware.go protects: which headers the signature covers.
use tasks_service.Prelude.{
  ℕ, ◌≡◌, refl, sym, ap, ◌∙◌, false, ◌==◌, String, Option, none, some, List, [], ◌∷◌, All, arith,
  eq_iff, split, Lacks, split-join, if◌then◌else◌,
}
use tasks_service.Api.Signature.{
  Request, Context, Outcome, refused, passed, Seconds, is_public_route, parse_int, is_too_old,
  signed_parts, signed_text, roles_of, context_of, check_signature, middleware,
}

abbrev pub with_header : String → String → Request → Request
with_header name value r = record r { header = λ k. if k == name then value else r.header k }

abbrev pub with_roles : Option (List String) → Outcome → Outcome
with_roles roles (refused text) = refused text
with_roles roles (passed c) = passed (record c { roles = roles })

abbrev pub as_user : String → Outcome → Outcome
as_user user (refused text) = refused text
as_user user (passed c) = passed (record c { user_id = some user; session_id = some "" })

-- The session moved to the header of the user.
abbrev pub session_moved : Request → Request
session_moved r =
    with_header "X-User-ID" (r.header "X-Session-ID") (with_header "X-Session-ID" "" r)

-- The optional headers are there, and no part has a "|".
abbrev pub IsPlain : Request → Type 0
IsPlain r =
    All (Lacks 124) (
      r.method
      ∷ r.path
      ∷ r.header "X-Timestamp"
      ∷ r.header "X-User-ID"
      ∷ r.header "X-Session-ID"
      ∷ r.header "X-User-Subscription"
      ∷ [])
    × ((r.header "X-User-ID" == "") ≡ false)
    × ((r.header "X-Session-ID" == "") ≡ false)
    × ((r.header "X-User-Subscription" == "") ≡ false)

-- The request passed the checks of its source, its age and its signature, with its headers.
abbrev pub IsAuthentic : (String → String → String) → String → ℕ → Request → Context → Type 0
IsAuthentic hmac secret now r c =
    (t : Seconds) × (parse_int (r.header "X-Timestamp") ≡ some t)
    × (is_too_old now t ≡ false)
    × (r.header "X-Service-Name" ≡ "gateway")
    × (r.header "X-Signature" ≡ hmac secret (signed_text r))
    × (c ≡ context_of r)

parts_plain :
    (r : Request)
    → IsPlain r
    → signed_parts r
      ≡ r.method
        ∷ r.path
        ∷ r.header "X-Timestamp"
        ∷ r.header "X-User-ID"
        ∷ r.header "X-Session-ID"
        ∷ r.header "X-User-Subscription"
        ∷ []
unfolding signed_parts
parts_plain r (plain, u, s, b) = rw (u, s, b)

split-signed_text :
    (r : Request)
    → IsPlain r
    → split 124 (signed_text r)
      ≡ r.method
        ∷ r.path
        ∷ r.header "X-Timestamp"
        ∷ r.header "X-User-ID"
        ∷ r.header "X-Session-ID"
        ∷ r.header "X-User-Subscription"
        ∷ []
split-signed_text r h = rw (parts_plain r h) (split-join "|" r.method _ h.0)

-- Two requests whose optional headers are all there, and none of whose parts has a "|", have the
-- same signed text only if they agree in the method, the path, the time, the user, the session and
-- the subscription.
pub signed_text-injective :
    (r q : Request)
    → IsPlain r
    → IsPlain q
    → signed_text r ≡ signed_text q
    → (r.method ≡ q.method)
      × (r.path ≡ q.path)
      × (r.header "X-Timestamp" ≡ q.header "X-Timestamp")
      × (r.header "X-User-ID" ≡ q.header "X-User-ID")
      × (r.header "X-Session-ID" ≡ q.header "X-Session-ID")
      × (r.header "X-User-Subscription" ≡ q.header "X-User-Subscription")
signed_text-injective r q hr hq e =
    let same = sym (split-signed_text r hr) ∙ ap (split 124) e ∙ split-signed_text q hq in
    ground arith

module _ (hmac : String → String → String) (secret : String) (now : ℕ) where
  authentic :
      (r : Request) (t : Option Seconds) (c : Context)
      → parse_int (r.header "X-Timestamp") ≡ t
      → r.header "X-Service-Name" ≡ "gateway"
      → check_signature hmac secret now r t ≡ passed c
      → IsAuthentic hmac secret now r c
  unfolding check_signature
  authentic r none c e g h = cc
  authentic r (some t) c e g h = (
    t,
    e,
    ground (arith, eq_iff (r.header "X-Signature") (hmac secret (signed_text r))),
    g,
    ground (arith, eq_iff (r.header "X-Signature") (hmac secret (signed_text r))),
    ground (arith, eq_iff (r.header "X-Signature") (hmac secret (signed_text r))),
  )

  -- A request to a path that is not public reaches its handler only with a timestamp that is not
  -- too old, as from the gateway, and with the signature of its signed text under the secret; its
  -- handler then sees the user, the session, the subscription and the roles of its headers.
  pub middleware-IsAuthentic :
      (r : Request) (c : Context)
      → is_public_route r.path ≡ false
      → middleware hmac secret now r ≡ passed c
      → IsAuthentic hmac secret now r c
  unfolding middleware
  middleware-IsAuthentic r c private h =
      authentic r (parse_int (r.header "X-Timestamp")) c refl
        (ground (arith, eq_iff (r.header "X-Service-Name") "gateway")) (ground arith)

  check_other_roles :
      (r : Request) (roles : String) (t : Option Seconds)
      → check_signature hmac secret now (with_header "X-User-Roles" roles r) t
        ≡ with_roles (roles_of roles) (check_signature hmac secret now r t)
  unfolding check_signature signed_parts
  check_other_roles r roles none = refl
  check_other_roles r roles (some t) = ground arith

  -- The roles are not signed: with any other list of roles a request to a path that is not public
  -- meets the same fate, and its handler sees that list.
  pub roles_unsigned :
      (r : Request) (roles : String)
      → is_public_route r.path ≡ false
      → middleware hmac secret now (with_header "X-User-Roles" roles r)
        ≡ with_roles (roles_of roles) (middleware hmac secret now r)
  unfolding middleware
  roles_unsigned r roles private =
      rw private (ground (arith, check_other_roles r roles (parse_int (r.header "X-Timestamp"))))

  check_moved :
      (r : Request) (t : Option Seconds)
      → r.header "X-User-ID" ≡ ""
      → check_signature hmac secret now (session_moved r) t
        ≡ as_user (r.header "X-Session-ID") (check_signature hmac secret now r t)
  unfolding check_signature signed_parts
  check_moved r none e = refl
  check_moved r (some t) e = rw e (ground arith)

  -- The signature of a request without a user, to a path that is not public, is also that of the
  -- request in which the session's id is the user's: it meets the same fate, and its handler takes
  -- the one for the other.
  pub session_as_user :
      (r : Request)
      → is_public_route r.path ≡ false
      → r.header "X-User-ID" ≡ ""
      → middleware hmac secret now (session_moved r)
        ≡ as_user (r.header "X-Session-ID") (middleware hmac secret now r)
  unfolding middleware
  session_as_user r private nobody =
      rw private (ground (arith, check_moved r (parse_int (r.header "X-Timestamp")) nobody))
