-- ===== src/Resilience.antt =====
-- app/pkg/api/resilience/middleware.go: what it does around a handler.
pub mod Attempts
mod Examples
use tasks_service.Prelude.{
  ℕ, zero, suc, Bool, true, false, String, Option, none, some, List, [], ◌∷◌, leb, if◌then◌else◌,
}
use Prim.Native.String.{◌++◌}

pub record Response : Type 0 where
  pub status : ℕ
  pub headers : List (String × String)
  pub body : String

-- What a handler does to its ResponseWriter.
pub data Action : Type 0 where
  add_header : String → String → Action
  write_header : ℕ → Action
  write : String → Action

-- The responseRecorder: a later status replaces an earlier one.
abbrev pub record_action : Response → Action → Response
record_action r (add_header k v) = record r { headers = (k, v) ∷ r.headers }
record_action r (write_header code) = record r { status = code }
record_action r (write text) = record r { body = r.body ++ text }

unfoldable pub record_actions : Response → List Action → Response
record_actions r [] = r
record_actions r (a ∷ rest) = record_actions (record_action r a) rest

abbrev pub new_recorder : Response
new_recorder = record { status = 200; headers = []; body = "" }

-- http.Error, which ends the text with a newline.
abbrev pub http_error : String → ℕ → Response
http_error text code = record { status = code; headers = []; body = text ++ "\n" }

abbrev pub too_many : Response
too_many = http_error "{\"error\":\"too many requests\"}" 429

abbrev pub unavailable : Response
unavailable = http_error "{\"error\":\"service temporarily unavailable\"}" 503

abbrev pub max_retries : ℕ
max_retries = 3

-- The libraries: gobreaker runs the function that it is given or refuses (an open state, too many
-- requests), and hears whether the function returned an error; the limiter lets a request pass or
-- does not.
pub record Guards {ℓ} (G : Type ℓ) : Type ℓ where
  pub limiter : G → Bool × G
  pub admits : G → Bool × G
  pub hears : Bool → G → G

-- The libraries' state, what the handler acts on, and how often the handler was called.
pub record State {ℓ κ} (G : Type ℓ) (W : Type κ) : Type (ℓ ⊔ κ) where
  pub guards : G
  pub world : W
  pub calls : ℕ

-- What `breaker.Execute` comes to.
pub data Outcome : Type 0 where
  refused : Outcome
  failed succeeded : Response → Outcome

module _ {ℓ κ} {G : Type ℓ} {W : Type κ} (lib : Guards G) (handler : W → List Action × W) where
  -- The recorded call of the handler: a status of 500 or more is an error.
  abbrev pub call : State G W → Outcome × State G W
  call s =
      let (actions, w) = handler s.world in
      let rec = record_actions new_recorder actions in
      let bad = leb 500 rec.status in
      (
        if bad then failed rec else succeeded rec,
        record { guards = lib.hears bad s.guards; world = w; calls = suc s.calls },
      )

  abbrev pub call_if : State G W → Bool × G → Outcome × State G W
  call_if s (true, g) = call (record s { guards = g })
  call_if s (false, g) = (refused, record s { guards = g })

  unfoldable pub execute : State G W → Outcome × State G W
  execute s = call_if s (lib.admits s.guards)

  -- `if err == nil { … return }`
  abbrev pub or_again : Outcome × State G W → Response × State G W → Response × State G W
  or_again (succeeded r, t) again = (r, t)
  or_again (failed r, t) again = again
  or_again (refused, t) again = again

  -- The loop over the attempts, whose pauses are left out.
  unfoldable pub attempts : ℕ → State G W → Response × State G W
  attempts zero s = (unavailable, s)
  attempts (suc n) s = let done = execute s in or_again done (attempts n done.1)

  abbrev pub limit : (State G W → Response × State G W) → State G W → Response × State G W
  limit serve s =
      let (pass, g) = lib.limiter s.guards in
      if pass then serve (record s { guards = g }) else (too_many, record s { guards = g })

  unfoldable pub middleware : State G W → Response × State G W
  middleware = limit (attempts max_retries)

  abbrev pub write_reply : Outcome × State G W → Response × State G W
  write_reply (refused, s) = (unavailable, s)
  write_reply (failed r, s) = (r, s)
  write_reply (succeeded r, s) = (r, s)

  unfoldable pub write_middleware : State G W → Response × State G W
  write_middleware = limit (λ s. write_reply (execute s))
