-- ===== src/Resilience/Examples.antt =====
-- Runs of the middlewares around handlers that fail, and the theorems applied to them.
use tasks_service.Prelude.{ℕ, ◌+◌, ◌≡◌, ◌≤◌, refl, true, false, List, [], ◌∷◌, leb, if◌then◌else◌}
use tasks_service.Resilience.{
  Action, write_header, write, Guards, State, middleware, write_middleware, attempts, execute,
  record_actions,
}
use tasks_service.Resilience.Attempts.{IsShown, IsWrittenOnce, middleware_lem, write_middleware_lem}

-- A breaker that opens after the second failure; the limiter lets everything pass.
abbrev breaker : Guards ℕ
breaker = record {
  limiter = λ n. (true, n);
  admits = λ n. (if leb 2 n then false else true, n);
  hears = λ bad n. if bad then n + 1 else n;
}

-- A handler that counts its calls and fails.
abbrev failing : ℕ → List Action × ℕ
failing n = (write_header 500 ∷ write "oops" ∷ [], n + 1)

abbrev start : State ℕ ℕ
start = record { guards = 0; world = 0; calls = 0 }

-- Two calls, then the breaker is open.
two_calls : (middleware breaker failing start).1.calls ≡ 2
unfolding middleware attempts execute record_actions
two_calls = refl

one_reply : (write_middleware breaker failing start).0.body ≡ "oops"
unfolding write_middleware execute record_actions
one_reply = refl

middleware_lem_example :
    ((middleware breaker failing start).1.calls ≤ 0 + 3)
    × IsShown breaker failing (middleware breaker failing start).0
middleware_lem_example = middleware_lem breaker failing start

write_middleware_lem_example :
    IsWrittenOnce breaker failing start (write_middleware breaker failing start)
write_middleware_lem_example = write_middleware_lem breaker failing start
