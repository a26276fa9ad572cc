-- ===== src/Hyperbahn/RateLimiter/Admission.antt =====
-- The counting part of the limiter: createServiceCounter, the increments, and `rateLimit` of
-- hyperbahn/service-proxy.js, which decides whether a request passes.
use Prim.Native.String.{◌++◌ as ◌++s◌}
use mathlib.Core.Option
use tchannel.Prelude.{
  ℕ, String, Bool, true, false, not, ◌&&◌, ◌||◌, Option, none, some, ltb, if◌then◌else◌, string_eq,
  nat_eq,
}
use tchannel.Prelude.Dict
use tchannel.Prelude.Dict.{Dict, AllValues, AllValues-put, AllValues-remove, AllValues-get}
use tchannel.Hyperbahn.RateLimiter.{
  RateLimiter, is_missing, is_exempt, should_rate_limit_service, should_rate_limit_total_request,
  create_service_counter, increment_service_counter, increment_edge_counter,
  increment_total_counter, get_rps_limit_for_service, ◌>>=◌,
}

-- What `rateLimit` answers: the request passes, or it gets a Busy error that names a limit.
pub data Verdict : Type 0 where
  admitted : Verdict
  node_busy service_busy : ℕ → Verdict

-- where the node is an exit for the service
unfoldable pub if_exit :
    Bool → (RateLimiter → Option RateLimiter) → RateLimiter → Option RateLimiter
if_exit true f l = f l
if_exit false f l = some l

abbrev pub edge_name : String → String → String
edge_name caller name = caller ++s ("~~" ++s name)

-- the counter made before the limits are read
unfoldable pub prepare : String → RateLimiter → Option RateLimiter
prepare name l = Option.map (λ r. r.0) (create_service_counter name l)

-- `caller` is the `cn` header, `is_exit` the answer of isExitFor(serviceName).
unfoldable pub rate_limit : String → String → Bool → RateLimiter → Option (RateLimiter × Verdict)
unfolding if_exit
rate_limit caller name is_exit l = do
  l₂ ← if_exit is_exit (prepare name) (increment_edge_counter (edge_name caller name) l)
  let (l₃, busy) = should_rate_limit_total_request name l₂
  if busy then some (l₃, node_busy l₃.total_request_counter.rps_limit) else do
    (l₄, limited) ← if is_exit then should_rate_limit_service name l₃ else some (l₃, false)
    if limited then some (l₄, service_busy (get_rps_limit_for_service l₄ name)) else do
      l₆ ← if_exit is_exit (increment_service_counter name) (increment_total_counter name l₄)
      some (l₆, admitted)

-- the requests of the window that are counted for a service
abbrev pub service_rps : String → RateLimiter → ℕ
service_rps name l = elim (Dict.get name l.service_counters) [ none ↦ 0 | some c ↦ c.rps ]

-- the requests of a service count towards the node's total
abbrev pub counts : String → RateLimiter → Bool
counts name l = is_missing name || not (is_exempt l name)

-- The answer read off the limiter before the request: first the node's limit, then the service's.
unfoldable pub verdict : String → Bool → RateLimiter → Verdict
verdict name is_exit l =
    if counts name l && ltb l.total_request_counter.rps_limit l.total_request_counter.rps
    then node_busy l.total_request_counter.rps_limit
    else if is_exit
        && (not (is_exempt l name) && ltb (get_rps_limit_for_service l name) (service_rps name l))
    then service_busy (get_rps_limit_for_service l name)
    else admitted
