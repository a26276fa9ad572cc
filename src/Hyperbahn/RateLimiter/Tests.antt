-- ===== src/Hyperbahn/RateLimiter/Tests.antt =====
-- Runs of a limiter, and the theorems at concrete limiters.
use tchannel.Prelude.{◌≡◌, refl, true, List, [], ◌∷◌, none, some, arith, string_eq, nat_eq}
use tchannel.Prelude.Dict
use tchannel.Hyperbahn.RateCounter
use tchannel.Hyperbahn.RateLimiter.{
  RateLimiter, Options, num, create, get_rps_limit_for_service, update_rps_limit_for_all_services,
  initial, create_service_counter, increment_edge_counter, should_rate_limit_total_request,
  should_rate_limit_service, increment_service_counter, increment_total_counter,
}
use tchannel.Hyperbahn.RateLimiter.Limits.{update_rps_limit_for_all_services_lem}
use tchannel.Hyperbahn.RateLimiter.Valid.{IsValid}
use tchannel.Hyperbahn.RateLimiter.Admission.{rate_limit, verdict, service_busy, prepare}
use tchannel.Hyperbahn.RateLimiter.Relay.{Answered}
use tchannel.Hyperbahn.RateLimiter.Answer.{rate_limit_lem}
use tchannel.Hyperbahn.RateLimiter.Calls.{
  Call, timer, request, set_limit, remove_counter, call, calls, initial-IsValid,
  created-calls-IsValid,
}

abbrev options : Options
options = record {
  num_of_buckets = 2;
  default_service_rps_limit = 1;
  total_rps_limit = none;
  rps_limit_for_service_name = ("bar", num 7) ∷ [];
  exempt_services = "free" ∷ [];
}

abbrev start : RateLimiter
start = initial options 2

start-IsValid : IsValid start
start-IsValid = initial-IsValid options 2 (omega arith)

-- Two requests are over the limit of one, so the third is refused.
abbrev burst : List Call
burst = request "me" "foo" true ∷ request "me" "foo" true ∷ []

burst_refused :
    elim (calls burst start) [ none ↦ none | some l ↦ some (verdict "foo" true l) ]
    ≡ some (service_busy 1)
unfolding calls call rate_limit prepare create_service_counter verdict initial
    increment_edge_counter should_rate_limit_total_request should_rate_limit_service
    increment_service_counter increment_total_counter RateCounter.new RateCounter.increment
    RateCounter.write Dict.get Dict.put
burst_refused = refl

rate_limit_example : Answered "me" "foo" true start
rate_limit_example = rate_limit_lem "me" "foo" true start (λ _. refl) start-IsValid

update_rps_limit_for_all_services_example :
    get_rps_limit_for_service (update_rps_limit_for_all_services (("foo", num 3) ∷ []) start) "bar"
    ≡ 1
unfolding initial Dict.get
update_rps_limit_for_all_services_example =
    update_rps_limit_for_all_services_lem (("foo", num 3) ∷ []) start "bar"

abbrev session : List Call
session =
    request "me" "foo" true
    ∷ timer
    ∷ set_limit "foo" (num 3)
    ∷ request "me" "free" true
    ∷ remove_counter "foo"
    ∷ []

created-calls-IsValid_example :
    (l₀ : RateLimiter) × (l : RateLimiter) × (create options ≡ some l₀)
    × (calls session l₀ ≡ some l)
    × IsValid l
created-calls-IsValid_example =
    created-calls-IsValid options session (omega arith)
      ((λ _. refl), (tt, (tt, ((λ _. refl), (tt, tt)))))
