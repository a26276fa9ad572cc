-- ===== src/Hyperbahn/RateLimiter/Counting.antt =====
-- What the calls that `rateLimit` makes do to a valid limiter.

use tchannel.Prelude.{
  ℕ, ◌+◌, ◌≡◌, refl, ◌∙◌, ◌⊎◌, inl, inr, String, true, false, some, arith, if◌then◌else◌, string_eq,
  nat_eq, Bool-cases, Option-cases,
}
use tchannel.Prelude.Dict
use tchannel.Prelude.Dict.{Dict, AllValues, AllValues-put, AllValues-remove, AllValues-get}
use tchannel.Hyperbahn.RateCounter
use tchannel.Hyperbahn.RateCounter.{RateCounter}
use tchannel.Hyperbahn.RateLimiter.{
  RateLimiter, limit_or, is_missing, is_exempt, create_service_counter, increment_service_counter,
  get_rps_limit_for_service,
}
use tchannel.Hyperbahn.RateLimiter.Valid.{Windowed, IsValid, new-Windowed, increment-Windowed}
use tchannel.Hyperbahn.RateLimiter.Admission.{prepare, service_rps}

-- a counter stored with the limit in force
put-IsValid :
    (name : String) (c : RateCounter) (l : RateLimiter)
    → IsValid l
    → Windowed l.num_of_buckets c
    → c.rps_limit
      ≡ limit_or l.default_service_rps_limit (Dict.get name l.rps_limit_for_service_name)
    → IsValid (record l { service_counters = Dict.put name c l.service_counters })
put-IsValid name c l (v, agree) w k = (
  record {
    buckets = v.buckets;
    cycle_pos = v.cycle_pos;
    cycle_le = v.cycle_le;
    total = v.total;
    total_limit = v.total_limit;
    services = AllValues-put _ name c l.service_counters w v.services;
    edges = v.edges;
  },
  λ j d h.
      ground (arith, agree j d, string_eq.beq_iff name j, Dict.get-put j name c l.service_counters),
)

-- A step that leaves what `rateLimit` reads as it was.
pub record Same (name : String) (l l' : RateLimiter) : Type 0 where
  pub total : l'.total_request_counter ≡ l.total_request_counter
  pub exempt : l'.exempt_services ≡ l.exempt_services
  pub limit : get_rps_limit_for_service l' name ≡ get_rps_limit_for_service l name
  pub rps : service_rps name l' ≡ service_rps name l

-- A service that the limiter may limit has a counter, with the limit in force.
abbrev pub HasCounter : String → RateLimiter → Type 0
HasCounter name l =
    (c : RateCounter) × (Dict.get name l.service_counters ≡ some c)
    × (c.rps_limit ≡ get_rps_limit_for_service l name)

service_rps-put :
    (name : String) (c : RateCounter) (l : RateLimiter)
    → service_rps name (record l { service_counters = Dict.put name c l.service_counters }) ≡ c.rps
service_rps-put name c l = rw (Dict.get-put_self name c l.service_counters, service_rps)

-- The three ways of createServiceCounter on a named service.
module _ (name : String) (l : RateLimiter) (named : is_missing name ≡ false) (v : IsValid l) where
  abbrev made : RateCounter
  made = RateCounter.new l.num_of_buckets (get_rps_limit_for_service l name)

  abbrev with_made : RateLimiter
  with_made = record l { service_counters = Dict.put name made l.service_counters }

  with_made-IsValid : IsValid with_made
  unfolding RateCounter.new get_rps_limit_for_service
  with_made-IsValid = put-IsValid name made l v (new-Windowed _ _ v.0.buckets) refl

  with_made-get : Dict.get name with_made.service_counters ≡ some made
  with_made-get = Dict.get-put_self name made l.service_counters

  pub prepare_lem :
      (l' : RateLimiter) × (prepare name l ≡ some l')
      × IsValid l'
      × Same name l l'
      × ((is_exempt l name ≡ true) ⊎ HasCounter name l')
  unfolding create_service_counter prepare get_rps_limit_for_service
  prepare_lem = elim (Bool-cases (is_exempt l name)) [
    | inl e ↦ (
      l,
      rw (named, e),
      v,
      record { total = refl; exempt = refl; limit = refl; rps = refl },
      inl e,
    )
    | inr e ↦ elim (Option-cases (Dict.get name l.service_counters)) [
      | inr (c, g) ↦ (
        l,
        rw (named, e, g),
        v,
        record { total = refl; exempt = refl; limit = refl; rps = refl },
        inr (c, g, v.1 name c g),
      )
      | inl g ↦ (
        with_made,
        rw (named, e, g),
        with_made-IsValid,
        record {
          total = refl;
          exempt = refl;
          limit = refl;
          rps =
              service_rps-put name made l ∙ (rw (g, service_rps) (unfold RateCounter.new in refl));
        },
        inr (made, with_made-get, with_made-IsValid.1 name made with_made-get),
      )
    ]
  ]

  -- one more request in the window, unless the service is exempt
  abbrev pub counted : ℕ
  counted = if is_exempt l name then service_rps name l else service_rps name l + 1

  made_once : (RateCounter.increment made).rps ≡ 0 + 1
  unfolding RateCounter.increment RateCounter.new
  made_once = refl

  pub increment_service_counter_lem :
      (l' : RateLimiter) × (increment_service_counter name l ≡ some l')
      × IsValid l'
      × (l'.total_request_counter ≡ l.total_request_counter)
      × (service_rps name l' ≡ counted)
  unfolding increment_service_counter create_service_counter get_rps_limit_for_service
      RateCounter.increment
  increment_service_counter_lem = elim (Bool-cases (is_exempt l name)) [
    | inl e ↦ (l, rw (named, e), v, refl, rw e)
    | inr e ↦ elim (Option-cases (Dict.get name l.service_counters)) [
      | inr (c, g) ↦ (
        record l { service_counters = Dict.put name (RateCounter.increment c) l.service_counters },
        rw (named, e, g),
        put-IsValid name (RateCounter.increment c) l v
            (increment-Windowed _ c (AllValues-get _ name c l.service_counters v.0.services g))
            (v.1 name c g),
        refl,
        service_rps-put name (RateCounter.increment c) l ∙ (rw (e, g, service_rps)),
      )
      | inl g ↦ (
        record with_made {
          service_counters = Dict.put name (RateCounter.increment made) with_made.service_counters;
        },
        rw (named, e, g),
        put-IsValid name (RateCounter.increment made) with_made with_made-IsValid
            (increment-Windowed _ made (new-Windowed _ _ v.0.buckets))
            (with_made-IsValid.1 name made with_made-get),
        refl,
        service_rps-put name (RateCounter.increment made) with_made
            ∙ (rw (e, g, service_rps) made_once),
      )
    ]
  ]
