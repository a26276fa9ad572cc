-- ===== src/Hyperbahn/RateLimiter/Answer.antt =====
-- `rateLimit` answers as the limits say, and counts exactly the requests that it lets pass.

use tchannel.Prelude.{
  ◌≡◌, refl, ap, ◌∙◌, inl, inr, String, Bool, true, false, List, [], ◌∷◌, some, arith, ltb,
  if◌then◌else◌, contains, string_eq, nat_eq, Bool-cases,
}
use tchannel.Prelude.Dict
use tchannel.Prelude.Dict.{Dict, AllValues, AllValues-put, AllValues-remove, AllValues-get}
use tchannel.Hyperbahn.RateCounter.{RateCounter}
use tchannel.Hyperbahn.RateLimiter.{
  total_busy, service_busy as busy_stat, get_rps_limit_for_service, emit,
  should_rate_limit_total_request, should_rate_limit_service, RateLimiter, is_missing, is_exempt,
  should_rate_limit_service, should_rate_limit_total_request, emit, increment_edge_counter,
  increment_total_counter, get_rps_limit_for_service,
}
use tchannel.Hyperbahn.RateLimiter.Valid.{IsValid}
use tchannel.Hyperbahn.RateLimiter.Admission.{
  Verdict, admitted, service_busy, edge_name, prepare, rate_limit, verdict,
}
use tchannel.Hyperbahn.RateLimiter.Counting.{Same, prepare_lem, increment_service_counter_lem}
use tchannel.Hyperbahn.RateLimiter.Relay.{
  edge-IsValid, total-IsValid, total_rps-increment, increment_total-rest, Answered, node_full,
  service_full, emit-IsValid, Answered-relay,
}

verdict-Same :
    (name : String) (is_exit : Bool) (l l' : RateLimiter)
    → Same name l l'
    → verdict name is_exit l' ≡ verdict name is_exit l
unfolding verdict
verdict-Same name is_exit l l' s = rw (s.limit, s.rps, s.total, s.exempt)

edge-Same : (edge name : String) (l : RateLimiter) → Same name l (increment_edge_counter edge l)
unfolding increment_edge_counter get_rps_limit_for_service
edge-Same edge name l = record { total = refl; exempt = refl; limit = refl; rps = refl }

Same-trans :
    (name : String) (l l₁ l₂ : RateLimiter) → Same name l l₁ → Same name l₁ l₂ → Same name l l₂
Same-trans name l l₁ l₂ s t = record {
  total = t.total ∙ s.total;
  exempt = t.exempt ∙ s.exempt;
  limit = t.limit ∙ s.limit;
  rps = t.rps ∙ s.rps;
}

-- What `rateLimit` does at an exit once the service has its counter.
module _ (caller name : String) (l l₂ : RateLimiter) (named : is_missing name ≡ false)
    (made : prepare name (increment_edge_counter (edge_name caller name) l) ≡ some l₂)
    (v₂ : IsValid l₂) (same : Same name l l₂) where
  same_verdict : verdict name true l₂ ≡ verdict name true l
  same_verdict = verdict-Same name true l l₂ same

  busy_node : node_full name true l₂ ≡ true → Answered caller name true l
  unfolding rate_limit verdict should_rate_limit_total_request
  busy_node e = record {
    after = emit (total_busy name ∷ []) l₂;
    answer = rw (← same_verdict) (rw (made, e));
    valid = emit-IsValid _ l₂ v₂;
    total_count = rw (← same_verdict) (rw e (ap (λ (c : RateCounter). c.rps) same.total));
    service_count = rw (← same_verdict) (rw e same.rps);
  }

  -- the answer where no limit of the node is reached
  served : Bool → Verdict
  served limited = if limited then service_busy (get_rps_limit_for_service l₂ name) else admitted

  service_answer :
      (limited : Bool)
      → node_full name true l₂ ≡ false
      → service_full name true l₂ ≡ limited
      → verdict name true l ≡ served limited
  unfolding verdict served
  service_answer limited e x = rw (← same_verdict) (rw (e, x))

  busy_service :
      (c : RateCounter)
      → node_full name true l₂ ≡ false
      → is_exempt l₂ name ≡ false
      → Dict.get name l₂.service_counters ≡ some c
      → c.rps_limit ≡ get_rps_limit_for_service l₂ name
      → ltb c.rps_limit c.rps ≡ true
      → Answered caller name true l
  unfolding rate_limit served should_rate_limit_total_request should_rate_limit_service
  busy_service c e x g k t =
      let full : service_full name true l₂ ≡ true = ground (arith, x, g, k, t) in
      let answer = service_answer true e full in
      record {
        after = emit (busy_stat name ∷ []) l₂;
        answer = rw answer (rw (made, e, x, g, t) (unfold get_rps_limit_for_service in refl));
        valid = emit-IsValid _ l₂ v₂;
        total_count = rw answer (ap (λ (c : RateCounter). c.rps) same.total);
        service_count = rw answer same.rps;
      }

  -- A request that passes is counted.
  pass :
      node_full name true l₂ ≡ false
      → service_full name true l₂ ≡ false
      → should_rate_limit_service name l₂ ≡ some (l₂, false)
      → Answered caller name true l
  unfolding rate_limit served should_rate_limit_total_request
  pass e x s =
      let counted = increment_total_counter name l₂ in
      let (l₆, p, v₆, t, r) =
        increment_service_counter_lem name counted named (total-IsValid name l₂ v₂) in
      let answer = service_answer false e x in
      record {
        after = l₆;
        answer = rw answer (rw (made, e, s, p));
        valid = v₆;
        total_count = rw answer (
            ap (λ (c : RateCounter). c.rps) t
            ∙ total_rps-increment name l₂
            ∙ (rw (same.total, same.exempt)));
        service_count =
            rw answer (ground (arith, r, increment_total-rest name l₂, same.exempt, same.rps));
      }

Answered-exit :
    (caller name : String) (l : RateLimiter)
    → is_missing name ≡ false
    → IsValid l
    → Answered caller name true l
unfolding should_rate_limit_service
Answered-exit caller name l named v =
    let l₁ = increment_edge_counter (edge_name caller name) l in
    let (l₂, made, v₂, same₂, counter) = prepare_lem name l₁ named (edge-IsValid _ l v) in
    let same = Same-trans name l l₁ l₂ (edge-Same (edge_name caller name) name l) same₂ in
    let passes = pass caller name l l₂ named made v₂ same in
    elim (Bool-cases (node_full name true l₂)) [
      | inl e ↦ busy_node caller name l l₂ named made v₂ same e
      | inr e ↦ elim (Bool-cases (is_exempt l₂ name)) [
        | inl x ↦ passes e (rw x) (rw x)
        | inr x ↦ elim counter [
          | inl y ↦
              absurd (
                ground
                  (arith, x, y, ap (λ (names : List String). contains names name) same₂.exempt))
          | inr (c, g, k) ↦ elim (Bool-cases (ltb c.rps_limit c.rps)) [
            | inl t ↦ busy_service caller name l l₂ named made v₂ same c e x g k t
            | inr t ↦ passes e (ground (arith, x, g, k, t)) (rw (x, g, t))
          ]
        ]
      ]
    ]

-- On a valid limiter `rateLimit` fails no assert, where the service is named if the node is its
-- exit. Its answer is `verdict`: Busy for the node if the request counts towards the total (no
-- name, or not exempt) and the total of the window is over its limit; else Busy for the service
-- at an exit if it is not exempt and over its limit; else the request passes. The limiter stays
-- valid; a request that passes is counted in the total (if it counts) and, at an exit, for its
-- service (if that is not exempt), and one that is refused in neither.
pub rate_limit_lem :
    (caller name : String) (is_exit : Bool) (l : RateLimiter)
    → (is_exit ≡ true → is_missing name ≡ false)
    → IsValid l
    → Answered caller name is_exit l
rate_limit_lem caller name false l named v = Answered-relay caller name l v
rate_limit_lem caller name true l named v = Answered-exit caller name l (named refl) v
