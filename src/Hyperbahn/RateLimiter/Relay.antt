-- ===== src/Hyperbahn/RateLimiter/Relay.antt =====
-- What counting a request keeps of the limiter, and `rateLimit` away from the service's exit.

use tchannel.Prelude.{
  ◌+◌, ◌≡◌, refl, inl, inr, String, Bool, true, false, not, ◌&&◌, List, [], ◌∷◌, Option, none, some,
  arith, ltb, if◌then◌else◌, string_eq, nat_eq, Bool-cases,
}
use tchannel.Prelude.Dict
use tchannel.Prelude.Dict.{Dict, AllValues, AllValues-put, AllValues-remove, AllValues-get}
use tchannel.Hyperbahn.RateCounter
use tchannel.Hyperbahn.RateCounter.{RateCounter}
use tchannel.Hyperbahn.RateLimiter.{
  Stat, total_busy, get_rps_limit_for_service, emit, should_rate_limit_total_request, RateLimiter,
  is_exempt, should_rate_limit_total_request, emit, edge_or_new, increment_edge_counter,
  increment_total_counter, get_rps_limit_for_service,
}
use tchannel.Hyperbahn.RateLimiter.Valid.{Windowed, IsValid, new-Windowed, increment-Windowed}
use tchannel.Hyperbahn.RateLimiter.Admission.{
  Verdict, admitted, edge_name, rate_limit, service_rps, counts, verdict,
}

pub edge-IsValid :
    (name : String) (l : RateLimiter) → IsValid l → IsValid (increment_edge_counter name l)
unfolding increment_edge_counter
edge-IsValid name l (v, agree) = (
  record {
    buckets = v.buckets;
    cycle_pos = v.cycle_pos;
    cycle_le = v.cycle_le;
    total = v.total;
    total_limit = v.total_limit;
    services = v.services;
    edges =
        AllValues-put _ name _ l.edge_counters (increment-Windowed l.num_of_buckets _ (old _ refl))
          v.edges;
  },
  agree,
)
  where
    old :
        (o : Option RateCounter)
        → Dict.get name l.edge_counters ≡ o
        → Windowed l.num_of_buckets (edge_or_new l o)
    old (some c) e = AllValues-get _ name c l.edge_counters v.edges e
    old none e = new-Windowed l.num_of_buckets 0 v.buckets

pub total-IsValid :
    (name : String) (l : RateLimiter) → IsValid l → IsValid (increment_total_counter name l)
unfolding increment_total_counter RateCounter.increment
total-IsValid name l (v, agree) = elim (Bool-cases (counts name l)) [
  | inr e ↦ rw e (v, agree)
  | inl e ↦ rw e (
    record {
      buckets = v.buckets;
      cycle_pos = v.cycle_pos;
      cycle_le = v.cycle_le;
      total = increment-Windowed l.num_of_buckets _ v.total;
      total_limit = v.total_limit;
      services = v.services;
      edges = v.edges;
    },
    agree,
  )
]

module _ (name : String) (l : RateLimiter) where
  pub total_rps-increment :
      (increment_total_counter name l).total_request_counter.rps
      ≡ (if counts name l then l.total_request_counter.rps + 1 else l.total_request_counter.rps)
  unfolding increment_total_counter RateCounter.increment
  total_rps-increment = ground arith

  pub increment_total-rest :
      ((increment_total_counter name l).exempt_services ≡ l.exempt_services)
      × ((increment_total_counter name l).service_counters ≡ l.service_counters)
  unfolding increment_total_counter
  increment_total-rest = ground arith

abbrev pub is_admitted : Verdict → Bool
is_admitted admitted = true
is_admitted _ = false

-- What `rateLimit` does to a limiter `l`: it answers `verdict`, and counts what it lets pass.
pub record Answered (caller name : String) (is_exit : Bool) (l : RateLimiter) : Type 0 where
  pub after : RateLimiter
  pub answer : rate_limit caller name is_exit l ≡ some (after, verdict name is_exit l)
  pub valid : IsValid after
  pub total_count : after.total_request_counter.rps ≡ (
      if is_admitted (verdict name is_exit l) && counts name l
      then l.total_request_counter.rps + 1
      else l.total_request_counter.rps)
  pub service_count : service_rps name after ≡ (
      if is_admitted (verdict name is_exit l) && (is_exit && not (is_exempt l name))
      then service_rps name l + 1
      else service_rps name l)

module _ (name : String) (is_exit : Bool) (l : RateLimiter) where
  -- the first test of `verdict`
  abbrev pub node_full : Bool
  node_full = counts name l && ltb l.total_request_counter.rps_limit l.total_request_counter.rps

  abbrev pub service_full : Bool
  service_full =
      is_exit
      && (not (is_exempt l name) && ltb (get_rps_limit_for_service l name) (service_rps name l))

-- an emitted stat changes nothing that is read
pub emit-IsValid : (stats : List Stat) (l : RateLimiter) → IsValid l → IsValid (emit stats l)
unfolding emit
emit-IsValid stats l (v, agree) = (
  record {
    buckets = v.buckets;
    cycle_pos = v.cycle_pos;
    cycle_le = v.cycle_le;
    total = v.total;
    total_limit = v.total_limit;
    services = v.services;
    edges = v.edges;
  },
  agree,
)

pub Answered-relay :
    (caller name : String) (l : RateLimiter) → IsValid l → Answered caller name false l
unfolding rate_limit verdict should_rate_limit_total_request
Answered-relay caller name l v =
    let l₂ = increment_edge_counter (edge_name caller name) l in
    let v₂ = edge-IsValid (edge_name caller name) l v in
    elim (Bool-cases (node_full name false l)) [
      | inl e ↦ record {
        after = emit (total_busy name ∷ []) l₂;
        answer = unfold increment_edge_counter in rw e;
        valid = emit-IsValid _ l₂ v₂;
        total_count = unfold increment_edge_counter in rw e;
        service_count = unfold increment_edge_counter in rw e;
      }
      | inr e ↦ record {
        after = increment_total_counter name l₂;
        answer = unfold increment_edge_counter in rw e;
        valid = total-IsValid name l₂ v₂;
        total_count =
            unfold increment_edge_counter increment_total_counter RateCounter.increment in
            ground (arith, e);
        service_count = unfold increment_edge_counter increment_total_counter in ground (arith, e);
      }
    ]
