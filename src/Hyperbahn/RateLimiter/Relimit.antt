-- ===== src/Hyperbahn/RateLimiter/Relimit.antt =====
-- The calls that change limits keep the limiter valid.
use tchannel.Prelude.{
  ℕ, ◌≡◌, ◌⊎◌, ◌≢◌, String, List, [], ◌∷◌, some, arith, inl, inr, string_eq, Bool-cases,
  Option-cases,
}
use tchannel.Prelude.Dict
use tchannel.Prelude.Dict.{Dict, AllValues, AllValues-put, AllValues-remove, AllValues-get}
use tchannel.Hyperbahn.RateCounter.{RateCounter}
use tchannel.Hyperbahn.RateLimiter.{
  RateLimiter, Limit, num, default, limit_or, update_service_limit, set_counter_limit, each,
  update_known, update_new, is_number, update_rps_limit_for_all_services,
}
use tchannel.Hyperbahn.RateLimiter.Valid.{
  Windowed, LimitsAgree, HasWindows, IsValid, relimit-Windowed,
}

-- a counter whose limit was set, and every other one
set_counter_limit-cases :
    (name : String) (n : ℕ) (l : RateLimiter) (j : String) (c : RateCounter)
    → Dict.get j (set_counter_limit name n l).service_counters ≡ some c
    → ((name ≡ j) × (c.rps_limit ≡ n)) ⊎ ((name ≢ j) × (Dict.get j l.service_counters ≡ some c))
unfolding set_counter_limit
set_counter_limit-cases name n l j c h = elim (Option-cases (Dict.get name l.service_counters)) [
  | inl e ↦
      let old : Dict.get j l.service_counters ≡ some c = rw (e, set_counter_limit) at h in
      inr (λ same. ground (arith, same, e, old), old)
  | inr (b, e) ↦ ground (
    arith,
    e,
    h,
    string_eq.beq_iff name j,
    Dict.get-put j name (record b { rps_limit = n }) l.service_counters,
  )
]

-- the limits agree but perhaps for one service
abbrev AgreeBut : String → RateLimiter → Type 0
AgreeBut name l =
    (j : String) (c : RateCounter)
    → name ≢ j
    → Dict.get j l.service_counters ≡ some c
    → c.rps_limit ≡ limit_or l.default_service_rps_limit (Dict.get j l.rps_limit_for_service_name)

update_service_limit-limits :
    (name : String) (limit : Limit) (l : RateLimiter)
    → AgreeBut name l
    → LimitsAgree (update_service_limit name limit l)
unfolding update_service_limit
update_service_limit-limits name default l agree j c h = ground (
  arith,
  set_counter_limit-cases name l.default_service_rps_limit
      (record l { rps_limit_for_service_name = Dict.remove name l.rps_limit_for_service_name }) j c
      h,
  agree j c,
  string_eq.beq_iff name j,
  Dict.get-remove j name l.rps_limit_for_service_name,
)
update_service_limit-limits name (num n) l agree j c h = ground (
  arith,
  set_counter_limit-cases name n
      (record l { rps_limit_for_service_name = Dict.put name (num n) l.rps_limit_for_service_name })
      j c h,
  agree j c,
  string_eq.beq_iff name j,
  Dict.get-put j name (num n) l.rps_limit_for_service_name,
)

set_counter_limit-HasWindows :
    (name : String) (n : ℕ) (l : RateLimiter)
    → HasWindows l
    → HasWindows (set_counter_limit name n l)
unfolding set_counter_limit
set_counter_limit-HasWindows name n l v = elim (Option-cases (Dict.get name l.service_counters)) [
  | inl e ↦ rw (e, set_counter_limit) v
  | inr (c, e) ↦
      let P = Windowed l.num_of_buckets in
      let old = AllValues-get P name c l.service_counters v.services e in
      rw (e, set_counter_limit)
        (record {
          buckets = v.buckets;
          cycle_pos = v.cycle_pos;
          cycle_le = v.cycle_le;
          total = v.total;
          total_limit = v.total_limit;
          services =
              AllValues-put P name _ l.service_counters (relimit-Windowed _ n c old) v.services;
          edges = v.edges;
        })
]

-- Only the counters, the cycle and the total limit matter.
store-HasWindows :
    (m : Dict String Limit) (l : RateLimiter)
    → HasWindows l
    → HasWindows (record l { rps_limit_for_service_name = m })
store-HasWindows m l v = record {
  buckets = v.buckets;
  cycle_pos = v.cycle_pos;
  cycle_le = v.cycle_le;
  total = v.total;
  total_limit = v.total_limit;
  services = v.services;
  edges = v.edges;
}

update_service_limit-HasWindows :
    (name : String) (limit : Limit) (l : RateLimiter)
    → HasWindows l
    → HasWindows (update_service_limit name limit l)
unfolding update_service_limit
update_service_limit-HasWindows name default l v =
    set_counter_limit-HasWindows name _ _ (store-HasWindows _ l v)
update_service_limit-HasWindows name (num n) l v =
    set_counter_limit-HasWindows name _ _ (store-HasWindows _ l v)

pub update_service_limit-IsValid :
    (name : String) (limit : Limit) (l : RateLimiter)
    → IsValid l
    → IsValid (update_service_limit name limit l)
update_service_limit-IsValid name limit l (v, agree) = (
  update_service_limit-HasWindows name limit l v,
  update_service_limit-limits name limit l (λ j c _ h. agree j c h),
)

update_known-IsValid :
    (limits : Dict String Limit) (name : String) (l : RateLimiter)
    → IsValid l
    → IsValid (update_known limits name l)
unfolding update_known
update_known-IsValid limits name l (v, agree) =
    elim (Bool-cases (is_number (Dict.get name limits))) [
      | inl e ↦ rw e (update_service_limit-IsValid name _ l (v, agree))
      | inr e ↦ rw e (
        update_service_limit-HasWindows name default _ (store-HasWindows _ l v),
        update_service_limit-limits name default _ (λ j c d h. ground (
          arith,
          agree j c,
          string_eq.beq_iff name j,
          Dict.get-remove j name l.rps_limit_for_service_name,
        )),
      )
    ]

update_new-IsValid :
    (limits : Dict String Limit) (name : String) (l : RateLimiter)
    → IsValid l
    → IsValid (update_new limits name l)
unfolding update_new
update_new-IsValid limits name l v =
    elim (Bool-cases (is_number (Dict.get name l.rps_limit_for_service_name))) [
      | inl e ↦ rw e v
      | inr e ↦ rw e (update_service_limit-IsValid name _ l v)
    ]

each-IsValid :
    (f : String → RateLimiter → RateLimiter)
    → ((name : String) (l : RateLimiter) → IsValid l → IsValid (f name l))
    → (names : List String) (l : RateLimiter) → IsValid l
    → IsValid (each f names l)
unfolding each
each-IsValid f keep [] l v = v
each-IsValid f keep (name ∷ names) l v = each-IsValid f keep names (f name l) (keep name l v)

pub update_rps_limit_for_all_services-IsValid :
    (limits : Dict String Limit) (l : RateLimiter)
    → IsValid l
    → IsValid (update_rps_limit_for_all_services limits l)
unfolding update_rps_limit_for_all_services
update_rps_limit_for_all_services-IsValid limits l v =
    each-IsValid _ (update_new-IsValid limits) (Dict.keys limits) _
      (each-IsValid _ (update_known-IsValid limits) (Dict.keys l.rps_limit_for_service_name) l v)
