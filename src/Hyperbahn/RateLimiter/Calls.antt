-- ===== src/Hyperbahn/RateLimiter/Calls.antt =====
-- Every call that a Hyperbahn node makes on its limiter, and what holds after any sequence of them.
use mathlib.Core.Option
use tchannel.Prelude.{
  ℕ, ◌≤◌, ◌<◌, ◌≡◌, refl, String, Bool, true, false, ◌&&◌, List, [], ◌∷◌, Option, none, some, arith,
  ltb, leb, string_eq, nat_eq, All,
}
use tchannel.Prelude.Dict
use tchannel.Prelude.Dict.{Dict, AllValues, AllValues-put, AllValues-remove, AllValues-get}
use tchannel.Hyperbahn.RateCounter
use tchannel.Hyperbahn.RateCounter.{RateCounter}
use tchannel.Hyperbahn.RateLimiter.{
  RateLimiter, Options, or_number, initial, create, Limit, refresh, is_missing,
  update_exempt_services, update_total_limit, destroy, update_service_limit, remove_service_counter,
  update_rps_limit_for_all_services,
}
use tchannel.Hyperbahn.RateLimiter.Valid.{IsValid, new-Windowed, relimit-Windowed}
use tchannel.Hyperbahn.RateLimiter.Refreshing.{refresh-IsValid}
use tchannel.Hyperbahn.RateLimiter.Relimit.{
  update_service_limit-IsValid, update_rps_limit_for_all_services-IsValid,
}
use tchannel.Hyperbahn.RateLimiter.Admission.{rate_limit}
use tchannel.Hyperbahn.RateLimiter.Answer.{rate_limit_lem}

-- A request names its caller and its service, and the node may be an exit for the service.
pub data Call : Type 0 where
  timer : Call
  request : String → String → Bool → Call
  remove_counter : String → Call
  set_exempt : List String → Call
  set_all_limits : Dict String Limit → Call
  set_limit : String → Limit → Call
  set_total_limit : ℕ → Call
  stop : Call

-- The state that a call leaves; `none` where it fails an assert.
unfoldable pub call : Call → RateLimiter → Option RateLimiter
call timer l = refresh l
call (request caller name is_exit) l = Option.map (λ r. r.0) (rate_limit caller name is_exit l)
call (remove_counter name) l = some (remove_service_counter name l)
call (set_exempt names) l = some (update_exempt_services names l)
call (set_all_limits limits) l = some (update_rps_limit_for_all_services limits l)
call (set_limit name limit) l = some (update_service_limit name limit l)
call (set_total_limit n) l = some (update_total_limit n l)
call stop l = some (destroy l)

unfoldable pub calls : List Call → RateLimiter → Option RateLimiter
calls [] l = some l
calls (c ∷ cs) l = elim (call c l) [ none ↦ none | some l' ↦ calls cs l' ]

-- the caller's part: a service has a name where the node is its exit
abbrev pub IsNamed : Call → Type 0
IsNamed (request caller name is_exit) = is_exit ≡ true → is_missing name ≡ false
IsNamed _ = Unit

-- the call succeeds and leaves a valid limiter
abbrev Keeps : Option RateLimiter → Type 0
Keeps o = (l : RateLimiter) × (o ≡ some l) × IsValid l

remove-IsValid :
    (name : String) (l : RateLimiter) → IsValid l → IsValid (remove_service_counter name l)
unfolding remove_service_counter
remove-IsValid name l (v, agree) = (
  record {
    buckets = v.buckets;
    cycle_pos = v.cycle_pos;
    cycle_le = v.cycle_le;
    total = v.total;
    total_limit = v.total_limit;
    services = AllValues-remove _ name l.service_counters v.services;
    edges = v.edges;
  },
  λ j c h. ground (arith, agree j c, Dict.get-remove j name l.service_counters),
)

total_limit-IsValid : (n : ℕ) (l : RateLimiter) → IsValid l → IsValid (update_total_limit n l)
unfolding update_total_limit
total_limit-IsValid n l (v, agree) = (
  record {
    buckets = v.buckets;
    cycle_pos = v.cycle_pos;
    cycle_le = v.cycle_le;
    total = relimit-Windowed l.num_of_buckets n _ v.total;
    total_limit = refl;
    services = v.services;
    edges = v.edges;
  },
  agree,
)

-- A change of what the invariant does not read.
abbrev SameCounters : RateLimiter → RateLimiter → Type 0
SameCounters l l' = l' ≡ record l {
  exempt_services = l'.exempt_services;
  refresh_timer = l'.refresh_timer;
  destroyed = l'.destroyed;
}

rest-IsValid : (l l' : RateLimiter) → SameCounters l l' → IsValid l → IsValid l'
rest-IsValid l l' e (v, agree) = rw e (
  record {
    buckets = v.buckets;
    cycle_pos = v.cycle_pos;
    cycle_le = v.cycle_le;
    total = v.total;
    total_limit = v.total_limit;
    services = v.services;
    edges = v.edges;
  },
  agree,
)

call-IsValid : (c : Call) (l : RateLimiter) → IsNamed c → IsValid l → Keeps (call c l)
unfolding call
call-IsValid timer l n v = refresh-IsValid l v
call-IsValid (request caller name is_exit) l n v =
    let a = rate_limit_lem caller name is_exit l n v in (a.after, rw a.answer, a.valid)
call-IsValid (remove_counter name) l n v = (_, refl, remove-IsValid name l v)
call-IsValid (set_exempt names) l n v =
    (_, refl, rest-IsValid l _ (unfold update_exempt_services in refl) v)
call-IsValid (set_all_limits limits) l n v =
    (_, refl, update_rps_limit_for_all_services-IsValid limits l v)
call-IsValid (set_limit name limit) l n v = (_, refl, update_service_limit-IsValid name limit l v)
call-IsValid (set_total_limit n) l _ v = (_, refl, total_limit-IsValid n l v)
call-IsValid stop l n v = (_, refl, rest-IsValid l _ (unfold destroy in refl) v)

calls-IsValid : (cs : List Call) (l : RateLimiter) → All IsNamed cs → IsValid l → Keeps (calls cs l)
unfolding calls
calls-IsValid [] l n v = (l, refl, v)
calls-IsValid (c ∷ cs) l n v =
    let (l', e, v') = call-IsValid c l n.0 v in
    let (l'', e', v'') = calls-IsValid cs l' n.1 v' in (l'', rw (e, calls) e', v'')

pub initial-IsValid : (o : Options) (n : ℕ) → 0 < n → IsValid (initial o n)
unfolding initial Dict.get RateCounter.new
initial-IsValid o n h = (
  record {
    buckets = h;
    cycle_pos = h;
    cycle_le = omega arith;
    total = new-Windowed n _ h;
    total_limit = refl;
    services = tt;
    edges = tt;
  },
  λ name c e. cc,
)

create-IsValid : (o : Options) → o.num_of_buckets ≤ 1000 → Keeps (create o)
unfolding create
create-IsValid o h =
    let n = or_number 20 o.num_of_buckets in
    let pos : 0 < n = unfold or_number in ground arith in
    let fits : (ltb 0 n && leb n 1000) ≡ true = unfold or_number in ground arith in
    rw (fits, create) (refresh-IsValid (initial o n) (initial-IsValid o n pos))

-- Every limiter that is created with at most 1000 buckets, and then gets any sequence of timer
-- refreshes, requests and changes of its limits, exempt services and counters, has failed no
-- assert, if each request at an exit names its service. Each of its counters then stands for a
-- window of periods and holds the sum over it, each service counter has the limit in force for
-- its service, and the report cycle stays between 1 and the number of buckets.
pub created-calls-IsValid :
    (o : Options) (cs : List Call)
    → o.num_of_buckets ≤ 1000
    → All IsNamed cs
    → (l₀ : RateLimiter) × (l : RateLimiter) × (create o ≡ some l₀)
      × (calls cs l₀ ≡ some l)
      × IsValid l
created-calls-IsValid o cs h n =
    let (l₀, e₀, v₀) = create-IsValid o h in
    let (l, e, v) = calls-IsValid cs l₀ n v₀ in (l₀, l, e₀, e, v)
