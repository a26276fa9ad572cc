-- ===== src/Hyperbahn/RateLimiter.antt =====
-- RateLimiter of hyperbahn/rate_limiter.js. A method returns the new limiter; `none` is a failed
-- assert. Emitted stats are kept in order in `emitted`; the pending timer of `refresh` is the
-- Boolean `refresh_timer`. A limit that is no number is the string 'default'. A missing service
-- name is the empty string.
pub mod Limits
pub mod Valid
pub mod Refreshing
pub mod Relimit
pub mod Admission
pub mod Counting
pub mod Relay
pub mod Answer
pub mod Calls
mod Tests
use tchannel.Prelude.{
  ℕ, ◌-◌, String, Bool, true, false, not, ◌&&◌, ◌||◌, List, [], ◌∷◌, ◌++◌, Option, none, some, ltb,
  leb, ◌==◌, if◌then◌else◌, contains, string_eq, is_some,
}
use tchannel.Prelude.Dict
use tchannel.Prelude.Dict.{Dict}
use tchannel.Hyperbahn.RateCounter
use tchannel.Hyperbahn.RateCounter.{RateCounter}

pub data Limit : Type 0 where
  num : ℕ → Limit
  default : Limit

pub data Stat : Type 0 where
  total_rps total_rps_limit : ℕ → Stat
  service_rps service_rps_limit edge_rps : String → ℕ → Stat
  service_busy total_busy : String → Stat

pub record RateLimiter : Type 0 where
  pub num_of_buckets : ℕ
  pub cycle : ℕ
  pub default_service_rps_limit : ℕ
  pub total_rps_limit : ℕ
  pub rps_limit_for_service_name : Dict String Limit
  pub exempt_services : List String
  pub service_counters : Dict String RateCounter
  pub edge_counters : Dict String RateCounter
  pub total_request_counter : RateCounter
  pub refresh_timer : Bool
  pub destroyed : Bool
  pub emitted : List Stat

infixl 5 ◌>>=◌
abbrev pub ◌>>=◌ : {A B : Type 0} → Option A → (A → Option B) → Option B
none >>= f = none
some a >>= f = f a

abbrev pub is_exempt : RateLimiter → String → Bool
is_exempt l name = contains l.exempt_services name

abbrev pub is_missing : String → Bool
is_missing name = string_eq.beq name ""

pub emit : List Stat → RateLimiter → RateLimiter
emit stats l = record l { emitted = l.emitted ++ stats }

-- the stats of one counter at the start of a cycle: its rps unless that is 0
rps_stat : (ℕ → Stat) → ℕ → List Stat
rps_stat stat rps = if rps == 0 then [] else stat rps ∷ []

service_stats : Dict String RateCounter → List Stat
service_stats [] = []
service_stats ((name, c) ∷ m) =
    rps_stat (service_rps name) c.rps ++ service_rps_limit name c.rps_limit ∷ service_stats m

edge_stats : Dict String RateCounter → List Stat
edge_stats [] = []
edge_stats ((name, c) ∷ m) = rps_stat (edge_rps name) c.rps ++ edge_stats m

-- the loops of `refresh` over the counters
unfoldable pub refresh_all : Dict String RateCounter → Option (Dict String RateCounter)
refresh_all [] = some []
refresh_all ((name, c) ∷ m) = do
  c' ← RateCounter.refresh c
  m' ← refresh_all m
  some ((name, c') ∷ m')

-- the reports of `refresh`, made when `cycle` stands at its start
cycle_stats : RateLimiter → List Stat
unfolding rps_stat service_stats edge_stats
cycle_stats l =
    if l.cycle == l.num_of_buckets
    then rps_stat total_rps l.total_request_counter.rps
      ++ (total_rps_limit l.total_request_counter.rps_limit ∷ service_stats l.service_counters
          ++ edge_stats l.edge_counters)
    else []

-- cycle--; back to the start from 0
next_cycle : ℕ → ℕ → ℕ
next_cycle n cycle = let down = cycle - 1 in if leb down 0 then n else down

pub refresh : RateLimiter → Option RateLimiter
unfolding emit next_cycle
refresh l = do
  total ← RateCounter.refresh l.total_request_counter
  services ← refresh_all l.service_counters
  edges ← refresh_all l.edge_counters
  some (record (emit (cycle_stats l) l) {
    total_request_counter = total;
    service_counters = services;
    edge_counters = edges;
    cycle = next_cycle l.num_of_buckets l.cycle;
    refresh_timer = true;
  })

pub record Options : Type 0 where
  pub num_of_buckets : ℕ
  pub default_service_rps_limit : ℕ
  pub total_rps_limit : Option ℕ
  pub rps_limit_for_service_name : Dict String Limit
  pub exempt_services : List String

-- options.x || d
or_number : ℕ → ℕ → ℕ
or_number d x = if x == 0 then d else x

total_limit : Option ℕ → ℕ
total_limit none = 1000
total_limit (some n) = n

-- the limiter before its first refresh, with `n` buckets
pub initial : Options → ℕ → RateLimiter
unfolding or_number total_limit
initial o n = record {
  num_of_buckets = n;
  cycle = n;
  default_service_rps_limit = or_number 100 o.default_service_rps_limit;
  total_rps_limit = total_limit o.total_rps_limit;
  rps_limit_for_service_name = o.rps_limit_for_service_name;
  exempt_services = o.exempt_services;
  service_counters = [];
  edge_counters = [];
  total_request_counter = RateCounter.new n (total_limit o.total_rps_limit);
  refresh_timer = false;
  destroyed = false;
  emitted = [];
}

pub create : Options → Option RateLimiter
create o =
    let n = or_number 20 o.num_of_buckets in
    if ltb 0 n && leb n 1000 then refresh (initial o n) else none

pub remove_service_counter : String → RateLimiter → RateLimiter
remove_service_counter name l = record l { service_counters = Dict.remove name l.service_counters }

pub update_exempt_services : List String → RateLimiter → RateLimiter
update_exempt_services exempt l = record l { exempt_services = exempt }

-- a stored limit that is a number, and the default otherwise
abbrev pub limit_or : ℕ → Option Limit → ℕ
limit_or d none = d
limit_or d (some default) = d
limit_or d (some (num n)) = n

abbrev pub is_number : Option Limit → Bool
is_number none = false
is_number (some default) = false
is_number (some (num n)) = true

pub get_rps_limit_for_service : RateLimiter → String → ℕ
get_rps_limit_for_service l name =
    limit_or l.default_service_rps_limit (Dict.get name l.rps_limit_for_service_name)

-- counter.rpsLimit = limit, where there is a counter
set_counter_limit : String → ℕ → RateLimiter → RateLimiter
set_counter_limit name limit l = elim (Dict.get name l.service_counters) [
  | none ↦ l
  | some c ↦ record l {
    service_counters = Dict.put name (record c { rps_limit = limit }) l.service_counters;
  }
]

pub update_service_limit : String → Limit → RateLimiter → RateLimiter
unfolding set_counter_limit
update_service_limit name default l =
    set_counter_limit name l.default_service_rps_limit
      (record l { rps_limit_for_service_name = Dict.remove name l.rps_limit_for_service_name })
update_service_limit name (num limit) l = set_counter_limit name limit (record l {
  rps_limit_for_service_name = Dict.put name (num limit) l.rps_limit_for_service_name;
})

-- a limit that is no number stands for 'default'
abbrev as_limit : Option Limit → Limit
as_limit none = default
as_limit (some limit) = limit

-- for removed or updated services
update_known : Dict String Limit → String → RateLimiter → RateLimiter
update_known limits name l =
    let limit = Dict.get name limits in
    if is_number limit
    then update_service_limit name (as_limit limit) l
    else update_service_limit name default
        (record l { rps_limit_for_service_name = Dict.remove name l.rps_limit_for_service_name })

-- for new services
update_new : Dict String Limit → String → RateLimiter → RateLimiter
update_new limits name l =
    if is_number (Dict.get name l.rps_limit_for_service_name)
    then l
    else update_service_limit name (as_limit (Dict.get name limits)) l

each : (String → RateLimiter → RateLimiter) → List String → RateLimiter → RateLimiter
each f [] l = l
each f (name ∷ names) l = each f names (f name l)

pub update_rps_limit_for_all_services : Dict String Limit → RateLimiter → RateLimiter
update_rps_limit_for_all_services limits l =
    each (update_new limits) (Dict.keys limits)
      (each (update_known limits) (Dict.keys l.rps_limit_for_service_name) l)

pub update_total_limit : ℕ → RateLimiter → RateLimiter
update_total_limit limit l = record l {
  total_rps_limit = limit;
  total_request_counter = record l.total_request_counter { rps_limit = limit };
}

-- the counter under a name, made where there is none
find_or_make : String → RateLimiter → Option RateCounter → RateLimiter × RateCounter
find_or_make name l (some c) = (l, c)
find_or_make name l none =
    let c = RateCounter.new l.num_of_buckets (get_rps_limit_for_service l name) in
    (record l { service_counters = Dict.put name c l.service_counters }, c)

-- The counter returned is the one stored under `name`.
pub create_service_counter : String → RateLimiter → Option (RateLimiter × Option RateCounter)
unfolding find_or_make get_rps_limit_for_service
create_service_counter name l =
    if is_missing name
    then none
    else if is_exempt l name
    then some (l, none)
    else let (l', c) = find_or_make name l (Dict.get name l.service_counters) in some (l', some c)

pub increment_service_counter : String → RateLimiter → Option RateLimiter
increment_service_counter name l = do
  (l', found) ← create_service_counter name l
  elim found [
    | none ↦ some l'
    | some c ↦ some (record l' {
      service_counters = Dict.put name (RateCounter.increment c) l'.service_counters;
    })
  ]

edge_or_new : RateLimiter → Option RateCounter → RateCounter
edge_or_new l (some c) = c
edge_or_new l none = RateCounter.new l.num_of_buckets 0

pub increment_edge_counter : String → RateLimiter → RateLimiter
unfolding edge_or_new
increment_edge_counter name l =
    let c = edge_or_new l (Dict.get name l.edge_counters) in
    record l { edge_counters = Dict.put name (RateCounter.increment c) l.edge_counters }

pub increment_total_counter : String → RateLimiter → RateLimiter
increment_total_counter name l =
    if is_missing name || not (is_exempt l name)
    then record l { total_request_counter = RateCounter.increment l.total_request_counter }
    else l

pub should_rate_limit_service : String → RateLimiter → Option (RateLimiter × Bool)
unfolding emit
should_rate_limit_service name l = if is_exempt l name then some (l, false) else do
  c ← Dict.get name l.service_counters
  let busy = ltb c.rps_limit c.rps
  some (if busy then emit (service_busy name ∷ []) l else l, busy)

pub should_rate_limit_total_request : String → RateLimiter → RateLimiter × Bool
unfolding emit
should_rate_limit_total_request name l =
    let c = l.total_request_counter in
    let busy = (is_missing name || not (is_exempt l name)) && ltb c.rps_limit c.rps in
    (if busy then emit (total_busy name ∷ []) l else l, busy)

pub destroy : RateLimiter → RateLimiter
destroy l = record l { destroyed = true; refresh_timer = false }
