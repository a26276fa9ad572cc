-- ===== src/Hyperbahn/RateLimiter/Valid.antt =====
-- What holds of a limiter between two calls, and that each call keeps it.
use tchannel.Prelude.{ℕ, suc, ◌≤◌, ◌<◌, ◌≡◌, String, List, [], ◌∷◌, some, string_eq}
use tchannel.Prelude.Dict
use tchannel.Prelude.Dict.{Dict, AllValues, AllValues-put, AllValues-remove, AllValues-get}
use tchannel.Hyperbahn.RateCounter
use tchannel.Hyperbahn.RateCounter.{RateCounter}
use tchannel.Hyperbahn.RateCounter.Window.{Rep, new-Rep, increment-Rep}
use tchannel.Hyperbahn.RateLimiter.{RateLimiter, limit_or}

-- A counter with `n` buckets that stands for some window of periods.
abbrev pub Windowed : ℕ → RateCounter → Type 0
Windowed n c = (x : ℕ) × (w : List ℕ) × Rep n (x ∷ w) c

abbrev pub LimitsAgree : RateLimiter → Type 0
LimitsAgree l =
    (name : String) (c : RateCounter)
    → Dict.get name l.service_counters ≡ some c
    → c.rps_limit
      ≡ limit_or l.default_service_rps_limit (Dict.get name l.rps_limit_for_service_name)

-- The counters stand for windows, and the report cycle is in range.
pub record HasWindows (l : RateLimiter) : Type 0 where
  pub buckets : 0 < l.num_of_buckets
  pub cycle_pos : 0 < l.cycle
  pub cycle_le : l.cycle ≤ l.num_of_buckets
  pub total : Windowed l.num_of_buckets l.total_request_counter
  pub total_limit : l.total_request_counter.rps_limit ≡ l.total_rps_limit
  pub services : AllValues (Windowed l.num_of_buckets) l.service_counters
  pub edges : AllValues (Windowed l.num_of_buckets) l.edge_counters

-- Also, each counter of a service has the limit in force for that service.
abbrev pub IsValid : RateLimiter → Type 0
IsValid l = HasWindows l × LimitsAgree l

pub new-Windowed : (n limit : ℕ) → 0 < n → Windowed n (RateCounter.new n limit)
new-Windowed n limit h = (0, [], new-Rep n limit h)

pub increment-Windowed :
    (n : ℕ) (c : RateCounter) → Windowed n c → Windowed n (RateCounter.increment c)
increment-Windowed n c (x, w, r) = (suc x, w, increment-Rep n x w c r)

pub relimit-Windowed :
    (n limit : ℕ) (c : RateCounter) → Windowed n c → Windowed n (record c { rps_limit = limit })
relimit-Windowed n limit c (x, w, r) = (
  x,
  w,
  record { size = r.size; inside = r.inside; written = r.written; at = r.at; total = r.total },
)
