-- ===== src/Hyperbahn/RateCounter.antt =====
-- RateLimiterCounter of hyperbahn/rate_limiter.js: a sliding window of buckets with its running sum.
-- `buckets` is a JavaScript array: a write past its end extends it, and a slot that was never
-- written is falsy and stands here as 0. `none` is a failed assert.
pub mod Window
mod Tests
use tchannel.Prelude.{
  ℕ, zero, suc, ◌+◌, ◌-◌, ◌%◌, List, [], ◌∷◌, Option, none, some, ltb, if◌then◌else◌, get_or,
}

pub record RateCounter : Type 0 where
  pub index : ℕ
  pub rps : ℕ
  pub num_of_buckets : ℕ
  pub buckets : List ℕ
  pub rps_limit : ℕ

-- buckets[i] = v
unfoldable pub write : List ℕ → ℕ → ℕ → List ℕ
write [] zero v = v ∷ []
write [] (suc i) v = 0 ∷ write [] i v
write (x ∷ xs) zero v = v ∷ xs
write (x ∷ xs) (suc i) v = x ∷ write xs i v

unfoldable pub new : ℕ → ℕ → RateCounter
new num_of_buckets rps_limit = record {
  index = 0;
  rps = 0;
  num_of_buckets = num_of_buckets;
  buckets = 0 ∷ [];
  rps_limit = rps_limit;
}

unfoldable pub refresh : RateCounter → Option RateCounter
refresh c =
    let next = (c.index + 1) % c.num_of_buckets in
    let moved = get_or c.buckets next 0 in
    if ltb c.rps moved
    then none
    else some (record c { index = next; rps = c.rps - moved; buckets = write c.buckets next 0 })

unfoldable pub increment : RateCounter → RateCounter
increment c = record c {
  buckets = write c.buckets c.index (get_or c.buckets c.index 0 + 1);
  rps = c.rps + 1;
}
