-- ===== src/Hyperbahn/RateLimiter/Refreshing.antt =====
-- `refresh` of the rate limiter: it never fails the assert of a counter, and keeps the limiter valid.
use tchannel.Prelude.{
  ℕ, ◌≡◌, refl, ◌∙◌, String, true, [], ◌∷◌, some, arith, inl, inr, string_eq, Bool-cases,
}
use tchannel.Prelude.Dict
use tchannel.Prelude.Dict.{Dict, AllValues, AllValues-put, AllValues-remove, AllValues-get}
use tchannel.Hyperbahn.RateCounter
use tchannel.Hyperbahn.RateCounter.{RateCounter}
use tchannel.Hyperbahn.RateCounter.Window.{refresh-Rep}
use tchannel.Hyperbahn.RateLimiter.{
  RateLimiter, refresh_all, refresh, emit, cycle_stats, next_cycle,
}
use tchannel.Hyperbahn.RateLimiter.Valid.{Windowed, HasWindows, IsValid}

-- A refreshed counter, and what it keeps.
abbrev Refreshed : ℕ → RateCounter → Type 0
Refreshed n c =
    (d : RateCounter) × (RateCounter.refresh c ≡ some d)
    × Windowed n d
    × (d.rps_limit ≡ c.rps_limit)

refresh-Windowed : (n : ℕ) (c : RateCounter) → Windowed n c → Refreshed n c
refresh-Windowed n c (x, w, r) =
    let (d, e, r', k) = refresh-Rep n (x ∷ w) c r in (d, e, (0, x ∷ w, r'), k)

-- the limits of the counters stay with their names
abbrev SameLimits : Dict String RateCounter → Dict String RateCounter → Type 0
SameLimits m m' =
    (name : String) (d : RateCounter)
    → Dict.get name m' ≡ some d
    → (c : RateCounter) × (Dict.get name m ≡ some c) × (d.rps_limit ≡ c.rps_limit)

SameLimits-cons :
    (j : String) (c d : RateCounter) (m m' : Dict String RateCounter)
    → d.rps_limit ≡ c.rps_limit
    → SameLimits m m'
    → SameLimits ((j, c) ∷ m) ((j, d) ∷ m')
unfolding Dict.get
SameLimits-cons j c d m m' k same name x h = elim (Bool-cases (string_eq.beq j name)) [
  | inl e ↦ let q : some d ≡ some x = rw e at h in (c, rw e, cc (k, q))
  | inr e ↦ let (b, g, z) = same name x (rw e at h) in (b, rw e g, z)
]

refresh_all-Windowed :
    (n : ℕ) (m : Dict String RateCounter)
    → AllValues (Windowed n) m
    → (m' : Dict String RateCounter) × (refresh_all m ≡ some m')
      × AllValues (Windowed n) m'
      × SameLimits m m'
unfolding refresh_all
refresh_all-Windowed n [] a = ([], refl, tt, λ name d h. (d, h, refl))
refresh_all-Windowed n ((j, c) ∷ m) a =
    let (d, e, v, k) = refresh-Windowed n c a.0 in
    let (m', e', a', same) = refresh_all-Windowed n m a.1 in
    ((j, d) ∷ m', rw (e, e'), (v, a'), SameLimits-cons j c d m m' k same)

pub refresh-IsValid :
    (l : RateLimiter) → IsValid l → (l' : RateLimiter) × (refresh l ≡ some l') × IsValid l'
unfolding refresh
refresh-IsValid l (v, agree) =
    let n = l.num_of_buckets in
    let (x, w, r) = v.total in
    let (t, et, rt, kt) = refresh-Rep n (x ∷ w) l.total_request_counter r in
    let (s, es, vs, same) = refresh_all-Windowed n l.service_counters v.services in
    let (g, eg, vg, _) = refresh_all-Windowed n l.edge_counters v.edges in
    let l' = record (emit (cycle_stats l) l) {
      total_request_counter = t;
      service_counters = s;
      edge_counters = g;
      cycle = next_cycle n l.cycle;
      refresh_timer = true;
    } in
    let windows : HasWindows l' = record {
      buckets = v.buckets;
      cycle_pos = ground (arith, v.buckets, v.cycle_pos);
      cycle_le = ground (arith, v.cycle_le);
      total = (0, x ∷ w, rt);
      total_limit = kt ∙ v.total_limit;
      services = vs;
      edges = vg;
    } in
    (
      l',
      rw (et, es, eg),
      (windows, λ name d h. let (c, e, k) = same name d h in k ∙ agree name c e),
    )
