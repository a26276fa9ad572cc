-- ===== src/Hyperbahn/RateCounter/Tests.antt =====
-- Runs of a counter, and the window theorem at one of them.
use tchannel.Prelude.{◌≡◌, refl, List, [], ◌∷◌, some, arith, take}
use tchannel.Hyperbahn.RateCounter.{RateCounter, new, refresh, increment, write}
use tchannel.Hyperbahn.RateCounter.Window.{Op, tick, hit, run, history, sum, rps-sliding_window}

abbrev busy : List Op
busy = hit ∷ hit ∷ tick ∷ hit ∷ tick ∷ hit ∷ tick ∷ hit ∷ []

busy-run :
    run busy (new 3 10)
    ≡ some (record {
      index = 0;
      rps = 3;
      num_of_buckets = 3;
      buckets = 1 ∷ 1 ∷ 1 ∷ [];
      rps_limit = 10;
    })
unfolding run new refresh increment write
busy-run = refl

rps-sliding_window_example :
    (c : RateCounter) × (run busy (new 3 10) ≡ some c)
    × (c.rps ≡ sum (take 3 (history busy (0 ∷ []))))
rps-sliding_window_example = rps-sliding_window 3 10 busy (omega arith)
