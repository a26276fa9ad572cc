-- ===== src/Hyperbahn/RateCounter/Window.antt =====
-- The window that a counter stands for: the requests of each period, the newest first. A counter
-- keeps the sum over the last `num_of_buckets` periods.
use tchannel.Prelude.{
  ℕ, zero, suc, ◌+◌, ◌-◌, ◌%◌, ◌<◌, ◌≡◌, refl, sym, ◌∙◌, ◌≢◌, List, [], ◌∷◌, Option, none, some,
  arith, leb, ◌==◌, if◌then◌else◌, get_or, take, length,
}
use native.Mathlib.Nat.{mod-lt}
use tchannel.Hyperbahn.RateCounter.{RateCounter, write, new, refresh, increment}

-- What happens to a counter: a period ends, or a request is counted.
pub data Op : Type 0 where
  tick hit : Op

unfoldable pub run : List Op → RateCounter → Option RateCounter
run [] c = some c
run (hit ∷ ops) c = run ops (increment c)
run (tick ∷ ops) c = elim (refresh c) [ none ↦ none | some d ↦ run ops d ]

-- the newest period first
abbrev pub count_hit : List ℕ → List ℕ
count_hit [] = 1 ∷ []
count_hit (x ∷ w) = suc x ∷ w

unfoldable pub history : List Op → List ℕ → List ℕ
history [] w = w
history (hit ∷ ops) w = history ops (count_hit w)
history (tick ∷ ops) w = history ops (0 ∷ w)

unfoldable pub sum : List ℕ → ℕ
sum [] = 0
sum (x ∷ xs) = x + sum xs

-- The slot of the period that ended `k` refreshes ago.
abbrev slot : ℕ → ℕ → ℕ → ℕ
slot n i k = if leb k i then i - k else i + n - k

-- The counter `c` with `n` buckets stands for the periods `w`.
pub record Rep (n : ℕ) (w : List ℕ) (c : RateCounter) : Type 0 where
  pub size : c.num_of_buckets ≡ n
  pub inside : c.index < n
  pub written : c.index < length c.buckets
  pub at : (k : ℕ) → k < n → get_or c.buckets (slot n c.index k) 0 ≡ get_or w k 0
  pub total : c.rps ≡ sum (take n w)

get_or-write :
    (xs : List ℕ) (i j v : ℕ) → get_or (write xs i v) j 0 ≡ (if i == j then v else get_or xs j 0)
unfolding write
get_or-write [] zero zero v = refl
get_or-write [] zero (suc j) v = ground arith
get_or-write [] (suc i) zero v = ground arith
get_or-write [] (suc i) (suc j) v = ground (arith, get_or-write [] i j v)
get_or-write (x ∷ xs) zero zero v = refl
get_or-write (x ∷ xs) zero (suc j) v = ground arith
get_or-write (x ∷ xs) (suc i) zero v = ground arith
get_or-write (x ∷ xs) (suc i) (suc j) v = ground (arith, get_or-write xs i j v)

length-write : (xs : List ℕ) (i v : ℕ) → i < length (write xs i v)
unfolding write
length-write [] zero v = omega arith
length-write [] (suc i) v = omega (arith, length-write [] i v)
length-write (x ∷ xs) zero v = omega arith
length-write (x ∷ xs) (suc i) v = omega (arith, length-write xs i v)

sum-take-suc : (n : ℕ) (w : List ℕ) → sum (take (suc n) w) ≡ sum (take n w) + get_or w n 0
unfolding sum
sum-take-suc zero [] = omega arith
sum-take-suc (suc n) [] = omega arith
sum-take-suc zero (x ∷ w) = omega arith
sum-take-suc (suc n) (x ∷ w) = omega (arith, sum-take-suc n w)

next_index : (n i : ℕ) → i < n → (i + 1) % n ≡ (if i + 1 == n then 0 else i + 1)
next_index n i h = grind arith

get_or-zeros : (i : ℕ) → get_or {A = ℕ} (0 ∷ []) i 0 ≡ 0
get_or-zeros zero = refl
get_or-zeros (suc i) = refl

sum-take-zero : (n : ℕ) → sum (take n (0 ∷ [])) ≡ 0
unfolding sum
sum-take-zero zero = refl
sum-take-zero (suc zero) = refl
sum-take-zero (suc (suc n)) = refl

pub new-Rep : (n limit : ℕ) → 0 < n → Rep n (0 ∷ []) (new n limit)
unfolding new
new-Rep n limit h = record {
  size = refl;
  inside = h;
  written = omega arith;
  at = λ k p. get_or-zeros (slot n 0 k) ∙ sym (get_or-zeros k);
  total = sym (sum-take-zero n);
}

sum-take-head : (n x : ℕ) (w : List ℕ) → 0 < n → sum (take n (suc x ∷ w)) ≡ sum (take n (x ∷ w)) + 1
unfolding sum
sum-take-head zero x w h = absurd (omega arith)
sum-take-head (suc n) x w h = omega arith

get_or-head :
    (x k : ℕ) (w : List ℕ) → get_or (suc x ∷ w) k 0 ≡ (if 0 == k then suc x else get_or (x ∷ w) k 0)
get_or-head x zero w = refl
get_or-head x (suc k) w = ground arith

pub increment-Rep :
    (n x : ℕ) (w : List ℕ) (c : RateCounter) → Rep n (x ∷ w) c → Rep n (suc x ∷ w) (increment c)
unfolding increment
increment-Rep n x w c r = record {
  size = r.size;
  inside = r.inside;
  written = length-write c.buckets c.index _;
  at = λ k p. ground (
    arith,
    get_or-write c.buckets c.index (slot n c.index k) (get_or c.buckets c.index 0 + 1),
    get_or-head x k w,
    r.inside,
    r.at k,
    r.at 0,
  );
  total = omega (arith, r.total, r.inside, sum-take-head n x w);
}

slot_oldest : (n i : ℕ) → i < n → slot n i (n - 1) ≡ (i + 1) % n
slot_oldest n i h = ground (arith, next_index n i h)

slot_next : (n i j : ℕ) → i < n → suc j < n → slot n ((i + 1) % n) (suc j) ≡ slot n i j
slot_next n i j h k = ground (arith, next_index n i h)

slot-ne-next : (n i j : ℕ) → i < n → suc j < n → slot n i j ≢ (i + 1) % n
slot-ne-next n i j h k = ground (arith, next_index n i h)

sum-take-tick :
    (n : ℕ) (w : List ℕ) → 0 < n → sum (take n (0 ∷ w)) + get_or w (n - 1) 0 ≡ sum (take n w)
unfolding sum
sum-take-tick zero w h = absurd (omega arith)
sum-take-tick (suc n) w h =
    let e : suc n - 1 ≡ n = omega arith in rw e (omega (arith, sum-take-suc n w))

module _ (n : ℕ) (w : List ℕ) (c : RateCounter) (r : Rep n w c) where
  abbrev next : ℕ
  next = (c.index + 1) % c.num_of_buckets

  abbrev refreshed : RateCounter
  refreshed = record c {
    index = next;
    rps = c.rps - get_or c.buckets next 0;
    buckets = write c.buckets next 0;
  }

  moved : get_or c.buckets next 0 ≡ get_or w (n - 1) 0
  moved = rw r.size (rw (← slot_oldest n c.index r.inside) (r.at (n - 1) (omega (arith, r.inside))))

  refreshed-at :
      (k : ℕ) → k < n → get_or (write c.buckets next 0) (slot n next k) 0 ≡ get_or (0 ∷ w) k 0
  refreshed-at zero p = ground (arith, get_or-write c.buckets next next 0)
  refreshed-at (suc k) p = ground (
    arith,
    r.size,
    r.inside,
    get_or-write c.buckets next (slot n c.index k) 0,
    slot_next n c.index k,
    slot-ne-next n c.index k,
    r.at k,
  )

  refreshed-Rep : Rep n (0 ∷ w) refreshed
  refreshed-Rep = record {
    size = r.size;
    inside = rw r.size (mod-lt (c.index + 1) (omega (arith, r.inside)));
    written = length-write c.buckets next 0;
    at = refreshed-at;
    total = omega (arith, moved, r.total, r.inside, sum-take-tick n w);
  }

  pub refresh-Rep :
      (d : RateCounter) × (refresh c ≡ some d) × Rep n (0 ∷ w) d × (d.rps_limit ≡ c.rps_limit)
  unfolding refresh
  refresh-Rep =
      (refreshed, ground (arith, moved, r.total, r.inside, sum-take-tick n w), refreshed-Rep, refl)

run-Rep :
    (n x : ℕ) (w : List ℕ) (ops : List Op) (c : RateCounter)
    → Rep n (x ∷ w) c
    → (d : RateCounter) × (run ops c ≡ some d) × Rep n (history ops (x ∷ w)) d
unfolding run history
run-Rep n x w [] c r = (c, refl, r)
run-Rep n x w (hit ∷ ops) c r = run-Rep n (suc x) w ops (increment c) (increment-Rep n x w c r)
run-Rep n x w (tick ∷ ops) c r =
    let (d, e, r', _) = refresh-Rep n (x ∷ w) c r in
    let (d', e', r'') = run-Rep n 0 (x ∷ w) ops d r' in (d', rw (e, run) e', r'')

-- From a new counter with at least one bucket, every sequence of refreshes and increments runs
-- without failing the assert, and `rps` is then the number of increments of the last
-- `num_of_buckets` periods, the current one included.
pub rps-sliding_window :
    (n limit : ℕ) (ops : List Op)
    → 0 < n
    → (c : RateCounter) × (run ops (new n limit) ≡ some c)
      × (c.rps ≡ sum (take n (history ops (0 ∷ []))))
rps-sliding_window n limit ops h =
    let (c, e, r) = run-Rep n 0 [] ops (new n limit) (new-Rep n limit h) in (c, e, r.total)
