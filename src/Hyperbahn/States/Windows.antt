-- ===== src/Hyperbahn/States/Windows.antt =====
-- A period of a healthy circuit: what its responses add up to once it is over.
use tchannel.Prelude.{
  ℕ, ◌+◌, ◌*◌, ◌≤◌, ◌<◌, ◌≡◌, inl, inr, Bool, true, false, ◌&&◌, List, [], ◌∷◌, some, arith, ltb,
  if◌then◌else◌, string_eq, nat_eq, Bool-cases, length,
}
use tchannel.Hyperbahn.States.{
  Healthy, healthy, healthy_kind, unhealthy_kind, Machine, kind?, set_state, new_state, over_rate,
  check_healthy, on_request_healthy, on_request_unhealthy, on_request_error, counts_against,
}
use tchannel.Node.Errors.{Err}

-- what comes of a request: a response that is healthy or not, or an error
pub data Outcome : Type 0 where
  good bad : Outcome
  failed : Err → Outcome

pub record Response : Type 0 where
  pub time : ℕ
  pub outcome : Outcome

abbrev pub is_failure : Outcome → Bool
is_failure good = false
is_failure bad = true
is_failure (failed e) = counts_against e

unfoldable pub take_in : ℕ → Outcome → Machine → Machine
take_in now good m = on_request_healthy now m
take_in now bad m = on_request_unhealthy now m
take_in now (failed e) m = on_request_error now e m

abbrev pub respond : Response → Machine → Machine
respond x m = take_in x.time x.outcome m

unfoldable pub respond_all : List Response → Machine → Machine
respond_all [] m = m
respond_all (x ∷ xs) m = respond_all xs (respond x m)

-- how many responses are failures
unfoldable pub failures : List Response → ℕ
failures [] = 0
failures (x ∷ xs) = (if is_failure x.outcome then 1 else 0) + failures xs

-- every response comes before the time
unfoldable pub all_before : ℕ → List Response → Bool
all_before t [] = true
all_before t (x ∷ xs) = ltb x.time t && all_before t xs

-- the failures are a greater share of the responses than the circuit allows
abbrev pub too_many : Healthy → ℕ → ℕ → Bool
too_many h failing all = ltb (h.max_error_rate.num * all) (failing * h.max_error_rate.den)

-- the state with one response more
abbrev with_response : Outcome → Healthy → Healthy
with_response y h = record h {
  healthy_count = h.healthy_count + (if is_failure y then 0 else 1);
  unhealthy_count = h.unhealthy_count + (if is_failure y then 1 else 0);
  total_requests = h.total_requests + 1;
}

respond-within :
    (t : ℕ) (y : Outcome) (h : Healthy) (m : Machine)
    → m.state ≡ some (healthy h)
    → t < h.start + h.period
    → (take_in t y m).state ≡ some (healthy (with_response y h))
unfolding take_in on_request_healthy on_request_unhealthy on_request_error check_healthy
respond-within t good h m e within = ground (arith, e, within)
respond-within t bad h m e within = ground (arith, e, within)
respond-within t (failed x) h m e within = elim (Bool-cases (counts_against x)) [
  | inl against ↦ ground (arith, e, within, against)
  | inr other ↦ ground (arith, e, within, other)
]

respond-over :
    (t : ℕ) (y : Outcome) (h : Healthy) (m : Machine)
    → m.state ≡ some (healthy h)
    → h.start + h.period ≤ t
    → let h' = with_response y h in
      kind? (take_in t y m).state
      ≡ some (
          if over_rate h' && ltb h.min_requests h'.total_requests
          then unhealthy_kind
          else healthy_kind)
unfolding take_in on_request_healthy on_request_unhealthy on_request_error check_healthy set_state
    new_state
respond-over t good h m e over = ground (arith, e, over)
respond-over t bad h m e over = ground (arith, e, over)
respond-over t (failed x) h m e over = elim (Bool-cases (counts_against x)) [
  | inl against ↦ ground (arith, e, over, against)
  | inr other ↦ ground (arith, e, over, other)
]

-- a response counts once
one_response :
    (x : Response) (h : Healthy) (n : ℕ)
    → (with_response x.outcome h).healthy_count + (with_response x.outcome h).unhealthy_count + n
      ≡ h.healthy_count + h.unhealthy_count + (n + 1)
one_response x h n = ground arith

one_failure :
    (x : Response) (xs : List Response) (last : Response) (h : Healthy)
    → (with_response x.outcome h).unhealthy_count + failures (last ∷ xs)
      ≡ h.unhealthy_count + failures (last ∷ x ∷ xs)
unfolding failures
one_failure x xs last h = omega arith

period-counts :
    (xs : List Response) (last : Response) (h : Healthy) (m : Machine)
    → m.state ≡ some (healthy h)
    → all_before (h.start + h.period) xs ≡ true
    → h.start + h.period ≤ last.time
    → kind? (respond last (respond_all xs m)).state
      ≡ some (
          if too_many h
              (h.unhealthy_count + failures (last ∷ xs))
              (h.healthy_count + h.unhealthy_count + length (last ∷ xs))
            && ltb h.min_requests (h.total_requests + length (last ∷ xs))
          then unhealthy_kind
          else healthy_kind)
unfolding respond_all failures all_before
period-counts [] last h m e b over =
    let all : (with_response last.outcome h).healthy_count
          + (with_response last.outcome h).unhealthy_count
        ≡ h.healthy_count + h.unhealthy_count + 1 =
      ground (arith, one_response last h 0) in
    let failing : (with_response last.outcome h).unhealthy_count
        ≡ h.unhealthy_count + failures (last ∷ []) =
      omega arith in
    rw (all, failing) at (respond-over last.time last.outcome h m e over)
period-counts (x ∷ xs) last h m e b over =
    let h' = with_response x.outcome h in
    let m' = respond x m in
    let e' : m'.state ≡ some (healthy h') =
      respond-within x.time x.outcome h m e (ground (arith, b)) in
    let rest : all_before (h.start + h.period) xs ≡ true = ground (arith, b) in
    let all : h'.healthy_count + h'.unhealthy_count + length (last ∷ xs)
        ≡ h.healthy_count + h.unhealthy_count + length (last ∷ x ∷ xs) =
      omega (arith, one_response x h (length xs + 1)) in
    let failing = one_failure x xs last h in
    let total : h'.total_requests + length (last ∷ xs) ≡ h.total_requests + length (last ∷ x ∷ xs) =
      omega arith in
    rw (all, failing, total) at (period-counts xs last h' m' e' rest over)

-- The first response or error after a period, which began with none counted, closes it: the circuit
-- becomes unhealthy exactly if the failures among those of the period and this one are a
-- greater share of them than allowed, and the requests that the circuit has had in its healthy state
-- (in all its periods) are more than the minimum; otherwise it stays healthy.
pub respond_over_lem :
    (xs : List Response) (last : Response) (h : Healthy) (m : Machine)
    → m.state ≡ some (healthy h)
    → h.healthy_count ≡ 0
    → h.unhealthy_count ≡ 0
    → all_before (h.start + h.period) xs ≡ true
    → h.start + h.period ≤ last.time
    → kind? (respond last (respond_all xs m)).state
      ≡ some (
          if too_many h (failures (last ∷ xs)) (length (last ∷ xs))
            && ltb h.min_requests (h.total_requests + length (last ∷ xs))
          then unhealthy_kind
          else healthy_kind)
respond_over_lem xs last h m e z z' b over =
    let failing : h.unhealthy_count + failures (last ∷ xs) ≡ failures (last ∷ xs) =
      omega (arith, z') in
    let all : h.healthy_count + h.unhealthy_count + length (last ∷ xs) ≡ length (last ∷ xs) =
      omega (arith, z, z') in
    rw (failing, all) at (period-counts xs last h m e b over)
