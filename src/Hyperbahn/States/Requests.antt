-- ===== src/Hyperbahn/States/Requests.antt =====
-- Which requests a circuit lets through, and when it stops.
use tchannel.Prelude.{
  ℕ, zero, suc, ◌+◌, ◌<◌, ◌≡◌, inl, inr, Bool, true, false, not, ◌&&◌, ◌||◌, Option, none, some,
  arith, ltb, leb, string_eq, nat_eq, is_some, Option-cases,
}
use tchannel.Hyperbahn.States.{
  Healthy, Unhealthy, State, healthy, unhealthy, locked_healthy, locked_unhealthy, Machine,
  new_state, nonzero_or, set_state, over_rate, check_healthy, check_unhealthy, should_request_from,
  should_request, on_request,
}

period_pos : (o : Option ℕ) → 0 < nonzero_or 1000 o
period_pos none = omega arith
period_pos (some zero) = omega arith
period_pos (some (suc n)) = omega arith

-- the state's period is over
abbrev pub is_over : ℕ → ℕ → ℕ → Bool
is_over start period now = leb (start + period) now

-- the failures of the period, and the requests so far, are enough to stop
abbrev pub trips : Healthy → Bool
trips h = over_rate h && ltb h.min_requests h.total_requests

-- What `shouldRequest` answers, read off the state before it.
unfoldable pub lets_through : ℕ → State → Bool
lets_through now (healthy h) = not (is_over h.start h.period now && trips h)
lets_through now (unhealthy u) = is_over u.start u.period now || not u.tried_this_period
lets_through now locked_healthy = true
lets_through now locked_unhealthy = false

-- the answer alone
abbrev pub answer : Option (Machine × Bool) → Option Bool
answer none = none
answer (some (m, b)) = some b

-- From any state `shouldRequest` answers without asking more than two states. A healthy circuit
-- refuses just when its period is over and the failures of that period trip it; an unhealthy one
-- lets a request through when its period is over, or none was tried in it.
pub should_request_lem :
    (now : ℕ) (s : State) (m : Machine)
    → m.state ≡ some s
    → answer (should_request now m) ≡ some (lets_through now s)
unfolding should_request should_request_from check_healthy check_unhealthy set_state new_state
    lets_through
should_request_lem now (healthy h) m e = ground (arith, e, period_pos m.options.period)
should_request_lem now (unhealthy u) m e = ground (arith, e, period_pos m.options.period)
should_request_lem now locked_healthy m e = rw e
should_request_lem now locked_unhealthy m e = rw e

-- No request or question leaves a machine without a state.
pub is_some-on_request :
    (now : ℕ) (m : Machine) → is_some m.state ≡ true → is_some (on_request now m).state ≡ true
unfolding on_request check_unhealthy set_state
is_some-on_request now m h = elim (Option-cases m.state) [
  | inl absent ↦ ground (arith, h, absent)
  | inr (healthy s, e) ↦ ground (arith, e)
  | inr (unhealthy s, e) ↦ ground (arith, e)
  | inr (locked_healthy, e) ↦ ground (arith, e)
  | inr (locked_unhealthy, e) ↦ ground (arith, e)
]

pub is_some-should_request :
    (now : ℕ) (m m' : Machine) (b : Bool)
    → should_request now m ≡ some (m', b)
    → is_some m.state ≡ true
    → is_some m'.state ≡ true
unfolding should_request should_request_from check_healthy check_unhealthy set_state new_state
is_some-should_request now m m' b q h = elim (Option-cases m.state) [
  | inl absent ↦ ground (arith, h, absent)
  | inr (healthy s, e) ↦ ground (arith, e, q)
  | inr (unhealthy s, e) ↦ ground (arith, e, q)
  | inr (locked_healthy, e) ↦ ground (arith, e, q)
  | inr (locked_unhealthy, e) ↦ ground (arith, e, q)
]

-- An unhealthy circuit lets one request through per period: once a request was tried, every later
-- question of the same period is refused, and leaves the circuit as it is.
pub probe_once :
    (now now' : ℕ) (u : Unhealthy) (m : Machine)
    → m.state ≡ some (unhealthy u)
    → now < u.start + u.period
    → now' < u.start + u.period
    → should_request now' (on_request now m) ≡ some (on_request now m, false)
unfolding should_request should_request_from check_unhealthy on_request
probe_once now now' u m e h h' = ground (arith, e)
