-- ===== src/Hyperbahn/States.antt =====
-- The health states of hyperbahn/states.js and the state machine of hyperbahn/state_machine.js, as a
-- circuit of hyperbahn/circuits.js runs them. `now` is the clock in ms, read once per call. A rate
-- is a fraction, compared exactly. `invalidate` calls a method that a circuit does not have, and
-- does nothing. Listeners of stateChanged are the list `changes`, oldest first. A state that is
-- left is dropped.
pub mod Requests
pub mod Recovery
pub mod Windows
pub mod Trace
pub mod Chain
mod Tests
use tchannel.Prelude.{
  ℕ, zero, suc, ◌+◌, ◌-◌, ◌*◌, ◌/◌, ◌%◌, ◌≤◌, ◌<◌, ◌≡◌, refl, sym, ap, ◌∙◌, ◌≢◌, ◌⊎◌, inl, inr, ◌↔◌,
  String, Bool, true, false, not, ◌&&◌, ◌||◌, List, [], ◌∷◌, ◌++◌, map, Option, none, some, arith,
  ltb, leb, ◌==◌, if◌then◌else◌, contains, string_eq, nat_eq, Eq, beq_self, is_some, or_default,
  Bool-cases, Option-cases, length, get_elem?, get_or, set, take, replicate, All, length-append,
  length-set, length-replicate,
}
use tchannel.Node.Errors.{Err, classify, is_unhealthy}

pub record Rate : Type 0 where
  pub num : ℕ
  pub den : ℕ

-- The options that a state is made from, and those that a StateOptions is made from: a key that the
-- object does not have is none.
pub record StateOptions : Type 0 where
  pub period : Option ℕ
  pub min_requests : Option ℕ
  pub minimum_requests : Option ℕ
  pub max_error_rate : Option Rate
  pub probation : Option ℕ

-- new StateOptions(stateMachine, options): it copies `minimumRequests`, and sets no `minRequests`.
unfoldable pub new_state_options : StateOptions → StateOptions
new_state_options o = record {
  period = o.period;
  min_requests = none;
  minimum_requests = o.minimum_requests;
  max_error_rate = o.max_error_rate;
  probation = o.probation;
}

-- Options of the circuits: `config` of hyperbahn/circuits.js.
pub record Config : Type 0 where
  pub period : Option ℕ
  pub max_error_rate : Option Rate
  pub min_requests : Option ℕ
  pub probation : Option ℕ

-- The object that Circuits makes its StateOptions from has a key `minRequests` and none
-- `minimumRequests`.
unfoldable pub state_options : Config → StateOptions
state_options c = new_state_options (record {
  period = c.period;
  min_requests = c.min_requests;
  minimum_requests = none;
  max_error_rate = c.max_error_rate;
  probation = c.probation;
})

-- options.x || d, for a number
abbrev pub nonzero_or : ℕ → Option ℕ → ℕ
nonzero_or d none = d
nonzero_or d (some zero) = d
nonzero_or d (some (suc n)) = suc n

abbrev pub rate_or : Rate → Option Rate → Rate
rate_or d none = d
rate_or d (some r) = if r.num == 0 then d else r

pub record Healthy : Type 0 where
  pub period : ℕ
  pub start : ℕ
  pub max_error_rate : Rate
  pub healthy_count : ℕ
  pub unhealthy_count : ℕ
  pub total_requests : ℕ
  pub min_requests : ℕ

pub record Unhealthy : Type 0 where
  pub period : ℕ
  pub start : ℕ
  pub min_response_count : ℕ
  pub healthy_count : ℕ
  pub tried_this_period : Bool

pub data State : Type 0 where
  healthy : Healthy → State
  unhealthy : Unhealthy → State
  locked_healthy locked_unhealthy : State

-- the `type` of a state, which names its constructor
pub data Kind : Type 0 where
  healthy_kind unhealthy_kind locked_healthy_kind locked_unhealthy_kind : Kind

abbrev pub kind : State → Kind
kind (healthy h) = healthy_kind
kind (unhealthy u) = unhealthy_kind
kind locked_healthy = locked_healthy_kind
kind locked_unhealthy = locked_unhealthy_kind

abbrev pub same_kind : Kind → Kind → Bool
same_kind healthy_kind healthy_kind = true
same_kind unhealthy_kind unhealthy_kind = true
same_kind locked_healthy_kind locked_healthy_kind = true
same_kind locked_unhealthy_kind locked_unhealthy_kind = true
same_kind _ _ = false

-- A state machine: `state` is none until the first setState.
pub record Machine : Type 0 where
  pub options : StateOptions
  pub state : Option State
  pub changes : List (Option Kind × Kind)

-- The constructors. `startNewPeriod` runs in them before the counters are set: it compares
-- undefined counts, transitions nowhere, and what it resets is set again below it.
unfoldable pub new_state : StateOptions → ℕ → Kind → State
new_state o now healthy_kind = healthy (record {
  period = nonzero_or 1000 o.period;
  start = now;
  max_error_rate = rate_or (record { num = 1; den = 2 }) o.max_error_rate;
  healthy_count = 0;
  unhealthy_count = 0;
  total_requests = 0;
  min_requests = or_default 5 o.min_requests;
})
new_state o now unhealthy_kind = unhealthy (record {
  period = nonzero_or 1000 o.period;
  start = now;
  min_response_count = nonzero_or 5 o.probation;
  healthy_count = 0;
  tried_this_period = true;
})
new_state o now locked_healthy_kind = locked_healthy
new_state o now locked_unhealthy_kind = locked_unhealthy

abbrev pub is_kind : Option State → Kind → Bool
is_kind none k = false
is_kind (some s) k = same_kind (kind s) k

abbrev pub kind? : Option State → Option Kind
kind? none = none
kind? (some s) = some (kind s)

-- StateMachine.setState
unfoldable pub set_state : ℕ → Kind → Machine → Machine
set_state now k m = if is_kind m.state k then m else record m {
  state = some (new_state m.options now k);
  changes = m.changes ++ (kind? m.state, k) ∷ [];
}

abbrev pub with_state : State → Machine → Machine
with_state s m = record m { state = some s }

-- unhealthyCount / totalCount > maxErrorRate; at 0 / 0 the comparison fails
abbrev pub over_rate : Healthy → Bool
over_rate h =
    ltb (h.max_error_rate.num * (h.healthy_count + h.unhealthy_count))
      (h.unhealthy_count * h.max_error_rate.den)

-- HealthyState.checkPeriod(false, now): a new period starts once the old one is over. The result
-- says whether it did.
unfoldable pub check_healthy : ℕ → Healthy → Machine → Machine × Bool
check_healthy now h m =
    if leb (h.start + h.period) now
    then (
      if over_rate h && ltb h.min_requests h.total_requests
          then set_state now unhealthy_kind m
          else with_state
              (healthy (record h { start = now; healthy_count = 0; unhealthy_count = 0 })) m,
      true,
    )
    else (with_state (healthy h) m, false)

-- UnhealthyState.checkPeriod(false, now)
unfoldable pub check_unhealthy : ℕ → Unhealthy → Machine → Machine × Bool
check_unhealthy now u m =
    if leb (u.start + u.period) now
    then (
      if leb u.min_response_count u.healthy_count
          then set_state now healthy_kind m
          else with_state (unhealthy (record u { start = now; tried_this_period = false })) m,
      true,
    )
    else (with_state (unhealthy u) m, false)

-- `!self.triedThisPeriod`, where the machine is still in the state that was checked
still_untried : Option State → Bool
still_untried (some (unhealthy u)) = not u.tried_this_period
still_untried _ = false

-- willCallNextHandler(now) of each state, with the machine that it leaves
will_call : ℕ → State → Machine → Machine × Bool
unfolding still_untried
will_call now (healthy h) m =
    let m' = (check_healthy now h m).0 in (m', is_kind m'.state healthy_kind)
will_call now (unhealthy u) m = let m' = (check_unhealthy now u m).0 in (m', still_untried m'.state)
will_call now locked_healthy m = (m, true)
will_call now locked_unhealthy m = (m, false)

-- shouldRequest, with the next handler of a circuit, which always says true. Where the state that
-- was asked is left, the new one is asked; `none` is the fuel running out.
unfoldable pub should_request_from : ℕ → ℕ → State → Machine → Option (Machine × Bool)
unfolding will_call
should_request_from zero now s m = none
should_request_from (suc fuel) now s m =
    let (m', yes') = will_call now s m in
    elim yes' [
      | true ↦ some (m', true)
      | false ↦ elim (is_kind m'.state (kind s)) [
        | true ↦ some (m', false)
        | false ↦ elim m'.state [
          | none ↦ some (m', false)
          | some s' ↦ should_request_from fuel now s' m'
        ]
      ]
    ]

-- No answer needs more than two states: see `States.Requests`.
unfoldable pub should_request : ℕ → Machine → Option (Machine × Bool)
should_request now m = elim m.state [ none ↦ none | some s ↦ should_request_from 2 now s m ]

-- what the machine does in its state
on_state : Machine → (State → Machine) → Machine
on_state m f = elim m.state [ none ↦ m | some s ↦ f s ]

request_in : ℕ → Machine → State → Machine
request_in now m (unhealthy u) = (check_unhealthy now (record u { tried_this_period = true }) m).0
request_in now m s = m

-- state.onRequest(req)
pub on_request : ℕ → Machine → Machine
unfolding on_state request_in
on_request now m = on_state m (request_in now m)

healthy_in : ℕ → Machine → State → Machine
healthy_in now m (healthy h) =
    (check_healthy now
      (record h { healthy_count = h.healthy_count + 1; total_requests = h.total_requests + 1 }) m).0
healthy_in now m (unhealthy u) =
    let n = u.healthy_count + 1 in
    if ltb u.min_response_count n
    then set_state now healthy_kind m
    else (check_unhealthy now (record u { healthy_count = n }) m).0
healthy_in now m s = m

-- state.onRequestHealthy()
pub on_request_healthy : ℕ → Machine → Machine
unfolding on_state healthy_in
on_request_healthy now m = on_state m (healthy_in now m)

unhealthy_in : ℕ → Machine → State → Machine
unhealthy_in now m (healthy h) =
    (check_healthy now
      (record h { unhealthy_count = h.unhealthy_count + 1; total_requests = h.total_requests + 1 })
      m).0
unhealthy_in now m (unhealthy u) = (check_unhealthy now (record u { healthy_count = 0 }) m).0
unhealthy_in now m s = m

-- state.onRequestUnhealthy()
pub on_request_unhealthy : ℕ → Machine → Machine
unfolding on_state unhealthy_in
on_request_unhealthy now m = on_state m (unhealthy_in now m)

-- an error counts against the circuit if its class shows bad health; null does not
abbrev pub counts_against : Err → Bool
counts_against e = elim (is_unhealthy (classify e)) [ some true ↦ true | _ ↦ false ]

error_in : ℕ → Bool → Machine → State → Machine
unfolding healthy_in unhealthy_in
error_in now true m (unhealthy u) = with_state (unhealthy (record u { healthy_count = 0 })) m
error_in now true m s = unhealthy_in now m s
error_in now false m s = healthy_in now m s

-- state.onRequestError(err)
pub on_request_error : ℕ → Err → Machine → Machine
unfolding on_state error_in
on_request_error now e m = on_state m (error_in now (counts_against e) m)
