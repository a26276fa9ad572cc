-- ===== src/Hyperbahn/Circuits/Monitor.antt =====
-- monitorRequest: which requests go on, and what they change.
use tchannel.Prelude.{
  ℕ, ◌≡◌, refl, sym, inl, inr, String, Bool, true, false, ◌&&◌, Option, none, some, arith,
  if◌then◌else◌, string_eq, nat_eq, is_some, or_default, Bool-cases, Option-cases,
}
use tchannel.Hyperbahn.States.{StateOptions, State, new_state, set_state, should_request}
use tchannel.Hyperbahn.States.Requests.{
  lets_through, should_request_lem, is_some-on_request, is_some-should_request,
}
use tchannel.Hyperbahn.Circuits.{
  Circuit, Circuits, new_circuit, get_or_make, get_circuit, store, asked, ask_circuit,
  caller_or_none, Answer, bad_request, declined, monitored, monitor_request,
}
use tchannel.Hyperbahn.Circuits.Registry.{find, find-store}

pub get_circuit-find :
    (now : ℕ) (caller service endpoint : String) (c : Circuits)
    → get_circuit now caller service endpoint c
      ≡ or_default
          (new_circuit c.options now caller service endpoint)
          (find caller service endpoint c)
unfolding get_circuit get_or_make find
get_circuit-find now caller service endpoint c = refl

-- the circuit has a state, and is of these names
abbrev pub IsFor : String → String → String → Circuit → Type 0
IsFor caller service endpoint x =
    (is_some x.machine.state ≡ true)
    × (x.caller_name ≡ caller)
    × (x.service_name ≡ service)
    × (x.endpoint_name ≡ endpoint)

-- every circuit has a state and is found under its own names
abbrev pub IsRegistered : Circuits → Type 0
IsRegistered c =
    (caller service endpoint : String) (x : Circuit)
    → find caller service endpoint c ≡ some x
    → IsFor caller service endpoint x

ask_circuit-IsFor :
    (now : ℕ) (caller service endpoint : String) (x : Circuit)
    → IsFor caller service endpoint x
    → IsFor caller service endpoint (ask_circuit now x).0
unfolding ask_circuit asked
ask_circuit-IsFor now caller service endpoint x (h, a, b, d) =
    elim (Option-cases (should_request now x.machine)) [
      | inl stuck ↦ (rw stuck h, a, b, d)
      | inr ((m, true), e) ↦
          let left = is_some-should_request now x.machine m true e h in
          (rw e (is_some-on_request now m left), a, b, d)
      | inr ((m, false), e) ↦ (rw e (is_some-should_request now x.machine m false e h), a, b, d)
    ]

new_circuit-is_some :
    (o : StateOptions) (now : ℕ) (caller service endpoint : String)
    → is_some (new_circuit o now caller service endpoint).machine.state ≡ true
unfolding new_circuit set_state new_state
new_circuit-is_some o now caller service endpoint = refl

new_circuit-IsFor :
    (o : StateOptions) (now : ℕ) (caller service endpoint : String)
    → string_eq.beq caller "" ≡ false
    → IsFor caller service endpoint (new_circuit o now caller service endpoint)
unfolding new_circuit set_state new_state
new_circuit-IsFor o now caller service endpoint h = (refl, rw h, refl, refl)

-- what a request gets: an error without a service, otherwise what its circuit lets through; the
-- first request of a circuit goes on
abbrev pub lets : ℕ → Option State → Bool
lets now none = false
lets now (some s) = lets_through now s

unfoldable pub expected : ℕ → String → String → String → Circuits → Answer
expected now cn service endpoint c =
    if string_eq.beq service ""
    then bad_request
    else elim (find (caller_or_none cn) service endpoint c) [
      | none ↦ monitored
      | some x ↦ if lets now x.machine.state then monitored else declined
    ]

-- new circuits let the first request through
new_circuit-lets :
    (o : StateOptions) (now : ℕ) (caller service endpoint : String)
    → lets now (new_circuit o now caller service endpoint).machine.state ≡ true
unfolding new_circuit set_state new_state lets_through
new_circuit-lets o now caller service endpoint = ground arith

ask_circuit-lets :
    (now : ℕ) (x : Circuit)
    → is_some x.machine.state ≡ true
    → (ask_circuit now x).1 ≡ lets now x.machine.state
unfolding ask_circuit asked
ask_circuit-lets now x h = elim (Option-cases x.machine.state) [
  | inl absent ↦ ground (arith, h, absent)
  | inr (s, e) ↦ ground (arith, e, should_request_lem now s x.machine e)
]

-- A request without a service is a bad request; the first request of a circuit goes on and is watched;
-- any later one goes on just when the state of its circuit lets it through, and is declined otherwise.
pub monitor_request-answer :
    (now : ℕ) (cn service endpoint : String) (c : Circuits)
    → IsRegistered c
    → (monitor_request now cn service endpoint c).1 ≡ expected now cn service endpoint c
unfolding monitor_request expected
monitor_request-answer now cn service endpoint c h =
    let caller = caller_or_none cn in
    let got = get_circuit-find now caller service endpoint c in
    elim (Option-cases (find caller service endpoint c)) [
      | inl absent ↦
          let new = new_circuit c.options now caller service endpoint in
          let yes' =
            ask_circuit-lets now new (new_circuit-is_some c.options now caller service endpoint) in
          ground (arith, absent, got, yes', new_circuit-lets c.options now caller service endpoint)
      | inr (x, e) ↦
          ground (arith, e, got, ask_circuit-lets now x (h caller service endpoint x e).0)
    ]

-- monitorRequest touches no circuit but the one of the request's caller, service and endpoint, the
-- missing caller counting as 'no-cn'.
pub find-monitor_request :
    (now : ℕ) (cn service endpoint caller' service' endpoint' : String) (c : Circuits)
    → (string_eq.beq service service'
        && (string_eq.beq (caller_or_none cn) caller' && string_eq.beq endpoint endpoint'))
      ≡ false
    → find caller' service' endpoint' (monitor_request now cn service endpoint c).0
      ≡ find caller' service' endpoint' c
unfolding monitor_request
find-monitor_request now cn service endpoint caller' service' endpoint' c h =
    let caller = caller_or_none cn in
    let x = ask_circuit now (get_circuit now caller service endpoint c) in
    ground (arith, h, find-store caller service endpoint caller' service' endpoint' x.0 c)

store-IsRegistered :
    (caller service endpoint : String) (x : Circuit) (c : Circuits)
    → IsFor caller service endpoint x
    → IsRegistered c
    → IsRegistered (store caller service endpoint x c)
store-IsRegistered caller service endpoint x c f h caller' service' endpoint' y q =
    let found = find-store caller service endpoint caller' service' endpoint' x c in
    let same =
      string_eq.beq service service'
      && (string_eq.beq caller caller' && string_eq.beq endpoint endpoint') in
    elim (Bool-cases same) [
      | inl yes' ↦
          let e : x ≡ y = ground (arith, found, q, yes') in
          let s : service ≡ service' = ground (arith, yes', string_eq.beq_iff service service') in
          let r : caller ≡ caller' = ground (arith, yes', string_eq.beq_iff caller caller') in
          let n : endpoint ≡ endpoint' =
            ground (arith, yes', string_eq.beq_iff endpoint endpoint') in
          rw (sym e, sym s, sym r, sym n) f
      | inr other ↦ h caller' service' endpoint' y (ground (arith, found, q, other))
    ]

caller_or_none-nonempty : (cn : String) → string_eq.beq (caller_or_none cn) "" ≡ false
caller_or_none-nonempty cn = elim (Bool-cases (string_eq.beq cn "")) [
  | inl e ↦ rw e
  | inr e ↦ rw (e, e)
]

get_circuit-IsFor :
    (now : ℕ) (caller service endpoint : String) (c : Circuits)
    → string_eq.beq caller "" ≡ false
    → IsRegistered c
    → IsFor caller service endpoint (get_circuit now caller service endpoint c)
get_circuit-IsFor now caller service endpoint c n h =
    elim (Option-cases (find caller service endpoint c)) [
      | inl absent ↦
          rw (get_circuit-find now caller service endpoint c, absent)
            (new_circuit-IsFor c.options now caller service endpoint n)
      | inr (x, e) ↦
          rw (get_circuit-find now caller service endpoint c, e) (h caller service endpoint x e)
    ]

-- After monitorRequest every circuit still has a state and is found under its own names.
pub monitor_request-IsRegistered :
    (now : ℕ) (cn service endpoint : String) (c : Circuits)
    → IsRegistered c
    → IsRegistered (monitor_request now cn service endpoint c).0
unfolding monitor_request
monitor_request-IsRegistered now cn service endpoint c h =
    let caller = caller_or_none cn in
    let got = get_circuit-IsFor now caller service endpoint c (caller_or_none-nonempty cn) h in
    let x = get_circuit now caller service endpoint c in
    let kept =
      store-IsRegistered caller service endpoint (ask_circuit now x).0 c
        (ask_circuit-IsFor now caller service endpoint x got) h in
    elim (Bool-cases (string_eq.beq service "")) [ inl e ↦ rw e h | inr e ↦ rw e kept ]
