-- ===== src/Hyperbahn/States/Trace.antt =====
-- What holds along every sequence of events of a circuit's state machine.
use tchannel.Prelude.{ℕ, ◌≡◌, ◌≢◌, Bool, List, [], ◌∷◌, Option, none, some, string_eq, nat_eq}
use tchannel.Node.Errors.{Err}
use tchannel.Hyperbahn.States.{
  Kind, Machine, kind?, set_state, should_request, on_request, on_request_healthy,
  on_request_unhealthy, on_request_error,
}

-- What reaches a machine, with the time at which it does. An admin may also set a state.
pub data Event : Type 0 where
  ask sent good bad : ℕ → Event
  failed : ℕ → Err → Event
  force : ℕ → Kind → Event

unfoldable pub left_by : Machine → Option (Machine × Bool) → Machine
left_by m none = m
left_by m (some (m', b)) = m'

unfoldable pub step : Event → Machine → Machine
unfolding left_by
step (ask now) m = left_by m (should_request now m)
step (sent now) m = on_request now m
step (good now) m = on_request_healthy now m
step (bad now) m = on_request_unhealthy now m
step (failed now e) m = on_request_error now e m
step (force now k) m = set_state now k m

unfoldable pub run : List Event → Machine → Machine
run [] m = m
run (e ∷ es) m = run es (step e m)

-- Each change starts from the kind that the one before it led to, and leads to another kind.
abbrev pub IsChain : Option Kind → List (Option Kind × Kind) → Type 0
IsChain from [] = Unit
IsChain from ((old, new) ∷ rest) = (old ≡ from) × (from ≢ some new) × IsChain (some new) rest

-- the kind after a list of changes
abbrev pub last_kind : Option Kind → List (Option Kind × Kind) → Option Kind
last_kind from [] = from
last_kind from ((old, new) ∷ rest) = last_kind (some new) rest

-- Along any events the reported changes are a chain that ends in the kind of the present state.
abbrev pub Tracked : Machine → Type 0
Tracked m = IsChain none m.changes × (last_kind none m.changes ≡ kind? m.state)
