-- ===== src/Hyperbahn/States/Tests.antt =====
-- Runs of a circuit's state machine, and the theorems at concrete machines.
use tchannel.Prelude.{◌≡◌, refl, true, false, List, [], ◌∷◌, none, some, arith, string_eq, nat_eq}
use tchannel.Hyperbahn.States.{
  StateOptions, Config, state_options, new_state_options, Healthy, Unhealthy, healthy, unhealthy,
  healthy_kind, unhealthy_kind, Machine, new_state, kind?, set_state, check_healthy,
  check_unhealthy, should_request_from, should_request, on_request, on_request_unhealthy,
}
use tchannel.Hyperbahn.States.Requests.{answer, lets_through, should_request_lem, probe_once}
use tchannel.Hyperbahn.States.Recovery.{IsClean, healthy_run, recovers}
use tchannel.Hyperbahn.States.Windows.{
  good, bad as bad_response, Response, respond, respond_all, failures, all_before, respond_over_lem,
}
use tchannel.Hyperbahn.States.Trace.{Event, ask, bad, force, step, run, IsChain, last_kind}
use tchannel.Hyperbahn.States.Chain.{blank, changes-IsChain}

abbrev config : Config
config = record {
  period = some 100;
  max_error_rate = none;
  min_requests = some 1;
  probation = some 2;
}

abbrev options : StateOptions
options = record {
  period = some 100;
  min_requests = none;
  minimum_requests = none;
  max_error_rate = none;
  probation = some 2;
}

abbrev sick : Unhealthy
sick = record {
  period = 100;
  start = 0;
  min_response_count = 2;
  healthy_count = 0;
  tried_this_period = true;
}

abbrev sick_machine : Machine
sick_machine = record { options = options; state = some (unhealthy sick); changes = [] }

abbrev well : Healthy
well = record {
  period = 100;
  start = 0;
  max_error_rate = record { num = 1; den = 2 };
  healthy_count = 0;
  unhealthy_count = 0;
  total_requests = 5;
  min_requests = 5;
}

abbrev well_machine : Machine
well_machine = record { options = options; state = some (healthy well); changes = [] }

-- six failures within a period, and one more once it is over
abbrev outage : List Event
outage = force 0 healthy_kind ∷ bad 1 ∷ bad 2 ∷ bad 3 ∷ bad 4 ∷ bad 5 ∷ bad 100 ∷ ask 101 ∷ []

outage-run : kind? (run outage (blank options)).state ≡ some unhealthy_kind
unfolding run step set_state new_state on_request_unhealthy check_healthy should_request
    should_request_from check_unhealthy
outage-run = refl

should_request_lem_example :
    answer (should_request 200 sick_machine) ≡ some (lets_through 200 (unhealthy sick))
should_request_lem_example = should_request_lem 200 (unhealthy sick) sick_machine refl

probe_once_example :
    should_request 60 (on_request 50 sick_machine) ≡ some (on_request 50 sick_machine, false)
probe_once_example = probe_once 50 60 sick sick_machine refl (omega arith) (omega arith)

-- The option `minRequests` of the circuits does not reach the healthy state: the minimum stays 5.
min_requests_lost :
    new_state (state_options config) 0 healthy_kind
    ≡ new_state (state_options (record config { min_requests = some 9 })) 0 healthy_kind
unfolding new_state state_options new_state_options
min_requests_lost = refl

-- two failures and a good response in the period, and a failure once it is over
abbrev period_responses : List Response
period_responses =
    record { time = 10; outcome = bad_response }
    ∷ record { time = 20; outcome = good }
    ∷ record { time = 99; outcome = bad_response }
    ∷ []

respond_over_lem_example :
    kind?
      (respond
        (record { time = 130; outcome = bad_response })
        (respond_all period_responses well_machine)).state
    ≡ some unhealthy_kind
unfolding all_before failures
respond_over_lem_example =
    respond_over_lem period_responses (record { time = 130; outcome = bad_response }) well
      well_machine refl refl refl refl (omega arith)

recovers_example : IsClean (healthy_run (10 ∷ 20 ∷ 30 ∷ []) sick_machine).state
recovers_example = recovers (10 ∷ 20 ∷ 30 ∷ []) sick sick_machine refl (omega arith) (omega arith)

changes-IsChain_example :
    IsChain none (run outage (blank options)).changes
    × (last_kind none (run outage (blank options)).changes
        ≡ kind? (run outage (blank options)).state)
changes-IsChain_example = changes-IsChain options outage
