-- ===== src/Hyperbahn/Circuits/Tests.antt =====
-- Runs of the circuits, and the theorems at concrete ones.
use tchannel.Prelude.{◌≡◌, refl, true, [], ◌∷◌, none, some, ◌==◌, if◌then◌else◌, string_eq, nat_eq}
use tchannel.Prelude.Dict
use tchannel.Prelude.Dict.{Dict}
use tchannel.Hyperbahn.EgressNodes.{Ring, EgressNodes, is_exit_for, is_exit_loop, k_value_for}
use tchannel.Hyperbahn.States.{Config}
use tchannel.Hyperbahn.Circuits.{
  Circuits, key, create, new_circuit, get_or_make, get_circuit, store, asked, ask_circuit,
  monitor_request, drop_services, update_services, get_circuit_tuples, service_tuples,
  caller_tuples, endpoint_tuples,
}
use tchannel.Hyperbahn.Circuits.Registry.{find, find-update_services}
use tchannel.Hyperbahn.Circuits.Monitor.{
  IsRegistered, expected, monitor_request-answer, find-monitor_request,
  monitor_request-IsRegistered,
}

abbrev config : Config
config = record {
  period = some 100;
  max_error_rate = none;
  min_requests = none;
  probation = some 2;
}

abbrev empty : Circuits
empty = create config

empty-IsRegistered : IsRegistered empty
unfolding create find Dict.get
empty-IsRegistered caller service endpoint x q = cc

abbrev once : Circuits
once = (monitor_request 7 "me" "foo" "get" empty).0

once-IsRegistered : IsRegistered once
once-IsRegistered = monitor_request-IsRegistered 7 "me" "foo" "get" empty empty-IsRegistered

monitor_request-IsRegistered_example : IsRegistered (monitor_request 8 "" "foo" "get" once).0
monitor_request-IsRegistered_example =
    monitor_request-IsRegistered 8 "" "foo" "get" once once-IsRegistered

monitor_request-answer_example :
    (monitor_request 8 "me" "foo" "get" once).1 ≡ expected 8 "me" "foo" "get" once
monitor_request-answer_example = monitor_request-answer 8 "me" "foo" "get" once once-IsRegistered

find-monitor_request_example :
    find "me" "foo" "get" (monitor_request 8 "" "foo" "get" once).0 ≡ find "me" "foo" "get" once
find-monitor_request_example = find-monitor_request 8 "" "foo" "get" "me" "foo" "get" once refl

-- This node is the exit of the service 'foo' and of no key that starts with '$'.
abbrev ring : Ring
ring = record {
  lookup = λ key. if string_eq.beq key "foo~0" then "here" else "there";
  whoami = "here";
  index_text = λ i. if i == 0 then "0" else "1";
}

abbrev egress : EgressNodes
egress = record { default_k_value = 1; k_value_for_service_name = [] }

foo_is_exit : is_exit_for ring "foo" egress ≡ true
unfolding is_exit_for is_exit_loop k_value_for Dict.get
foo_is_exit = refl

find-update_services_example :
    find "me" "foo" "get" (update_services ring egress once)
    ≡ (if is_exit_for ring (key "foo") egress then find "me" "foo" "get" once else none)
find-update_services_example = find-update_services ring egress "me" "foo" "get" once

-- So the circuits of a service that this node is an exit for are dropped all the same.
foo_dropped : get_circuit_tuples (update_services ring egress once) ≡ []
unfolding get_circuit_tuples service_tuples caller_tuples endpoint_tuples update_services
    drop_services is_exit_for is_exit_loop k_value_for Dict.get Dict.put Dict.keys Dict.remove
    monitor_request get_circuit get_or_make store ask_circuit asked create
foo_dropped = refl

foo_known : get_circuit_tuples once ≡ ("me", "foo", "get") ∷ []
unfolding get_circuit_tuples service_tuples caller_tuples endpoint_tuples Dict.get Dict.put
    monitor_request get_circuit get_or_make store ask_circuit asked new_circuit create
foo_known = refl
