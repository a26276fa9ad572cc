-- ===== src/Hyperbahn/Circuits.antt =====
-- hyperbahn/circuits.js: the circuits of a node, one for each service, caller and endpoint, in three
-- nested dictionaries whose keys have the prefix '$'. A circuit is its names and its state machine;
-- what a request changes is written back under its names. `now` is the clock of the call.
pub mod Registry
pub mod Monitor
mod Tests
use tchannel.Prelude.{
  ℕ, zero, suc, ◌+◌, ◌-◌, ◌*◌, ◌/◌, ◌%◌, ◌≤◌, ◌<◌, ◌≡◌, refl, sym, ap, ◌∙◌, ◌≢◌, ◌⊎◌, inl, inr, ◌↔◌,
  String, Bool, true, false, not, ◌&&◌, ◌||◌, List, [], ◌∷◌, ◌++◌, map, Option, none, some, arith,
  ltb, leb, ◌==◌, if◌then◌else◌, contains, string_eq, nat_eq, Eq, beq_self, is_some, or_default,
  Bool-cases, Option-cases, length, get_elem?, get_or, set, take, replicate, All, length-append,
  length-set, length-replicate,
}
use Prim.Native.String.{◌++◌ as ◌++s◌}
use tchannel.Prelude.Dict
use tchannel.Prelude.Dict.{Dict}
use tchannel.Hyperbahn.EgressNodes.{Ring, EgressNodes, is_exit_for}
use tchannel.Node.Errors.{Err, CodeName, is_unhealthy}
use tchannel.Hyperbahn.States.{
  StateOptions, Config, state_options, Machine, healthy_kind, set_state, should_request, on_request,
  on_request_healthy, on_request_unhealthy, on_request_error,
}

pub record Circuit : Type 0 where
  pub caller_name : String
  pub service_name : String
  pub endpoint_name : String
  pub machine : Machine

-- EndpointCircuits, ServiceCircuits and Circuits
abbrev pub Endpoints : Type 0
Endpoints = Dict String Circuit

abbrev pub Callers : Type 0
Callers = Dict String Endpoints

pub record Circuits : Type 0 where
  pub circuits_by_service_name : Dict String Callers
  pub options : StateOptions

abbrev pub key : String → String
key name = "$" ++s name

-- new Circuits(options), with `config`
unfoldable pub create : Config → Circuits
create c = record { circuits_by_service_name = []; options = state_options c }

-- new Circuit(...), with its state options and its first state
unfoldable pub new_circuit : StateOptions → ℕ → String → String → String → Circuit
new_circuit o now caller service endpoint = record {
  caller_name = if string_eq.beq caller "" then "no-cn" else caller;
  service_name = service;
  endpoint_name = endpoint;
  machine = set_state now healthy_kind (record { options = o; state = none; changes = [] });
}

-- the value under a key, or a new one stored there
unfoldable pub get_or_make : {V : Type 0} → String → V → Dict String V → V
get_or_make k new m = or_default new (Dict.get k m)

-- The getCircuit of the three levels: the circuit, which is then stored under its names.
unfoldable pub get_circuit : ℕ → String → String → String → Circuits → Circuit
get_circuit now caller service endpoint c =
    let callers = get_or_make (key service) [] c.circuits_by_service_name in
    let endpoints = get_or_make (key caller) [] callers in
    get_or_make (key endpoint) (new_circuit c.options now caller service endpoint) endpoints

-- A circuit stored under the names; the dictionaries on the way are made where they are missing.
unfoldable pub store : String → String → String → Circuit → Circuits → Circuits
store caller service endpoint x c =
    let callers = get_or_make (key service) [] c.circuits_by_service_name in
    let endpoints = get_or_make (key caller) [] callers in
    record c {
      circuits_by_service_name =
          Dict.put (key service)
            (Dict.put (key caller) (Dict.put (key endpoint) x endpoints) callers)
            c.circuits_by_service_name;
    }

unfoldable pub endpoint_tuples : Endpoints → List (String × String × String)
endpoint_tuples [] = []
endpoint_tuples ((_, x) ∷ m) = (x.caller_name, x.service_name, x.endpoint_name) ∷ endpoint_tuples m

unfoldable pub caller_tuples : Callers → List (String × String × String)
caller_tuples [] = []
caller_tuples ((_, m) ∷ rest) = endpoint_tuples m ++ caller_tuples rest

unfoldable pub service_tuples : Dict String Callers → List (String × String × String)
service_tuples [] = []
service_tuples ((_, m) ∷ rest) = caller_tuples m ++ service_tuples rest

unfoldable pub get_circuit_tuples : Circuits → List (String × String × String)
get_circuit_tuples c = service_tuples c.circuits_by_service_name

-- The answer to a request: an error frame, or the request goes on and is watched.
pub data Answer : Type 0 where
  bad_request declined monitored : Answer

-- req.headers.cn || 'no-cn'
abbrev pub caller_or_none : String → String
caller_or_none caller = if string_eq.beq caller "" then "no-cn" else caller

-- circuit.state.shouldRequest(), which always answers
unfoldable pub asked : Machine → Option (Machine × Bool) → Machine × Bool
asked m none = (m, false)
asked m (some r) = r

-- circuit.state.shouldRequest(), and onRequest of the circuit where the request goes on
unfoldable pub ask_circuit : ℕ → Circuit → Circuit × Bool
ask_circuit now x =
    let (m, yes') = asked x.machine (should_request now x.machine) in
    (record x { machine = if yes' then on_request now m else m }, yes')

-- Circuits.prototype.monitorRequest
unfoldable pub monitor_request : ℕ → String → String → String → Circuits → Circuits × Answer
monitor_request now cn service endpoint c =
    let caller = caller_or_none cn in
    if string_eq.beq service ""
    then (c, bad_request)
    else let (x, yes') = ask_circuit now (get_circuit now caller service endpoint c) in
      (store caller service endpoint x c, if yes' then monitored else declined)

-- What a watched request reports later: an error of the request or of its response, or the end of
-- the response with its code.
pub data Report : Type 0 where
  failed : Err → Report
  finished : Option CodeName → Report

-- the handlers of monitorRequest and monitorResponse
unfoldable pub report : ℕ → Report → Circuit → Circuit
report now (failed e) x = record x { machine = on_request_error now e x.machine }
report now (finished code) x = elim (is_unhealthy code) [
  | some true ↦ record x { machine = on_request_unhealthy now x.machine }
  | _ ↦ record x { machine = on_request_healthy now x.machine }
]

-- The loop of updateServices over the keys: it asks `is_exit` of the key itself, prefix included.
unfoldable pub drop_services :
    (String → Bool) → List String → Dict String Callers → Dict String Callers
drop_services is_exit [] m = m
drop_services is_exit (k ∷ ks) m =
    drop_services is_exit ks (if not (is_exit k) then Dict.remove k m else m)

unfoldable pub update_services : Ring → EgressNodes → Circuits → Circuits
update_services ring e c = record c {
  circuits_by_service_name =
      drop_services (λ k. is_exit_for ring k e) (Dict.keys c.circuits_by_service_name)
        c.circuits_by_service_name;
}
