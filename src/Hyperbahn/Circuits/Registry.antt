-- ===== src/Hyperbahn/Circuits/Registry.antt =====
-- The registry of circuits: requests are kept apart by their names, and services are dropped by key.
use tchannel.Prelude.{
  ◌≡◌, refl, ap, inl, inr, String, Bool, not, ◌&&◌, List, [], ◌∷◌, Option, none, some, arith,
  if◌then◌else◌, contains, string_eq, nat_eq, or_default, Bool-cases, Option-cases,
}
use tchannel.Prelude.Dict
use tchannel.Prelude.Dict.{Dict}
use text.Mathlib.TextLemmas.{append_cancel_left}
use tchannel.Hyperbahn.EgressNodes.{Ring, EgressNodes, is_exit_for}
use tchannel.Hyperbahn.Circuits.{
  Circuit, Callers, Circuits, key, get_or_make, store, drop_services, update_services,
}

-- the circuit stored under the names
unfoldable pub find : String → String → String → Circuits → Option Circuit
find caller service endpoint c = Dict.get (key endpoint) (
    or_default []
      (Dict.get (key caller) (or_default [] (Dict.get (key service) c.circuits_by_service_name))))

key_injective : (a b : String) → key a ≡ key b → a ≡ b
key_injective a b h = append_cancel_left "$" a b h

pub key_eq : (a b : String) → string_eq.beq (key a) (key b) ≡ string_eq.beq a b
key_eq a b =
    ground
      (arith, string_eq.beq_iff (key a) (key b), string_eq.beq_iff a b, key_injective a b, ap key)

-- A circuit is found under the names it was stored under, and every other circuit is found as before.
pub find-store :
    (caller service endpoint caller' service' endpoint' : String) (x : Circuit) (c : Circuits)
    → find caller' service' endpoint' (store caller service endpoint x c) ≡ (
        if string_eq.beq service service'
          && (string_eq.beq caller caller' && string_eq.beq endpoint endpoint')
        then some x
        else find caller' service' endpoint' c)
unfolding find store get_or_make
find-store caller service endpoint caller' service' endpoint' x c =
    let callers = or_default [] (Dict.get (key service) c.circuits_by_service_name) in
    let endpoints = or_default [] (Dict.get (key caller) callers) in
    let endpoints' = Dict.put (key endpoint) x endpoints in
    let callers' = Dict.put (key caller) endpoints' callers in
    let l1 = Dict.get-put (key service') (key service) callers' c.circuits_by_service_name in
    let l2 = Dict.get-put (key caller') (key caller) endpoints' callers in
    let l3 = Dict.get-put (key endpoint') (key endpoint) x endpoints in
    elim (Bool-cases (string_eq.beq service service')) [
      | inr other ↦ rw (l1, key_eq service service', other)
      | inl yes' ↦
          let e : service ≡ service' = (string_eq.beq_iff service service').0 yes' in
          elim (Bool-cases (string_eq.beq caller caller')) [
            | inr other ↦
                rw (l1, key_eq service service', yes', l2, key_eq caller caller', other, e)
            | inl same ↦
                let f : caller ≡ caller' = (string_eq.beq_iff caller caller').0 same in
                rw (
                  l1,
                  key_eq service service',
                  yes',
                  l2,
                  key_eq caller caller',
                  same,
                  l3,
                  key_eq endpoint endpoint',
                  e,
                  f,
                )
          ]
    ]

get-drop_services :
    (is_exit : String → Bool) (ks : List String) (k : String) (m : Dict String Callers)
    → Dict.get k (drop_services is_exit ks m)
      ≡ (if contains ks k && not (is_exit k) then none else Dict.get k m)
unfolding drop_services
get-drop_services is_exit [] k m = refl
get-drop_services is_exit (j ∷ ks) k m = ground (
  arith,
  get-drop_services is_exit ks k (if not (is_exit j) then Dict.remove j m else m),
  Dict.get-remove k j m,
  string_eq.beq_iff j k,
)

-- After updateServices a circuit is found just when it was there and the node is an exit for the
-- service whose name is the key of the circuit's service, '$' included.
pub find-update_services :
    (ring : Ring) (e : EgressNodes) (caller service endpoint : String) (c : Circuits)
    → find caller service endpoint (update_services ring e c)
      ≡ (if is_exit_for ring (key service) e then find caller service endpoint c else none)
unfolding find update_services Dict.get
find-update_services ring e caller service endpoint c =
    let m = c.circuits_by_service_name in
    let dropped = get-drop_services (λ k. is_exit_for ring k e) (Dict.keys m) (key service) m in
    let known = Dict.get-contains-keys (key service) m in
    elim (Option-cases (Dict.get (key service) m)) [
      | inl absent ↦ ground (arith, dropped, known, absent)
      | inr (v, present) ↦ ground (arith, dropped, known, present)
    ]
