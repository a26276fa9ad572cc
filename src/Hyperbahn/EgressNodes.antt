-- ===== src/Hyperbahn/EgressNodes.antt =====
-- hyperbahn/egress-nodes.js: the exit nodes of a service. The ring is the ringpop package's: `lookup`
-- gives the node of a key, `whoami` this node, and `index_text` is how JavaScript writes a number.
pub mod Exits
mod Tests
use tchannel.Prelude.{
  ℕ, zero, suc, ◌+◌, ◌-◌, ◌*◌, ◌/◌, ◌%◌, ◌≤◌, ◌<◌, ◌≡◌, refl, sym, ap, ◌∙◌, ◌≢◌, ◌⊎◌, inl, inr, ◌↔◌,
  String, Bool, true, false, not, ◌&&◌, ◌||◌, List, [], ◌∷◌, ◌++◌, map, Option, none, some, arith,
  ltb, leb, ◌==◌, if◌then◌else◌, contains, string_eq, nat_eq, Eq, beq_self, is_some, or_default,
  Bool-cases, Option-cases, length, get_elem?, get_or, set, take, replicate, All, length-append,
  length-set, length-replicate,
}
use Prim.Native.String.{◌++◌ as ◌++s◌}
use tchannel.Prelude.Dict
use tchannel.Prelude.Dict.{Dict}

-- What the package and the language runtime provide.
pub record Ring : Type 0 where
  pub lookup : String → String
  pub whoami : String
  pub index_text : ℕ → String

pub record EgressNodes : Type 0 where
  pub default_k_value : ℕ
  pub k_value_for_service_name : Dict String ℕ

-- kValueForServiceName[serviceName] || defaultKValue
unfoldable pub k_value_for : String → EgressNodes → ℕ
k_value_for name e = elim (Dict.get name e.k_value_for_service_name) [
  | none ↦ e.default_k_value
  | some k ↦ if k == 0 then e.default_k_value else k
]

-- `none` is the failed assert that the value is positive
pub set_default_k_value : ℕ → EgressNodes → Option EgressNodes
set_default_k_value k e = if ltb 0 k then some (record e { default_k_value = k }) else none

pub set_k_value_for : String → ℕ → EgressNodes → EgressNodes
set_k_value_for name k e = record e {
  k_value_for_service_name = Dict.put name k e.k_value_for_service_name;
}

module _ (ring : Ring) where
  abbrev pub shard_key : String → ℕ → String
  shard_key name i = name ++s ("~" ++s ring.index_text i)

  -- exitNodes[node] = exitNodes[node] || []; exitNodes[node].push(shardKey)
  unfoldable pub add_exit : String → Dict String (List String) → Dict String (List String)
  add_exit key nodes =
      let node = ring.lookup key in
      Dict.put node (or_default [] (Dict.get node nodes) ++ key ∷ []) nodes

  -- the rounds of `exitsFor` from `i`, with `n` left
  unfoldable pub exits_loop : String → ℕ → ℕ → Dict String (List String) → Dict String (List String)
  exits_loop name zero i nodes = nodes
  exits_loop name (suc n) i nodes = exits_loop name n (i + 1) (add_exit (shard_key name i) nodes)

  unfoldable pub exits_for : String → EgressNodes → Dict String (List String)
  exits_for name e = exits_loop name (k_value_for name e) 0 []

  unfoldable pub is_exit_loop : String → ℕ → ℕ → Bool
  is_exit_loop name zero i = false
  is_exit_loop name (suc n) i =
      let rest = is_exit_loop name n (i + 1) in
      if string_eq.beq ring.whoami (ring.lookup (shard_key name i)) then true else rest

  unfoldable pub is_exit_for : String → EgressNodes → Bool
  is_exit_for name e = is_exit_loop name (k_value_for name e) 0
