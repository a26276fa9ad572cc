-- ===== src/Hyperbahn/EgressNodes/Exits.antt =====
-- The two questions about exit nodes agree.
use tchannel.Prelude.{
  ℕ, zero, suc, ◌+◌, ◌≡◌, refl, sym, ap, ◌∙◌, inl, inr, String, List, [], ◌∷◌, ◌++◌, Option, none,
  some, arith, if◌then◌else◌, string_eq, nat_eq, is_some, or_default, Bool-cases,
}
use mathlib.Core.List.{append-nil, append_assoc}
use tchannel.Prelude.Dict
use tchannel.Prelude.Dict.{Dict}
use tchannel.Hyperbahn.EgressNodes.{
  Ring, EgressNodes, k_value_for, shard_key, add_exit, exits_loop, exits_for, is_exit_loop,
  is_exit_for,
}

-- an entry with more keys pushed; a first push makes it
abbrev pub pushed : Option (List String) → List String → Option (List String)
pushed none [] = none
pushed none (k ∷ ks) = some (k ∷ ks)
pushed (some l) ks = some (l ++ ks)

pushed-nil : (o : Option (List String)) → pushed o [] ≡ o
pushed-nil none = refl
pushed-nil (some l) = ap some (append-nil l)

pushed-cons :
    (o : Option (List String)) (k : String) (ks : List String)
    → pushed (some (or_default [] o ++ k ∷ [])) ks ≡ pushed o (k ∷ ks)
pushed-cons none k ks = refl
pushed-cons (some l) k ks = ap some (append_assoc l (k ∷ []) ks)

module _ (ring : Ring) where
  -- the keys of a service from `i` on, `n` of them, that the ring gives to a node
  unfoldable pub keys_of : String → String → ℕ → ℕ → List String
  keys_of node name zero i = []
  keys_of node name (suc n) i =
      let rest = keys_of node name n (i + 1) in
      if string_eq.beq (ring.lookup (shard_key ring name i)) node
      then shard_key ring name i ∷ rest
      else rest

  get-add_exit :
      (node key : String) (nodes : Dict String (List String))
      → Dict.get node (add_exit ring key nodes) ≡ (
          if string_eq.beq (ring.lookup key) node
          then some (or_default [] (Dict.get node nodes) ++ key ∷ [])
          else Dict.get node nodes)
  unfolding add_exit
  get-add_exit node key nodes = elim (Bool-cases (string_eq.beq (ring.lookup key) node)) [
    | inl same ↦
        let e : ring.lookup key ≡ node = (string_eq.beq_iff (ring.lookup key) node).0 same in
        rw (same, e) (Dict.get-put_self node _ nodes)
    | inr other ↦ Dict.get-put node (ring.lookup key) _ nodes ∙ (rw other)
  ]

  get-exits_loop :
      (node name : String) (n i : ℕ) (nodes : Dict String (List String))
      → Dict.get node (exits_loop ring name n i nodes)
        ≡ pushed (Dict.get node nodes) (keys_of node name n i)
  unfolding exits_loop keys_of
  get-exits_loop node name zero i nodes = sym (pushed-nil (Dict.get node nodes))
  get-exits_loop node name (suc n) i nodes =
      let key = shard_key ring name i in
      let rest = get-exits_loop node name n (i + 1) (add_exit ring key nodes) in
      let here = get-add_exit node key nodes in
      elim (Bool-cases (string_eq.beq (ring.lookup key) node)) [
        | inl same ↦ rw (rest, here, same) (pushed-cons (Dict.get node nodes) key _)
        | inr other ↦ rw (rest, here, other)
      ]

  -- exitsFor lists under each node exactly the shard keys of the service, from 0 up to its k value,
  -- that the ring gives to that node, in order; a node with none has no entry.
  pub exits_for_lem :
      (node name : String) (e : EgressNodes)
      → Dict.get node (exits_for ring name e)
        ≡ pushed none (keys_of node name (k_value_for name e) 0)
  unfolding exits_for Dict.get
  exits_for_lem node name e = get-exits_loop node name (k_value_for name e) 0 []

  is_exit_loop_lem :
      (name : String) (n i : ℕ)
      → is_exit_loop ring name n i ≡ is_some (pushed none (keys_of ring.whoami name n i))
  unfolding is_exit_loop keys_of
  is_exit_loop_lem name zero i = refl
  is_exit_loop_lem name (suc n) i = ground (
    arith,
    is_exit_loop_lem name n (i + 1),
    string_eq.beq_iff ring.whoami (ring.lookup (shard_key ring name i)),
    string_eq.beq_iff (ring.lookup (shard_key ring name i)) ring.whoami,
  )

  -- This node is an exit for a service just when exitsFor lists it.
  pub is_exit_for_lem :
      (name : String) (e : EgressNodes)
      → is_exit_for ring name e ≡ is_some (Dict.get ring.whoami (exits_for ring name e))
  unfolding is_exit_for
  is_exit_for_lem name e =
      is_exit_loop_lem name (k_value_for name e) 0
      ∙ ap is_some (sym (exits_for_lem ring.whoami name e))
