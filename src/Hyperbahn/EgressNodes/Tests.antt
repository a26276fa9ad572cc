-- ===== src/Hyperbahn/EgressNodes/Tests.antt =====
-- The theorems on exit nodes at a concrete ring.
use tchannel.Prelude.{◌≡◌, refl, [], ◌∷◌, none, ◌==◌, if◌then◌else◌, string_eq, nat_eq, is_some}
use tchannel.Prelude.Dict
use tchannel.Hyperbahn.EgressNodes.{Ring, EgressNodes, exits_for, is_exit_for, k_value_for}
use tchannel.Hyperbahn.EgressNodes.Exits.{keys_of, pushed, exits_for_lem, is_exit_for_lem}

-- Two of the keys of 'foo' belong to this node.
abbrev ring : Ring
ring = record {
  lookup = λ key. if string_eq.beq key "foo~1" then "there" else "here";
  whoami = "here";
  index_text = λ i. if i == 0 then "0" else (if i == 1 then "1" else "2");
}

abbrev egress : EgressNodes
egress = record { default_k_value = 1; k_value_for_service_name = ("foo", 3) ∷ [] }

two_keys : keys_of ring "here" "foo" 3 0 ≡ "foo~0" ∷ "foo~2" ∷ []
unfolding keys_of
two_keys = refl

exits_for_lem_example :
    Dict.get "here" (exits_for ring "foo" egress)
    ≡ pushed none (keys_of ring "here" "foo" (k_value_for "foo" egress) 0)
exits_for_lem_example = exits_for_lem ring "here" "foo" egress

is_exit_for_lem_example :
    is_exit_for ring "foo" egress ≡ is_some (Dict.get ring.whoami (exits_for ring "foo" egress))
is_exit_for_lem_example = is_exit_for_lem ring "foo" egress
