-- ===== src/Prelude/Counting.antt =====
-- How many values of a dictionary pass a test, and dictionaries that have each key once.
use Prim.Native.Nat.{ℕ, ◌+◌}
use mathlib.Core.Path.{◌≡◌, refl}
use mathlib.Core.Logic.{inl, inr}
use mathlib.Core.Bool.{Bool, true, false}
use mathlib.Core.List.{[], ◌∷◌}
use mathlib.Core.Option.{Option, none, some}
use native.Mathlib.Omega.{arith}
use tchannel.Prelude.Tests.{Eq, Bool-cases, or_false}
use tchannel.Prelude.Lists.{contains}
use tchannel.Prelude.Dict
use tchannel.Prelude.Dict.{Dict}

abbrev pub one_if : Bool → ℕ
one_if true = 1
one_if false = 0

module _ {ℓ κ} {K : Type ℓ} {V : Type κ} (test : V → Bool) where
  abbrev pub count : Dict K V → ℕ
  count [] = 0
  count ((k, v) ∷ m) = one_if (test v) + count m

-- what an entry counts for
abbrev pub counts {κ} : {V : Type κ} → (V → Bool) → Option V → ℕ
counts test none = 0
counts test (some v) = one_if (test v)

module _ {ℓ κ} {K : Type ℓ} {V : Type κ} ⦃e : Eq K⦄ where
  abbrev pub Distinct : Dict K V → Type 0
  Distinct [] = Unit
  Distinct ((k, v) ∷ m) = (contains (Dict.keys m) k ≡ false) × Distinct m

  contains-put :
      (j k : K) (v : V) (m : Dict K V)
      → contains (Dict.keys m) j ≡ false
      → e.beq k j ≡ false
      → contains (Dict.keys (Dict.put k v m)) j ≡ false
  unfolding Dict.put Dict.keys
  contains-put j k v [] h n = rw n
  contains-put j k v ((i, w) ∷ m) h n =
      let (hi, hm) = or_false (e.beq i j) (contains (Dict.keys m) j) h in
      elim (Bool-cases (e.beq i k)) [
        | inl same ↦ rw (same, hi, hm)
        | inr other ↦ rw (other, hi, contains-put j k v m hm n)
      ]

  pub Distinct-put : (k : K) (v : V) (m : Dict K V) → Distinct m → Distinct (Dict.put k v m)
  unfolding Dict.put Dict.keys
  Distinct-put k v [] d = (refl, tt)
  Distinct-put k v ((i, w) ∷ m) d = elim (Bool-cases (e.beq i k)) [
    | inl same ↦ rw same d
    | inr other ↦
        let apart : e.beq k i ≡ false = ground (arith, e.beq_iff k i, e.beq_iff i k, other) in
        rw other (contains-put i k v m d.0 apart, Distinct-put k v m d.1)
  ]

  contains-remove :
      (j k : K) (m : Dict K V)
      → contains (Dict.keys m) j ≡ false
      → contains (Dict.keys (Dict.remove k m)) j ≡ false
  unfolding Dict.remove Dict.keys
  contains-remove j k [] h = refl
  contains-remove j k ((i, w) ∷ m) h =
      let (hi, hm) = or_false (e.beq i j) (contains (Dict.keys m) j) h in
      elim (Bool-cases (e.beq i k)) [
        | inl same ↦ rw same (contains-remove j k m hm)
        | inr other ↦ rw (other, hi, contains-remove j k m hm)
      ]

  pub Distinct-remove : (k : K) (m : Dict K V) → Distinct m → Distinct (Dict.remove k m)
  unfolding Dict.remove Dict.keys
  Distinct-remove k [] d = tt
  Distinct-remove k ((i, w) ∷ m) d = elim (Bool-cases (e.beq i k)) [
    | inl same ↦ rw same (Distinct-remove k m d.1)
    | inr other ↦ rw other (contains-remove i k m d.0, Distinct-remove k m d.1)
  ]

  remove-absent : (k : K) (m : Dict K V) → contains (Dict.keys m) k ≡ false → Dict.remove k m ≡ m
  unfolding Dict.remove Dict.keys
  remove-absent k [] h = refl
  remove-absent k ((i, w) ∷ m) h =
      let (hi, hm) = or_false (e.beq i k) (contains (Dict.keys m) k) h in
      rw (hi, remove-absent k m hm)

module _ {ℓ κ} {K : Type ℓ} {V : Type κ} ⦃e : Eq K⦄ (test : V → Bool) where
  pub count-put :
      (k : K) (v : V) (m : Dict K V)
      → count test (Dict.put k v m) + counts test (Dict.get k m) ≡ count test m + one_if (test v)
  unfolding Dict.put Dict.get
  count-put k v [] = omega arith
  count-put k v ((i, w) ∷ m) = elim (Bool-cases (e.beq i k)) [
    | inl same ↦ rw same (omega arith)
    | inr other ↦ rw other (omega (arith, count-put k v m))
  ]

  pub count-remove :
      (k : K) (m : Dict K V)
      → Distinct m
      → count test (Dict.remove k m) + counts test (Dict.get k m) ≡ count test m
  unfolding Dict.remove Dict.get
  count-remove k [] d = refl
  count-remove k ((i, w) ∷ m) d = elim (Bool-cases (e.beq i k)) [
    | inl same ↦
        let path : i ≡ k = (e.beq_iff i k).0 same in
        let absent : contains (Dict.keys m) k ≡ false = rw path at d.0 in
        rw (same, remove-absent k m absent) (omega arith)
    | inr other ↦ rw other (omega (arith, count-remove k m d.1))
  ]
