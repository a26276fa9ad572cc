-- ===== src/Prelude/Dict.antt =====
-- An object used as a dictionary: an association list in the order in which the keys were added.
-- Used qualified: `Dict.get`, `Dict.put`, `Dict.remove`.
use mathlib.Core.Path.{◌≡◌, refl, subst}
use mathlib.Core.Logic.{inl, inr}
use mathlib.Core.List.{List, [], ◌∷◌}
use mathlib.Core.Option
use mathlib.Core.Option.{Option, none, some}
use native.Mathlib.Omega.{arith}
use tchannel.Prelude.Tests.{Eq, if◌then◌else◌, Bool-cases, is_some}
use tchannel.Prelude.Lists.{contains}

abbrev pub Dict {ℓ κ} : Type ℓ → Type κ → Type (ℓ ⊔ κ)
Dict K V = List (K × V)

module _ {ℓ κ} {K : Type ℓ} {V : Type κ} where
  -- Object.keys(m)
  unfoldable pub keys : Dict K V → List K
  keys [] = []
  keys ((k, v) ∷ m) = k ∷ keys m

  -- each value replaced, under the same keys
  unfoldable pub map_values {κ'} : {W : Type κ'} → (K → V → W) → Dict K V → Dict K W
  map_values f [] = []
  map_values f ((k, v) ∷ m) = (k, f k v) ∷ map_values f m

module _ {ℓ κ} {K : Type ℓ} {V : Type κ} ⦃e : Eq K⦄ where
  -- m[k], with `none` for `undefined`
  unfoldable pub get : K → Dict K V → Option V
  get k [] = none
  get k ((j, v) ∷ m) = if e.beq j k then some v else get k m

  -- m[k] = v
  unfoldable pub put : K → V → Dict K V → Dict K V
  put k v [] = (k, v) ∷ []
  put k v ((j, w) ∷ m) = if e.beq j k then (j, v) ∷ m else (j, w) ∷ put k v m

  -- delete m[k]
  unfoldable pub remove : K → Dict K V → Dict K V
  remove k [] = []
  remove k ((j, w) ∷ m) = if e.beq j k then remove k m else (j, w) ∷ remove k m

  pub get-put :
      (j k : K) (v : V) (m : Dict K V) → get j (put k v m) ≡ (if e.beq k j then some v else get j m)
  unfolding get put
  get-put j k v [] = refl
  get-put j k v ((i, w) ∷ m) =
      ground (arith, e.beq_iff k j, e.beq_iff i k, e.beq_iff i j, get-put j k v m)

  pub get-remove :
      (j k : K) (m : Dict K V) → get j (remove k m) ≡ (if e.beq k j then none else get j m)
  unfolding get remove
  get-remove j k [] = ground arith
  get-remove j k ((i, w) ∷ m) =
      ground (arith, e.beq_iff k j, e.beq_iff i k, e.beq_iff i j, get-remove j k m)

  pub get-put_self : (k : K) (v : V) (m : Dict K V) → get k (put k v m) ≡ some v
  get-put_self k v m = ground (arith, get-put k k v m, e.beq_iff k k)

module _ {ℓ κ κ'} {K : Type ℓ} {V : Type κ} {W : Type κ'} ⦃e : Eq K⦄ where
  -- the key that is passed on is the one that is looked up
  pub get-map_values :
      (k : K) (f : K → V → W) (m : Dict K V) → get k (map_values f m) ≡ Option.map (f k) (get k m)
  unfolding get map_values
  get-map_values k f [] = refl
  get-map_values k f ((j, v) ∷ m) = elim (Bool-cases (e.beq j k)) [
    | inl same ↦ rw (same, (e.beq_iff j k).0 same)
    | inr other ↦ rw (other, get-map_values k f m)
  ]

module _ {ℓ κ} {K : Type ℓ} {V : Type κ} where
  -- every value satisfies `P`
  abbrev pub AllValues {μ} : (V → Type μ) → Dict K V → Type μ
  AllValues P [] = Unit
  AllValues P ((k, v) ∷ m) = P v × AllValues P m

module _ {ℓ κ μ} {K : Type ℓ} {V : Type κ} ⦃e : Eq K⦄ (P : V → Type μ) where
  pub AllValues-put : (k : K) (v : V) (m : Dict K V) → P v → AllValues P m → AllValues P (put k v m)
  unfolding put
  AllValues-put k v [] h a = (h, tt)
  AllValues-put k v ((j, w) ∷ m) h a = elim (Bool-cases (e.beq j k)) [
    | inl same ↦ rw same (h, a.1)
    | inr other ↦ rw other (a.0, AllValues-put k v m h a.1)
  ]

  pub AllValues-remove : (k : K) (m : Dict K V) → AllValues P m → AllValues P (remove k m)
  unfolding remove
  AllValues-remove k [] a = a
  AllValues-remove k ((j, w) ∷ m) a = elim (Bool-cases (e.beq j k)) [
    | inl same ↦ rw same (AllValues-remove k m a.1)
    | inr other ↦ rw other (a.0, AllValues-remove k m a.1)
  ]

  pub AllValues-get : (k : K) (v : V) (m : Dict K V) → AllValues P m → get k m ≡ some v → P v
  unfolding get
  AllValues-get k v [] a h = cc
  AllValues-get k v ((j, w) ∷ m) a h = elim (Bool-cases (e.beq j k)) [
    | inl same ↦ let q : some w ≡ some v = rw same at h in let p : w ≡ v = cc q in subst P p a.0
    | inr other ↦ AllValues-get k v m a.1 (rw other at h)
  ]

module _ {ℓ κ} {K : Type ℓ} {V : Type κ} ⦃e : Eq K⦄ where
  pub get-contains-keys : (k : K) (m : Dict K V) → contains (keys m) k ≡ is_some (get k m)
  unfolding keys get
  get-contains-keys k [] = refl
  get-contains-keys k ((j, v) ∷ m) = elim (Bool-cases (e.beq j k)) [
    | inl same ↦ rw same
    | inr other ↦ rw other (get-contains-keys k m)
  ]
