-- ===== src/Node/PeerHeap/Sifting.antt =====
-- The two loops put an element where the heap order wants it.
use tchannel.Prelude.{
  ℕ, zero, suc, ◌+◌, ◌*◌, ◌≤◌, ◌<◌, ◌≡◌, ◌≢◌, ◌⊎◌, inl, inr, List, arith, ltb, leb, ◌==◌, string_eq,
  nat_eq, Bool-cases, length,
}
use tchannel.Node.PeerHeap.{
  Element, score_at, swap, parent, siftup_from, siftdown, siftup, child_of, siftdown_from,
}
use tchannel.Node.PeerHeap.Order.{IsHeap, length-swap, score_at-swap}

-- Heap order from index `lo` on, but for the element at `i`, whose children do not exceed its parent.
unfoldable pub HasHole : ℕ → ℕ → List Element → Type 0
HasHole lo i a =
    (k : ℕ)
    → 0 < k
    → k < length a
    → lo ≤ parent k
    → (k ≢ i → parent k ≢ i → score_at a k ≤ score_at a (parent k))
      × (parent k ≡ i → 0 < i → lo ≤ parent i → score_at a k ≤ score_at a (parent i))

-- ... and only the children may exceed it
unfoldable pub HasLow : ℕ → ℕ → List Element → Type 0
HasLow lo i a =
    (k : ℕ)
    → 0 < k
    → k < length a
    → lo ≤ parent k
    → (parent k ≢ i → score_at a k ≤ score_at a (parent k))
      × (parent k ≡ i → 0 < i → lo ≤ parent i → score_at a k ≤ score_at a (parent i))

HasHole-swap :
    (a : List Element) (i : ℕ)
    → 0 < i
    → i < length a
    → score_at a (parent i) < score_at a i
    → HasHole 0 i a
    → HasHole 0 (parent i) (swap a i (parent i))
unfolding HasHole
HasHole-swap a i z h up hole k p q l =
    let j = parent i in
    let h' : j < length a = omega (arith, h) in
    let q' : k < length a = omega (arith, q, length-swap a i j) in
    let at_k = score_at-swap a i j k h h' in
    let at_parent = score_at-swap a i j (parent k) h h' in
    let at_grandparent = score_at-swap a i j (parent j) h h' in
    let here = hole k p q' l in
    (
      λ n m. ground (arith, at_k, at_parent, here, n, m, up),
      λ e p' l'. ground (arith, at_k, at_grandparent, here, e, p', hole j p' h' l', up),
    )

pub siftup_from-HasLow :
    (fuel : ℕ) (a : List Element) (i : ℕ)
    → i < fuel
    → i < length a
    → HasHole 0 i a
    → HasLow 0 (siftup_from fuel a i).1 (siftup_from fuel a i).0
unfolding siftup_from HasHole HasLow
siftup_from-HasLow zero a i f h hole = let no : ⊥ = omega (arith, f) in elim no [ ]
siftup_from-HasLow (suc fuel) a i f h hole = elim (Bool-cases (i == 0)) [
  | inl root ↦ rw root (λ k p q l. ground (arith, root, hole k p q l))
  | inr not_root ↦ elim (Bool-cases (ltb (score_at a (parent i)) (score_at a i))) [
    | inr stay ↦ rw (not_root, stay) (λ k p q l. ground (arith, not_root, stay, hole k p q l))
    | inl up ↦
        let j = parent i in
        let rest =
          siftup_from-HasLow fuel (swap a i j) j (ground (arith, f, not_root))
            (ground (arith, h, length-swap a i j, not_root))
            (HasHole-swap a i (ground (arith, not_root)) h (ground (arith, up)) hole) in
        rw (not_root, up) rest
  ]
]

-- the child that siftdown compares is the greatest one
child_of_lem :
    (a : List Element) (i : ℕ)
    → 2 * i + 1 < length a
    → (child_of a i < length a) × (i < child_of a i) × (parent (child_of a i) ≡ i)
child_of_lem a i h = (ground (arith, h), ground (arith, h), ground (arith, h))

child_of-greatest :
    (a : List Element) (i k : ℕ)
    → 0 < k
    → k < length a
    → parent k ≡ i
    → score_at a k ≤ score_at a (child_of a i)
child_of-greatest a i k p h e =
    let both : (k ≡ 2 * i + 1) ⊎ (k ≡ 2 * i + 1 + 1) = omega (arith, e, p) in
    elim both [ inl left ↦ ground (arith, left, h) | inr right ↦ ground (arith, right, h) ]

HasLow-swap :
    (lo : ℕ) (a : List Element) (i c : ℕ)
    → i < c
    → c < length a
    → parent c ≡ i
    → lo ≤ i
    → score_at a i < score_at a c
    → ((k : ℕ) → 0 < k → k < length a → parent k ≡ i → score_at a k ≤ score_at a c)
    → HasLow lo i a
    → HasLow lo c (swap a i c)
unfolding HasLow
HasLow-swap lo a i c u h e l down greatest low k p q b =
    let h' : i < length a = omega (arith, u, h) in
    let q' : k < length a = omega (arith, q, length-swap a i c) in
    let at_k = score_at-swap a i c k h' h in
    let at_parent = score_at-swap a i c (parent k) h' h in
    let at_grandparent = score_at-swap a i c (parent c) h' h in
    let here = low k p q' b in
    let there = low c (omega (arith, u)) h (omega (arith, e, l)) in
    (
      λ n. ground (arith, at_k, at_parent, here, there, n, down, e, p, greatest k p q'),
      λ m p' l'. ground (arith, at_k, at_grandparent, here, m, e, u, down),
    )

-- heap order among the elements whose parent is at `lo` or after it
unfoldable pub IsHeapFrom : ℕ → List Element → Type 0
IsHeapFrom lo a =
    (k : ℕ) → 0 < k → k < length a → lo ≤ parent k → score_at a k ≤ score_at a (parent k)

HasLow-stay :
    (lo : ℕ) (a : List Element) (i : ℕ)
    → ((k : ℕ) → 0 < k → k < length a → parent k ≡ i → score_at a k ≤ score_at a i)
    → HasLow lo i a
    → IsHeapFrom lo a
unfolding HasLow IsHeapFrom
HasLow-stay lo a i greatest low k p q b = elim (Bool-cases (parent k == i)) [
  | inl same ↦ let e : parent k ≡ i = ground (arith, same) in rw e (greatest k p q e)
  | inr other ↦ (low k p q b).0 (ground (arith, other))
]

HasLow-root : (a : List Element) (i : ℕ) → IsHeapFrom (suc i) a → HasLow i i a
unfolding HasLow IsHeapFrom
HasLow-root a i above k p q b =
    (λ n. above k p q (omega (arith, n, b)), λ e p' b'. ground (arith, e, p', b'))

pub siftdown_from-IsHeapFrom :
    (lo fuel : ℕ) (a : List Element) (i : ℕ)
    → length a ≤ i + fuel
    → i < length a
    → lo ≤ i
    → HasLow lo i a
    → IsHeapFrom lo (siftdown_from fuel a i).0
unfolding siftdown_from
siftdown_from-IsHeapFrom lo zero a i f h l low = let no : ⊥ = omega (arith, f, h) in elim no [ ]
siftdown_from-IsHeapFrom lo (suc fuel) a i f h l low =
    elim (Bool-cases (leb (length a) (2 * i + 1))) [
      | inl leaf ↦ rw leaf (HasLow-stay lo a i (λ k p q e. ground (arith, leaf, p, q, e)) low)
      | inr inner ↦
          let (bound, less, above) = child_of_lem a i (ground (arith, inner)) in
          let c = child_of a i in
          elim (Bool-cases (ltb (score_at a i) (score_at a c))) [
            | inr stay ↦
                rw (inner, stay)
                  (HasLow-stay lo a i
                    (λ k p q e. ground (arith, stay, child_of-greatest a i k p q e)) low)
            | inl down ↦
                let low' =
                  HasLow-swap lo a i c less bound above l (ground (arith, down))
                    (child_of-greatest a i) low in
                rw (inner, down)
                  (siftdown_from-IsHeapFrom lo fuel (swap a i c) c
                    (omega (arith, f, less, length-swap a i c))
                    (omega (arith, bound, length-swap a i c)) (omega (arith, l, less)) low')
          ]
    ]

-- siftdown of an element over ordered trees orders its own tree too
pub siftdown-IsHeapFrom :
    (a : List Element) (i : ℕ) → i < length a → IsHeapFrom (suc i) a → IsHeapFrom i (siftdown a i).0
unfolding siftdown
siftdown-IsHeapFrom a i h above =
    siftdown_from-IsHeapFrom i (length a) a i (omega arith) h (omega arith) (HasLow-root a i above)

-- heap order but between the element at `i` and its parent
unfoldable pub HasHigh : ℕ → List Element → Type 0
HasHigh i a =
    (k : ℕ)
    → 0 < k
    → k < length a
    → (k ≢ i → score_at a k ≤ score_at a (parent k))
      × (parent k ≡ i → 0 < i → score_at a k ≤ score_at a (parent i))

HasHigh-swap :
    (a : List Element) (i : ℕ)
    → 0 < i
    → i < length a
    → score_at a (parent i) < score_at a i
    → HasHigh i a
    → HasHigh (parent i) (swap a i (parent i))
unfolding HasHigh
HasHigh-swap a i z h up high k p q =
    let j = parent i in
    let h' : j < length a = omega (arith, h) in
    let q' : k < length a = omega (arith, q, length-swap a i j) in
    let at_k = score_at-swap a i j k h h' in
    let at_parent = score_at-swap a i j (parent k) h h' in
    let at_grandparent = score_at-swap a i j (parent j) h h' in
    let here = high k p q' in
    (
      λ n. ground (arith, at_k, at_parent, here, n, up, z),
      λ e p'. ground (arith, at_k, at_grandparent, here, e, p', high j p' h', up),
    )

siftup_from-IsHeap :
    (fuel : ℕ) (a : List Element) (i : ℕ)
    → i < fuel
    → i < length a
    → HasHigh i a
    → IsHeap (siftup_from fuel a i).0
unfolding siftup_from HasHigh IsHeap
siftup_from-IsHeap zero a i f h high = let no : ⊥ = omega (arith, f) in elim no [ ]
siftup_from-IsHeap (suc fuel) a i f h high = elim (Bool-cases (i == 0)) [
  | inl root ↦ rw root (λ k p q. ground (arith, root, p, high k p q))
  | inr not_root ↦ elim (Bool-cases (ltb (score_at a (parent i)) (score_at a i))) [
    | inr stay ↦ rw (not_root, stay) (λ k p q. ground (arith, stay, high k p q))
    | inl up ↦
        let j = parent i in
        let rest =
          siftup_from-IsHeap fuel (swap a i j) j (ground (arith, f, not_root))
            (ground (arith, h, length-swap a i j, not_root))
            (HasHigh-swap a i (ground (arith, not_root)) h (ground (arith, up)) high) in
        rw (not_root, up) rest
  ]
]

pub siftup-IsHeap : (a : List Element) (i : ℕ) → i < length a → HasHigh i a → IsHeap (siftup a i).0
unfolding siftup
siftup-IsHeap a i h high = siftup_from-IsHeap (suc i) a i (omega arith) h high
