-- ===== src/Node/PeerHeap/Order.antt =====
-- Heap order: how a swap, and an element out of order, show in the scores.
use tchannel.Prelude.{
  ℕ, ◌≤◌, ◌<◌, ◌≡◌, refl, ◌∙◌, List, arith, ◌==◌, if◌then◌else◌, string_eq, nat_eq, length, set,
  length-set, get_or-set,
}
use tchannel.Node.PeerHeap.{Element, blank, at, score_at, swap, parent}

-- no element has a higher score than its parent
unfoldable pub IsHeap : List Element → Type 0
IsHeap a = (k : ℕ) → 0 < k → k < length a → score_at a k ≤ score_at a (parent k)

-- every element keeps its own index
unfoldable pub IsIndexed : List Element → Type 0
IsIndexed a = (k : ℕ) → k < length a → (at a k).index ≡ k

pub length-swap : (a : List Element) (i j : ℕ) → length (swap a i j) ≡ length a
unfolding swap
length-swap a i j = length-set _ j _ ∙ length-set a i _

pub at-swap :
    (a : List Element) (i j k : ℕ)
    → i < length a
    → j < length a
    → at (swap a i j) k ≡ (
        if j == k
        then record (at a i) { index = j }
        else (if i == k then record (at a j) { index = i } else at a k))
unfolding swap
at-swap a i j k h h' =
    let x = record (at a j) { index = i } in
    let y = record (at a i) { index = j } in
    let outer = get_or-set (set a i x) j k y blank (omega (arith, h', length-set a i x)) in
    rw (outer, get_or-set a i k x blank h) refl

pub score_at-swap :
    (a : List Element) (i j k : ℕ)
    → i < length a
    → j < length a
    → score_at (swap a i j) k
      ≡ (if j == k then score_at a i else (if i == k then score_at a j else score_at a k))
score_at-swap a i j k h h' = ground (arith, at-swap a i j k h h')

pub index-swap :
    (a : List Element) (i j k : ℕ)
    → i < length a
    → j < length a
    → (at (swap a i j) k).index ≡ (if j == k then j else (if i == k then i else (at a k).index))
index-swap a i j k h h' = ground (arith, at-swap a i j k h h')

pub IsIndexed-swap :
    (a : List Element) (i j : ℕ)
    → i < length a
    → j < length a
    → IsIndexed a
    → IsIndexed (swap a i j)
unfolding IsIndexed
IsIndexed-swap a i j h h' x k q =
    ground (arith, index-swap a i j k h h', x k (omega (arith, q, length-swap a i j)))
