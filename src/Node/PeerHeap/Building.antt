-- ===== src/Node/PeerHeap/Building.antt =====
-- The operations of the heap keep its order, its indices and its peers.
use tchannel.Prelude.{
  ℕ, zero, suc, ◌+◌, ◌/◌, ◌≤◌, ◌<◌, ◌≡◌, refl, ◌∙◌, inl, inr, Bool, List, [], ◌∷◌, ◌++◌, arith, leb,
  string_eq, nat_eq, Bool-cases, length, length-append, get_or-append, get_or-length,
}
use tchannel.Node.PeerHeap.{
  Element, blank, parent, siftdown, heapify_below, heapify, rescored, rescore, push,
}
use tchannel.Node.PeerHeap.Order.{IsHeap, IsIndexed}
use tchannel.Node.PeerHeap.Sifting.{IsHeapFrom, siftup-IsHeap, siftdown-IsHeapFrom, HasHigh}
use tchannel.Node.PeerHeap.Contents.{
  count, one_if, count-siftup, count-siftdown, count-append, length-siftdown, IsIndexed-siftup,
}

heapify_below-IsHeap :
    (n : ℕ) (a : List Element) → n ≤ length a → IsHeapFrom n a → IsHeap (heapify_below n a)
unfolding heapify_below IsHeapFrom IsHeap
heapify_below-IsHeap zero a b h = λ k p q. h k p q (omega arith)
heapify_below-IsHeap (suc n) a b h =
    let i : n < length a = omega (arith, b) in
    heapify_below-IsHeap n (siftdown a n).0 (omega (arith, b, length-siftdown a n i))
      (siftdown-IsHeapFrom a n i h)

pub few-IsHeap : (a : List Element) → length a ≤ 1 → IsHeap a
unfolding IsHeap
few-IsHeap a few k p q = ground (arith, few, p, q)

leaves-IsHeapFrom : (a : List Element) → IsHeapFrom (length a / 2) a
unfolding IsHeapFrom
leaves-IsHeapFrom a k p q b = ground (arith, p, q, b)

-- heapify puts any array in heap order.
heapify-IsHeap : (a : List Element) → IsHeap (heapify a)
unfolding heapify
heapify-IsHeap a = elim (Bool-cases (leb (length a) 1)) [
  | inl small ↦ rw small (few-IsHeap a (ground (arith, small)))
  | inr large ↦ rw large (heapify_below-IsHeap (length a / 2) a (omega arith) (leaves-IsHeapFrom a))
]

-- push: order, contents, and indices
append-HasHigh : (x : Element) (a : List Element) → IsHeap a → HasHigh (length a) (a ++ x ∷ [])
unfolding IsHeap HasHigh
append-HasHigh x a h k p q =
    let q' : k < length a + 1 = omega (arith, q, length-append a (x ∷ [])) in
    let one = get_or-append a (x ∷ []) k blank in
    let two = get_or-append a (x ∷ []) (parent k) blank in
    (λ n. ground (arith, n, q', h k p, one, two), λ e z. ground (arith, e, p, q'))

push-IsHeap : (peer score : ℕ) (a : List Element) → IsHeap a → IsHeap (push peer score a).0
unfolding push
push-IsHeap peer score a h =
    siftup-IsHeap (a ++ _ ∷ []) (length a) (omega (arith, length-append a (_ ∷ [])))
      (append-HasHigh _ a h)

push-count :
    (q : ℕ → ℕ → Bool) (peer score : ℕ) (a : List Element)
    → count q (push peer score a).0 ≡ count q a + one_if (q peer score)
unfolding push count
push-count q peer score a =
    let x : Element = record { peer = peer; score = score; index = length a } in
    let more : length a < length (a ++ x ∷ []) = omega (arith, length-append a (x ∷ [])) in
    omega (arith, count-siftup q (a ++ x ∷ []) (length a) more, count-append q a (x ∷ []))

push-IsIndexed : (peer score : ℕ) (a : List Element) → IsIndexed a → IsIndexed (push peer score a).0
unfolding push IsIndexed
push-IsIndexed peer score a h =
    let x : Element = record { peer = peer; score = score; index = length a } in
    IsIndexed-siftup (a ++ x ∷ []) (length a) (omega (arith, length-append a (x ∷ []))) (λ k q.
      ground (
        arith,
        q,
        h k,
        get_or-append a (x ∷ []) k blank,
        get_or-length a x blank,
        length-append a (x ∷ []),
      ))

-- push keeps the heap order and the indices, and adds exactly the peer with its score.
pub push_lem :
    (peer score : ℕ) (a : List Element)
    → IsHeap a
    → IsIndexed a
    → IsHeap (push peer score a).0
      × IsIndexed (push peer score a).0
      × ((q : ℕ → ℕ → Bool) → count q (push peer score a).0 ≡ count q a + one_if (q peer score))
push_lem peer score a h i =
    (push-IsHeap peer score a h, push-IsIndexed peer score a i, λ q. push-count q peer score a)

heapify_below-count :
    (q : ℕ → ℕ → Bool) (n : ℕ) (a : List Element)
    → n ≤ length a
    → count q (heapify_below n a) ≡ count q a
unfolding heapify_below
heapify_below-count q zero a h = refl
heapify_below-count q (suc n) a h =
    let b : n < length a = omega (arith, h) in
    omega (
      arith,
      heapify_below-count q n (siftdown a n).0 (omega (arith, b, length-siftdown a n b)),
      count-siftdown q a n b,
    )

heapify-count : (q : ℕ → ℕ → Bool) (a : List Element) → count q (heapify a) ≡ count q a
unfolding heapify
heapify-count q a = elim (Bool-cases (leb (length a) 1)) [
  | inl small ↦ rw small
  | inr large ↦ rw large (heapify_below-count q (length a / 2) a (omega arith))
]

rescored-count :
    (get_score : ℕ → ℕ) (q : ℕ → ℕ → Bool) (a : List Element)
    → count q (rescored get_score a) ≡ count (λ peer _. q peer (get_score peer)) a
unfolding rescored count
rescored-count get_score q [] = refl
rescored-count get_score q (x ∷ a) = omega (arith, rescored-count get_score q a)

-- rescore gives every peer its present score, keeps the peers, and restores the heap order whatever
-- the scores were.
pub rescore_lem :
    (get_score : ℕ → ℕ) (a : List Element)
    → IsHeap (rescore get_score a)
      × ((q : ℕ → ℕ → Bool)
          → count q (rescore get_score a) ≡ count (λ peer _. q peer (get_score peer)) a)
unfolding rescore
rescore_lem get_score a = (
  heapify-IsHeap (rescored get_score a),
  λ q. heapify-count q (rescored get_score a) ∙ rescored-count get_score q a,
)
