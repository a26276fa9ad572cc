-- ===== src/Node/PeerHeap/Popping.antt =====
-- pop takes the highest score off the heap.
use tchannel.Prelude.{
  ℕ, zero, suc, ◌+◌, ◌-◌, ◌≤◌, ◌<◌, ◌≡◌, refl, ap, ◌∙◌, Bool, List, [], ◌∷◌, Option, none, some,
  arith, string_eq, nat_eq, length, take, length-set, get_or-set, length-take, get_or-take,
}
use tchannel.Node.PeerHeap.{
  Element, blank, at, score_at, parent, drop_last, moved, Popped, nothing, the_peer, the_element,
  pop,
}
use tchannel.Node.PeerHeap.Order.{IsHeap}
use tchannel.Node.PeerHeap.Sifting.{IsHeapFrom, siftdown-IsHeapFrom}
use tchannel.Node.PeerHeap.Contents.{count, one_if, count-siftdown, count-set}
use tchannel.Node.PeerHeap.Building.{few-IsHeap}

-- no score exceeds the root's
pub IsHeap-root :
    (fuel : ℕ) (a : List Element) (k : ℕ)
    → k < fuel
    → k < length a
    → IsHeap a
    → score_at a k ≤ score_at a 0
unfolding IsHeap
IsHeap-root zero a k f h heap = let no : ⊥ = omega (arith, f) in elim no [ ]
IsHeap-root (suc fuel) a zero f h heap = omega arith
IsHeap-root (suc fuel) a (suc k) f h heap =
    let up = heap (suc k) (omega arith) h in
    omega
      (arith, up, IsHeap-root fuel a (parent (suc k)) (omega (arith, f)) (omega (arith, h)) heap)

length-moved : (a : List Element) → length (moved a) ≡ length a - 1
length-moved a = length-set (drop_last a) 0 _ ∙ length-take (length a - 1) a (omega arith)

pop-IsHeap : (a : List Element) → IsHeap a → IsHeap (pop a).0
unfolding pop IsHeap IsHeapFrom
pop-IsHeap [] h = h
pop-IsHeap (x ∷ []) h = few-IsHeap [] (omega arith)
pop-IsHeap (x ∷ y ∷ a) h =
    let b = x ∷ y ∷ a in
    let above : IsHeapFrom 1 (moved b) = λ k p q l.
      let q' : k < length a + 1 = omega (arith, q, length-moved b) in
      ground (
        arith,
        h k p,
        q',
        p,
        l,
        get_or-set (drop_last b) 0 k (at b (length b - 1)) blank,
        get_or-set (drop_last b) 0 (parent k) (at b (length b - 1)) blank,
        length-take (length b - 1) b,
        get_or-take (length b - 1) b k blank,
        get_or-take (length b - 1) b (parent k) blank,
      ) in
    let r = siftdown-IsHeapFrom (moved b) 0 (omega (arith, length-moved b)) above in
    λ k p q. r k p q (omega arith)

abbrev pub popped_peer : Popped → Option ℕ
popped_peer nothing = none
popped_peer (the_peer p) = some p
popped_peer (the_element x) = some x.peer

count-take :
    (q : ℕ → ℕ → Bool) (n : ℕ) (a : List Element)
    → n < length a
    → count q (take n a) + one_if (q (at a n).peer (at a n).score) ≡ count q (take (suc n) a)
unfolding count
count-take q n [] h = let no : ⊥ = omega (arith, h) in elim no [ ]
count-take q zero (x ∷ a) h = omega arith
count-take q (suc n) (x ∷ a) h = omega (arith, count-take q n a (omega (arith, h)))

take-length : (a : List Element) → take (length a) a ≡ a
take-length [] = refl
take-length (x ∷ a) = ap (x ∷◌) (take-length a)

count-drop_last :
    (q : ℕ → ℕ → Bool) (a : List Element)
    → 0 < length a
    → let last = at a (length a - 1) in
      count q (drop_last a) + one_if (q last.peer last.score) ≡ count q a
count-drop_last q a h =
    let e : suc (length a - 1) ≡ length a = omega (arith, h) in
    let whole : take (suc (length a - 1)) a ≡ a = rw e (take-length a) in
    count-take q (length a - 1) a (omega (arith, h)) ∙ ap (count q) whole

-- the peers of a non-empty heap that pop leaves are the others
pop-count :
    (q : ℕ → ℕ → Bool) (x : Element) (a : List Element)
    → count q (pop (x ∷ a)).0 + one_if (q x.peer x.score) ≡ count q (x ∷ a)
unfolding pop count
pop-count q x [] = omega arith
pop-count q x (y ∷ a) =
    let b = x ∷ y ∷ a in
    let last = at b (length b - 1) in
    let sifted = count-siftdown q (moved b) 0 (omega (arith, length-moved b)) in
    let put = count-set q (drop_last b) 0 last (omega (arith, length-take (length b - 1) b)) in
    let dropped = count-drop_last q b (omega arith) in
    let first = get_or-take (length b - 1) b 0 blank in ground (arith, sifted, put, dropped, first)

pop-peer : (x : Element) (a : List Element) → popped_peer (pop (x ∷ a)).1 ≡ some x.peer
unfolding pop
pop-peer x [] = refl
pop-peer x (y ∷ a) = refl

-- pop of a non-empty heap removes one element, of the highest score, keeps all the others, and leaves
-- a heap; what it returns stands for that element's peer.
pub pop_lem :
    (x : Element) (a : List Element)
    → IsHeap (x ∷ a)
    → IsHeap (pop (x ∷ a)).0
      × ((k : ℕ) → k < length (x ∷ a) → score_at (x ∷ a) k ≤ x.score)
      × ((q : ℕ → ℕ → Bool) → count q (pop (x ∷ a)).0 + one_if (q x.peer x.score) ≡ count q (x ∷ a))
      × (popped_peer (pop (x ∷ a)).1 ≡ some x.peer)
pop_lem x a h = (
  pop-IsHeap (x ∷ a) h,
  λ k l. IsHeap-root (suc k) (x ∷ a) k (omega arith) l h,
  λ q. pop-count q x a,
  pop-peer x a,
)
