-- ===== src/Node/PeerHeap/Rescoring.antt =====
-- One element is rescored where it stands.
use tchannel.Prelude.{
  ℕ, zero, suc, ◌+◌, ◌<◌, ◌≡◌, refl, sym, ap, ◌∙◌, Bool, true, false, List, [], ◌∷◌, some, arith,
  leb, ◌==◌, string_eq, nat_eq, length, set, length-set, get_or-set,
}
use tchannel.Node.PeerHeap.{
  Element, blank, at, parent, siftup, siftdown, Held, update_el, with_score, with_index,
  rescore_element,
}
use tchannel.Node.PeerHeap.Order.{IsHeap, IsIndexed}
use tchannel.Node.PeerHeap.Sifting.{
  HasHole, IsHeapFrom, siftup_from-HasLow, siftdown_from-IsHeapFrom,
}
use tchannel.Node.PeerHeap.Contents.{
  count, one_if, count-siftup, count-siftdown, count-set, IsIndexed-siftup, IsIndexed-siftdown,
}
use tchannel.Node.PeerHeap.Following.{
  StandsAt, siftup-StandsAt, siftdown-StandsAt, times, update_el-set,
}

-- a new score at `i` leaves the order of the rest
rescored-HasHole :
    (i : ℕ) (x : Element) (a : List Element) → i < length a → IsHeap a → HasHole 0 i (set a i x)
unfolding IsHeap HasHole
rescored-HasHole i x a h heap k p q l =
    let q' : k < length a = omega (arith, q, length-set a i x) in
    let at_k = get_or-set a i k x blank h in
    let at_parent = get_or-set a i (parent k) x blank h in
    let at_grandparent = get_or-set a i (parent i) x blank h in
    (
      λ n m. ground (arith, n, m, at_k, at_parent, heap k p q'),
      λ e z g. ground (arith, e, z, at_k, at_grandparent, heap k p q', heap i z h),
    )

set-at : (a : List Element) (i : ℕ) → set a i (at a i) ≡ a
set-at [] i = refl
set-at (x ∷ a) zero = refl
set-at (x ∷ a) (suc i) = ap (λ l. x ∷ l) (set-at a i)

-- the entry keeps its own index, so that writing the index again changes nothing
set-with_index :
    (a : List Element) (i : ℕ) → (at a i).index ≡ i → set a i (with_index i (at a i)) ≡ a
set-with_index a i h =
    let same : with_index i (at a i) ≡ at a i = ap (λ n. with_index n (at a i)) (sym h) in
    rw same (set-at a i)

IsIndexed-set :
    (a : List Element) (i score : ℕ)
    → i < length a
    → IsIndexed a
    → IsIndexed (set a i (with_score score (at a i)))
unfolding IsIndexed
IsIndexed-set a i score h indexed k q =
    let q' : k < length a = omega (arith, q, length-set a i (with_score score (at a i))) in
    ground (arith, indexed k q', indexed i h, get_or-set a i k (with_score score (at a i)) blank h)

-- after a loop that led the element to `k`, `self.index = k` changes nothing
update_el-with_index :
    (x : Element) (a : List Element) (k : ℕ)
    → StandsAt x a k
    → IsIndexed a
    → times x.peer a ≡ 1
    → update_el x.peer (with_index k) a ≡ a
unfolding IsIndexed
update_el-with_index x a k (h, p, s) indexed once =
    update_el-set x.peer k (with_index k) a h p once ∙ set-with_index a k (indexed k h)

module _ (i score : ℕ) (a : List Element) (h : i < length a) (indexed : IsIndexed a)
    (once : times (at a i).peer a ≡ 1) where
  -- the element with its new score, and the array with it
  abbrev new_element : Element
  new_element = with_score score (at a i)

  abbrev changed : List Element
  changed = set a i new_element

  inside : i < length changed
  inside = omega (arith, h, length-set a i new_element)

  new-StandsAt : StandsAt new_element changed i
  new-StandsAt =
      let here = get_or-set a i i new_element blank h in
      (inside, ground (arith, here), ground (arith, here))

  up-StandsAt : StandsAt new_element (siftup changed i).0 (siftup changed i).1
  up-StandsAt = siftup-StandsAt new_element changed i new-StandsAt

  abbrev sifted : List Element × ℕ
  sifted = siftdown (siftup changed i).0 (siftup changed i).1

  down-StandsAt : StandsAt new_element sifted.0 sifted.1
  down-StandsAt =
      siftdown-StandsAt new_element (siftup changed i).0 (siftup changed i).1 up-StandsAt

  up-IsIndexed : IsIndexed (siftup changed i).0
  up-IsIndexed = IsIndexed-siftup changed i inside (IsIndexed-set a i score h indexed)

  down-IsIndexed : IsIndexed sifted.0
  down-IsIndexed =
      IsIndexed-siftdown (siftup changed i).0 (siftup changed i).1 up-StandsAt.0 up-IsIndexed

  up-times : times (at a i).peer (siftup changed i).0 ≡ 1
  up-times = omega (
    arith,
    once,
    count-siftup (λ p _. p == (at a i).peer) changed i inside,
    count-set (λ p _. p == (at a i).peer) a i new_element h,
  )

  down-times : times (at a i).peer sifted.0 ≡ 1
  down-times =
      let (up, k) = siftup changed i in
      omega (arith, up-times, count-siftdown (λ p _. p == (at a i).peer) up k up-StandsAt.0)

  -- from the index that it keeps, rescore sifts the element up and then down
  rescore_element-from :
      (j : ℕ)
      → j ≡ i
      → rescore_element score
          (record { element = record (at a i) { index = j }; has_heap = true })
          a
        ≡ some (record { element = at sifted.0 sifted.1; has_heap = true }, sifted.0)
  unfolding rescore_element IsIndexed
  rescore_element-from j kept =
      let (down, l) = sifted in
      let (_, p, s) = down-StandsAt in
      let there : at down l ≡ record (at a i) { score = score; index = l } =
        ground (arith, p, s, down-IsIndexed l down-StandsAt.0) in
      let first : update_el (at a i).peer (with_score score) a ≡ changed =
        update_el-set (at a i).peer i (with_score score) a h refl once in
      let second =
        update_el-with_index new_element (siftup changed i).0 (siftup changed i).1 up-StandsAt
          up-IsIndexed up-times in
      let third = update_el-with_index new_element down l down-StandsAt down-IsIndexed down-times in
      let within : leb (length a) i ≡ false = ground (arith, h) in
      let held : Element → Held = λ x. record { element = x; has_heap = true } in
      rw (kept, first, second, third, within) (ap (λ x. some (held x, down)) (sym there))

  rescore_element-sifted :
      rescore_element score (record { element = at a i; has_heap = true }) a
      ≡ some (record { element = at sifted.0 sifted.1; has_heap = true }, sifted.0)
  unfolding IsIndexed
  rescore_element-sifted = rescore_element-from (at a i).index (indexed i h)

-- An element of a heap whose indices are right, of a peer that stands in it once, is rescored by what
-- the peer holds of it: that throws nothing, the heap order and the indices are right afterwards, the
-- peers are the same with that element's score being the new one, and what the peer holds is the entry
-- of the array at the index that it now keeps. What is held of an element without a heap, of whatever
-- index, is left as it is, and changes no array.
pub rescore_element_lem :
    (i score : ℕ) (a : List Element)
    → i < length a
    → IsHeap a
    → IsIndexed a
    → times (at a i).peer a ≡ 1
    → ((el : Element)
        → rescore_element score (record { element = el; has_heap = false }) a
          ≡ some (record { element = el; has_heap = false }, a))
      × (self : Held) × (a' : List Element) × (rescore_element score
            (record { element = at a i; has_heap = true })
            a
          ≡ some (self, a'))
      × IsHeap a'
      × IsIndexed a'
      × (at a' self.element.index ≡ self.element)
      × ((q : ℕ → ℕ → Bool)
          → count q a' + one_if (q (at a i).peer (at a i).score)
            ≡ count q a + one_if (q (at a i).peer score))
unfolding rescore_element siftup siftdown IsHeap IsHeapFrom IsIndexed
rescore_element_lem i score a h heap indexed once =
    let x = with_score score (at a i) in
    let b = set a i x in
    let (c, k) = siftup b i in
    let inside' = inside i score a h indexed once in
    let bound = (up-StandsAt i score a h indexed once).0 in
    let up = siftup_from-HasLow (suc i) b i (omega arith) inside' (rescored-HasHole i x a h heap) in
    let down = siftdown_from-IsHeapFrom 0 (length c) c k (omega arith) bound (omega arith) up in
    let (e, l) = siftdown c k in
    let there : (at e l).index ≡ l =
      down-IsIndexed i score a h indexed once l (down-StandsAt i score a h indexed once).0 in
    (
      λ el. refl,
      record { element = at e l; has_heap = true },
      e,
      rescore_element-sifted i score a h indexed once,
      λ k' p q. down k' p q (omega arith),
      down-IsIndexed i score a h indexed once,
      ap (λ n. at e n) there,
      λ q.
          omega
            (arith, count-siftdown q c k bound, count-siftup q b i inside', count-set q a i x h),
    )
