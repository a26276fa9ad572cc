-- ===== src/Node/PeerHeap/Tests.antt =====
-- Runs of the heap, and the theorems at concrete heaps.
use tchannel.Prelude.{
  ℕ, zero, suc, ◌+◌, ◌*◌, ◌≤◌, ◌<◌, ◌≡◌, refl, Bool, true, false, List, [], ◌∷◌, map, none, some,
  arith, ◌==◌, string_eq, nat_eq, length,
}
use tchannel.Node.PeerHeap.{
  Element, score_at, swap, siftup_from, siftup, siftdown_from, siftdown, rescore, push, remove, pop,
  at, Held, update_el, rescore_element, Search, threw, found, search_from, rounds,
  choose_filtered_el, choose,
}
use tchannel.Node.PeerHeap.Order.{IsHeap, IsIndexed}
use tchannel.Node.PeerHeap.Contents.{count, one_if}
use tchannel.Node.PeerHeap.Popping.{pop_lem, popped_peer}
use tchannel.Node.PeerHeap.Building.{push_lem, rescore_lem}
use tchannel.Node.PeerHeap.Choosing.{IsChoice, choose_filtered_el_lem, choose-highest}
use tchannel.Node.PeerHeap.Rescoring.{rescore_element_lem}

abbrev element : ℕ → ℕ → ℕ → Element
element peer score index = record { peer = peer; score = score; index = index }

abbrev three : List Element
three = element 1 9 0 ∷ element 2 5 1 ∷ element 3 4 2 ∷ []

three-IsHeap : IsHeap three
unfolding IsHeap
three-IsHeap zero p q = omega (arith, p)
three-IsHeap (suc zero) p q = omega arith
three-IsHeap (suc (suc zero)) p q = omega arith
three-IsHeap (suc (suc (suc k))) p q = let no : ⊥ = omega (arith, q) in elim no [ ]

three-IsIndexed : IsIndexed three
unfolding IsIndexed
three-IsIndexed zero q = refl
three-IsIndexed (suc zero) q = refl
three-IsIndexed (suc (suc zero)) q = refl
three-IsIndexed (suc (suc (suc k))) q = let no : ⊥ = omega (arith, q) in elim no [ ]

pop_lem_example :
    IsHeap (pop three).0
    × ((k : ℕ) → k < length three → score_at three k ≤ 9)
    × ((q : ℕ → ℕ → Bool) → count q (pop three).0 + one_if (q 1 9) ≡ count q three)
    × (popped_peer (pop three).1 ≡ some 1)
pop_lem_example = pop_lem (element 1 9 0) (element 2 5 1 ∷ element 3 4 2 ∷ []) three-IsHeap

push_lem_example :
    IsHeap (push 4 7 three).0
    × IsIndexed (push 4 7 three).0
    × ((q : ℕ → ℕ → Bool) → count q (push 4 7 three).0 ≡ count q three + one_if (q 4 7))
push_lem_example = push_lem 4 7 three three-IsHeap three-IsIndexed

rescore_lem_example :
    IsHeap (rescore (λ peer. peer * peer) three)
    × ((q : ℕ → ℕ → Bool)
        → count q (rescore (λ peer. peer * peer) three)
          ≡ count (λ peer _. q peer (peer * peer)) three)
rescore_lem_example = rescore_lem (λ peer. peer * peer) three

choose_filtered_el_lem_example :
    (r : List ℕ × Search) × (choose_filtered_el (λ peer. peer == 2) 0 (three, []) ≡ some r)
    × IsChoice (λ peer. peer == 2) 0 three r
choose_filtered_el_lem_example =
    choose_filtered_el_lem (λ peer. peer == 2) 0 three [] tt (omega arith)

choose-highest_example :
    (choose 0 none (three, []) ≡ some ([], found (some (element 1 9 0))))
    × ((k : ℕ) → k < length three → score_at three k ≤ 9)
choose-highest_example =
    choose-highest 0 [] (element 1 9 0) (element 2 5 1 ∷ element 3 4 2 ∷ []) three-IsHeap

-- Where the left child is not the lesser one, the right one is not looked at.
right_child_skipped : choose 0 (some (λ peer. peer == 3)) (three, []) ≡ some ([], found none)
unfolding choose choose_filtered_el search_from rounds
right_child_skipped = refl

-- A search that finds its element leaves indices behind, and the next search of a smaller array meets
-- one that is out of it.
stack_left :
    choose 0 (some (λ peer. peer == 2)) (three, []) ≡ some (1 ∷ [], found (some (element 2 5 1)))
unfolding choose choose_filtered_el search_from rounds
stack_left = refl

next_search_throws :
    choose 0 (some (λ peer. peer == 2)) (element 2 5 0 ∷ [], 1 ∷ []) ≡ some (0 ∷ [], threw)
unfolding choose choose_filtered_el search_from rounds
next_search_throws = refl

-- remove moves the last element up only, so it may come to stand over greater ones.
abbrev seven : List Element
seven =
    element 1 10 0
    ∷ element 2 9 1
    ∷ element 3 3 2
    ∷ element 4 8 3
    ∷ element 5 7 4
    ∷ element 6 2 5
    ∷ element 7 1 6
    ∷ []

remove_breaks_order : map (λ x. x.score) (remove 1 seven) ≡ 10 ∷ 1 ∷ 3 ∷ 8 ∷ 7 ∷ 2 ∷ []
unfolding remove siftup siftup_from swap
remove_breaks_order = refl

-- pop leaves the last element's old index on the element that becomes the root.
pop_leaves_index : map (λ x. x.index) (pop (element 1 9 0 ∷ element 2 5 1 ∷ [])).0 ≡ 1 ∷ []
unfolding pop siftdown siftdown_from swap
pop_leaves_index = refl

rescore_element_lem_example :
    ((el : Element)
      → rescore_element 12 (record { element = el; has_heap = false }) three
        ≡ some (record { element = el; has_heap = false }, three))
    × (self : Held) × (a' : List Element) × (rescore_element 12
          (record { element = element 3 4 2; has_heap = true })
          three
        ≡ some (self, a'))
    × IsHeap a'
    × IsIndexed a'
    × (at a' self.element.index ≡ self.element)
    × ((q : ℕ → ℕ → Bool) → count q a' + one_if (q 3 4) ≡ count q three + one_if (q 3 12))
unfolding count
rescore_element_lem_example =
    rescore_element_lem 2 12 three (omega arith) three-IsHeap three-IsIndexed refl

-- After a pop the root keeps the index that it had, and a rescore of it throws.
stale_rescore_throws :
    rescore_element 1 (record { element = element 2 5 1; has_heap = true }) (element 2 5 1 ∷ [])
    ≡ none
unfolding rescore_element siftup siftup_from siftdown siftdown_from update_el swap
stale_rescore_throws = refl

-- An element that was cleared out of its heap is left as it is.
no_heap_no_rescore :
    rescore_element 1 (record { element = element 2 5 0; has_heap = false }) three
    ≡ some (record { element = element 2 5 0; has_heap = false }, three)
unfolding rescore_element siftup siftup_from siftdown siftdown_from update_el swap
no_heap_no_rescore = refl
