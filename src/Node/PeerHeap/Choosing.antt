-- ===== src/Node/PeerHeap/Choosing.antt =====
-- What a choice returns.
use tchannel.Prelude.{
  ℕ, zero, suc, ◌+◌, ◌-◌, ◌*◌, ◌≤◌, ◌<◌, ◌≡◌, refl, inl, inr, Bool, true, false, List, [], ◌∷◌,
  ◌++◌, none, some, arith, ltb, leb, if◌then◌else◌, string_eq, nat_eq, Bool-cases, length, All,
}
use tchannel.Node.PeerHeap.{
  Element, at, score_at, pushed, Search, threw, found, search_from, rounds, choose_filtered_el,
  choose,
}
use tchannel.Node.PeerHeap.Order.{IsHeap}
use tchannel.Node.PeerHeap.Popping.{IsHeap-root}

-- the rounds that the indices of a stack cost
unfoldable pub weight : ℕ → List ℕ → ℕ
weight n [] = 0
weight n (i ∷ s) = rounds (n - i) + weight n s

weight-append : (n : ℕ) (s t : List ℕ) → weight n (s ++ t) ≡ weight n s + weight n t
unfolding weight
weight-append n [] t = omega arith
weight-append n (i ∷ s) t = omega (arith, weight-append n s t)

rounds-le : (m n : ℕ) → m ≤ n → rounds m ≤ rounds n
unfolding rounds
rounds-le zero zero h = omega arith
rounds-le zero (suc n) h = omega arith
rounds-le (suc m) zero h = let no : ⊥ = omega (arith, h) in elim no [ ]
rounds-le (suc m) (suc n) h = omega (arith, rounds-le m n (omega (arith, h)))

weight-le : (n : ℕ) (s : List ℕ) → weight n s ≤ length s * rounds n
unfolding weight
weight-le n [] = omega arith
weight-le n (i ∷ s) = grind (arith, weight-le n s, rounds-le (n - i) n (omega arith))

-- a child costs less than half of what its parent does
rounds-child : (n i c : ℕ) → i < c → i < n → rounds (n - c) + rounds (n - c) < rounds (n - i)
unfolding rounds
rounds-child n i c l h =
    let e : n - i ≡ suc (n - i - 1) = omega (arith, h) in
    rw e (omega (arith, rounds-le (n - c) (n - i - 1) (omega (arith, l, h))))

rounds-pos : (n : ℕ) → 0 < rounds n
unfolding rounds
rounds-pos zero = omega arith
rounds-pos (suc n) = omega arith

-- every index of the stack is in the array
abbrev pub AllIn : List Element → List ℕ → Type 0
AllIn a = All (λ i. i < length a)

-- a search that throws or returns an element: the element is one of the array, passes the filter, and
-- its score is over the threshold
abbrev pub IsChoice : (ℕ → Bool) → ℕ → List Element → List ℕ × Search → Type 0
IsChoice filter threshold a (stack, threw) = ⊥
IsChoice filter threshold a (stack, found none) = stack ≡ []
IsChoice filter threshold a (stack, found (some x)) =
    (filter x.peer ≡ true) × (threshold < x.score) × ((i : ℕ) × (i < length a) × (at a i ≡ x))

weight-pushed :
    (a : List Element) (i : ℕ)
    → i < length a
    → weight (length a) (pushed a i) < rounds (length a - i)
unfolding weight
weight-pushed a i h = ground (
  arith,
  h,
  rounds-child (length a) i (2 * i + 1) (omega arith) h,
  rounds-child (length a) i (2 * i + 1 + 1) (omega arith) h,
)

AllIn-append : (a : List Element) (s t : List ℕ) → AllIn a s → AllIn a t → AllIn a (s ++ t)
AllIn-append a [] t p q = q
AllIn-append a (i ∷ s) t p q = (p.0, AllIn-append a s t p.1 q)

AllIn-pushed : (a : List Element) (i : ℕ) → AllIn a (pushed a i)
AllIn-pushed a i =
    let left = 2 * i + 1 in
    elim (Bool-cases (ltb left (length a))) [
      | inr no_left ↦ rw no_left tt
      | inl yes_left ↦ elim (Bool-cases (ltb (left + 1) (length a))) [
        | inr no_right ↦ rw (yes_left, no_right) (ground (arith, yes_left), tt)
        | inl yes_right ↦ elim (Bool-cases (ltb (score_at a left) (score_at a (left + 1)))) [
          | inl greater ↦
              rw (yes_left, yes_right, greater)
                (ground (arith, yes_right), (ground (arith, yes_left), tt))
          | inr other ↦
              rw (yes_left, yes_right, other)
                (ground (arith, yes_left), (ground (arith, yes_left), tt))
        ]
      ]
    ]

search_from_lem :
    (fuel : ℕ) (filter : ℕ → Bool) (threshold : ℕ) (a : List Element) (stack : List ℕ)
    → weight (length a) stack ≤ fuel
    → AllIn a stack
    → (r : List ℕ × Search) × (search_from fuel filter threshold a stack ≡ some r)
      × IsChoice filter threshold a r
unfolding search_from weight
search_from_lem fuel filter threshold a [] f h = (([], found none), refl, refl)
search_from_lem zero filter threshold a (i ∷ stack) f h =
    let no : ⊥ = omega (arith, f, rounds-pos (length a - i)) in elim no [ ]
search_from_lem (suc fuel) filter threshold a (i ∷ stack) f h =
    let inside : leb (length a) i ≡ false = ground (arith, h.0) in
    elim (Bool-cases (leb (score_at a i) threshold)) [
      | inl low ↦ rw (inside, low) (_, refl, refl)
      | inr over ↦ elim (Bool-cases (filter (at a i).peer)) [
        | inl accepted ↦
            rw (inside, over, accepted) (_, refl, (accepted, ground (arith, over), (i, h.0, refl)))
        | inr refused ↦
            let less : weight (length a) (stack ++ pushed a i) ≤ fuel =
              omega
                (arith, f, weight-append (length a) stack (pushed a i), weight-pushed a i h.0) in
            rw (inside, over, refused)
              (search_from_lem fuel filter threshold a (stack ++ pushed a i) less
                (AllIn-append a stack (pushed a i) h.1 (AllIn-pushed a i)))
      ]
    ]

-- A filtered choice whose stack holds only indices of the array always ends, throws nothing, and
-- returns null with an empty stack, or an element of the array that passes the filter and whose score
-- is over the threshold.
pub choose_filtered_el_lem :
    (filter : ℕ → Bool) (threshold : ℕ) (a : List Element) (stack : List ℕ)
    → AllIn a stack
    → 0 < length a
    → (r : List ℕ × Search) × (choose_filtered_el filter threshold (a, stack) ≡ some r)
      × IsChoice filter threshold a r
unfolding choose_filtered_el
choose_filtered_el_lem filter threshold a stack h p =
    search_from_lem (length (stack ++ 0 ∷ []) * rounds (length a)) filter threshold a
      (stack ++ 0 ∷ []) (weight-le (length a) (stack ++ 0 ∷ []))
      (AllIn-append a stack (0 ∷ []) h (p, tt))

-- Without a filter, the element chosen has the highest score of the heap, and there is one just when
-- that score is over the threshold.
pub choose-highest :
    (threshold : ℕ) (stack : List ℕ) (x : Element) (a : List Element)
    → IsHeap (x ∷ a)
    → (choose threshold none (x ∷ a, stack)
        ≡ some (stack, found (if ltb threshold x.score then some x else none)))
      × ((k : ℕ) → k < length (x ∷ a) → score_at (x ∷ a) k ≤ x.score)
unfolding choose
choose-highest threshold stack x a h =
    (ground arith, λ k l. IsHeap-root (suc k) (x ∷ a) k (omega arith) l h)
