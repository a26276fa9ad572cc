-- ===== src/Node/PeerHeap.antt =====
-- node/peer_heap.js: the heap from which a channel chooses the peer of the highest score. The array
-- is a list of elements, a peer is known by a number, and a score is a natural number. The elements
-- keep their index in the array, from which a peer rescores its element; which element that is, the
-- peer says.
pub mod Order
pub mod Sifting
pub mod Contents
pub mod Building
pub mod Popping
pub mod Following
pub mod Rescoring
pub mod Choosing
mod Tests
use tchannel.Prelude.{
  ℕ, zero, suc, ◌+◌, ◌-◌, ◌*◌, ◌/◌, ◌%◌, ◌≤◌, ◌<◌, ◌≡◌, refl, sym, ap, ◌∙◌, ◌≢◌, ◌⊎◌, inl, inr, ◌↔◌,
  String, Bool, true, false, not, ◌&&◌, ◌||◌, List, [], ◌∷◌, ◌++◌, map, Option, none, some, arith,
  ltb, leb, ◌==◌, if◌then◌else◌, contains, string_eq, nat_eq, Eq, beq_self, is_some, or_default,
  Bool-cases, Option-cases, length, get_elem?, get_or, set, take, replicate, All, length-append,
  length-set, length-replicate, get_or-set, length-take, get_or-take, get_or-append, get_or-length,
}

pub record Element : Type 0 where
  pub peer : ℕ
  pub score : ℕ
  pub index : ℕ

abbrev blank : Element
blank = record { peer = 0; score = 0; index = 0 }

-- self.array[i], asked only within the array
abbrev pub at : List Element → ℕ → Element
at a i = get_or a i blank

abbrev pub score_at : List Element → ℕ → ℕ
score_at a i = (at a i).score

abbrev pub put_at : List Element → ℕ → Element → List Element
put_at a i x = set a i (record x { index = i })

unfoldable pub swap : List Element → ℕ → ℕ → List Element
swap a i j = put_at (put_at a i (at a j)) j (at a i)

abbrev pub parent : ℕ → ℕ
parent i = (i - 1) / 2

-- The loop of siftup, on fuel, with the index that it returns. `i` rounds are enough.
unfoldable pub siftup_from : ℕ → List Element → ℕ → List Element × ℕ
siftup_from zero a i = (a, i)
siftup_from (suc fuel) a i =
    let rest = siftup_from fuel (swap a i (parent i)) (parent i) in
    if i == 0 then (a, 0) else (if ltb (score_at a (parent i)) (score_at a i) then rest else (a, i))

unfoldable pub siftup : List Element → ℕ → List Element × ℕ
siftup a i = siftup_from (suc i) a i

-- the child with the higher score, the left one where they are equal
abbrev pub child_of : List Element → ℕ → ℕ
child_of a i =
    let left = 2 * i + 1 in
    let right = left + 1 in
    if ltb right (length a) && ltb (score_at a left) (score_at a right) then right else left

-- The loop of siftdown, on fuel, with the index that it returns. A round per element is enough.
unfoldable pub siftdown_from : ℕ → List Element → ℕ → List Element × ℕ
siftdown_from zero a i = (a, i)
siftdown_from (suc fuel) a i =
    let child = child_of a i in
    let rest = siftdown_from fuel (swap a i child) child in
    if leb (length a) (2 * i + 1)
    then (a, i)
    else (if ltb (score_at a i) (score_at a child) then rest else (a, i))

unfoldable pub siftdown : List Element → ℕ → List Element × ℕ
siftdown a i = siftdown_from (length a) a i

-- the loop of heapify, over the indices below `n` from the last
unfoldable pub heapify_below : ℕ → List Element → List Element
heapify_below zero a = a
heapify_below (suc i) a = heapify_below i (siftdown a i).0

unfoldable pub heapify : List Element → List Element
heapify a = if leb (length a) 1 then a else heapify_below (length a / 2) a

-- el.score = el.peer.handler.getScore() for each element; `get_score` is the peers' present scores.
unfoldable pub rescored : (ℕ → ℕ) → List Element → List Element
rescored get_score [] = []
rescored get_score (x ∷ a) = record x { score = get_score x.peer } ∷ rescored get_score a

unfoldable pub rescore : (ℕ → ℕ) → List Element → List Element
rescore get_score a = heapify (rescored get_score a)

-- push(peer, score), with the index of the new element
unfoldable pub push : ℕ → ℕ → List Element → List Element × ℕ
push peer score a =
    siftup (a ++ record { peer = peer; score = score; index = length a } ∷ []) (length a)

pub add : (ℕ → ℕ) → ℕ → List Element → List Element × ℕ
add get_score peer a = push peer (get_score peer) a

abbrev pub drop_last : List Element → List Element
drop_last a = take (length a - 1) a

unfoldable pub remove : ℕ → List Element → List Element
remove i a =
    let j = length a - 1 in
    if leb (length a) i
    then a
    else (if i == j then drop_last a else (siftup (drop_last (swap a i j)) i).0)

-- What pop returns: nothing, a peer, or, from an array of one element, the element itself.
pub data Popped : Type 0 where
  nothing : Popped
  the_peer : ℕ → Popped
  the_element : Element → Popped

-- self.array[0] = self.array.pop(): the element keeps the index that it had
abbrev pub moved : List Element → List Element
moved a = set (drop_last a) 0 (at a (length a - 1))

unfoldable pub pop : List Element → List Element × Popped
pop [] = ([], nothing)
pop (x ∷ []) = ([], the_element x)
pop (x ∷ y ∷ a) = ((siftdown (moved (x ∷ y ∷ a)) 0).0, the_peer x.peer)

-- What a peer holds of its element: the fields, and whether `heap` is set. The array's entry of that
-- peer is the same object.
pub record Held : Type 0 where
  pub element : Element
  pub has_heap : Bool

-- a change of the element of a peer, wherever it stands in the array
unfoldable pub update_el : ℕ → (Element → Element) → List Element → List Element
update_el peer f [] = []
update_el peer f (x ∷ a) = (if x.peer == peer then f x else x) ∷ update_el peer f a

abbrev pub with_score : ℕ → Element → Element
with_score score x = record x { score = score }

abbrev pub with_index : ℕ → Element → Element
with_index i x = record x { index = i }

-- PeerHeapElement.prototype.rescore, with the score that is given. It sifts from the index that the
-- element keeps; `none` is the TypeError of an index that is not in the array.
unfoldable pub rescore_element : ℕ → Held → List Element → Option (Held × List Element)
rescore_element score self a =
    let el = self.element in
    let (up, k) = siftup (update_el el.peer (with_score score) a) el.index in
    let (down, l) = siftdown (update_el el.peer (with_index k) up) k in
    if not self.has_heap
    then some (self, a)
    else (if leb (length a) el.index && not (el.index == 0)
        then none
        else some (
          record self { element = record el { score = score; index = l } },
          update_el el.peer (with_index l) down,
        ))

-- PeerHeap.prototype.clear: the elements leave the heap; the stack of a search stays
pub clear : List Element → List Element
clear a = []

-- _chooseEl: the root, if its score is over the threshold
abbrev pub choose_el : ℕ → List Element → Option Element
choose_el threshold a = if leb (score_at a 0) threshold then none else some (at a 0)

-- the children that the search pushes: where the left one is not the lesser, it is pushed twice
abbrev pub pushed : List Element → ℕ → List ℕ
pushed a i =
    let left = 2 * i + 1 in
    let right = left + 1 in
    if ltb left (length a)
    then (if ltb right (length a)
        then (if ltb (score_at a left) (score_at a right)
            then right ∷ left ∷ []
            else left ∷ left ∷ [])
        else left ∷ [])
    else []

-- What a search comes to: an element or null, or the TypeError of an index that is not in the array.
pub data Search : Type 0 where
  threw : Search
  found : Option Element → Search

-- _chooseFilteredEl: the loop over the stack, on fuel, with the stack that it leaves: a search that
-- returns an element does not clear it. The outer `none` is the fuel running out.
unfoldable pub search_from : ℕ → (ℕ → Bool) → ℕ → List Element → List ℕ → Option (List ℕ × Search)
search_from fuel filter threshold a [] = some ([], found none)
search_from zero filter threshold a (i ∷ stack) = none
search_from (suc fuel) filter threshold a (i ∷ stack) =
    let rest = search_from fuel filter threshold a (stack ++ pushed a i) in
    if leb (length a) i
    then some (stack, threw)
    else (if leb (score_at a i) threshold
        then some ([], found none)
        else (if filter (at a i).peer then some (stack, found (some (at a i))) else rest))

abbrev pub PeerHeap : Type 0
PeerHeap = List Element × List ℕ

-- the rounds that are enough for one index, under which stand at most `n` levels
unfoldable pub rounds : ℕ → ℕ
rounds zero = 1
rounds (suc n) = rounds n + rounds n + 1

-- the loop on enough fuel for every index of the stack: see `PeerHeap.Choosing`
unfoldable pub choose_filtered_el : (ℕ → Bool) → ℕ → PeerHeap → Option (List ℕ × Search)
choose_filtered_el filter threshold (a, stack) =
    search_from (length (stack ++ 0 ∷ []) * rounds (length a)) filter threshold a (stack ++ 0 ∷ [])

-- choose: the stack that is left, and the element whose peer is returned
unfoldable pub choose : ℕ → Option (ℕ → Bool) → PeerHeap → Option (List ℕ × Search)
choose threshold filter ([], stack) = some (stack, found none)
choose threshold none (x ∷ a, stack) = some (stack, found (choose_el threshold (x ∷ a)))
choose threshold (some filter) (x ∷ a, stack) = choose_filtered_el filter threshold (x ∷ a, stack)
