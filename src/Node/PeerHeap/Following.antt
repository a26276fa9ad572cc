-- ===== src/Node/PeerHeap/Following.antt =====
-- Where the loops leave the element that they move, and the array's entry of one peer.
use tchannel.Prelude.{
  ℕ, zero, suc, ◌+◌, ◌*◌, ◌<◌, ◌≡◌, refl, ap, inl, inr, List, [], ◌∷◌, arith, ltb, leb, ◌==◌,
  string_eq, nat_eq, Bool-cases, length, set,
}
use tchannel.Node.PeerHeap.{
  Element, at, score_at, swap, parent, siftup_from, siftup, child_of, siftdown_from, siftdown,
  update_el,
}
use tchannel.Node.PeerHeap.Order.{length-swap, at-swap}
use tchannel.Node.PeerHeap.Contents.{count}

-- the peer and the score of one element, at an index of the array
abbrev pub StandsAt : Element → List Element → ℕ → Type 0
StandsAt x a i = (i < length a) × ((at a i).peer ≡ x.peer) × ((at a i).score ≡ x.score)

swap-StandsAt :
    (x : Element) (a : List Element) (i j : ℕ)
    → j < length a
    → StandsAt x a i
    → StandsAt x (swap a i j) j
swap-StandsAt x a i j h (b, p, s) =
    let here = at-swap a i j j b h in
    (omega (arith, h, length-swap a i j), ground (arith, here, p), ground (arith, here, s))

siftup_from-StandsAt :
    (x : Element) (fuel : ℕ) (a : List Element) (i : ℕ)
    → StandsAt x a i
    → let (a', k) = siftup_from fuel a i in StandsAt x a' k
unfolding siftup_from
siftup_from-StandsAt x zero a i h = h
siftup_from-StandsAt x (suc fuel) a i h = elim (Bool-cases (i == 0)) [
  | inl root ↦ let is : i ≡ 0 = ground (arith, root) in rw root (rw is at h)
  | inr not_root ↦ elim (Bool-cases (ltb (score_at a (parent i)) (score_at a i))) [
    | inr stay ↦ rw (not_root, stay) h
    | inl up ↦
        let j = parent i in
        rw (not_root, up)
          (siftup_from-StandsAt x fuel (swap a i j) j
            (swap-StandsAt x a i j (omega (arith, h.0)) h))
  ]
]

siftdown_from-StandsAt :
    (x : Element) (fuel : ℕ) (a : List Element) (i : ℕ)
    → StandsAt x a i
    → let (a', k) = siftdown_from fuel a i in StandsAt x a' k
unfolding siftdown_from
siftdown_from-StandsAt x zero a i h = h
siftdown_from-StandsAt x (suc fuel) a i h = elim (Bool-cases (leb (length a) (2 * i + 1))) [
  | inl leaf ↦ rw leaf h
  | inr inner ↦
      let c = child_of a i in
      let b : c < length a = ground (arith, inner) in
      elim (Bool-cases (ltb (score_at a i) (score_at a c))) [
        | inr stay ↦ rw (inner, stay) h
        | inl down ↦
            rw (inner, down)
              (siftdown_from-StandsAt x fuel (swap a i c) c (swap-StandsAt x a i c b h))
      ]
]

pub siftup-StandsAt :
    (x : Element) (a : List Element) (i : ℕ)
    → StandsAt x a i
    → let (a', k) = siftup a i in StandsAt x a' k
unfolding siftup
siftup-StandsAt x a i h = siftup_from-StandsAt x (suc i) a i h

pub siftdown-StandsAt :
    (x : Element) (a : List Element) (i : ℕ)
    → StandsAt x a i
    → let (a', k) = siftdown a i in StandsAt x a' k
unfolding siftdown
siftdown-StandsAt x a i h = siftdown_from-StandsAt x (length a) a i h

-- how often a peer stands in the array
abbrev pub times : ℕ → List Element → ℕ
times peer a = count (λ p _. p == peer) a

update_el-none :
    (peer : ℕ) (f : Element → Element) (a : List Element)
    → times peer a ≡ 0
    → update_el peer f a ≡ a
unfolding update_el count
update_el-none peer f [] h = refl
update_el-none peer f (x ∷ a) h =
    let rest = update_el-none peer f a (ground (arith, h)) in ground (arith, h, rest)

times-positive :
    (peer i : ℕ) (a : List Element) → i < length a → (at a i).peer ≡ peer → 0 < times peer a
unfolding count
times-positive peer i [] h p = let no : ⊥ = omega (arith, h) in elim no [ ]
times-positive peer zero (x ∷ a) h p = ground (arith, p)
times-positive peer (suc i) (x ∷ a) h p =
    omega (arith, times-positive peer i a (omega (arith, h)) p)

-- a peer that stands once in the array is changed where it stands
pub update_el-set :
    (peer i : ℕ) (f : Element → Element) (a : List Element)
    → i < length a
    → (at a i).peer ≡ peer
    → times peer a ≡ 1
    → update_el peer f a ≡ set a i (f (at a i))
unfolding update_el count
update_el-set peer i f [] h p once = let no : ⊥ = omega (arith, h) in elim no [ ]
update_el-set peer zero f (x ∷ a) h p once =
    let rest = update_el-none peer f a (ground (arith, p, once)) in ground (arith, p, rest)
update_el-set peer (suc i) f (x ∷ a) h p once = elim (Bool-cases (x.peer == peer)) [
  | inr other ↦
      let rest = update_el-set peer i f a (omega (arith, h)) p (ground (arith, other, once)) in
      rw other (ap (λ l. x ∷ l) rest)
  | inl same ↦
      let rest : times peer a ≡ 0 = ground (arith, same, once) in
      let no : ⊥ = omega (arith, rest, times-positive peer i a (omega (arith, h)) p) in elim no [ ]
]
