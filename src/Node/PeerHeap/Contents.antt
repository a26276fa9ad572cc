-- ===== src/Node/PeerHeap/Contents.antt =====
-- What the loops keep: the length, the indices and the peers with their scores.
use tchannel.Prelude.{
  ℕ, zero, suc, ◌+◌, ◌*◌, ◌<◌, ◌≡◌, refl, inl, inr, Bool, true, false, List, [], ◌∷◌, ◌++◌, arith,
  ltb, leb, ◌==◌, string_eq, nat_eq, Bool-cases, length, set, length-set, get_or-set,
}
use tchannel.Node.PeerHeap.{
  Element, blank, at, score_at, swap, parent, siftup_from, siftup, child_of, siftdown_from,
  siftdown,
}
use tchannel.Node.PeerHeap.Order.{IsIndexed, IsIndexed-swap, length-swap}

-- kept by a swap within an array
abbrev pub IsKept : (List Element → Type 0) → Type 0
IsKept Q = (a : List Element) (i j : ℕ) → i < length a → j < length a → Q a → Q (swap a i j)

module _ (Q : List Element → Type 0) (keep : IsKept Q) where
  siftup_from-keeps :
      (fuel : ℕ) (a : List Element) (i : ℕ) → i < length a → Q a → Q (siftup_from fuel a i).0
  unfolding siftup_from
  siftup_from-keeps zero a i h q = q
  siftup_from-keeps (suc fuel) a i h q = elim (Bool-cases (i == 0)) [
    | inl root ↦ rw root q
    | inr not_root ↦ elim (Bool-cases (ltb (score_at a (parent i)) (score_at a i))) [
      | inr stay ↦ rw (not_root, stay) q
      | inl up ↦
          let b : parent i < length a = omega (arith, h) in
          rw (not_root, up)
            (siftup_from-keeps fuel (swap a i (parent i)) (parent i)
              (omega (arith, b, length-swap a i (parent i))) (keep a i (parent i) h b q))
    ]
  ]

  pub siftup-keeps : (a : List Element) (i : ℕ) → i < length a → Q a → Q (siftup a i).0
  unfolding siftup
  siftup-keeps a i h q = siftup_from-keeps (suc i) a i h q

  siftdown_from-keeps :
      (fuel : ℕ) (a : List Element) (i : ℕ) → i < length a → Q a → Q (siftdown_from fuel a i).0
  unfolding siftdown_from
  siftdown_from-keeps zero a i h q = q
  siftdown_from-keeps (suc fuel) a i h q = elim (Bool-cases (leb (length a) (2 * i + 1))) [
    | inl leaf ↦ rw leaf q
    | inr inner ↦
        let c = child_of a i in
        let b : c < length a = ground (arith, inner) in
        elim (Bool-cases (ltb (score_at a i) (score_at a c))) [
          | inr stay ↦ rw (inner, stay) q
          | inl down ↦
              rw (inner, down)
                (siftdown_from-keeps fuel (swap a i c) c (omega (arith, b, length-swap a i c))
                  (keep a i c h b q))
        ]
  ]

  pub siftdown-keeps : (a : List Element) (i : ℕ) → i < length a → Q a → Q (siftdown a i).0
  unfolding siftdown
  siftdown-keeps a i h q = siftdown_from-keeps (length a) a i h q

abbrev pub one_if : Bool → ℕ
one_if true = 1
one_if false = 0

-- how many elements pass a test on the peer and the score
unfoldable pub count : (ℕ → ℕ → Bool) → List Element → ℕ
count q [] = 0
count q (x ∷ a) = one_if (q x.peer x.score) + count q a

pub count-set :
    (q : ℕ → ℕ → Bool) (a : List Element) (i : ℕ) (x : Element)
    → i < length a
    → count q (set a i x) + one_if (q (at a i).peer (at a i).score)
      ≡ count q a + one_if (q x.peer x.score)
unfolding count
count-set q [] i x h = let no : ⊥ = omega (arith, h) in elim no [ ]
count-set q (y ∷ a) zero x h = ground arith
count-set q (y ∷ a) (suc i) x h = ground (arith, count-set q a i x (omega (arith, h)))

pub count-swap :
    (q : ℕ → ℕ → Bool) (a : List Element) (i j : ℕ)
    → i < length a
    → j < length a
    → count q (swap a i j) ≡ count q a
unfolding swap
count-swap q a i j h h' =
    let x = record (at a j) { index = i } in
    let y = record (at a i) { index = j } in
    let first = count-set q a i x h in
    let second = count-set q (set a i x) j y (omega (arith, h', length-set a i x)) in
    let here = get_or-set a i j x blank h in ground (arith, first, second, here)

pub count-append :
    (q : ℕ → ℕ → Bool) (a b : List Element) → count q (a ++ b) ≡ count q a + count q b
unfolding count
count-append q [] b = omega arith
count-append q (x ∷ a) b = omega (arith, count-append q a b)

count-IsKept : (q : ℕ → ℕ → Bool) (n : ℕ) → IsKept (λ a. count q a ≡ n)
count-IsKept q n a i j h h' e = omega (arith, e, count-swap q a i j h h')

length-IsKept : (n : ℕ) → IsKept (λ a. length a ≡ n)
length-IsKept n a i j h h' e = omega (arith, e, length-swap a i j)

pub count-siftup :
    (q : ℕ → ℕ → Bool) (a : List Element) (i : ℕ)
    → i < length a
    → count q (siftup a i).0 ≡ count q a
count-siftup q a i h = siftup-keeps _ (count-IsKept q (count q a)) a i h refl

pub count-siftdown :
    (q : ℕ → ℕ → Bool) (a : List Element) (i : ℕ)
    → i < length a
    → count q (siftdown a i).0 ≡ count q a
count-siftdown q a i h = siftdown-keeps _ (count-IsKept q (count q a)) a i h refl

pub length-siftup : (a : List Element) (i : ℕ) → i < length a → length (siftup a i).0 ≡ length a
length-siftup a i h = siftup-keeps _ (length-IsKept (length a)) a i h refl

pub length-siftdown : (a : List Element) (i : ℕ) → i < length a → length (siftdown a i).0 ≡ length a
length-siftdown a i h = siftdown-keeps _ (length-IsKept (length a)) a i h refl

pub IsIndexed-siftup :
    (a : List Element) (i : ℕ) → i < length a → IsIndexed a → IsIndexed (siftup a i).0
IsIndexed-siftup = siftup-keeps IsIndexed IsIndexed-swap

pub IsIndexed-siftdown :
    (a : List Element) (i : ℕ) → i < length a → IsIndexed a → IsIndexed (siftdown a i).0
IsIndexed-siftdown = siftdown-keeps IsIndexed IsIndexed-swap
