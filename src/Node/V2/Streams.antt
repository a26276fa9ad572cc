-- ===== src/Node/V2/Streams.antt =====
-- Frames of arguments against the argument stream: what is left over for the next frame, and the stream
-- that holds what has come.
use tchannel.Prelude.{
  ℕ, ◌+◌, ◌-◌, ◌≤◌, ◌<◌, ◌≡◌, refl, ap, ◌∙◌, ◌⊎◌, inl, inr, true, false, List, [], ◌∷◌, ◌++◌, none,
  arith, ltb, leb, string_eq, nat_eq, Bool-cases, or_false, length, drop, append_assoc, length-drop,
}
use tchannel.Node.ArgStream.{InArgStream, create, handle_frame}
use tchannel.Node.ArgStream.Joining.{
  at2, at3, complete, more_of_2, rest_of_2, more_of_3, last_of_2, last_of_3,
}
use tchannel.Node.V2.Rw.{Bytes}
use tchannel.Node.V2.Args.Cutting.{rejoin, rejoin-cons, left_over, is_tight}

-- bytes and sizes that are to be sent
abbrev pub weight : List Bytes → ℕ
weight [] = 0
weight (arg ∷ args) = 2 + length arg + weight args

pub fits-le : (arg : Bytes) (room : ℕ) → leb (2 + length arg) room ≡ true → 2 + length arg ≤ room
fits-le arg room fits = ground (arith, fits)

weight-cut :
    (arg : Bytes) (more : List Bytes) (room : ℕ)
    → 2 ≤ room
    → leb (2 + length arg) room ≡ false
    → weight (drop (room - 2) arg ∷ more) + room ≡ 2 + weight (arg ∷ more)
weight-cut arg more room roomy full =
    let wide : room < 2 + length arg = ground (arith, full) in
    omega (arith, roomy, wide, length-drop (room - 2) arg)

pub weight-left_over :
    (args : List Bytes) (room : ℕ)
    → 2 ≤ room
    → is_tight args room ≡ false
    → (left_over args room ≡ []) ⊎ (weight (left_over args room) + room ≡ 2 + weight args)
weight-left_over [] room roomy loose = inl refl
weight-left_over (arg ∷ []) room roomy loose = elim (Bool-cases (leb (2 + length arg) room)) [
  | inl fits ↦ inl (rw fits)
  | inr full ↦ inr (rw full (weight-cut arg [] room roomy full))
]
weight-left_over (arg ∷ next ∷ more) room roomy loose =
    elim (Bool-cases (leb (2 + length arg) room)) [
      | inl fits ↦
          let (wide, loose') =
            or_false (ltb (room - (2 + length arg)) 2)
              (is_tight (next ∷ more) (room - (2 + length arg))) (rw fits at loose) in
          elim (weight-left_over (next ∷ more) (room - (2 + length arg)) (ground (arith, wide))
            loose') [
              | inl done' ↦ inl (rw (fits, done'))
              | inr e ↦ inr (rw fits (omega (arith, e, fits-le arg room fits)))
            ]
      | inr full ↦ inr (rw full (weight-cut arg (next ∷ more) room roomy full))
    ]

-- the state of the stream that has got some arguments, the last of which may go on
abbrev pub holding : List Bytes → InArgStream
holding [] = create
holding (xs ∷ []) = at2 xs
holding (xs ∷ ys ∷ more) = at3 xs ys

pub rejoin-length :
    (args more : List Bytes)
    → 0 < length args
    → 0 < length more
    → length (rejoin args more) + 1 ≡ length args + length more
rejoin-length [] more h k = let no : ⊥ = omega (arith, h) in elim no [ ]
rejoin-length (arg ∷ []) [] h k = let no : ⊥ = omega (arith, k) in elim no [ ]
rejoin-length (arg ∷ []) (part ∷ more) h k = omega arith
rejoin-length (arg ∷ next ∷ args) more h k =
    omega (arith, rejoin-length (next ∷ args) more (omega arith) k)

pub rejoin_assoc :
    (xs ys zs : List Bytes) → 0 < length ys → rejoin (rejoin xs ys) zs ≡ rejoin xs (rejoin ys zs)
rejoin_assoc [] ys zs h = refl
rejoin_assoc (x ∷ []) [] zs h = let no : ⊥ = omega (arith, h) in elim no [ ]
rejoin_assoc (x ∷ []) (y ∷ []) [] h = refl
rejoin_assoc (x ∷ []) (y ∷ []) (z ∷ zs) h = ap (λ a. a ∷ zs) (append_assoc x y z)
rejoin_assoc (x ∷ []) (y ∷ next ∷ ys) zs h = refl
rejoin_assoc (x ∷ next ∷ xs) ys zs h =
    let some_left : 0 < length (rejoin (next ∷ xs) ys) =
      omega (arith, rejoin-length (next ∷ xs) ys (omega arith) h, h) in
    rejoin-cons x (rejoin (next ∷ xs) ys) zs some_left
    ∙ ap (λ l. x ∷ l) (rejoin_assoc (next ∷ xs) ys zs h)

pub frame-holding :
    (pre parts : List Bytes)
    → 0 < length pre
    → 0 < length parts
    → length (rejoin pre parts) ≤ 2
    → handle_frame parts false (holding pre) ≡ (none, holding (rejoin pre parts))
frame-holding [] parts h k small = let no : ⊥ = omega (arith, h) in elim no [ ]
frame-holding (x ∷ []) [] h k small = let no : ⊥ = omega (arith, k) in elim no [ ]
frame-holding (x ∷ []) (a ∷ []) h k small = more_of_2 x a
frame-holding (x ∷ []) (a ∷ b ∷ []) h k small = rest_of_2 x a b
frame-holding (x ∷ []) (a ∷ b ∷ c ∷ parts) h k small =
    let no : ⊥ = omega (arith, small) in elim no [ ]
frame-holding (x ∷ y ∷ []) [] h k small = let no : ⊥ = omega (arith, k) in elim no [ ]
frame-holding (x ∷ y ∷ []) (a ∷ []) h k small = more_of_3 x y a
frame-holding (x ∷ y ∷ []) (a ∷ b ∷ parts) h k small =
    let no : ⊥ = omega (arith, small) in elim no [ ]
frame-holding (x ∷ y ∷ z ∷ pre) parts h k small =
    let no : ⊥ = omega (arith, small, rejoin-length (x ∷ y ∷ z ∷ pre) parts h k, k) in elim no [ ]

complete_path : {xs xs' ys ys' : Bytes} → xs ≡ xs' → ys ≡ ys' → complete xs ys ≡ complete xs' ys'
complete_path e f = cc

-- the last frame completes both arguments
pub last-holding :
    (pre parts : List Bytes) (arg2 arg3 : Bytes)
    → 0 < length pre
    → 0 < length parts
    → rejoin pre parts ≡ arg2 ∷ arg3 ∷ []
    → handle_frame parts true (holding pre) ≡ (none, complete arg2 arg3)
last-holding [] parts arg2 arg3 h k e = let no : ⊥ = omega (arith, h) in elim no [ ]
last-holding (x ∷ []) [] arg2 arg3 h k e = let no : ⊥ = omega (arith, k) in elim no [ ]
last-holding (x ∷ []) (a ∷ []) arg2 arg3 h k e = cc
last-holding (x ∷ []) (a ∷ b ∷ []) arg2 arg3 h k e =
    let e₂ : x ++ a ≡ arg2 = cc in
    let e₃ : b ≡ arg3 = cc in last_of_2 x a b ∙ ap (λ s. (none, s)) (complete_path e₂ e₃)
last-holding (x ∷ []) (a ∷ b ∷ c ∷ parts) arg2 arg3 h k e = cc
last-holding (x ∷ y ∷ []) [] arg2 arg3 h k e = let no : ⊥ = omega (arith, k) in elim no [ ]
last-holding (x ∷ y ∷ []) (a ∷ []) arg2 arg3 h k e =
    let e₂ : x ≡ arg2 = cc in
    let e₃ : y ++ a ≡ arg3 = cc in last_of_3 x y a ∙ ap (λ s. (none, s)) (complete_path e₂ e₃)
last-holding (x ∷ y ∷ []) (a ∷ b ∷ parts) arg2 arg3 h k e = cc
last-holding (x ∷ y ∷ z ∷ pre) parts arg2 arg3 h k e =
    let l : length (rejoin (x ∷ y ∷ z ∷ pre) parts) ≡ 2 = ap length e in
    let no : ⊥ = omega (arith, l, rejoin-length (x ∷ y ∷ z ∷ pre) parts h k, k) in elim no [ ]
