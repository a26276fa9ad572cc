-- ===== src/Node/V2/Args/Cutting.antt =====
-- Arguments that are cut where a frame is full: what is left for the next frame, how the parts are
-- joined, and what a frame says of the arguments that it was given.
use tchannel.Prelude.{
  ℕ, ◌+◌, ◌-◌, ◌≤◌, ◌<◌, ◌≡◌, refl, ap, Bool, false, ◌&&◌, ◌||◌, List, [], ◌∷◌, ◌++◌, Option, none,
  some, arith, ltb, leb, if◌then◌else◌, string_eq, nat_eq, is_some, length, drop,
}
use tchannel.Node.V2.Rw.{ok, Bytes}
use tchannel.Node.V2.Checksum.{Checksum, Hashes, updated}
use tchannel.Node.V2.Bufrw.{Bufrw}
use tchannel.Node.V2.Args.{Body, Cont, overhead, fragment_flag, set_fragment, read_args}

-- the arguments that a frame gives behind those of the frames before it: its first one goes on with
-- the last of theirs
abbrev pub rejoin : List Bytes → List Bytes → List Bytes
rejoin [] more = more
rejoin (arg ∷ []) [] = arg ∷ []
rejoin (arg ∷ []) (part ∷ more) = (arg ++ part) ∷ more
rejoin (arg ∷ next ∷ args) more = arg ∷ rejoin (next ∷ args) more

abbrev pub cont_args : Option Cont → List Bytes
cont_args none = []
cont_args (some c) = c.args

-- An argument that is not the last ends where there is no room for the size of the next one.
abbrev pub is_tight : List Bytes → ℕ → Bool
is_tight [] room = false
is_tight (arg ∷ []) room = false
is_tight (arg ∷ next ∷ more) room =
    leb (overhead + length arg) room
    && (ltb (room - (overhead + length arg)) overhead
        || is_tight (next ∷ more) (room - (overhead + length arg)))

pub rejoin_nil : (args : List Bytes) → rejoin args [] ≡ args
rejoin_nil [] = refl
rejoin_nil (arg ∷ []) = refl
rejoin_nil (arg ∷ next ∷ args) = ap (λ l. arg ∷ l) (rejoin_nil (next ∷ args))

pub rejoin-cons :
    (arg : Bytes) (sent more : List Bytes)
    → 0 < length sent
    → rejoin (arg ∷ sent) more ≡ arg ∷ rejoin sent more
rejoin-cons arg [] more h = let no : ⊥ = omega (arith, h) in elim no [ ]
rejoin-cons arg (next ∷ sent) more h = refl

-- What does not fit, for the next frame, independently of how it is written.
abbrev pub left_over : List Bytes → ℕ → List Bytes
left_over [] room = []
left_over (arg ∷ more) room =
    if leb (overhead + length arg) room
    then left_over more (room - (overhead + length arg))
    else drop (room - overhead) arg ∷ more

-- what a frame says of the arguments that it was given
pub record IsSent (p : Bufrw) (hashes : Hashes) (args : List Bytes) (remain : ℕ) (csum : Checksum)
    (flags : ℕ) (bs : Bytes) (body : Body) : Type 0 where
  pub reads : (n : ℕ) → length bs ≤ n → read_args p n bs ≡ ok body.args
  pub joined : rejoin body.args (cont_args body.cont) ≡ args
  pub some_sent : 0 < length body.args
  pub summed : body.csum ≡ updated hashes body.args csum
  pub left : cont_args body.cont ≡ left_over args remain
  pub whole : is_some body.cont ≡ ltb 0 (length (cont_args body.cont))
  pub cont_flags : (c : Cont) → body.cont ≡ some c → c.flags ≡ fragment_flag flags
  pub fits : length bs ≤ remain
  pub flagged : body.flags ≡ (if is_some body.cont then set_fragment flags else flags)
