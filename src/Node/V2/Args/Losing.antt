-- ===== src/Node/V2/Args/Losing.antt =====
-- Arguments of which one ends where the frame has no room for the size of the next.
use tchannel.Prelude.{
  ℕ, ◌+◌, ◌-◌, ◌≤◌, ◌<◌, ◌≡◌, refl, ap, inl, inr, String, true, false, List, [], ◌∷◌, ◌++◌, none,
  arith, ltb, leb, string_eq, nat_eq, Bool-cases, and_true, or_true, length,
}
use mathlib.Core.Path.{subst}
use tchannel.Node.V2.Rw.{Result, ok, Bytes}
use tchannel.Node.V2.Checksum.{Checksum, Hashes}
use tchannel.Node.V2.Bufrw.{Bufrw, Laws}
use tchannel.Node.V2.Args.{Body, write_from, read_args}
use tchannel.Node.V2.Args.Cutting.{is_tight}
use tchannel.Node.V2.Args.Sent.{IsArg, write_arg-IsArg, read_args-one, read_args-append}
use tchannel.Node.V2.Args.Writing.{
  write_arg-fits, write_from-tight, write_from-on, write_from-writes,
}

-- what a frame says of arguments that it does not hold and leaves to no continuation
pub record IsLosing (p : Bufrw) (args : List Bytes) (flags : ℕ) (bs : Bytes) (body : Body)
    : Type 0 where
  pub sent : List Bytes
  pub lost : List Bytes
  pub reads : (n : ℕ) → length bs ≤ n → read_args p n bs ≡ ok sent
  pub all : sent ++ lost ≡ args
  pub some_lost : 0 < length lost
  pub no_cont : body.cont ≡ none
  pub unflagged : body.flags ≡ flags

-- two results of the same run
ok-pair :
    (r : Result (Bytes × Body)) (bs bs' : Bytes) (body body' : Body)
    → r ≡ ok (bs, body)
    → r ≡ ok (bs', body')
    → (bs ≡ bs') × (body ≡ body')
ok-pair r bs bs' body body' h k = (cc, cc)

module _ (p : Bufrw) (hashes : Hashes) (Stored : String → Type 0) (laws : Laws p Stored) where
  IsLosing-path :
      (args : List Bytes) (flags : ℕ) {bs bs' : Bytes} {body body' : Body}
      → bs ≡ bs'
      → body ≡ body'
      → IsLosing p args flags bs body
      → IsLosing p args flags bs' body'
  IsLosing-path args flags {bs} {bs'} {body} {body'} e b s =
      subst (λ x. IsLosing p args flags bs' x) b (subst (λ x. IsLosing p args flags x body) e s)

  here-IsLosing :
      (arg next : Bytes) (more : List Bytes) (remain : ℕ) (csum csum' : Checksum) (flags : ℕ)
      (bs : Bytes)
      → length arg < 65536
      → IsArg p hashes arg remain csum bs csum'
      → IsLosing p
          (arg ∷ next ∷ more)
          flags
          bs
          (record { flags = flags; csum = csum'; args = (arg ∷ []) ++ (next ∷ more); cont = none })
  here-IsLosing arg next more remain csum csum' flags bs small a = record {
    sent = arg ∷ [];
    lost = next ∷ more;
    reads = λ n h. read_args-one p hashes Stored laws arg remain csum csum' bs n small a h;
    all = refl;
    some_lost = omega arith;
    no_cont = refl;
    unflagged = refl;
  }

  later-IsLosing :
      (arg : Bytes) (more : List Bytes) (remain : ℕ) (csum csum' : Checksum) (flags : ℕ)
      (bs bs' : Bytes) (body : Body)
      → length arg < 65536
      → IsArg p hashes arg remain csum bs csum'
      → IsLosing p more flags bs' body
      → IsLosing p (arg ∷ more) flags (bs ++ bs') (record body { args = (arg ∷ []) ++ body.args })
  later-IsLosing arg more remain csum csum' flags bs bs' body small a s = record {
    sent = arg ∷ s.sent;
    lost = s.lost;
    reads = λ n h.
        read_args-append p hashes Stored laws arg remain csum csum' bs bs' s.sent n small a s.reads
          h;
    all = ap (λ l. arg ∷ l) s.all;
    some_lost = s.some_lost;
    no_cont = s.no_cont;
    unflagged = s.unflagged;
  }

  -- When an argument that is not the last ends where the frame has no room for the size of the next
  -- one, writeFragmentInto ends well without a continuation and without a change of the flags, and what
  -- is read of the frame lacks the arguments after it.
  pub write_from-IsLosing :
      (arg : Bytes) (more : List Bytes) (remain : ℕ) (csum : Checksum) (flags : ℕ) (bs : Bytes)
      (body : Body)
      → 2 ≤ remain
      → remain < 65536
      → is_tight (arg ∷ more) remain ≡ true
      → write_from p hashes (arg ∷ []) arg more remain csum flags ≡ ok (bs, body)
      → IsLosing p (arg ∷ more) flags bs body
  write_from-IsLosing arg [] remain csum flags bs body roomy bounded tight h = cc
  write_from-IsLosing arg (next ∷ more) remain csum flags bs body roomy bounded tight h =
      let (le, cases) = and_true (leb (2 + length arg) remain) _ tight in
      let fits : ltb remain (2 + length arg) ≡ false = ground (arith, le) in
      let small : length arg < 65536 = ground (arith, le, bounded) in
      let (bs₁, csum', w, l) =
        write_arg-fits p hashes Stored laws arg remain csum (ground (arith, le)) bounded in
      let a = write_arg-IsArg p hashes Stored laws arg remain csum bs₁ csum' small w in
      elim (Bool-cases (ltb (remain - length bs₁) 2)) [
        | inl full ↦
            let (e, b) =
              ok-pair (write_from p hashes (arg ∷ []) arg (next ∷ more) remain csum flags) bs₁ bs
                (record {
                  flags = flags;
                  csum = csum';
                  args = (arg ∷ []) ++ (next ∷ more);
                  cont = none;
                })
                body
                (write_from-tight p hashes (arg ∷ []) arg next more remain csum csum' flags bs₁
                  roomy fits w full)
                h in
            IsLosing-path (arg ∷ next ∷ more) flags e b
              (here-IsLosing arg next more remain csum csum' flags bs₁ small a)
        | inr wide ↦
            let left : remain - length bs₁ ≡ remain - (2 + length arg) = rw l in
            let tight' : is_tight (next ∷ more) (remain - length bs₁) ≡ true = rw left (
              or_true (ltb (remain - (2 + length arg)) 2)
                (is_tight (next ∷ more) (remain - (2 + length arg))) cases (rw left at wide)) in
            let (bs', body', w') =
              write_from-writes p hashes Stored laws (next ∷ []) next more (remain - length bs₁)
                csum' flags (ground (arith, wide)) (omega (arith, bounded)) in
            let s =
              write_from-IsLosing next more (remain - length bs₁) csum' flags bs' body'
                (ground (arith, wide)) (omega (arith, bounded)) tight' w' in
            let (e, b) =
              ok-pair (write_from p hashes (arg ∷ []) arg (next ∷ more) remain csum flags)
                (bs₁ ++ bs') bs (record body' { args = (arg ∷ []) ++ body'.args }) body
                (write_from-on p hashes (arg ∷ []) arg next more remain csum csum' flags bs₁ bs'
                  body' roomy fits w wide w')
                h in
            IsLosing-path (arg ∷ next ∷ more) flags e b
              (later-IsLosing arg (next ∷ more) remain csum csum' flags bs₁ bs' body' small a s)
      ]
