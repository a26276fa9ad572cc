-- ===== src/Node/V2/Args/Sent.antt =====
-- One round of writeFragmentInto: what it has written and what a reader gets of it.
use tchannel.Prelude.{
  ℕ, zero, suc, ◌+◌, ◌-◌, ◌≤◌, ◌<◌, ◌≡◌, refl, sym, ap, ◌∙◌, String, true, false, List, [], ◌∷◌,
  ◌++◌, none, some, arith, ltb, leb, string_eq, nat_eq, length, take, drop, length-append,
  append_nil, take-append-drop, length-take,
}
use mathlib.Core.Path.{subst}
use tchannel.Node.V2.Rw.{Result, ok, ◌>>=◌, Bytes, ok-bind}
use tchannel.Node.V2.Checksum.{Checksum, Hashes, update1, updated}
use tchannel.Node.V2.Bufrw.{Bufrw, Laws, width-written}
use tchannel.Node.V2.Args.{
  Body, Cont, fragment_flag, set_fragment, slice_end, write_arg, write_cut, read_args,
}
use tchannel.Node.V2.Args.Cutting.{rejoin-cons, cont_args, left_over, IsSent}

-- the body that write_cut leaves
abbrev pub cut_body : Bytes → List Bytes → ℕ → Checksum → ℕ → Body
cut_body arg more j csum flags = record {
  flags = set_fragment flags;
  csum = csum;
  args = take j arg ∷ [];
  cont = some (record { flags = fragment_flag flags; args = drop j arg ∷ more });
}

cut_flags :
    (arg : Bytes) (more : List Bytes) (j : ℕ) (csum : Checksum) (flags : ℕ) (c : Cont)
    → (cut_body arg more j csum flags).cont ≡ some c
    → c.flags ≡ fragment_flag flags
cut_flags arg more j csum flags c e =
    let q : record { flags = fragment_flag flags; args = drop j arg ∷ more } ≡ c = cc in
    sym (ap (λ r. r.flags) q)

abbrev pub last_body : Bytes → Checksum → ℕ → Body
last_body arg csum flags = record { flags = flags; csum = csum; args = arg ∷ []; cont = none }

abbrev pub ended : Bytes → ℕ → Bytes × Checksum → Result (Bytes × Body)
ended arg flags r = ok (r.0, last_body arg r.1 flags)

-- what write_arg has written
pub record IsArg (p : Bufrw) (hashes : Hashes) (arg : Bytes) (remain : ℕ) (csum : Checksum)
    (bs : Bytes) (csum' : Checksum) : Type 0 where
  pub written : p.buffer2.write_into arg remain ≡ ok bs
  pub summed : csum' ≡ update1 hashes arg csum.val csum
  pub long : length bs ≡ 2 + length arg
  pub fits : length bs ≤ remain

fits-leb :
    (arg : Bytes) (remain : ℕ)
    → ltb remain (2 + length arg) ≡ false
    → leb (2 + length arg) remain ≡ true
fits-leb arg remain fits = ground (arith, fits)

cut-left :
    (arg : Bytes) (more : List Bytes) (remain : ℕ)
    → 2 ≤ remain
    → ltb remain (2 + length arg) ≡ true
    → drop (slice_end arg remain) arg ∷ more ≡ left_over (arg ∷ more) remain
unfolding slice_end
cut-left arg more remain roomy full =
    let c : ltb remain 2 ≡ false = ground arith in
    let n : leb (2 + length arg) remain ≡ false = ground (arith, full) in rw (c, n)

-- what is kept of an argument that does not fit fills the room
pub cut-short :
    (arg : Bytes) (remain : ℕ)
    → 2 ≤ remain
    → ltb remain (2 + length arg) ≡ true
    → length (take (slice_end arg remain) arg) + 2 ≡ remain
unfolding slice_end
cut-short arg remain roomy full =
    let c : ltb remain 2 ≡ false = ground arith in
    let l : length (take (remain - 2) arg) ≡ remain - 2 =
      length-take (remain - 2) arg (ground (arith, full)) in
    rw c (omega (arith, l, roomy))

module _ (p : Bufrw) (hashes : Hashes) (Stored : String → Type 0) (laws : Laws p Stored) where
  pub write_arg-IsArg :
      (arg : Bytes) (remain : ℕ) (csum : Checksum) (bs : Bytes) (csum' : Checksum)
      → length arg < 65536
      → write_arg p hashes arg remain csum ≡ ok (bs, csum')
      → IsArg p hashes arg remain csum bs csum'
  unfolding write_arg
  write_arg-IsArg arg remain csum bs csum' small h =
      let (bs₁, w, h₁) = ok-bind (p.buffer2.write_into arg remain) _ (bs, csum') h in
      let e : bs₁ ≡ bs = cc in
      let w' : p.buffer2.write_into arg remain ≡ ok bs = w ∙ ap ok e in
      let (long, fits) =
        width-written laws.buffer2 arg (2 + length arg) remain bs small
          (laws.buffer2_width arg small) w' in
      let q : update1 hashes (drop 2 bs₁) csum.val csum ≡ csum' = cc in
      let b : drop 2 bs₁ ≡ arg = laws.buffer2_bytes arg remain bs₁ small w in
      let s : csum' ≡ update1 hashes arg csum.val csum = rw b at (sym q) in
      record { written = w'; summed = s; long = long; fits = omega (arith, long, fits) }

  -- a buffer that starts with an argument is read in one round more
  read_args-step :
      (bs rest : Bytes) (arg : Bytes) (args : List Bytes) (n : ℕ)
      → 0 < length bs
      → p.buffer2.read_from bs ≡ ok (arg, rest)
      → read_args p n rest ≡ ok args
      → read_args p (suc n) bs ≡ ok (arg ∷ args)
  unfolding read_args
  read_args-step [] rest arg args n h r more = let no : ⊥ = omega (arith, h) in elim no [ ]
  read_args-step (b ∷ bs) rest arg args n h r more = rw (r, more)

  pub read_args-append :
      (arg : Bytes) (remain : ℕ) (csum csum' : Checksum) (bs rest : Bytes) (args : List Bytes)
      (n : ℕ)
      → length arg < 65536
      → IsArg p hashes arg remain csum bs csum'
      → ((m : ℕ) → length rest ≤ m → read_args p m rest ≡ ok args)
      → length (bs ++ rest) ≤ n
      → read_args p n (bs ++ rest) ≡ ok (arg ∷ args)
  read_args-append arg remain csum csum' bs rest args zero small a more h =
      let no : ⊥ = omega (arith, h, a.long, length-append bs rest) in elim no [ ]
  read_args-append arg remain csum csum' bs rest args (suc n) small a more h =
      read_args-step (bs ++ rest) rest arg args n (omega (arith, a.long, length-append bs rest))
        (laws.buffer2.reads arg remain bs rest small a.written)
        (more n (omega (arith, h, a.long, length-append bs rest)))

  read_args-nil : (n : ℕ) → 0 ≤ n → read_args p n [] ≡ ok []
  unfolding read_args
  read_args-nil zero h = refl
  read_args-nil (suc n) h = refl

  pub read_args-one :
      (arg : Bytes) (remain : ℕ) (csum csum' : Checksum) (bs : Bytes) (n : ℕ)
      → length arg < 65536
      → IsArg p hashes arg remain csum bs csum'
      → length bs ≤ n
      → read_args p n bs ≡ ok (arg ∷ [])
  read_args-one arg remain csum csum' bs n small a h =
      let h' : length (bs ++ []) ≤ n = rw (append_nil bs) h in
      let r : read_args p n (bs ++ []) ≡ ok (arg ∷ []) =
        read_args-append arg remain csum csum' bs [] [] n small a read_args-nil h' in
      rw (append_nil bs) at r

  pub IsSent-path :
      (args : List Bytes) (remain : ℕ) (csum : Checksum) (flags : ℕ) {bs bs' : Bytes}
      {body body' : Body}
      → bs ≡ bs'
      → body ≡ body'
      → IsSent p hashes args remain csum flags bs body
      → IsSent p hashes args remain csum flags bs' body'
  IsSent-path args remain csum flags {bs} {bs'} {body} {body'} e b s =
      subst (λ x. IsSent p hashes args remain csum flags bs' x) b
        (subst (λ x. IsSent p hashes args remain csum flags x body) e s)

  cut_body-IsSent :
      (arg : Bytes) (more : List Bytes) (j remain : ℕ) (csum csum' : Checksum) (flags : ℕ)
      (bs : Bytes)
      → drop j arg ∷ more ≡ left_over (arg ∷ more) remain
      → length (take j arg) < 65536
      → IsArg p hashes (take j arg) remain csum bs csum'
      → IsSent p hashes (arg ∷ more) remain csum flags bs (cut_body arg more j csum' flags)
  cut_body-IsSent arg more j remain csum csum' flags bs left small a = record {
    reads = λ n h. read_args-one (take j arg) remain csum csum' bs n small a h;
    joined = rw (take-append-drop j arg);
    left = left;
    whole = ground arith;
    cont_flags = λ c e. cut_flags arg more j csum' flags c e;
    some_sent = omega arith;
    summed = a.summed;
    fits = a.fits;
    flagged = refl;
  }

  -- the round that cuts
  pub write_cut-IsSent :
      (arg : Bytes) (more : List Bytes) (remain : ℕ) (csum : Checksum) (flags : ℕ) (bs : Bytes)
      (body : Body)
      → 2 ≤ remain
      → remain < 65536
      → ltb remain (2 + length arg) ≡ true
      → write_cut p hashes arg more remain csum flags ≡ ok (bs, body)
      → IsSent p hashes (arg ∷ more) remain csum flags bs body
  unfolding write_cut
  write_cut-IsSent arg more remain csum flags bs body roomy bounded full h =
      let j = slice_end arg remain in
      let short = cut-short arg remain roomy full in
      let ((bs₁, csum'), w, h₁) =
        ok-bind (write_arg p hashes (take j arg) remain csum) _ (bs, body) h in
      let small : length (take j arg) < 65536 = omega (arith, short, bounded) in
      let a = write_arg-IsArg (take j arg) remain csum bs₁ csum' small w in
      let e : bs₁ ≡ bs = cc in
      let b : cut_body arg more j csum' flags ≡ body = cc in
      IsSent-path (arg ∷ more) remain csum flags e b (
        cut_body-IsSent arg more j remain csum csum' flags bs₁ (cut-left arg more remain roomy full)
          small a)

  -- the round of the last argument
  write_last-IsSent :
      (arg : Bytes) (remain : ℕ) (csum csum' : Checksum) (flags : ℕ) (bs : Bytes)
      → ltb remain (2 + length arg) ≡ false
      → length arg < 65536
      → IsArg p hashes arg remain csum bs csum'
      → IsSent p hashes (arg ∷ []) remain csum flags bs (last_body arg csum' flags)
  write_last-IsSent arg remain csum csum' flags bs fits small a = record {
    reads = λ n h. read_args-one arg remain csum csum' bs n small a h;
    joined = refl;
    left = rw (fits-leb arg remain fits);
    whole = refl;
    cont_flags = λ c e. cc;
    some_sent = omega arith;
    summed = a.summed;
    fits = a.fits;
    flagged = refl;
  }

  pub write_last-end :
      (arg : Bytes) (remain : ℕ) (csum : Checksum) (flags : ℕ) (bs : Bytes) (body : Body)
      → ltb remain (2 + length arg) ≡ false
      → length arg < 65536
      → (write_arg p hashes arg remain csum >>= ended arg flags) ≡ ok (bs, body)
      → IsSent p hashes (arg ∷ []) remain csum flags bs body
  write_last-end arg remain csum flags bs body fits small h =
      let ((bs₁, csum'), w, h₁) =
        ok-bind (write_arg p hashes arg remain csum) (ended arg flags) (bs, body) h in
      let a = write_arg-IsArg arg remain csum bs₁ csum' small w in
      let e : bs₁ ≡ bs = cc in
      let b : last_body arg csum' flags ≡ body = cc in
      IsSent-path (arg ∷ []) remain csum flags e b
        (write_last-IsSent arg remain csum csum' flags bs₁ fits small a)

  -- a round with others behind it
  pub write_more-IsSent :
      (arg : Bytes) (more : List Bytes) (remain : ℕ) (csum csum' : Checksum) (flags : ℕ)
      (bs bs' : Bytes) (body : Body)
      → ltb remain (2 + length arg) ≡ false
      → length arg < 65536
      → IsArg p hashes arg remain csum bs csum'
      → IsSent p hashes more (remain - length bs) csum' flags bs' body
      → IsSent p hashes
          (arg ∷ more)
          remain
          csum
          flags
          (bs ++ bs')
          (record body { args = (arg ∷ []) ++ body.args })
  write_more-IsSent arg more remain csum csum' flags bs bs' body fits small a s =
      let sums : body.csum ≡ updated hashes body.args (update1 hashes arg csum.val csum) =
        rw⁻¹ a.summed s.summed in
      record {
        reads = λ n h. read_args-append arg remain csum csum' bs bs' body.args n small a s.reads h;
        joined =
            rejoin-cons arg body.args (cont_args body.cont) s.some_sent
            ∙ ap (λ l. arg ∷ l) s.joined;
        left = rw (fits-leb arg remain fits) (rw a.long at s.left);
        whole = s.whole;
        cont_flags = s.cont_flags;
        some_sent = omega arith;
        summed = sums;
        fits = omega (arith, length-append bs bs', a.fits, s.fits);
        flagged = s.flagged;
      }
