-- ===== src/Node/V2/Args/RoundTrip.antt =====
-- A checksum and its arguments as ArgsRW writes and reads them.
use tchannel.Prelude.{
  ℕ, ◌+◌, ◌-◌, ◌≤◌, ◌<◌, ◌≡◌, sym, ◌∙◌, String, false, List, [], ◌∷◌, ◌++◌, Option, none, some,
  arith, ltb, ◌==◌, if◌then◌else◌, string_eq, nat_eq, is_some, length, length-append,
}
use Prim.Native.Nat.{◌^◌}
use mathlib.Core.Path.{subst}
use tchannel.Node.V2.Rw.{ok, Bytes, ok-bind}
use tchannel.Node.V2.Checksum.{
  Checksum, ChecksumType, none_type, crc32, farm32, crc32c, Hashes, compute1, update1, updated,
  kind-updated,
}
use tchannel.Node.V2.Bufrw.{Bufrw, Laws, IsChecksum, checksum_width, width-written}
use tchannel.Node.V2.Args.{
  Body, Cont, fragment_flag, set_fragment, write_list, write_fragment_into, write_args, write_into,
  read_args, read_from,
}
use tchannel.Node.V2.Args.Cutting.{rejoin, cont_args, left_over, is_tight, IsSent}
use tchannel.Node.V2.Args.Writing.{write_from-writes}
use tchannel.Node.V2.Args.Fragments.{write_from-IsSent}

-- what the packages' hash functions give
abbrev pub AreHashes : Hashes → Type 0
AreHashes hashes =
    ((arg : Bytes) (prior : Option ℕ) → hashes.crc32_of arg prior < 2 ^ 32)
    × ((arg : Bytes) (prior : ℕ) → hashes.crc32c_of arg prior < 2 ^ 32)
    × ((arg : Bytes) (prior : ℕ) → hashes.farm32_of arg prior < 2 ^ 32)

module _ (hashes : Hashes) (bounded : AreHashes hashes) where
  compute1-bounded :
      (kind : ChecksumType) (arg : Bytes) (prior : ℕ) → compute1 hashes kind arg prior < 2 ^ 32
  unfolding compute1
  compute1-bounded none_type arg prior = omega arith
  compute1-bounded crc32 arg prior = bounded.0 arg (if prior == 0 then none else some prior)
  compute1-bounded farm32 arg prior = bounded.2 arg prior
  compute1-bounded crc32c arg prior = bounded.1 arg prior

  compute1-none :
      (kind : ChecksumType) (arg : Bytes) (prior : ℕ)
      → kind ≡ none_type
      → compute1 hashes kind arg prior ≡ 0
  unfolding compute1
  compute1-none kind arg prior h = rw h

  pub updated-IsChecksum :
      (args : List Bytes) (csum : Checksum)
      → IsChecksum csum
      → IsChecksum (updated hashes args csum)
  unfolding update1
  updated-IsChecksum [] csum h = h
  updated-IsChecksum (arg ∷ args) csum h =
      updated-IsChecksum args (update1 hashes arg csum.val csum)
        (compute1-bounded csum.kind arg csum.val, compute1-none csum.kind arg csum.val)

-- the room that a body has for its arguments
abbrev pub args_room : Body → ℕ → ℕ
args_room body room = room - (1 + checksum_width body.csum.kind)

-- Arguments to be cut: some, with room for a size, and none that ends where the next has no room for its own.
abbrev pub IsCuttable : Body → ℕ → Type 0
IsCuttable body room =
    (body.cont ≡ none)
    × (0 < length body.args)
    × (2 ≤ args_room body room)
    × (room < 65536)
    × (is_tight body.args (args_room body room) ≡ false)

pub record IsFrame (p : Bufrw) (hashes : Hashes) (body : Body) (room : ℕ) (bs : Bytes)
    (body' : Body) : Type 0 where
  pub reads : read_from p bs ≡ ok (body'.csum, body'.args)
  pub joined : rejoin body'.args (cont_args body'.cont) ≡ body.args
  pub summed : body'.csum ≡ updated hashes body'.args body.csum
  pub flagged : body'.flags ≡ (if is_some body'.cont then set_fragment body.flags else body.flags)
  pub left : cont_args body'.cont ≡ left_over body.args (args_room body room)
  pub whole : is_some body'.cont ≡ ltb 0 (length (cont_args body'.cont))
  pub cont_flags : (c : Cont) → body'.cont ≡ some c → c.flags ≡ fragment_flag body.flags
  pub some_sent : 0 < length body'.args
  pub fits : length bs ≤ room

module _ (p : Bufrw) (hashes : Hashes) (Stored : String → Type 0) (laws : Laws p Stored)
    (bounded : AreHashes hashes) where
  write_list-IsSent :
      (args : List Bytes) (remain : ℕ) (csum : Checksum) (flags : ℕ) (bs : Bytes) (body : Body)
      → 0 < length args
      → 2 ≤ remain
      → remain < 65536
      → is_tight args remain ≡ false
      → write_list p hashes args remain csum flags ≡ ok (bs, body)
      → IsSent p hashes args remain csum flags bs body
  unfolding write_list
  write_list-IsSent [] remain csum flags bs body some_args roomy small loose h =
      let no : ⊥ = omega (arith, some_args) in elim no [ ]
  write_list-IsSent (arg ∷ more) remain csum flags bs body some_args roomy small loose h =
      write_from-IsSent p hashes Stored laws arg more remain csum flags bs body roomy small loose h

  write_list-writes :
      (args : List Bytes) (remain : ℕ) (csum : Checksum) (flags : ℕ)
      → 0 < length args
      → 2 ≤ remain
      → remain < 65536
      → (bs : Bytes) × (body : Body) × (write_list p hashes args remain csum flags ≡ ok (bs, body))
  unfolding write_list
  write_list-writes [] remain csum flags some_args roomy small =
      let no : ⊥ = omega (arith, some_args) in elim no [ ]
  write_list-writes (arg ∷ more) remain csum flags some_args roomy small =
      write_from-writes p hashes Stored laws (arg ∷ []) arg more remain csum flags roomy small

  read_from-written :
      (csum : Checksum) (cs bs : Bytes) (room : ℕ) (args : List Bytes)
      → IsChecksum csum
      → p.checksum.write_into csum room ≡ ok cs
      → read_args p (length bs) bs ≡ ok args
      → read_from p (cs ++ bs) ≡ ok (csum, args)
  unfolding read_from
  read_from-written csum cs bs room args good w r =
      rw (laws.checksum.reads csum room cs bs good w, r)

  checksum-written :
      (csum : Checksum) (room : ℕ) (cs : Bytes)
      → IsChecksum csum
      → p.checksum.write_into csum room ≡ ok cs
      → (length cs ≡ 1 + checksum_width csum.kind) × (1 + checksum_width csum.kind ≤ room)
  checksum-written csum room cs good w =
      width-written laws.checksum csum _ room cs good (laws.checksum_length csum) w

  sent-IsFrame :
      (body : Body) (room : ℕ) (cs bs : Bytes) (body' : Body)
      → IsCuttable body room
      → IsChecksum body.csum
      → p.checksum.write_into body'.csum room ≡ ok cs
      → IsSent p hashes body.args (args_room body room) body.csum body.flags bs body'
      → IsFrame p hashes body room (cs ++ bs) body'
  sent-IsFrame body room cs bs body' cuttable good w s =
      let good' : IsChecksum body'.csum =
        rw s.summed (updated-IsChecksum hashes bounded body'.args body.csum good) in
      let kind : body'.csum.kind ≡ body.csum.kind =
        rw s.summed (kind-updated hashes body'.args body.csum) in
      let (l, le) = checksum-written body'.csum room cs good' w in
      let l' : length cs ≡ 1 + checksum_width body.csum.kind = rw kind at l in
      record {
        reads =
            read_from-written body'.csum cs bs room body'.args good' w
              (s.reads (length bs) (omega arith));
        joined = s.joined;
        summed = s.summed;
        flagged = s.flagged;
        left = s.left;
        whole = s.whole;
        cont_flags = s.cont_flags;
        some_sent = s.some_sent;
        fits = omega (arith, length-append cs bs, l', s.fits, cuttable.2);
      }

  IsFrame-path :
      (body : Body) (room : ℕ) {bs bs' : Bytes} {body' body'' : Body}
      → bs ≡ bs'
      → body' ≡ body''
      → IsFrame p hashes body room bs body'
      → IsFrame p hashes body room bs' body''
  IsFrame-path body room {bs} {bs'} {body'} {body''} e b s =
      subst (λ x. IsFrame p hashes body room bs' x) b
        (subst (λ x. IsFrame p hashes body room x body') e s)

  write_args-cut :
      (body : Body) (remain : ℕ)
      → body.cont ≡ none
      → write_args p hashes body remain ≡ write_list p hashes body.args remain body.csum body.flags
  unfolding write_args write_fragment_into
  write_args-cut body remain c = rw c

  -- what is written of such a body is a frame of it
  pub write_into-IsFrame :
      (body : Body) (room : ℕ) (bs : Bytes) (body' : Body)
      → IsCuttable body room
      → IsChecksum body.csum
      → write_into p hashes body room ≡ ok (bs, body')
      → IsFrame p hashes body room bs body'
  unfolding write_into
  write_into-IsFrame body room bs body' cuttable good h =
      let (skipped, hs, h₁) = ok-bind (p.checksum.byte_length body.csum) _ (bs, body') h in
      let q : ok skipped ≡ ok (1 + checksum_width body.csum.kind) =
        sym hs ∙ laws.checksum_length body.csum in
      let width : skipped ≡ 1 + checksum_width body.csum.kind = cc in
      let ((xs, made), w, h₂) =
        ok-bind (write_args p hashes body (room - skipped)) _ (bs, body') h₁ in
      let w' : write_list p hashes body.args (args_room body room) body.csum body.flags
          ≡ ok (xs, made) =
        sym (write_args-cut body (args_room body room) cuttable.0) ∙ (rw width at w) in
      let s =
        write_list-IsSent body.args (args_room body room) body.csum body.flags xs made cuttable.1
          cuttable.2 (omega (arith, cuttable.3)) cuttable.4 w' in
      let (cs, wc, h₃) = ok-bind (p.checksum.write_into made.csum room) _ (bs, body') h₂ in
      let e : cs ++ xs ≡ bs = cc in
      let b : made ≡ body' = cc in
      IsFrame-path body room e b (sent-IsFrame body room cs xs made cuttable good wc s)

  write_into-ok :
      (body : Body) (room : ℕ) (cs bs : Bytes) (body' : Body)
      → write_args p hashes body (args_room body room) ≡ ok (bs, body')
      → p.checksum.write_into body'.csum room ≡ ok cs
      → write_into p hashes body room ≡ ok (cs ++ bs, body')
  unfolding write_into
  write_into-ok body room cs bs body' w wc = rw (laws.checksum_length body.csum, w, wc)

  pub write_into-writes :
      (body : Body) (room : ℕ)
      → IsCuttable body room
      → IsChecksum body.csum
      → (bs : Bytes) × (body' : Body) × (write_into p hashes body room ≡ ok (bs, body'))
  write_into-writes body room cuttable good =
      let remain = args_room body room in
      let (xs, made, w) =
        write_list-writes body.args remain body.csum body.flags cuttable.1 cuttable.2
          (omega (arith, cuttable.3)) in
      let s =
        write_list-IsSent body.args remain body.csum body.flags xs made cuttable.1 cuttable.2
          (omega (arith, cuttable.3)) cuttable.4 w in
      let good' : IsChecksum made.csum =
        rw s.summed (updated-IsChecksum hashes bounded made.args body.csum good) in
      let kind : made.csum.kind ≡ body.csum.kind =
        rw s.summed (kind-updated hashes made.args body.csum) in
      let (cs, wc) =
        laws.checksum.writes made.csum _ room good' (laws.checksum_length made.csum)
          (rw kind (omega (arith, cuttable.2))) in
      (
        cs ++ xs,
        made,
        write_into-ok body room cs xs made (write_args-cut body remain cuttable.0 ∙ w) wc,
      )
