-- ===== src/Node/V2/Args/Writing.antt =====
-- writeFragmentInto writes whatever the arguments are, from a room for one size on.
use tchannel.Prelude.{
  ℕ, ◌+◌, ◌-◌, ◌≤◌, ◌<◌, ◌≡◌, ◌∙◌, inl, inr, String, true, false, List, [], ◌∷◌, ◌++◌, none, arith,
  ltb, string_eq, nat_eq, Bool-cases, length, take, drop,
}
use tchannel.Node.V2.Rw.{ok, Bytes}
use tchannel.Node.V2.Checksum.{Checksum, Hashes, update1}
use tchannel.Node.V2.Bufrw.{Bufrw, Laws, width-fits}
use tchannel.Node.V2.Args.{Body, overhead, slice_end, write_arg, write_cut, write_from}
use tchannel.Node.V2.Args.Sent.{cut-short, cut_body}
use tchannel.Node.V2.Args.Fragments.{sized, some_room}

module _ (p : Bufrw) (hashes : Hashes) where
  write_from-cut :
      (held : List Bytes) (arg : Bytes) (more : List Bytes) (remain : ℕ) (csum : Checksum)
      (flags : ℕ)
      → 2 ≤ remain
      → ltb remain (2 + length arg) ≡ true
      → write_from p hashes held arg more remain csum flags
        ≡ write_cut p hashes arg more remain csum flags
  unfolding write_from
  write_from-cut held arg [] remain csum flags roomy full =
      rw (sized arg, some_room remain roomy, full)
  write_from-cut held arg (next ∷ more) remain csum flags roomy full =
      rw (sized arg, some_room remain roomy, full)

  write_from-last :
      (held : List Bytes) (arg : Bytes) (remain : ℕ) (csum csum' : Checksum) (flags : ℕ)
      (bs : Bytes)
      → 2 ≤ remain
      → ltb remain (2 + length arg) ≡ false
      → write_arg p hashes arg remain csum ≡ ok (bs, csum')
      → write_from p hashes held arg [] remain csum flags
        ≡ ok (bs, record { flags = flags; csum = csum'; args = held; cont = none })
  unfolding write_from
  write_from-last held arg remain csum csum' flags bs roomy fits w =
      rw (sized arg, some_room remain roomy, fits, w)

  -- no room for another size: the others are neither written nor kept for a continuation
  pub write_from-tight :
      (held : List Bytes) (arg next : Bytes) (more : List Bytes) (remain : ℕ)
      (csum csum' : Checksum) (flags : ℕ) (bs : Bytes)
      → 2 ≤ remain
      → ltb remain (2 + length arg) ≡ false
      → write_arg p hashes arg remain csum ≡ ok (bs, csum')
      → ltb (remain - length bs) 2 ≡ true
      → write_from p hashes held arg (next ∷ more) remain csum flags
        ≡ ok (bs, record { flags = flags; csum = csum'; args = held ++ (next ∷ more); cont = none })
  unfolding write_from
  write_from-tight held arg next more remain csum csum' flags bs roomy fits w tight =
      rw (sized arg, some_room remain roomy, fits, w, tight)

  pub write_from-on :
      (held : List Bytes) (arg next : Bytes) (more : List Bytes) (remain : ℕ)
      (csum csum' : Checksum) (flags : ℕ) (bs bs' : Bytes) (body : Body)
      → 2 ≤ remain
      → ltb remain (2 + length arg) ≡ false
      → write_arg p hashes arg remain csum ≡ ok (bs, csum')
      → ltb (remain - length bs) 2 ≡ false
      → write_from p hashes (next ∷ []) next more (remain - length bs) csum' flags ≡ ok (bs', body)
      → write_from p hashes held arg (next ∷ more) remain csum flags
        ≡ ok (bs ++ bs', record body { args = held ++ body.args })
  unfolding write_from
  write_from-on held arg next more remain csum csum' flags bs bs' body roomy fits w wide w' =
      rw (sized arg, some_room remain roomy, fits, w, wide, w')

module _ (p : Bufrw) (hashes : Hashes) (Stored : String → Type 0) (laws : Laws p Stored) where
  write_arg-ok :
      (arg : Bytes) (remain : ℕ) (csum : Checksum) (bs : Bytes)
      → p.buffer2.write_into arg remain ≡ ok bs
      → write_arg p hashes arg remain csum
        ≡ ok (bs, update1 hashes (drop overhead bs) csum.val csum)
  unfolding write_arg
  write_arg-ok arg remain csum bs w = rw w

  -- an argument that fits is written
  pub write_arg-fits :
      (arg : Bytes) (remain : ℕ) (csum : Checksum)
      → 2 + length arg ≤ remain
      → remain < 65536
      → (bs : Bytes) × (csum' : Checksum) × (write_arg p hashes arg remain csum ≡ ok (bs, csum'))
        × (length bs ≡ 2 + length arg)
  write_arg-fits arg remain csum fits bounded =
      let small : length arg < 65536 = omega (arith, fits, bounded) in
      let (bs, w, l) =
        width-fits laws.buffer2 arg (2 + length arg) remain small (laws.buffer2_width arg small)
          fits in
      (bs, update1 hashes (drop overhead bs) csum.val csum, write_arg-ok arg remain csum bs w, l)

  write_cut-ok :
      (arg : Bytes) (more : List Bytes) (remain : ℕ) (csum csum' : Checksum) (flags : ℕ)
      (bs : Bytes)
      → write_arg p hashes (take (slice_end arg remain) arg) remain csum ≡ ok (bs, csum')
      → write_cut p hashes arg more remain csum flags
        ≡ ok (bs, cut_body arg more (slice_end arg remain) csum' flags)
  unfolding write_cut
  write_cut-ok arg more remain csum csum' flags bs w = rw w

  write_cut-writes :
      (arg : Bytes) (more : List Bytes) (remain : ℕ) (csum : Checksum) (flags : ℕ)
      → 2 ≤ remain
      → remain < 65536
      → ltb remain (2 + length arg) ≡ true
      → (bs : Bytes) × (body : Body) × (write_cut p hashes arg more remain csum flags
          ≡ ok (bs, body))
  write_cut-writes arg more remain csum flags roomy bounded full =
      let j = slice_end arg remain in
      let short = cut-short arg remain roomy full in
      let (bs, csum', w, l) =
        write_arg-fits (take j arg) remain csum (omega (arith, short)) bounded in
      (bs, cut_body arg more j csum' flags, write_cut-ok arg more remain csum csum' flags bs w)

  -- From a room for one size on, writeFragmentInto writes, whatever the arguments are.
  pub write_from-writes :
      (held : List Bytes) (arg : Bytes) (more : List Bytes) (remain : ℕ) (csum : Checksum)
      (flags : ℕ)
      → 2 ≤ remain
      → remain < 65536
      → (bs : Bytes) × (body : Body) × (write_from p hashes held arg more remain csum flags
          ≡ ok (bs, body))
  write_from-writes held arg [] remain csum flags roomy bounded =
      elim (Bool-cases (ltb remain (2 + length arg))) [
        | inl full ↦
            let (bs, body, w) = write_cut-writes arg [] remain csum flags roomy bounded full in
            (bs, body, write_from-cut p hashes held arg [] remain csum flags roomy full ∙ w)
        | inr fits ↦
            let (bs, csum', w, l) = write_arg-fits arg remain csum (ground (arith, fits)) bounded in
            (bs, _, write_from-last p hashes held arg remain csum csum' flags bs roomy fits w)
      ]
  write_from-writes held arg (next ∷ more) remain csum flags roomy bounded =
      elim (Bool-cases (ltb remain (2 + length arg))) [
        | inl full ↦
            let (bs, body, w) =
              write_cut-writes arg (next ∷ more) remain csum flags roomy bounded full in
            (
              bs,
              body,
              write_from-cut p hashes held arg (next ∷ more) remain csum flags roomy full ∙ w,
            )
        | inr fits ↦
            let (bs, csum', w, l) = write_arg-fits arg remain csum (ground (arith, fits)) bounded in
            elim (Bool-cases (ltb (remain - length bs) 2)) [
              | inl tight ↦ (
                bs,
                _,
                write_from-tight p hashes held arg next more remain csum csum' flags bs roomy fits w
                    tight,
              )
              | inr wide ↦
                  let (bs', body, w') =
                    write_from-writes (next ∷ []) next more (remain - length bs) csum' flags
                      (ground (arith, wide)) (omega (arith, bounded)) in
                  (
                    bs ++ bs',
                    _,
                    write_from-on p hashes held arg next more remain csum csum' flags bs bs' body
                        roomy fits w wide w',
                  )
            ]
      ]
