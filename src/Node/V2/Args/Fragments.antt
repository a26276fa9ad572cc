-- ===== src/Node/V2/Args/Fragments.antt =====
-- The loop of writeFragmentInto: what is read of a frame and what its continuation holds are what was
-- given.
use tchannel.Prelude.{
  ℕ, ◌+◌, ◌-◌, ◌≤◌, ◌<◌, ◌≡◌, inl, inr, String, true, false, List, [], ◌∷◌, ◌++◌, none, arith, ltb,
  leb, ◌==◌, if◌then◌else◌, string_eq, nat_eq, Bool-cases, or_false, length,
}
use tchannel.Node.V2.Rw.{Result, ok, ◌>>=◌, Bytes, ok-bind}
use tchannel.Node.V2.Checksum.{Checksum, Hashes}
use tchannel.Node.V2.Bufrw.{Bufrw, Laws}
use tchannel.Node.V2.Args.{Body, overhead, write_arg, write_cut, write_from}
use tchannel.Node.V2.Args.Cutting.{is_tight, IsSent}
use tchannel.Node.V2.Args.Sent.{
  ended, write_arg-IsArg, IsSent-path, write_cut-IsSent, write_last-end, write_more-IsSent,
}
use tchannel.Node.V2.Args.Cutting.{is_tight, IsSent}

loose_rest :
    (arg next : Bytes) (more : List Bytes) (remain : ℕ)
    → ltb remain (2 + length arg) ≡ false
    → is_tight (arg ∷ next ∷ more) remain ≡ false
    → (ltb (remain - (2 + length arg)) 2 ≡ false)
      × (is_tight (next ∷ more) (remain - (2 + length arg)) ≡ false)
loose_rest arg next more remain fits loose =
    let le : leb (2 + length arg) remain ≡ true = ground (arith, fits) in
    or_false _ _ (rw le at loose)

abbrev joined_to : Bytes → Bytes → Bytes × Body → Result (Bytes × Body)
joined_to arg bs r = ok (bs ++ r.0, record r.1 { args = (arg ∷ []) ++ r.1.args })

-- what follows a round with others behind it
abbrev went_on :
    Bufrw → Hashes → Bytes → Bytes → List Bytes → ℕ → ℕ → Bytes × Checksum → Result (Bytes × Body)
went_on p hashes arg next more remain flags r =
    if ltb (remain - length r.0) overhead
    then ok
        (r.0, record { flags = flags; csum = r.1; args = (arg ∷ []) ++ (next ∷ more); cont = none })
    else write_from p hashes (next ∷ []) next more (remain - length r.0) r.1 flags
      >>= joined_to arg r.0

went_on-parts :
    (p : Bufrw) (hashes : Hashes) (arg next : Bytes) (more : List Bytes) (remain flags : ℕ)
    (bs₁ : Bytes) (csum : Checksum) (bs : Bytes) (body : Body)
    → ltb (remain - length bs₁) overhead ≡ false
    → went_on p hashes arg next more remain flags (bs₁, csum) ≡ ok (bs, body)
    → (bs' : Bytes) × (body' : Body) × (write_from p hashes
          (next ∷ [])
          next
          more
          (remain - length bs₁)
          csum
          flags
        ≡ ok (bs', body'))
      × (bs₁ ++ bs' ≡ bs)
      × (record body' { args = (arg ∷ []) ++ body'.args } ≡ body)
went_on-parts p hashes arg next more remain flags bs₁ csum bs body wide h =
    let h' : (write_from p hashes (next ∷ []) next more (remain - length bs₁) csum flags
          >>= joined_to arg bs₁)
        ≡ ok (bs, body) =
      rw wide at h in
    let ((bs', body'), w, h₁) =
      ok-bind (write_from p hashes (next ∷ []) next more (remain - length bs₁) csum flags)
        (joined_to arg bs₁) (bs, body) h' in
    let e : bs₁ ++ bs' ≡ bs = cc in
    let b : record body' { args = (arg ∷ []) ++ body'.args } ≡ body = cc in (bs', body', w, e, b)

pub sized : (arg : Bytes) → (2 + length arg == 0) ≡ false
sized arg = ground arith

pub some_room : (remain : ℕ) → 2 ≤ remain → ltb remain 1 ≡ false
some_room remain roomy = ground (arith, roomy)

module _ (p : Bufrw) (hashes : Hashes) (Stored : String → Type 0) (laws : Laws p Stored) where
  -- With room for a size at least, and none lost between two arguments, what is read of a frame goes
  -- on with the continuation's arguments to what was given.
  pub write_from-IsSent :
      (arg : Bytes) (more : List Bytes) (remain : ℕ) (csum : Checksum) (flags : ℕ) (bs : Bytes)
      (body : Body)
      → 2 ≤ remain
      → remain < 65536
      → is_tight (arg ∷ more) remain ≡ false
      → write_from p hashes (arg ∷ []) arg more remain csum flags ≡ ok (bs, body)
      → IsSent p hashes (arg ∷ more) remain csum flags bs body
  unfolding write_from
  write_from-IsSent arg [] remain csum flags bs body roomy bounded loose h =
      elim (Bool-cases (ltb remain (2 + length arg))) [
        | inl full ↦
            let h' : write_cut p hashes arg [] remain csum flags ≡ ok (bs, body) =
              rw (sized arg, some_room remain roomy, full) at h in
            write_cut-IsSent p hashes Stored laws arg [] remain csum flags bs body roomy bounded
              full h'
        | inr fits ↦
            let h' : (write_arg p hashes arg remain csum >>= ended arg flags) ≡ ok (bs, body) =
              rw (sized arg, some_room remain roomy, fits) at h in
            write_last-end p hashes Stored laws arg remain csum flags bs body fits
              (ground (arith, fits, bounded)) h'
      ]
  write_from-IsSent arg (next ∷ more) remain csum flags bs body roomy bounded loose h =
      elim (Bool-cases (ltb remain (2 + length arg))) [
        | inl full ↦
            let h' : write_cut p hashes arg (next ∷ more) remain csum flags ≡ ok (bs, body) =
              rw (sized arg, some_room remain roomy, full) at h in
            write_cut-IsSent p hashes Stored laws arg (next ∷ more) remain csum flags bs body roomy
              bounded full h'
        | inr fits ↦
            let went : (write_arg p hashes arg remain csum
                  >>= went_on p hashes arg next more remain flags)
                ≡ ok (bs, body) =
              rw (sized arg, some_room remain roomy, fits) at h in
            let ((bs₁, csum'), w, h₁) =
              ok-bind (write_arg p hashes arg remain csum)
                (went_on p hashes arg next more remain flags) (bs, body) went in
            let small : length arg < 65536 = ground (arith, fits, bounded) in
            let a = write_arg-IsArg p hashes Stored laws arg remain csum bs₁ csum' small w in
            let (wide, loose') = loose_rest arg next more remain fits loose in
            let left : remain - (2 + length arg) ≡ remain - length bs₁ = rw a.long in
            let wide' : ltb (remain - length bs₁) 2 ≡ false = rw left at wide in
            let (bs', body', h₂, e, b) =
              went_on-parts p hashes arg next more remain flags bs₁ csum' bs body wide' h₁ in
            let s =
              write_from-IsSent next more (remain - length bs₁) csum' flags bs' body'
                (ground (arith, wide')) (omega (arith, bounded)) (rw left at loose') h₂ in
            IsSent-path p hashes Stored laws (arg ∷ next ∷ more) remain csum flags e b (
              write_more-IsSent p hashes Stored laws arg (next ∷ more) remain csum csum' flags bs₁
                bs' body' fits small a s)
      ]
