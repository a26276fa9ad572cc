-- ===== src/Node/V2/Args.antt =====
-- node/v2/args.js: a checksum and the arguments behind it, cut where the frame is full. An argument
-- is a Buffer, the list of its bytes, and the arguments are an array.
pub mod Cutting
pub mod Sent
pub mod Fragments
pub mod Writing
pub mod Losing
pub mod RoundTrip
pub mod Frames
use tchannel.Prelude.{
  ℕ, zero, suc, ◌+◌, ◌-◌, ◌*◌, ◌/◌, ◌%◌, ◌≤◌, ◌<◌, ◌≡◌, refl, sym, ap, ◌∙◌, ◌≢◌, ◌⊎◌, inl, inr, ◌↔◌,
  String, Bool, true, false, not, ◌&&◌, ◌||◌, List, [], ◌∷◌, ◌++◌, map, Option, none, some, arith,
  ltb, leb, ◌==◌, if◌then◌else◌, contains, string_eq, nat_eq, Eq, beq_self, is_some, or_default,
  Bool-cases, Option-cases, length, get_elem?, get_or, set, take, drop, replicate, All,
  length-append, append_assoc, append_nil, take-append-drop, drop-length-append, length-set,
  length-replicate, get_or-set, length-take, get_or-take, get_or-append, get_or-length,
}
use tchannel.Node.V2.Rw.{Rw, Lawful, Result, ok, err, ◌>>=◌, Bytes, ok-bind}
use tchannel.Node.V2.Checksum.{Checksum, Hashes, update1}
use tchannel.Node.V2.Bufrw.{Bufrw, Laws, width-written, width-fits}

abbrev pub overhead : ℕ
overhead = 2

-- flags & Flags.Fragment
unfoldable pub fragment_flag : ℕ → ℕ
fragment_flag flags = flags % 2

-- flags |= Flags.Fragment
unfoldable pub set_fragment : ℕ → ℕ
set_fragment flags = if flags % 2 == 0 then flags + 1 else flags

-- the continuation that `cont` holds; its checksum is the object of the body it is made for
pub record Cont : Type 0 where
  pub flags : ℕ
  pub args : List Bytes

-- what the bodies of the four kinds of call frames have for ArgsRW
pub record Body : Type 0 where
  pub flags : ℕ
  pub csum : Checksum
  pub args : List Bytes
  pub cont : Option Cont

-- the end that slice(0, j) has for j = remain - overhead, which counts from the back when negative
unfoldable pub slice_end : Bytes → ℕ → ℕ
slice_end arg remain =
    if ltb remain overhead then length arg - (overhead - remain) else remain - overhead

module _ (p : Bufrw) (hashes : Hashes) where
  -- self.argrw.writeInto and the update of the checksum by what it wrote
  unfoldable pub write_arg : Bytes → ℕ → Checksum → Result (Bytes × Checksum)
  write_arg arg remain csum = do
    bs ← p.buffer2.write_into arg remain
    ok (bs, update1 hashes (drop overhead bs) csum.val csum)

  -- the round in which the argument does not fit: what is left of it opens the continuation
  unfoldable pub write_cut : Bytes → List Bytes → ℕ → Checksum → ℕ → Result (Bytes × Body)
  write_cut arg more remain csum flags = do
    let j = slice_end arg remain
    (bs, csum') ← write_arg (take j arg) remain csum
    ok (
      bs,
      record {
        flags = set_fragment flags;
        csum = csum';
        args = take j arg ∷ [];
        cont = some (record { flags = fragment_flag flags; args = drop j arg ∷ more });
      },
    )

  -- The loop from the argument `arg` on, which stands in `body.args` as `held`: there is none in the
  -- one round for no arguments at all. `body.args` of the result is from `arg` on.
  unfoldable pub write_from :
      List Bytes → Bytes → List Bytes → ℕ → Checksum → ℕ → Result (Bytes × Body)
  write_from held arg [] remain csum flags =
      let min = if overhead + length arg == 0 then 0 else 1 in
      if ltb remain min
      then ok ([], record { flags = flags; csum = csum; args = held; cont = none })
      else if ltb remain (overhead + length arg)
      then write_cut arg [] remain csum flags
      else do
        (bs, csum') ← write_arg arg remain csum
        ok (bs, record { flags = flags; csum = csum'; args = held; cont = none })
  write_from held arg (next ∷ more) remain csum flags =
      let min = if overhead + length arg == 0 then 0 else 1 in
      if ltb remain min
      then ok ([], record { flags = flags; csum = csum; args = held ++ (next ∷ more); cont = none })
      else if ltb remain (overhead + length arg)
      then write_cut arg (next ∷ more) remain csum flags
      else do
        (bs, csum') ← write_arg arg remain csum
        let remain' = remain - length bs
        let rest = write_from (next ∷ []) next more remain' csum' flags
        if ltb remain' overhead
            then ok (
              bs,
              record { flags = flags; csum = csum'; args = held ++ (next ∷ more); cont = none },
            )
            else do (bs', body) ← rest; ok (bs ++ bs', record body { args = held ++ body.args })

  unfoldable pub write_list : List Bytes → ℕ → Checksum → ℕ → Result (Bytes × Body)
  write_list [] remain csum flags = write_from [] [] [] remain csum flags
  write_list (arg ∷ more) remain csum flags = write_from (arg ∷ []) arg more remain csum flags

  unfoldable pub write_fragment_into : Body → ℕ → Result (Bytes × Body)
  write_fragment_into body remain = write_list body.args remain body.csum body.flags

  -- the arguments of a body that has been cut already
  unfoldable pub write_all : List Bytes → ℕ → Checksum → Result (Bytes × Checksum)
  write_all [] remain csum = ok ([], csum)
  write_all (arg ∷ more) remain csum = do
    (bs, csum') ← write_arg arg remain csum
    (bs', csum'') ← write_all more (remain - length bs) csum'
    ok (bs ++ bs', csum'')

  unfoldable pub write_args : Body → ℕ → Result (Bytes × Body)
  write_args body remain = elim body.cont [
    | none ↦ write_fragment_into body remain
    | some cont ↦ do
      (bs, csum') ← write_all body.args remain body.csum
      ok (bs, record body { csum = csum' })
  ]

  -- The checksum is written in front, when the arguments are known.
  unfoldable pub write_into : Body → ℕ → Result (Bytes × Body)
  write_into body room = do
    skipped ← p.checksum.byte_length body.csum
    (bs, body') ← write_args body (room - skipped)
    cs ← p.checksum.write_into body'.csum room
    ok (cs ++ bs, body')

module _ (p : Bufrw) where
  unfoldable pub args_length : List Bytes → Result ℕ
  args_length [] = ok 0
  args_length (arg ∷ more) = do n ← p.buffer2.byte_length arg; m ← args_length more; ok (n + m)

  unfoldable pub byte_length : Body → Result ℕ
  byte_length body = do n ← p.checksum.byte_length body.csum; m ← args_length body.args; ok (n + m)

  -- `while (offset < buffer.length)`: as many rounds as there are bytes are enough, since each takes one
  -- at least
  unfoldable pub read_args : ℕ → Bytes → Result (List Bytes)
  read_args fuel [] = ok []
  read_args zero (b ∷ buffer) = ok []
  read_args (suc fuel) (b ∷ buffer) = do
    (arg, rest) ← p.buffer2.read_from (b ∷ buffer)
    args ← read_args fuel rest
    ok (arg ∷ args)

  unfoldable pub read_from : Bytes → Result (Checksum × List Bytes)
  read_from buffer = do
    (csum, rest) ← p.checksum.read_from buffer
    args ← read_args (length rest) rest
    ok (csum, args)
