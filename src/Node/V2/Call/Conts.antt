-- ===== src/Node/V2/Call/Conts.antt =====
-- Continuations of calls that are written to a frame are read back.
use tchannel.Prelude.{ℕ, ◌-◌, ◌<◌, ◌≡◌, String, List, ◌++◌, arith, string_eq, nat_eq}
use tchannel.Node.V2.Rw.{ok, Bytes}
use tchannel.Node.V2.Checksum.{Checksum, Hashes}
use tchannel.Node.V2.Bufrw.{Bufrw, Laws, IsChecksum, width-fits}
use tchannel.Node.V2.Args
use tchannel.Node.V2.Args.{Body, set_fragment}
use tchannel.Node.V2.Args.RoundTrip.{
  IsFrame, IsCuttable, AreHashes, write_into-IsFrame, write_into-writes,
}
use tchannel.Node.V2.Call.{read_body, read_call_cont_from, write_call_cont_into}
use tchannel.Node.V2.Call.Fields.{flags-bounded}

module _ (p : Bufrw) (hashes : Hashes) where
  cont-ok :
      (body : Body) (room : ℕ) (fs xs : Bytes) (body' : Body)
      → Args.write_into p hashes body (room - 1) ≡ ok (xs, body')
      → p.uint8.write_into body'.flags room ≡ ok fs
      → write_call_cont_into p hashes body room ≡ ok (fs ++ xs, body')
  unfolding write_call_cont_into
  cont-ok body room fs xs body' w₁ w₂ = rw (w₁, w₂)

  read_cont-ok :
      (fs xs : Bytes) (flags : ℕ) (r : Checksum × List Bytes)
      → p.uint8.read_from (fs ++ xs) ≡ ok (flags, xs)
      → Args.read_from p xs ≡ ok r
      → read_call_cont_from p (fs ++ xs) ≡ ok (read_body flags r)
  unfolding read_call_cont_from
  read_cont-ok fs xs flags r r₁ r₂ = rw (r₁, r₂)

-- what a frame with the bytes `bs` says of the continuation, of which `body'` is in it
pub record IsContFrame (p : Bufrw) (hashes : Hashes) (body : Body) (room : ℕ) (bs : Bytes)
    (body' : Body) : Type 0 where
  pub written : write_call_cont_into p hashes body room ≡ ok (bs, body')
  pub reads : read_call_cont_from p bs ≡ ok (read_body body'.flags (body'.csum, body'.args))
  pub frame : (xs : Bytes) × IsFrame p hashes body (room - 1) xs body'

module _ (p : Bufrw) (hashes : Hashes) (Stored : String → Type 0) (laws : Laws p Stored)
    (bounded : AreHashes hashes) where
  -- A continuation whose arguments can be cut to the room behind the flags is written and read back.
  pub write_call_cont_into-read :
      (body : Body) (room : ℕ)
      → body.flags < 256
      → IsChecksum body.csum
      → IsCuttable body (room - 1)
      → room < 65536
      → (bs : Bytes) × (body' : Body) × IsContFrame p hashes body room bs body'
  write_call_cont_into-read body room flags good cuttable small =
      let (xs, body', w₁) =
        write_into-writes p hashes Stored laws bounded body (room - 1) cuttable good in
      let frame =
        write_into-IsFrame p hashes Stored laws bounded body (room - 1) xs body' cuttable good w₁ in
      let byte = flags-bounded p hashes body (room - 1) xs body' flags frame in
      let (fs, w₂, l₂) =
        width-fits laws.uint8 body'.flags 1 room byte (laws.uint8_width body'.flags byte)
          (omega (arith, cuttable.2)) in
      let fields : IsContFrame p hashes body room (fs ++ xs) body' = record {
        written = cont-ok p hashes body room fs xs body' w₁ w₂;
        reads =
            read_cont-ok p hashes fs xs body'.flags (body'.csum, body'.args)
              (laws.uint8.reads body'.flags room fs xs byte w₂) frame.reads;
        frame = (xs, frame);
      } in
      (fs ++ xs, body', fields)
