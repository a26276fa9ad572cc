-- ===== src/Node/V2/Args/Frames.antt =====
-- A body of arguments is always written, and is read back.
use tchannel.Prelude.{ℕ, ◌≡◌, String}
use tchannel.Node.V2.Rw.{ok, Bytes}
use tchannel.Node.V2.Checksum.{Hashes}
use tchannel.Node.V2.Bufrw.{Bufrw, Laws, IsChecksum}
use tchannel.Node.V2.Args.{Body, write_into}
use tchannel.Node.V2.Args.RoundTrip.{
  AreHashes, IsCuttable, IsFrame, write_into-IsFrame, write_into-writes,
}

-- Take a body with some arguments and no continuation yet, room for at least one size behind the
-- checksum and less than 65536 in all, and no tight argument: none ends where the next has no room for
-- its size. ArgsRW writes such a body to at most that room. The arguments that it has cut to the frame
-- are read back as far as they are in it; joined with those of the continuation they are all that were
-- given; the checksum is the one of the arguments in the frame, and the flag says whether there is a
-- continuation.
pub write_into_lem :
    (p : Bufrw) (hashes : Hashes) (Stored : String → Type 0)
    → Laws p Stored
    → AreHashes hashes
    → (body : Body) (room : ℕ) → IsCuttable body room
    → IsChecksum body.csum
    → (bs : Bytes) × (body' : Body) × (write_into p hashes body room ≡ ok (bs, body'))
      × IsFrame p hashes body room bs body'
write_into_lem p hashes Stored laws bounded body room cuttable good =
    let (bs, body', w) = write_into-writes p hashes Stored laws bounded body room cuttable good in
    (
      bs,
      body',
      w,
      write_into-IsFrame p hashes Stored laws bounded body room bs body' cuttable good w,
    )
