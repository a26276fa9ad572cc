-- ===== src/Node/V2/Call/Requests.antt =====
-- Call requests that are written to a frame are read back.
use tchannel.Prelude.{
  ℕ, ◌+◌, ◌-◌, ◌≤◌, ◌<◌, ◌≡◌, String, false, ◌++◌, arith, ◌==◌, string_eq, nat_eq, length,
  length-append,
}
use tchannel.Prelude.Dict
use tchannel.Prelude.Dict.{Dict}
use tchannel.Node.V2.Rw.{ok, Bytes, ok-bind}
use tchannel.Node.V2.Header
use tchannel.Node.V2.Header.{HeaderRw, HeaderValue, text, other}
use tchannel.Node.V2.Header.RoundTrip.{IsHeaders, strings}
use tchannel.Node.V2.Header.Lengths.{HasShortKeys}
use tchannel.Node.V2.Checksum.{Hashes}
use tchannel.Node.V2.Bufrw.{Bufrw, Laws, IsChecksum, width-fits}
use tchannel.Node.V2.Tracing.{IsTracing, tracing_byte_length, read_tracing_from, write_tracing_into}
use tchannel.Node.V2.Args
use tchannel.Node.V2.Args.{Body, set_fragment}
use tchannel.Node.V2.Args.RoundTrip.{
  IsCuttable, AreHashes, IsFrame, write_into-IsFrame, write_into-writes,
}
use tchannel.Node.V2.Call.{
  CallRequest, header1, texts, read_body, req_prefix_length, read_call_req_from,
  write_call_req_into,
}
use Prim.Native.Nat.{◌^◌}
use tchannel.Node.V2.Header.RoundTrip.{read_from-write_into}
use tchannel.Node.V2.Header.Lengths.{write_into-fits}
use tchannel.Node.V2.Call.Fields.{
  header1-Laws, texts-strings, flags-bounded, tracing-fits, tracing-reads,
}

-- a request that its fields can hold
pub record IsCallRequest (p : Bufrw) (Stored : String → Type 0) (req : CallRequest) : Type 0 where
  pub some_ttl : 0 < req.ttl
  pub ttl : req.ttl < 2 ^ 32
  pub tracing : IsTracing req.tracing
  pub service : Stored req.service
  pub header_count : length (Dict.keys req.headers) < 256
  pub headers : IsHeaders Stored req.headers
  pub short_keys : HasShortKeys (header1 p) req.headers
  pub flags : req.call.flags < 256
  pub csum : IsChecksum req.call.csum

-- what a frame with the bytes `bs` says of the request, of which `call'` is in it, with the room `left`
-- for the arguments
pub record IsRequestFrame (p : Bufrw) (hashes : Hashes) (req : CallRequest) (room left : ℕ)
    (bs : Bytes) (call' : Body) : Type 0 where
  pub written : write_call_req_into p hashes req room ≡ ok (bs, record req { call = call' })
  pub reads :
      read_call_req_from p bs
      ≡ ok (record req { call = read_body call'.flags (call'.csum, call'.args) })
  pub frame : (xs : Bytes) × IsFrame p hashes req.call left xs call'
  pub fits : length bs ≤ room

-- the lengths of the fields in front of the arguments
pub data ReqLengths (p : Bufrw) (req : CallRequest) (n : ℕ) : Type 0 where
  lengths :
      (s h : ℕ)
      → p.str1.byte_length req.service ≡ ok s
      → Header.byte_length (header1 p) req.headers ≡ ok h
      → n ≡ 1 + 4 + 25 + s + h
      → ReqLengths p req n

req_prefix_length-ReqLengths :
    (p : Bufrw) (req : CallRequest) (n : ℕ) → req_prefix_length p req ≡ ok n → ReqLengths p req n
unfolding req_prefix_length tracing_byte_length
req_prefix_length-ReqLengths p req n e =
    let (s, hs, e₁) = ok-bind (p.str1.byte_length req.service) _ n e in
    let (h, hh, e₂) = ok-bind (Header.byte_length (header1 p) req.headers) _ n e₁ in
    let q : n ≡ 1 + 4 + 25 + s + h = cc in lengths s h hs hh q

-- the room that is left for the arguments, in one step
lengths_sum :
    (n s h : ℕ) (ts tc ss hs : Bytes) (room : ℕ)
    → n ≡ 1 + 4 + 25 + s + h
    → n ≤ room
    → length ts ≡ 4
    → length tc ≡ 25
    → length ss ≡ s
    → length hs ≡ h
    → room - 1 - length ts - length tc - length ss - length hs ≡ room - n
lengths_sum n s h ts tc ss hs room e fits l₁ l₂ l₃ l₄ = omega (arith, e, fits, l₁, l₂, l₃, l₄)

parts_fit :
    (room : ℕ) (fs ts tc ss hs xs : Bytes)
    → length fs ≡ 1
    → 0 < room - 1 - length ts - length tc - length ss - length hs
    → length xs ≤ room - 1 - length ts - length tc - length ss - length hs
    → length (fs ++ (ts ++ (tc ++ (ss ++ (hs ++ xs))))) ≤ room
parts_fit room fs ts tc ss hs xs l some_left fits = omega (
  arith,
  l,
  some_left,
  fits,
  length-append fs (ts ++ (tc ++ (ss ++ (hs ++ xs)))),
  length-append ts (tc ++ (ss ++ (hs ++ xs))),
  length-append tc (ss ++ (hs ++ xs)),
  length-append ss (hs ++ xs),
  length-append hs xs,
)

module _ (p : Bufrw) (hashes : Hashes) (req : CallRequest) (room : ℕ) (ts tc ss hs xs fs : Bytes)
    (call' : Body) where
  written-ok :
      req.ttl == 0 ≡ false
      → p.uint32be.write_into req.ttl (room - 1) ≡ ok ts
      → write_tracing_into p req.tracing (room - 1 - length ts) ≡ ok tc
      → p.str1.write_into req.service (room - 1 - length ts - length tc) ≡ ok ss
      → Header.write_into (header1 p) req.headers (room - 1 - length ts - length tc - length ss)
        ≡ ok hs
      → Args.write_into p hashes req.call (room - 1 - length ts - length tc - length ss - length hs)
        ≡ ok (xs, call')
      → p.uint8.write_into call'.flags room ≡ ok fs
      → write_call_req_into p hashes req room
        ≡ ok (fs ++ (ts ++ (tc ++ (ss ++ (hs ++ xs)))), record req { call = call' })
  unfolding write_call_req_into
  written-ok positive w₁ w₂ w₃ w₄ w₅ w₆ = rw (positive, w₁, w₂, w₃, w₄, w₅, w₆)

  read-ok :
      (headers : Dict String String)
      → req.ttl == 0 ≡ false
      → texts headers ≡ req.headers
      → p.uint8.read_from (fs ++ (ts ++ (tc ++ (ss ++ (hs ++ xs)))))
        ≡ ok (call'.flags, ts ++ (tc ++ (ss ++ (hs ++ xs))))
      → p.uint32be.read_from (ts ++ (tc ++ (ss ++ (hs ++ xs))))
        ≡ ok (req.ttl, tc ++ (ss ++ (hs ++ xs)))
      → read_tracing_from p (tc ++ (ss ++ (hs ++ xs))) ≡ ok (req.tracing, ss ++ (hs ++ xs))
      → p.str1.read_from (ss ++ (hs ++ xs)) ≡ ok (req.service, hs ++ xs)
      → Header.read_from (header1 p) (hs ++ xs) ≡ ok (headers, xs)
      → Args.read_from p xs ≡ ok (call'.csum, call'.args)
      → read_call_req_from p (fs ++ (ts ++ (tc ++ (ss ++ (hs ++ xs)))))
        ≡ ok (record req { call = read_body call'.flags (call'.csum, call'.args) })
  unfolding read_call_req_from
  read-ok headers positive same r₁ r₂ r₃ r₄ r₅ r₆ = rw (r₁, r₂, positive, r₃, r₄, r₅, r₆, same)

module _ (p : Bufrw) (hashes : Hashes) (Stored : String → Type 0) (laws : Laws p Stored)
    (bounded : AreHashes hashes) where
  -- the frame around the four fields in front of the arguments
  request_frame :
      (req : CallRequest) (room left : ℕ) (ts tc ss hs : Bytes)
      → IsCallRequest p Stored req
      → req.ttl == 0 ≡ false
      → p.uint32be.write_into req.ttl (room - 1) ≡ ok ts
      → write_tracing_into p req.tracing (room - 1 - length ts) ≡ ok tc
      → p.str1.write_into req.service (room - 1 - length ts - length tc) ≡ ok ss
      → Header.write_into (header1 p) req.headers (room - 1 - length ts - length tc - length ss)
        ≡ ok hs
      → room < 65536
      → room - 1 - length ts - length tc - length ss - length hs ≡ left
      → IsCuttable req.call left
      → (bs : Bytes) × (call' : Body) × IsRequestFrame p hashes req room left bs call'
  request_frame req room left ts tc ss hs good positive w₁ w₂ w₃ w₄ small sum cuttable =
      let (xs, call', w₅) =
        write_into-writes p hashes Stored laws bounded req.call left cuttable good.csum in
      let frame =
        write_into-IsFrame p hashes Stored laws bounded req.call left xs call' cuttable good.csum
          w₅ in
      let byte = flags-bounded p hashes req.call left xs call' good.flags frame in
      let (fs, w₆, l₆) =
        width-fits laws.uint8 call'.flags 1 room byte (laws.uint8_width call'.flags byte)
          (omega (arith, cuttable.2)) in
      let bs = fs ++ (ts ++ (tc ++ (ss ++ (hs ++ xs)))) in
      let r₁ = laws.uint8.reads call'.flags room fs (ts ++ (tc ++ (ss ++ (hs ++ xs)))) byte w₆ in
      let r₂ = laws.uint32be.reads req.ttl (room - 1) ts (tc ++ (ss ++ (hs ++ xs))) good.ttl w₁ in
      let r₃ =
        tracing-reads p Stored laws req.tracing (room - 1 - length ts) tc (ss ++ (hs ++ xs))
          good.tracing w₂ in
      let r₄ =
        laws.str1.reads req.service (room - 1 - length ts - length tc) ss (hs ++ xs) good.service
          w₃ in
      let r₅ =
        read_from-write_into (header1 p) (λ c. c < 256) Stored (header1-Laws p Stored laws)
          req.headers (room - 1 - length ts - length tc - length ss) hs xs good.header_count
          good.headers w₄ in
      let fields : IsRequestFrame p hashes req room left bs call' = record {
        written =
            written-ok p hashes req room ts tc ss hs xs fs call' positive w₁ w₂ w₃ w₄ (rw sum w₅)
              w₆;
        reads =
            read-ok p hashes req room ts tc ss hs xs fs call' (strings req.headers) positive
              (texts-strings Stored req.headers good.headers) r₁ r₂ r₃ r₄ r₅ frame.reads;
        frame = (xs, frame);
        fits =
            parts_fit room fs ts tc ss hs xs l₆ (omega (arith, sum, cuttable.2))
              (omega (arith, sum, frame.fits));
      } in
      (bs, call', fields)

  -- A request whose fields hold what they can, in front of arguments that can be cut to the room behind
  -- them, is written; what was written is read back as the same request, with the arguments as far
  -- as they are in the frame; joined with those of the continuation they are all; the checksum is the
  -- one of the arguments in the frame and the flag says whether there is a continuation.
  pub write_call_req_into-read :
      (req : CallRequest) (n room : ℕ)
      → IsCallRequest p Stored req
      → req_prefix_length p req ≡ ok n
      → n ≤ room
      → IsCuttable req.call (room - n)
      → room < 65536
      → (bs : Bytes) × (call' : Body) × IsRequestFrame p hashes req room (room - n) bs call'
  write_call_req_into-read req n room good e fits cuttable small =
      elim (req_prefix_length-ReqLengths p req n e) [
        | lengths s h es eh en ↦
            let positive : req.ttl == 0 ≡ false = ground (arith, good.some_ttl) in
            let (ts, w₁, l₁) =
              width-fits laws.uint32be req.ttl 4 (room - 1) good.ttl
                (laws.uint32be_width req.ttl good.ttl) (omega (arith, en, fits)) in
            let (tc, w₂, l₂) =
              tracing-fits p Stored laws req.tracing (room - 1 - length ts) good.tracing
                (omega (arith, en, fits, l₁)) in
            let (ss, w₃, l₃) =
              width-fits laws.str1 req.service s (room - 1 - length ts - length tc) good.service es
                (omega (arith, en, fits, l₁, l₂)) in
            let (hs, w₄, l₄) =
              write_into-fits (header1 p) (λ c. c < 256) Stored (header1-Laws p Stored laws)
                req.headers h (room - 1 - length ts - length tc - length ss) good.header_count
                good.headers good.short_keys eh (omega (arith, en, fits, l₁, l₂, l₃)) in
            request_frame req room (room - n) ts tc ss hs good positive w₁ w₂ w₃ w₄ small
              (lengths_sum n s h ts tc ss hs room en fits l₁ l₂ l₃ l₄) cuttable
      ]
