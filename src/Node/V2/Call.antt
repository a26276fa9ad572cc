-- ===== src/Node/V2/Call.antt =====
-- node/v2/call.js and node/v2/cont.js: the bodies of the four kinds of call frames, written and read
-- field by field. `call` holds the flags, the checksum, the arguments and the continuation.
pub mod Fields
pub mod Requests
pub mod Conts
use tchannel.Prelude.{
  ℕ, zero, suc, ◌+◌, ◌-◌, ◌*◌, ◌/◌, ◌%◌, ◌≤◌, ◌<◌, ◌≡◌, refl, sym, ap, ◌∙◌, ◌≢◌, ◌⊎◌, inl, inr, ◌↔◌,
  String, Bool, true, false, not, ◌&&◌, ◌||◌, List, [], ◌∷◌, ◌++◌, map, Option, none, some, arith,
  ltb, leb, ◌==◌, if◌then◌else◌, contains, string_eq, nat_eq, Eq, beq_self, is_some, or_default,
  Bool-cases, or_false, Option-cases, length, get_elem?, get_or, set, take, drop, replicate, All,
  length-append, append_assoc, append_nil, take-append-drop, drop-length-append, length-set,
  length-replicate, get_or-set, length-take, get_or-take, get_or-append, get_or-length,
}
use tchannel.Prelude.Dict
use tchannel.Prelude.Dict.{Dict}
use tchannel.Node.V2.Rw.{Rw, Lawful, Result, ok, err, ◌>>=◌, Bytes, ok-bind, invalid_ttl}
use tchannel.Node.V2.Header
use tchannel.Node.V2.Header.{HeaderRw, HeaderValue, text}
use tchannel.Node.V2.Checksum.{Checksum, Hashes, ChecksumError, verify}
use tchannel.Node.V2.Bufrw.{Bufrw}
use tchannel.Node.V2.Tracing.{Tracing, tracing_byte_length, read_tracing_from, write_tracing_into}
use tchannel.Node.V2.Args
use tchannel.Node.V2.Args.{Body}

-- header.header1
abbrev pub header1 : Bufrw → HeaderRw
header1 p = record {
  countrw = p.uint8;
  keyrw = p.str1;
  valrw = p.str1;
  other_length = p.other_length;
  count_width = 1;
  max_header_count = some 128;
  max_key_length = some 16;
}

pub record CallRequest : Type 0 where
  pub ttl : ℕ
  pub tracing : Tracing
  pub service : String
  pub headers : Dict String HeaderValue
  pub call : Body

pub record CallResponse : Type 0 where
  pub code : ℕ
  pub tracing : Tracing
  pub headers : Dict String HeaderValue
  pub call : Body

-- what has been read is strings
abbrev pub texts : Dict String String → Dict String HeaderValue
texts = Dict.map_values (λ key s. text s)

-- a body as it is read, which has no continuation
abbrev pub read_body : ℕ → Checksum × List Bytes → Body
read_body flags r = record { flags = flags; csum = r.0; args = r.1; cont = none }

module _ (p : Bufrw) where
  -- the fields in front of csum, as callReqLength adds them up
  unfoldable pub req_prefix_length : CallRequest → Result ℕ
  req_prefix_length body = do
    t ← tracing_byte_length body.tracing
    s ← p.str1.byte_length body.service
    h ← Header.byte_length (header1 p) body.headers
    ok (1 + 4 + t + s + h)

  unfoldable pub call_req_length : CallRequest → Result ℕ
  call_req_length body = do n ← req_prefix_length body; m ← Args.byte_length p body.call; ok (m + n)

  unfoldable pub read_call_req_from : Bytes → Result CallRequest
  read_call_req_from buffer = do
    (flags, b₁) ← p.uint8.read_from buffer
    (ttl, b₂) ← p.uint32be.read_from b₁
    if ttl == 0 then err (invalid_ttl ttl) else do
      (tracing, b₃) ← read_tracing_from p b₂
      (service, b₄) ← p.str1.read_from b₃
      (headers, b₅) ← Header.read_from (header1 p) b₄
      r ← Args.read_from p b₅
      ok (record {
        ttl = ttl;
        tracing = tracing;
        service = service;
        headers = texts headers;
        call = read_body flags r;
      })

  unfoldable pub res_prefix_length : CallResponse → Result ℕ
  res_prefix_length body = do
    t ← tracing_byte_length body.tracing
    h ← Header.byte_length (header1 p) body.headers
    ok (1 + 1 + t + h)

  unfoldable pub call_res_length : CallResponse → Result ℕ
  call_res_length body = do n ← res_prefix_length body; m ← Args.byte_length p body.call; ok (m + n)

  unfoldable pub read_call_res_from : Bytes → Result CallResponse
  read_call_res_from buffer = do
    (flags, b₁) ← p.uint8.read_from buffer
    (code, b₂) ← p.uint8.read_from b₁
    (tracing, b₃) ← read_tracing_from p b₂
    (headers, b₄) ← Header.read_from (header1 p) b₃
    r ← Args.read_from p b₄
    ok (record {
      code = code;
      tracing = tracing;
      headers = texts headers;
      call = read_body flags r;
    })

  -- CallRequestCont and CallResponseCont
  unfoldable pub call_cont_length : Body → Result ℕ
  call_cont_length body = do m ← Args.byte_length p body; ok (m + 1)

  unfoldable pub read_call_cont_from : Bytes → Result Body
  read_call_cont_from buffer = do
    (flags, b₁) ← p.uint8.read_from buffer
    r ← Args.read_from p b₁
    ok (read_body flags r)

module _ (p : Bufrw) (hashes : Hashes) where
  -- The flags go in front when the arguments are known, which may set one.
  unfoldable pub write_call_req_into : CallRequest → ℕ → Result (Bytes × CallRequest)
  write_call_req_into body room = if body.ttl == 0 then err (invalid_ttl body.ttl) else do
    ts ← p.uint32be.write_into body.ttl (room - 1)
    tr ← write_tracing_into p body.tracing (room - 1 - length ts)
    ss ← p.str1.write_into body.service (room - 1 - length ts - length tr)
    hs ← Header.write_into (header1 p) body.headers (room - 1 - length ts - length tr - length ss)
    (xs, call) ←
        Args.write_into p hashes body.call
          (room - 1 - length ts - length tr - length ss - length hs)
    fs ← p.uint8.write_into call.flags room
    ok (fs ++ (ts ++ (tr ++ (ss ++ (hs ++ xs)))), record body { call = call })

  unfoldable pub write_call_res_into : CallResponse → ℕ → Result (Bytes × CallResponse)
  write_call_res_into body room = do
    cs ← p.uint8.write_into body.code (room - 1)
    tr ← write_tracing_into p body.tracing (room - 1 - length cs)
    hs ← Header.write_into (header1 p) body.headers (room - 1 - length cs - length tr)
    (xs, call) ← Args.write_into p hashes body.call (room - 1 - length cs - length tr - length hs)
    fs ← p.uint8.write_into call.flags room
    ok (fs ++ (cs ++ (tr ++ (hs ++ xs))), record body { call = call })

  unfoldable pub write_call_cont_into : Body → ℕ → Result (Bytes × Body)
  write_call_cont_into body room = do
    (xs, call) ← Args.write_into p hashes body (room - 1)
    fs ← p.uint8.write_into call.flags room
    ok (fs ++ xs, call)

-- verifyChecksum of a request and of a response, which start from no value, and of a continuation,
-- which goes on from the value of the frame before
module _ (hashes : Hashes) where
  unfoldable pub verify_checksum : Body → Option ChecksumError
  verify_checksum body = verify hashes body.csum body.args none

  unfoldable pub verify_cont_checksum : Body → ℕ → Option ChecksumError
  verify_cont_checksum body prior = verify hashes body.csum body.args (some prior)
