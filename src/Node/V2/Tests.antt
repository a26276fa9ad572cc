-- ===== src/Node/V2/Tests.antt =====
-- Runs of node/v2 over concrete codecs, and the properties at them.
mod Codecs
mod Large
use tchannel.Prelude.{
  ℕ, zero, suc, ◌+◌, ◌-◌, ◌*◌, ◌/◌, ◌%◌, ◌≤◌, ◌<◌, ◌≡◌, refl, sym, ap, ◌∙◌, ◌≢◌, ◌⊎◌, inl, inr, ◌↔◌,
  String, Bool, true, false, not, ◌&&◌, ◌||◌, List, [], ◌∷◌, ◌++◌, map, Option, none, some, arith,
  ltb, leb, ◌==◌, if◌then◌else◌, contains, string_eq, nat_eq, Eq, beq_self, is_some, or_default,
  Bool-cases, ltb→lt, or_false, Option-cases, length, get_elem?, get_or, set, take, drop, replicate,
  All, length-append, append_assoc, append_nil, take-append-drop, length-drop, drop-length-append,
  length-set, length-replicate, get_or-set, length-take, get_or-take, get_or-append, get_or-length,
}
use tchannel.Prelude.Dict
use tchannel.Prelude.Dict.{Dict}
use tchannel.Node.V2.Rw.{Rw, Lawful, Result, ok, err, Bytes}
use tchannel.Node.V2.Header
use tchannel.Node.V2.Header.{HeaderValue, text, exceeds}
use tchannel.Node.V2.Header.RoundTrip.{read_from-write_into}
use tchannel.Node.V2.Header.Lengths.{write_into-fits}
use tchannel.Node.V2.Checksum.{Checksum, crc32c, verify, update1, compute1, verify-updated}
use tchannel.Node.V2.Tracing.{
  Tracing, read_tracing_from, write_tracing_into, tracing_byte_length, tracing_rw-Lawful,
}
use tchannel.Node.V2.Args
use tchannel.Node.V2.Args.{Body, Cont}
use tchannel.Node.V2.Args.Losing.{IsLosing, write_from-IsLosing}
use tchannel.Node.V2.Args.RoundTrip.{IsFrame, IsCuttable}
use tchannel.Node.V2.Args.Frames.{write_into_lem}
use tchannel.Node.V2.Call.{CallRequest, header1, req_prefix_length}
use tchannel.Node.V2.Call.Fields.{header1-Laws}
use tchannel.Node.V2.Call.Requests.{IsCallRequest, IsRequestFrame, write_call_req_into-read}
use tchannel.Node.V2.Delivery.{IsDelivered, send_conts-receive}
use tchannel.Node.V2.Tests.Codecs.{
  IsName, cn, caller, service, bufrw, bufrw-Laws, hashes, hashes-AreHashes,
}

abbrev trace : Tracing
trace = record {
  spanid = 1 ∷ 2 ∷ 3 ∷ 4 ∷ 5 ∷ 6 ∷ 7 ∷ 8 ∷ [];
  parentid = 0 ∷ 0 ∷ 0 ∷ 0 ∷ 0 ∷ 0 ∷ 0 ∷ 9 ∷ [];
  traceid = 9 ∷ 9 ∷ 9 ∷ 9 ∷ 0 ∷ 0 ∷ 0 ∷ 0 ∷ [];
  flags = 1;
}

abbrev some_headers : Dict String HeaderValue
some_headers = ("cn", text "caller") ∷ []

read_from-write_into_example :
    Header.read_from
      (header1 bufrw)
      (1 ∷ 2 ∷ 99 ∷ 110 ∷ 6 ∷ 99 ∷ 97 ∷ 108 ∷ 108 ∷ 101 ∷ 114 ∷ 7 ∷ [])
    ≡ ok (("cn", "caller") ∷ [], 7 ∷ [])
unfolding Header.write_into Header.write_pairs Header.write_value Dict.keys Dict.map_values
read_from-write_into_example =
    read_from-write_into (header1 bufrw) (λ n. n < 256) IsName
      (header1-Laws bufrw IsName bufrw-Laws) some_headers 64
      (1 ∷ 2 ∷ 99 ∷ 110 ∷ 6 ∷ 99 ∷ 97 ∷ 108 ∷ 108 ∷ 101 ∷ 114 ∷ []) (7 ∷ []) (omega arith)
      (cn, caller, (refl, refl, refl), tt) refl

short_cn : (n : ℕ) → bufrw.str1.byte_length "cn" ≡ ok n → exceeds n (some 16) ≡ false
short_cn n e = let q : 3 ≡ n = cc in ground (arith, q)

verify-updated_example :
    verify hashes (record { kind = crc32c; val = 10 }) ((1 ∷ 2 ∷ []) ∷ (3 ∷ []) ∷ []) (some 4)
    ≡ none
unfolding update1 compute1
verify-updated_example =
    verify-updated hashes ((1 ∷ 2 ∷ []) ∷ (3 ∷ []) ∷ []) (record { kind = crc32c; val = 4 })

-- three arguments in a room of 19 bytes behind the checksum, of which the third does not fit
abbrev args : List Bytes
args = (1 ∷ 2 ∷ []) ∷ (3 ∷ []) ∷ (4 ∷ 5 ∷ 6 ∷ 7 ∷ 8 ∷ 9 ∷ 10 ∷ 11 ∷ 12 ∷ 13 ∷ 14 ∷ []) ∷ []

abbrev cut_call : Body
cut_call = record { flags = 0; csum = record { kind = crc32c; val = 0 }; args = args; cont = none }

abbrev cut_cuttable : IsCuttable cut_call 21
cut_cuttable = (refl, omega arith, omega arith, omega arith, refl)

write_into_lem_example :
    (bs : Bytes) × (body' : Body) × (Args.write_into bufrw hashes cut_call 21 ≡ ok (bs, body'))
    × IsFrame bufrw hashes cut_call 21 bs body'
write_into_lem_example =
    write_into_lem bufrw hashes IsName bufrw-Laws hashes-AreHashes cut_call 21 cut_cuttable
      (omega arith, λ e. cc)

cut_call_written :
    Args.write_into bufrw hashes cut_call 21
    ≡ ok (
      3 ∷ 0 ∷ 0 ∷ 0 ∷ 55 ∷ 0 ∷ 2 ∷ 1 ∷ 2 ∷ 0 ∷ 1 ∷ 3 ∷ 0 ∷ 7 ∷ 4 ∷ 5 ∷ 6 ∷ 7 ∷ 8 ∷ 9 ∷ 10 ∷ [],
      record {
        flags = 1;
        csum = record { kind = crc32c; val = 55 };
        args = (1 ∷ 2 ∷ []) ∷ (3 ∷ []) ∷ (4 ∷ 5 ∷ 6 ∷ 7 ∷ 8 ∷ 9 ∷ 10 ∷ []) ∷ [];
        cont = some (record { flags = 0; args = (11 ∷ 12 ∷ 13 ∷ 14 ∷ []) ∷ [] });
      },
    )
unfolding Args.write_into Args.write_args Args.write_fragment_into Args.write_list Args.write_from
    Args.write_arg Args.write_cut Args.slice_end Args.set_fragment Args.fragment_flag update1
    compute1
cut_call_written = refl

abbrev request : CallRequest
request = record {
  ttl = 500;
  tracing = trace;
  service = "service";
  headers = some_headers;
  call = cut_call;
}

request-IsCallRequest : IsCallRequest bufrw IsName request
unfolding Dict.keys
request-IsCallRequest = record {
  some_ttl = omega arith;
  ttl = omega arith;
  tracing = (refl, refl, refl, omega arith);
  service = service;
  header_count = omega arith;
  headers = (cn, caller, (refl, refl, refl), tt);
  short_keys = (short_cn, tt);
  flags = omega arith;
  csum = (omega arith, λ e. cc);
}

-- the request in a frame body of 70 bytes
write_call_req_into-read_example :
    (bs : Bytes) × (call' : Body) × IsRequestFrame bufrw hashes request 70 21 bs call'
unfolding req_prefix_length tracing_byte_length Header.byte_length Header.pairs_length
    Header.value_length Dict.keys
write_call_req_into-read_example =
    write_call_req_into-read bufrw hashes IsName bufrw-Laws hashes-AreHashes request 49 70
      request-IsCallRequest refl (omega arith) cut_cuttable (omega arith)

abbrev rest_of_call : Cont
rest_of_call = record { flags = 0; args = (11 ∷ 12 ∷ 13 ∷ 14 ∷ []) ∷ [] }

send_conts-receive_example :
    IsDelivered bufrw hashes 6 rest_of_call
      (record { kind = crc32c; val = 55 })
      (1 ∷ 2 ∷ [])
      (3 ∷ [])
      (4 ∷ 5 ∷ 6 ∷ 7 ∷ 8 ∷ 9 ∷ 10 ∷ 11 ∷ 12 ∷ 13 ∷ 14 ∷ [])
      ((3 ∷ []) ∷ (4 ∷ 5 ∷ 6 ∷ 7 ∷ 8 ∷ 9 ∷ 10 ∷ []) ∷ [])
send_conts-receive_example =
    send_conts-receive bufrw hashes IsName bufrw-Laws hashes-AreHashes 6 rest_of_call
      (record { kind = crc32c; val = 55 }) (1 ∷ 2 ∷ []) (3 ∷ [])
      (4 ∷ 5 ∷ 6 ∷ 7 ∷ 8 ∷ 9 ∷ 10 ∷ 11 ∷ 12 ∷ 13 ∷ 14 ∷ [])
      ((3 ∷ []) ∷ (4 ∷ 5 ∷ 6 ∷ 7 ∷ 8 ∷ 9 ∷ 10 ∷ []) ∷ []) (omega arith) refl (omega arith, λ e. cc)
      (omega arith) (refl, (refl, (refl, (refl, (refl, (refl, tt)))))) (omega arith) refl

-- an argument that leaves one byte of room, and what comes after it
write_from-IsLosing_example :
    IsLosing bufrw ((1 ∷ 2 ∷ []) ∷ (3 ∷ []) ∷ []) 0 (0 ∷ 2 ∷ 1 ∷ 2 ∷ []) (record {
      flags = 0;
      csum = record { kind = crc32c; val = 3 };
      args = (1 ∷ 2 ∷ []) ∷ (3 ∷ []) ∷ [];
      cont = none;
    })
unfolding Args.write_from Args.write_arg update1 compute1
write_from-IsLosing_example =
    write_from-IsLosing bufrw hashes IsName bufrw-Laws (1 ∷ 2 ∷ []) ((3 ∷ []) ∷ []) 5
      (record { kind = crc32c; val = 0 }) 0 _ _ (omega arith) (omega arith) refl refl
