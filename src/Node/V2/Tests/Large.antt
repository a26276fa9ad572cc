-- ===== src/Node/V2/Tests/Large.antt =====
-- A request whose second argument is longer than a frame.
use tchannel.Prelude.{
  ℕ, zero, suc, ◌≤◌, ◌<◌, ◌≡◌, refl, sym, false, List, [], ◌∷◌, none, some, arith, string_eq,
  nat_eq, length, drop, replicate, length-drop, length-replicate,
}
use tchannel.Prelude.Dict
use mathlib.Core.Path.{subst}
use tchannel.Node.V2.Rw.{ok, Bytes}
use tchannel.Node.V2.Streams.{weight}
use tchannel.Node.V2.Header
use tchannel.Node.V2.Header.{text, exceeds}
use tchannel.Node.V2.Checksum
use tchannel.Node.V2.Checksum.{crc32c}
use tchannel.Node.V2.Tracing.{tracing_byte_length}
use tchannel.Node.V2.Args.Cutting.{is_tight, left_over}
use tchannel.Node.V2.Call.{CallRequest, req_prefix_length}
use tchannel.Node.V2.Call.Requests.{IsCallRequest}
use tchannel.Node.V2.Delivery.Rounds.{IsLooseRun}
use tchannel.Node.V2.Transfer.{IsTransferred, request-IsTransferred}
use tchannel.Node.V2.Tests.Codecs.{
  IsName, cn, caller, service, bufrw, bufrw-Laws, hashes, hashes-AreHashes,
}

unfoldable big : Bytes
big = replicate 70000 7

length-big : length big ≡ 70000
unfolding big
length-big = length-replicate {A = ℕ} 70000 7

abbrev args : List Bytes
args = (1 ∷ 2 ∷ []) ∷ big ∷ (3 ∷ []) ∷ []

abbrev large : CallRequest
large = record {
  ttl = 500;
  tracing = record {
    spanid = replicate 8 1;
    parentid = replicate 8 0;
    traceid = replicate 8 9;
    flags = 1;
  };
  service = "service";
  headers = ("cn", text "caller") ∷ [];
  call = record { flags = 0; csum = record { kind = crc32c; val = 0 }; args = args; cont = none };
}

short_cn : (n : ℕ) → bufrw.str1.byte_length "cn" ≡ ok n → exceeds n (some 16) ≡ false
short_cn n e = let q : 3 ≡ n = cc in ground (arith, q)

large-IsCallRequest : IsCallRequest bufrw IsName large
unfolding Dict.keys
large-IsCallRequest = record {
  some_ttl = omega arith;
  ttl = omega arith;
  tracing = (refl, refl, refl, omega arith);
  service = service;
  header_count = omega arith;
  headers = (cn, caller, (refl, refl, refl), tt);
  short_keys = (short_cn, tt);
  flags = omega arith;
  csum = (omega arith, λ e. cc);
}

tight_args : is_tight args 65465 ≡ false
tight_args = rw length-big

left_args : left_over args 65465 ≡ drop 65459 big ∷ (3 ∷ []) ∷ []
left_args = rw length-big

length-left : length (drop 65459 big) ≡ 4541
length-left = omega (arith, length-drop 65459 big, length-big)

loose_nil : (fuel room : ℕ) → IsLooseRun fuel [] room
loose_nil zero room = tt
loose_nil (suc fuel) room = (refl, loose_nil fuel room)

tight_rest : (rest : Bytes) → length rest ≡ 4541 → is_tight (rest ∷ (3 ∷ []) ∷ []) 65513 ≡ false
tight_rest rest h = rw h

left_rest : (rest : Bytes) → length rest ≡ 4541 → left_over (rest ∷ (3 ∷ []) ∷ []) 65513 ≡ []
left_rest rest h = rw h

loose_rest :
    (rest : Bytes) (fuel : ℕ)
    → length rest ≡ 4541
    → IsLooseRun (suc fuel) (rest ∷ (3 ∷ []) ∷ []) 65513
loose_rest rest fuel h = (
  tight_rest rest h,
  subst (λ l. IsLooseRun fuel l 65513) (sym (left_rest rest h)) (loose_nil fuel 65513),
)

request-IsTransferred_example : IsTransferred bufrw hashes 5000 large (1 ∷ 2 ∷ []) big (3 ∷ [])
unfolding req_prefix_length tracing_byte_length Header.byte_length Header.pairs_length
    Header.value_length Dict.keys Checksum.create
request-IsTransferred_example =
    request-IsTransferred bufrw hashes IsName bufrw-Laws hashes-AreHashes large 49 5000 (1 ∷ 2 ∷ [])
      big (3 ∷ []) crc32c large-IsCallRequest refl (omega arith) refl refl refl
      (refl, omega arith, omega arith, omega arith, tight_args) (omega arith)
      (subst (λ l. 0 < length l) (sym left_args) (omega arith))
      (subst (λ l. weight l ≤ 5000) (sym left_args) (omega (arith, length-left)))
      (subst (λ l. IsLooseRun 5000 l 65513) (sym left_args)
        (loose_rest (drop 65459 big) 4999 length-left))
