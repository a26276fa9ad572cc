-- ===== src/Node/V2/Delivery.antt =====
-- The continuations of a request, from sendCallBodies on one side to the argument stream on the other.
pub mod Rounds
use tchannel.Prelude.{
  ℕ, zero, suc, ◌+◌, ◌-◌, ◌*◌, ◌/◌, ◌%◌, ◌≤◌, ◌<◌, ◌≡◌, refl, sym, ap, ◌∙◌, ◌≢◌, ◌⊎◌, inl, inr, ◌↔◌,
  String, Bool, true, false, not, ◌&&◌, ◌||◌, List, [], ◌∷◌, ◌++◌, map, Option, none, some, arith,
  ltb, leb, ◌==◌, if◌then◌else◌, contains, string_eq, nat_eq, Eq, beq_self, is_some, or_default,
  Bool-cases, ltb→lt, or_false, Option-cases, length, get_elem?, get_or, set, take, drop, replicate,
  All, length-append, append_assoc, append_nil, take-append-drop, length-drop, drop-length-append,
  length-set, length-replicate, get_or-set, length-take, get_or-take, get_or-append, get_or-length,
}
use tchannel.Node.ArgStream.{InArgStream, streaming, handle_frame, handle_request_frame, pass_on}
use tchannel.Node.ArgStream.Joining.{complete}
use tchannel.Node.V2.Rw.{Result, ok, ◌>>=◌, Bytes}
use tchannel.Node.V2.Checksum
use tchannel.Node.V2.Checksum.{Hashes, ChecksumError, type_eq, updated}
use tchannel.Node.V2.Bufrw.{Bufrw, Laws, IsChecksum}
use tchannel.Node.V2.Args.{Body, Cont, fragment_flag, set_fragment}
use tchannel.Node.V2.Args.Cutting.{rejoin, rejoin_nil, left_over, is_tight}
use tchannel.Node.V2.Args.RoundTrip.{IsFrame, IsCuttable, AreHashes}
use tchannel.Node.V2.Call.{verify_cont_checksum, read_call_cont_from, write_call_cont_into}
use tchannel.Node.V2.Call.Conts.{write_call_cont_into-read}
use tchannel.Node.V2.Sending.{max_body_size, cont_body, send_conts}
use tchannel.Node.V2.Receiving.{
  InCall, Handled, check_call_frame, is_last, handle_call_frame, handle_call_request_cont,
}
use tchannel.Node.V2.Checksum.{kind-updated, verify-updated, verify}
use tchannel.Node.V2.Args.RoundTrip.{args_room, updated-IsChecksum}
use tchannel.Node.V2.Bufrw.{checksum_width}
use tchannel.Node.V2.Call.{read_body}
use tchannel.Node.V2.Call.Conts.{IsContFrame}
use tchannel.Node.V2.Streams.{
  weight, weight-left_over, holding, rejoin-length, rejoin_assoc, frame-holding, last-holding,
}
use tchannel.Node.V2.Delivery.Rounds.{
  IsLooseRun, receive, delivered, under_way, send_last, send_more, receive_more, receive_last,
}

module _ (p : Bufrw) (hashes : Hashes) where
  -- the frames of a continuation, and the request when they have come
  abbrev pub IsDelivered :
      ℕ → Cont → Checksum.Checksum → Bytes → Bytes → Bytes → List Bytes → Type 0
  IsDelivered fuel c csum arg1 arg2 arg3 pre =
      (frames : List Bytes) × (csum' : Checksum.Checksum) × (send_conts p hashes fuel (some c) csum
        ≡ ok (some (frames, csum')))
      × (receive p hashes frames (under_way csum arg1 pre) ≡ ok (delivered csum' arg1 arg2 arg3))

  last_frame :
      (fuel : ℕ) (c : Cont) (csum : Checksum.Checksum) (arg1 arg2 arg3 : Bytes) (pre : List Bytes)
      (bs xs : Bytes) (body : Body)
      → IsContFrame p hashes (cont_body c csum) max_body_size bs body
      → IsFrame p hashes (cont_body c csum) (max_body_size - 1) xs body
      → body.cont ≡ none
      → c.flags ≡ 0
      → 0 < length pre
      → rejoin pre c.args ≡ arg2 ∷ arg3 ∷ []
      → IsDelivered (suc fuel) c csum arg1 arg2 arg3 pre
  last_frame fuel c csum arg1 arg2 arg3 pre bs xs body frame f ended zero_flags some_pre e =
      let all : body.args ≡ c.args = sym (rejoin_nil body.args) ∙ (rw ended at f.joined) in
      let flags : body.flags ≡ 0 = (rw ended at f.flagged) ∙ zero_flags in
      (
        bs ∷ [],
        body.csum,
        send_last p hashes fuel c csum bs body frame.written ended,
        receive_last p hashes bs body csum arg1 arg2 arg3 pre frame.reads f.summed flags some_pre
            f.some_sent (rw all e),
      )

  more_frames :
      (fuel : ℕ) (c next : Cont) (csum : Checksum.Checksum) (arg1 arg2 arg3 : Bytes)
      (pre : List Bytes) (bs xs : Bytes) (body : Body)
      → IsContFrame p hashes (cont_body c csum) max_body_size bs body
      → IsFrame p hashes (cont_body c csum) (max_body_size - 1) xs body
      → body.cont ≡ some next
      → c.flags ≡ 0
      → 0 < length pre
      → length (rejoin pre body.args) ≤ 2
      → IsDelivered fuel next body.csum arg1 arg2 arg3 (rejoin pre body.args)
      → IsDelivered (suc fuel) c csum arg1 arg2 arg3 pre
  more_frames fuel c next csum arg1 arg2 arg3 pre bs xs body frame f on zero_flags some_pre small
        (frames, csum', sent, got) =
      let flags : body.flags ≡ set_fragment 0 = (rw on at f.flagged) ∙ ap set_fragment zero_flags in
      (
        bs ∷ frames,
        csum',
        send_more p hashes fuel c next csum csum' bs body frames frame.written on sent,
        receive_more p hashes bs frames body csum arg1 pre frame.reads f.summed flags some_pre
              f.some_sent small
            ∙ got,
      )

  pub no_flag : (flags : ℕ) → flags ≡ 0 → fragment_flag flags ≡ 0
  unfolding fragment_flag
  no_flag flags h = rw h

  wide_room : (kind : Checksum.ChecksumType) → 3 ≤ max_body_size - 1 - (1 + checksum_width kind)
  wide_room Checksum.none_type = omega arith
  wide_room Checksum.crc32 = omega arith
  wide_room Checksum.farm32 = omega arith
  wide_room Checksum.crc32c = omega arith

  lighter_left :
      (args next : List Bytes) (room fuel : ℕ)
      → 3 ≤ room
      → is_tight args room ≡ false
      → next ≡ left_over args room
      → 0 < length next
      → weight args ≤ suc fuel
      → weight next ≤ fuel
  lighter_left args next room fuel roomy loose e some_args enough =
      elim (weight-left_over args room (omega (arith, roomy)) loose) [
        | inl nothing ↦
            let z : length next ≡ 0 = ap length (e ∙ nothing) in
            let no : ⊥ = omega (arith, z, some_args) in elim no [ ]
        | inr w ↦
            let q : weight next ≡ weight (left_over args room) = ap weight e in
            omega (arith, q, w, roomy, enough)
      ]

  -- what a frame leaves for the next one
  record IsNext (fuel : ℕ) (c next : Cont) (csum : Checksum.Checksum) (arg2 arg3 : Bytes)
      (pre : List Bytes) (body : Body) : Type 0 where
    enough : weight next.args ≤ fuel
    zero_flags : next.flags ≡ 0
    some_args : 0 < length next.args
    loose : IsLooseRun fuel next.args (args_room (cont_body next body.csum) (max_body_size - 1))
    some_pre : 0 < length (rejoin pre body.args)
    small : length (rejoin pre body.args) ≤ 2
    joined : rejoin (rejoin pre body.args) next.args ≡ arg2 ∷ arg3 ∷ []

  left-IsNext :
      (fuel : ℕ) (c next : Cont) (csum : Checksum.Checksum) (arg2 arg3 : Bytes) (pre : List Bytes)
      (xs : Bytes) (body : Body)
      → IsFrame p hashes (cont_body c csum) (max_body_size - 1) xs body
      → body.cont ≡ some next
      → weight c.args ≤ suc fuel
      → c.flags ≡ 0
      → IsLooseRun (suc fuel) c.args (args_room (cont_body c csum) (max_body_size - 1))
      → 0 < length pre
      → rejoin pre c.args ≡ arg2 ∷ arg3 ∷ []
      → IsNext fuel c next csum arg2 arg3 pre body
  left-IsNext fuel c next csum arg2 arg3 pre xs body f on enough zero_flags loose some_pre e =
      let room = args_room (cont_body c csum) (max_body_size - 1) in
      let left : next.args ≡ left_over c.args room = rw on at f.left in
      let some_args : 0 < length next.args = ltb→lt 0 (length next.args) (sym (rw on at f.whole)) in
      let roomy : 3 ≤ room = wide_room csum.kind in
      let lighter : weight next.args ≤ fuel =
        lighter_left c.args next.args room fuel roomy loose.0 left some_args enough in
      let kind : body.csum.kind ≡ csum.kind = rw f.summed (kind-updated hashes body.args csum) in
      let joined : rejoin (rejoin pre body.args) next.args ≡ arg2 ∷ arg3 ∷ [] =
        rejoin_assoc pre body.args next.args f.some_sent
        ∙ ap (rejoin pre) (rw on at f.joined)
        ∙ e in
      let l₁ = rejoin-length pre body.args some_pre f.some_sent in
      let some_pre' : 0 < length (rejoin pre body.args) =
        omega (arith, l₁, some_pre, f.some_sent) in
      let l₂ = rejoin-length (rejoin pre body.args) next.args some_pre' some_args in
      let l₃ : length (rejoin (rejoin pre body.args) next.args) ≡ 2 = ap length joined in
      record {
        enough = lighter;
        zero_flags = f.cont_flags next on ∙ no_flag c.flags zero_flags;
        some_args = some_args;
        loose = rw (kind, left) loose.1;
        some_pre = some_pre';
        small = omega (arith, l₂, l₃, some_args);
        joined = joined;
      }

  heavy : (args : List Bytes) → 0 < length args → 0 < weight args
  heavy [] h = h
  heavy (arg ∷ args) h = omega arith

  -- a frame, and those after it if there are any
  deliver_frame :
      (Stored : String → Type 0)
      → Laws p Stored
      → AreHashes hashes
      → (fuel : ℕ) (c : Cont) (csum : Checksum.Checksum) (arg1 arg2 arg3 : Bytes) (pre : List Bytes)
        (bs : Bytes) (body : Body)
      → IsContFrame p hashes (cont_body c csum) max_body_size bs body
      → weight c.args ≤ suc fuel
      → c.flags ≡ 0
      → IsChecksum csum
      → IsLooseRun (suc fuel) c.args (args_room (cont_body c csum) (max_body_size - 1))
      → 0 < length pre
      → rejoin pre c.args ≡ arg2 ∷ arg3 ∷ []
      → ((next : Cont)
          → IsNext fuel c next csum arg2 arg3 pre body
          → IsDelivered fuel next body.csum arg1 arg2 arg3 (rejoin pre body.args))
      → IsDelivered (suc fuel) c csum arg1 arg2 arg3 pre
  deliver_frame Stored laws bounded fuel c csum arg1 arg2 arg3 pre bs body frame enough zero_flags
        good loose some_pre e others =
      let (xs, f) = frame.frame in
      elim (Option-cases body.cont) [
        | inl ended ↦
            last_frame fuel c csum arg1 arg2 arg3 pre bs xs body frame f ended zero_flags some_pre e
        | inr (next, on) ↦
            let n =
              left-IsNext fuel c next csum arg2 arg3 pre xs body f on enough zero_flags loose
                some_pre e in
            more_frames fuel c next csum arg1 arg2 arg3 pre bs xs body frame f on zero_flags
              some_pre n.small (others next n)
      ]

  -- The continuations of a request reach it whole. For a continuation with some arguments, without
  -- the fragment flag of its own, whose arguments go on those that the stream holds to the second and
  -- the third one, with a checksum that its bytes can hold, with as many rounds as there are bytes and
  -- sizes, and when no argument ends where its frame has no room for the next size: sendCallBodies writes
  -- all frames, each of them is read and passes its checksum, and the argument stream ends with
  -- both arguments complete.
  pub send_conts-receive :
      (Stored : String → Type 0)
      → Laws p Stored
      → AreHashes hashes
      → (fuel : ℕ) (c : Cont) (csum : Checksum.Checksum) (arg1 arg2 arg3 : Bytes) (pre : List Bytes)
      → weight c.args ≤ fuel
      → c.flags ≡ 0
      → IsChecksum csum
      → 0 < length c.args
      → IsLooseRun fuel c.args (args_room (cont_body c csum) (max_body_size - 1))
      → 0 < length pre
      → rejoin pre c.args ≡ arg2 ∷ arg3 ∷ []
      → (frames : List Bytes) × (csum' : Checksum.Checksum) × (send_conts p hashes fuel
            (some c)
            csum
          ≡ ok (some (frames, csum')))
        × (receive p hashes frames (under_way csum arg1 pre) ≡ ok (delivered csum' arg1 arg2 arg3))
  send_conts-receive Stored laws bounded zero c csum arg1 arg2 arg3 pre enough zero_flags good
        some_args loose some_pre e =
      let no : ⊥ = omega (arith, enough, heavy c.args some_args) in elim no [ ]
  send_conts-receive Stored laws bounded (suc fuel) c csum arg1 arg2 arg3 pre enough zero_flags good
        some_args loose some_pre e =
      let cuttable : IsCuttable (cont_body c csum) (max_body_size - 1) =
        (refl, some_args, omega (arith, wide_room csum.kind), omega arith, loose.0) in
      let (bs, body, frame) =
        write_call_cont_into-read p hashes Stored laws bounded (cont_body c csum) max_body_size
          (omega (arith, zero_flags)) good cuttable (omega arith) in
      deliver_frame Stored laws bounded fuel c csum arg1 arg2 arg3 pre bs body frame enough
        zero_flags good loose some_pre e
        (λ next n.
          send_conts-receive Stored laws bounded fuel next body.csum arg1 arg2 arg3
            (rejoin pre body.args) n.enough n.zero_flags
            (rw frame.frame.1.summed (updated-IsChecksum hashes bounded body.args csum good))
            n.some_args n.loose n.some_pre n.joined)
