-- ===== src/Node/V2/Delivery/Rounds.antt =====
-- One frame of a continuation, as it is sent and as it is received.
use tchannel.Prelude.{
  ℕ, zero, suc, ◌%◌, ◌≤◌, ◌<◌, ◌≡◌, refl, Bool, true, false, not, List, [], ◌∷◌, none, some, arith,
  string_eq, nat_eq, length,
}
use tchannel.Node.ArgStream.{InArgStream, streaming, handle_frame, handle_request_frame, pass_on}
use tchannel.Node.ArgStream.Joining.{complete}
use tchannel.Node.V2.Rw.{Result, ok, ◌>>=◌, Bytes}
use tchannel.Node.V2.Checksum
use tchannel.Node.V2.Checksum.{Hashes, ChecksumError, type_eq, updated}
use tchannel.Node.V2.Bufrw.{Bufrw}
use tchannel.Node.V2.Args.{Body, Cont, fragment_flag, set_fragment}
use tchannel.Node.V2.Args.Cutting.{rejoin, left_over, is_tight}
use tchannel.Node.V2.Call.{verify_cont_checksum, read_call_cont_from, write_call_cont_into}
use tchannel.Node.V2.Sending.{max_body_size, cont_body, send_conts}
use tchannel.Node.V2.Receiving.{
  InCall, Handled, check_call_frame, is_last, handle_call_frame, handle_call_request_cont,
}
use tchannel.Node.V2.Checksum.{kind-updated, verify-updated, verify}
use tchannel.Node.V2.Call.{read_body}
use tchannel.Node.V2.Streams.{holding, frame-holding, last-holding}

-- the frames in their order, as handleCallRequestCont gets them
abbrev pub receive : Bufrw → Hashes → List Bytes → Handled → Result Handled
receive p hashes [] h = ok h
receive p hashes (frame ∷ frames) h = do
  body ← read_call_cont_from p frame
  receive p hashes frames (handle_call_request_cont hashes h.call body)

-- No argument ends where its frame has no room for the next one's size, in any of the frames.
abbrev pub IsLooseRun : ℕ → List Bytes → ℕ → Type 0
IsLooseRun zero args room = Unit
IsLooseRun (suc fuel) args room =
    (is_tight args room ≡ false) × IsLooseRun fuel (left_over args room) room

-- a streamed request whose first frame has come, with the checksum so far
abbrev pub in_stream : Checksum.Checksum → Bytes → InArgStream → InCall
in_stream csum arg1 argstream = record {
  checksum = csum;
  request = record { state = streaming; arg1 = arg1; argstream = argstream };
}

pub type_eq_self : (kind : Checksum.ChecksumType) → type_eq kind kind ≡ true
type_eq_self Checksum.none_type = refl
type_eq_self Checksum.crc32 = refl
type_eq_self Checksum.farm32 = refl
type_eq_self Checksum.crc32c = refl

-- a continuation with the right checksum hands its arguments on
handle_cont :
    (hashes : Hashes) (csum : Checksum.Checksum) (arg1 : Bytes) (s s' : InArgStream) (body : Body)
    (last : Bool)
    → body.csum ≡ updated hashes body.args csum
    → is_last body ≡ last
    → handle_frame body.args last s ≡ (none, s')
    → handle_call_request_cont hashes (in_stream csum arg1 s) body ≡ record {
      fault = none;
      call = in_stream body.csum arg1 s';
      streamed = not last;
      handled = true;
    }
unfolding handle_call_request_cont handle_call_frame check_call_frame handle_request_frame pass_on
    verify_cont_checksum
handle_cont hashes csum arg1 s s' body last summed l h =
    let kind : body.csum.kind ≡ csum.kind = rw summed (kind-updated hashes body.args csum) in
    let checked : verify hashes body.csum body.args (some csum.val) ≡ none =
      rw summed (verify-updated hashes body.args csum) in
    let same : type_eq csum.kind body.csum.kind ≡ true = rw kind (type_eq_self csum.kind) in
    rw (same, checked, l, h)

-- the request as the last continuation leaves it
abbrev pub delivered : Checksum.Checksum → Bytes → Bytes → Bytes → Handled
delivered csum arg1 arg2 arg3 = record {
  fault = none;
  call = in_stream csum arg1 (complete arg2 arg3);
  streamed = false;
  handled = true;
}

-- the request on the way
abbrev pub under_way : Checksum.Checksum → Bytes → List Bytes → Handled
under_way csum arg1 pre = record {
  fault = none;
  call = in_stream csum arg1 (holding pre);
  streamed = true;
  handled = true;
}

is_last-read : (body : Body) (flags : ℕ) → body.flags ≡ flags → flags % 2 ≡ 0 → is_last body ≡ true
unfolding is_last fragment_flag
is_last-read body flags e h = rw (e, h)

pub is_last-set :
    (body : Body) (flags : ℕ) → body.flags ≡ set_fragment flags → flags ≡ 0 → is_last body ≡ false
unfolding is_last fragment_flag set_fragment
is_last-set body flags e h = rw (e, h)

module _ (p : Bufrw) (hashes : Hashes) where
  pub send_last :
      (fuel : ℕ) (c : Cont) (csum : Checksum.Checksum) (bs : Bytes) (body : Body)
      → write_call_cont_into p hashes (cont_body c csum) max_body_size ≡ ok (bs, body)
      → body.cont ≡ none
      → send_conts p hashes (suc fuel) (some c) csum ≡ ok (some (bs ∷ [], body.csum))
  unfolding send_conts
  send_last fuel c csum bs body w e = rw (w, e)

  pub send_more :
      (fuel : ℕ) (c next : Cont) (csum csum' : Checksum.Checksum) (bs : Bytes) (body : Body)
      (frames : List Bytes)
      → write_call_cont_into p hashes (cont_body c csum) max_body_size ≡ ok (bs, body)
      → body.cont ≡ some next
      → send_conts p hashes fuel (some next) body.csum ≡ ok (some (frames, csum'))
      → send_conts p hashes (suc fuel) (some c) csum ≡ ok (some (bs ∷ frames, csum'))
  unfolding send_conts
  send_more fuel c next csum csum' bs body frames w e s = rw (w, e, s)

  receive-cons :
      (frame : Bytes) (frames : List Bytes) (body : Body) (h h' : Handled)
      → read_call_cont_from p frame ≡ ok body
      → handle_call_request_cont hashes h.call body ≡ h'
      → receive p hashes (frame ∷ frames) h ≡ receive p hashes frames h'
  receive-cons frame frames body h h' r e = rw (r, e)

  -- one frame of several
  pub receive_more :
      (frame : Bytes) (frames : List Bytes) (body : Body) (csum : Checksum.Checksum) (arg1 : Bytes)
      (pre : List Bytes)
      → read_call_cont_from p frame ≡ ok (read_body body.flags (body.csum, body.args))
      → body.csum ≡ updated hashes body.args csum
      → body.flags ≡ set_fragment 0
      → 0 < length pre
      → 0 < length body.args
      → length (rejoin pre body.args) ≤ 2
      → receive p hashes (frame ∷ frames) (under_way csum arg1 pre)
        ≡ receive p hashes frames (under_way body.csum arg1 (rejoin pre body.args))
  receive_more frame frames body csum arg1 pre r summed cut some_pre some_parts small =
      let b = read_body body.flags (body.csum, body.args) in
      receive-cons frame frames b (under_way csum arg1 pre)
        (under_way body.csum arg1 (rejoin pre body.args)) r
        (handle_cont hashes csum arg1 (holding pre) (holding (rejoin pre body.args)) b false summed
          (is_last-set b 0 cut refl) (frame-holding pre body.args some_pre some_parts small))

  -- and the last one
  pub receive_last :
      (frame : Bytes) (body : Body) (csum : Checksum.Checksum) (arg1 arg2 arg3 : Bytes)
      (pre : List Bytes)
      → read_call_cont_from p frame ≡ ok (read_body body.flags (body.csum, body.args))
      → body.csum ≡ updated hashes body.args csum
      → body.flags ≡ 0
      → 0 < length pre
      → 0 < length body.args
      → rejoin pre body.args ≡ arg2 ∷ arg3 ∷ []
      → receive p hashes (frame ∷ []) (under_way csum arg1 pre)
        ≡ ok (delivered body.csum arg1 arg2 arg3)
  receive_last frame body csum arg1 arg2 arg3 pre r summed whole some_pre some_parts e =
      let b = read_body body.flags (body.csum, body.args) in
      receive-cons frame [] b (under_way csum arg1 pre) (delivered body.csum arg1 arg2 arg3) r (
        handle_cont hashes csum arg1 (holding pre) (complete arg2 arg3) b true summed
          (is_last-read b 0 whole (omega arith))
          (last-holding pre body.args arg2 arg3 some_pre some_parts e))
