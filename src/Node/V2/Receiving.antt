-- ===== src/Node/V2/Receiving.antt =====
-- node/v2/handler.js, _checkCallFrame and _handleCallFrame: a frame of a streamed request, its checksum
-- against the one of the frame before, its arguments handed to the request.
use tchannel.Prelude.{
  Bool, true, false, not, Option, none, some, ◌==◌, if◌then◌else◌, string_eq, nat_eq,
}
use tchannel.Node.ArgStream.{
  StreamError, StreamingInRequest, initial, streaming, done, error, create_request,
  handle_request_frame,
}
use tchannel.Node.V2.Checksum
use tchannel.Node.V2.Checksum.{Hashes, ChecksumError, type_eq}
use tchannel.Node.V2.Args.{Body, fragment_flag}
use tchannel.Node.V2.Call.{verify_checksum, verify_cont_checksum}

pub data CallFault : Type 0 where
  after_done after_error checksum_type_changed : CallFault
  checksum_error : ChecksumError → CallFault
  stream_error : StreamError → CallFault

-- the request `r` with its checksum
pub record InCall : Type 0 where
  pub checksum : Checksum.Checksum
  pub request : StreamingInRequest

abbrev pub checksum_fault : Option ChecksumError → Option CallFault
checksum_fault none = none
checksum_fault (some e) = some (checksum_error e)

abbrev pub stream_fault : Option StreamError → Option CallFault
stream_fault none = none
stream_fault (some e) = some (stream_error e)

-- `verified` is frame.body.verifyChecksum(checksum.val), of a call or of a continuation
unfoldable pub check_call_frame : InCall → Body → Option ChecksumError → Option CallFault
check_call_frame r body verified = elim r.request.state [
  | done ↦ some after_done
  | error ↦ some after_error
  | initial ↦
      if type_eq r.checksum.kind body.csum.kind
      then checksum_fault verified
      else some checksum_type_changed
  | streaming ↦
      if type_eq r.checksum.kind body.csum.kind
      then checksum_fault verified
      else some checksum_type_changed
]

-- what is left: the fault that r.errorEvent emits, the request, whether it stays in streamingColl, and
-- what the function returns
pub record Handled : Type 0 where
  pub fault : Option CallFault
  pub call : InCall
  pub streamed : Bool
  pub handled : Bool

-- isLast
unfoldable pub is_last : Body → Bool
is_last body = fragment_flag body.flags == 0

abbrev pub with_fault : Option CallFault → InCall → Bool → Handled
with_fault none r last = record { fault = none; call = r; streamed = not last; handled = true }
with_fault (some f) r last = record { fault = some f; call = r; streamed = false; handled = false }

abbrev pub handle_checked : InCall → Body → Option CallFault → Handled
handle_checked r body (some f) = with_fault (some f) r true
handle_checked r body none =
    let after = handle_request_frame body.args (is_last body) r.request in
    with_fault (stream_fault after.0) (record { checksum = body.csum; request = after.1 })
      (is_last body)

unfoldable pub handle_call_frame : InCall → Body → Option ChecksumError → Handled
handle_call_frame r body verified = handle_checked r body (check_call_frame r body verified)

module _ (hashes : Hashes) where
  -- the call of _handleCallFrame in handleCallRequest, for a streamed request that buildInRequest has made
  unfoldable pub handle_call_request : Body → Handled
  handle_call_request body =
      handle_call_frame
        (record { checksum = Checksum.create body.csum.kind; request = create_request }) body
        (verify_checksum hashes body)

  -- the call of _handleCallFrame in handleCallRequestCont, for a request that is in streamingReq
  unfoldable pub handle_call_request_cont : InCall → Body → Handled
  handle_call_request_cont r body =
      handle_call_frame r body (verify_cont_checksum hashes body r.checksum.val)
