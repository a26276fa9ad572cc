-- ===== src/Node/OutResponse.antt =====
-- node/out_response.js: an outgoing response and its states. The frames that it hands to the
-- connection are kept in a log, and so are the errors that errorEvent emits and how often finishEvent
-- does. `closing` is whether the connection of the request is closing, `now` the clock of the call.
pub mod Wire
mod Tests
use tchannel.Prelude.{
  ℕ, zero, suc, ◌+◌, ◌-◌, ◌*◌, ◌/◌, ◌%◌, ◌≤◌, ◌<◌, ◌≡◌, refl, sym, ap, ◌∙◌, ◌≢◌, ◌⊎◌, inl, inr, ◌↔◌,
  String, Bool, true, false, not, ◌&&◌, ◌||◌, List, [], ◌∷◌, ◌++◌, map, Option, none, some, arith,
  ltb, leb, ◌==◌, if◌then◌else◌, contains, string_eq, nat_eq, Eq, beq_self, is_some, or_default,
  Bool-cases, Option-cases, length, get_elem?, get_or, set, take, replicate, All, length-append,
  length-set, length-replicate, get_or-set, length-take, get_or-take, get_or-append, get_or-length,
}

pub data State : Type 0 where
  initial streaming done error : State

-- what _sendCallResponse, _sendCallResponseCont and _sendError are given
pub data Frame : Type 0 where
  call_response : List String → Bool → Frame
  call_response_cont : List String → Bool → Frame
  error_frame : String → String → Frame

pub data Fault : Type 0 where
  response_frame_state response_already_done response_already_started : Fault

pub record OutResponse : Type 0 where
  pub state : State
  pub ok : Bool
  pub code : ℕ
  pub start : ℕ
  pub end : ℕ
  pub arg1 : String
  pub arg2 : String
  pub arg3 : String
  pub code_string : Option String
  pub message : Option String
  pub sent : List Frame
  pub faults : List Fault
  pub finished : ℕ

-- new TChannelOutResponse(id, {code: code})
unfoldable pub create : ℕ → OutResponse
create code = record {
  state = initial;
  ok = code == 0;
  code = code;
  start = 0;
  end = 0;
  arg1 = "";
  arg2 = "";
  arg3 = "";
  code_string = none;
  message = none;
  sent = [];
  faults = [];
  finished = 0;
}

abbrev pub fault : Fault → OutResponse → OutResponse
fault f r = record r { faults = r.faults ++ f ∷ [] }

abbrev pub done_or_streaming : Bool → State
done_or_streaming last = if last then done else streaming

unfoldable pub send_call_response_frame : ℕ → List String → Bool → OutResponse → OutResponse
send_call_response_frame now args last r = elim r.state [
  | initial ↦ record r {
    start = now;
    sent = r.sent ++ call_response args last ∷ [];
    state = done_or_streaming last;
  }
  | streaming ↦ fault response_frame_state r
  | done ↦ fault response_already_done r
  | error ↦ fault response_already_done r
]

unfoldable pub send_call_response_cont_frame : List String → Bool → OutResponse → OutResponse
send_call_response_cont_frame args last r = elim r.state [
  | initial ↦ fault response_frame_state r
  | streaming ↦ record r {
    sent = r.sent ++ call_response_cont args last ∷ [];
    state = done_or_streaming last;
  }
  | done ↦ fault response_already_done r
  | error ↦ fault response_already_done r
]

unfoldable pub send_parts : ℕ → List String → Bool → OutResponse → OutResponse
send_parts now parts last r = elim r.state [
  | initial ↦ send_call_response_frame now parts last r
  | streaming ↦ send_call_response_cont_frame parts last r
  | done ↦ fault response_frame_state r
  | error ↦ r
]

unfoldable pub emit_finish : ℕ → OutResponse → OutResponse
emit_finish now r = if r.end == 0 then record r { end = now; finished = r.finished + 1 } else r

abbrev pub is_ended : State → Bool
is_ended initial = false
is_ended streaming = false
is_ended done = true
is_ended error = true

unfoldable pub send_error : ℕ → Bool → String → String → OutResponse → OutResponse
send_error now closing code_string message r =
    if closing
    then r
    else (if is_ended r.state
        then fault response_already_done r
        else emit_finish now (record r {
          state = error;
          code_string = some code_string;
          message = some message;
          sent = r.sent ++ error_frame code_string message ∷ [];
        }))

abbrev pub is_initial : State → Bool
is_initial initial = true
is_initial _ = false

-- setOk, with what it returns
unfoldable pub set_ok : Bool → OutResponse → OutResponse × Bool
set_ok ok r =
    if is_initial r.state
    then (record r { ok = ok; code = if ok then 0 else 1 }, true)
    else (fault response_already_started r, false)

unfoldable pub send : ℕ → Bool → String → String → OutResponse → OutResponse
send now closing res1 res2 r =
    if not (r.end == 0)
    then r
    else (let r' = record r { arg2 = res1; arg3 = res2 } in
        emit_finish now (
          if closing
          then r'
          else send_call_response_frame now (r'.arg1 ∷ res1 ∷ res2 ∷ []) true r'))

unfoldable pub send_ok : ℕ → Bool → String → String → OutResponse → OutResponse
send_ok now closing res1 res2 r = send now closing res1 res2 (set_ok true r).0

abbrev pub is_error : State → Bool
is_error error = true
is_error _ = false

unfoldable pub send_not_ok : ℕ → Bool → String → String → OutResponse → OutResponse
send_not_ok now closing res1 res2 r =
    if is_error r.state then r else send now closing res1 res2 (set_ok false r).0
