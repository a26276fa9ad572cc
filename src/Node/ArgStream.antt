-- ===== src/Node/ArgStream.antt =====
-- node/argstream.js and node/streaming_in_request.js: the incoming arguments of a streamed request.
-- A stream is the bytes that were written to it and whether it was ended; the `finish` events of the
-- two streams come later, as a step of their own.
pub mod Joining
use tchannel.Prelude.{
  ℕ, zero, suc, ◌+◌, ◌-◌, ◌*◌, ◌/◌, ◌%◌, ◌≤◌, ◌<◌, ◌≡◌, refl, sym, ap, ◌∙◌, ◌≢◌, ◌⊎◌, inl, inr, ◌↔◌,
  String, Bool, true, false, not, ◌&&◌, ◌||◌, List, [], ◌∷◌, ◌++◌, map, Option, none, some, arith,
  ltb, leb, ◌==◌, if◌then◌else◌, contains, string_eq, nat_eq, Eq, beq_self, is_some, or_default,
  Bool-cases, or_false, Option-cases, length, get_elem?, get_or, set, take, drop, replicate, All,
  length-append, append_assoc, append_nil, take-append-drop, drop-length-append, length-set,
  length-replicate, get_or-set, length-take, get_or-take, get_or-append, get_or-length,
}

pub record StreamArg : Type 0 where
  pub written : List ℕ
  pub ended : Bool

pub record InArgStream : Type 0 where
  pub arg2 : StreamArg
  pub arg3 : StreamArg
  pub i_stream : ℕ
  pub finished : Bool
  pub num_finished : ℕ

pub data StreamError : Type 0 where
  arg_stream_finished exceeded_frame_parts arg1_fragmented unknown_frame_handling_state :
      StreamError

unfoldable pub create : InArgStream
create = record {
  arg2 = record { written = []; ended = false };
  arg3 = record { written = []; ended = false };
  i_stream = 0;
  finished = false;
  num_finished = 0;
}

-- whether there is a stream at self.streams[self._iStream]
unfoldable pub has_stream : InArgStream → Bool
has_stream self = ltb self.i_stream 2

-- stream.write(part)
unfoldable pub write : List ℕ → InArgStream → InArgStream
write part self =
    if self.i_stream == 0
    then record self { arg2 = record self.arg2 { written = self.arg2.written ++ part } }
    else record self { arg3 = record self.arg3 { written = self.arg3.written ++ part } }

-- self.streams[self._iStream].end()
unfoldable pub end : InArgStream → InArgStream
end self =
    if self.i_stream == 0
    then record self { arg2 = record self.arg2 { ended = true } }
    else record self { arg3 = record self.arg3 { ended = true } }

unfoldable pub advance : InArgStream → InArgStream
advance self = if has_stream self then record (end self) { i_stream = self.i_stream + 1 } else self

-- `if (parts[i].length) stream.write(parts[i])`
unfoldable pub write_part : List ℕ → InArgStream → InArgStream
write_part [] self = self
write_part (b ∷ part) self = write (b ∷ part) self

-- The rounds of the loop from `i` = 1 on, with whether it was left for want of a stream.
unfoldable pub handle_rest : List (List ℕ) → InArgStream → InArgStream × Bool
handle_rest [] self = (self, false)
handle_rest (part ∷ parts) self =
    let next = advance self in
    let rest = handle_rest parts (write_part part next) in
    if has_stream next then rest else (next, true)

unfoldable pub handle_parts : List (List ℕ) → InArgStream → InArgStream × Bool
handle_parts [] self = (self, false)
handle_parts (part ∷ parts) self =
    if has_stream self then handle_rest parts (write_part part self) else (self, true)

-- `while (stream) stream = advance()`: two streams
unfoldable pub advance_all : InArgStream → InArgStream
advance_all self = advance (advance self)

-- `none` for null
unfoldable pub handle_frame : List (List ℕ) → Bool → InArgStream → Option StreamError × InArgStream
handle_frame parts is_last self =
    if self.finished
    then (some arg_stream_finished, self)
    else let handled = handle_parts parts self in
      if handled.1
      then (some exceeded_frame_parts, handled.0)
      else if is_last
      then (none, advance_all handled.0)
      else (none, handled.0)

-- one of the two `finish` events, with whether finishEvent is emitted
unfoldable pub arg_finished : InArgStream → InArgStream × Bool
arg_finished self =
    let n = self.num_finished + 1 in
    if leb 2 n && not self.finished
    then (record self { num_finished = n; finished = true }, true)
    else (record self { num_finished = n }, false)

pub data State : Type 0 where
  initial streaming done error : State

-- StreamingInRequest
pub record StreamingInRequest : Type 0 where
  pub state : State
  pub arg1 : List ℕ
  pub argstream : InArgStream

unfoldable pub create_request : StreamingInRequest
create_request = record { state = initial; arg1 = []; argstream = create }

unfoldable pub pass_on :
    List (List ℕ) → Bool → StreamingInRequest → Option StreamError × StreamingInRequest
pass_on parts is_last self =
    let handled = handle_frame parts is_last self.argstream in
    (handled.0, record self { argstream = handled.1 })

-- The last test of the source, that the state is still Streaming, is on the state that was just set or
-- tested.
unfoldable pub handle_request_frame :
    List (List ℕ) → Bool → StreamingInRequest → Option StreamError × StreamingInRequest
handle_request_frame parts is_last self = elim self.state [
  | initial ↦ first_frame parts
  | streaming ↦ pass_on parts is_last self
  | done ↦ (some unknown_frame_handling_state, self)
  | error ↦ (some unknown_frame_handling_state, self)
]
  where
    first_frame : List (List ℕ) → Option StreamError × StreamingInRequest
    first_frame [] = (some arg1_fragmented, self)
    first_frame (arg1 ∷ []) = (some arg1_fragmented, self)
    first_frame (arg1 ∷ part ∷ parts) =
        pass_on (part ∷ parts) is_last (record self { state = streaming; arg1 = arg1 })
