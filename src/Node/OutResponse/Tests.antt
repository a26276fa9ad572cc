-- ===== src/Node/OutResponse/Tests.antt =====
-- A run of a response, and the theorem at it.
use tchannel.Prelude.{
  ◌≡◌, refl, true, false, List, [], ◌∷◌, some, arith, ◌==◌, if◌then◌else◌, string_eq, nat_eq,
}
use tchannel.Node.OutResponse.{
  initial, call_response, call_response_cont, error_frame, create, send_call_response_frame,
  send_call_response_cont_frame, send_parts, emit_finish, send_error, set_ok, send,
}
use tchannel.Node.OutResponse.Wire.{
  Call, parts, error_of, set, plain, call, calls, after, created-calls-IsOnWire,
}

-- A streamed response fails half-way; what is sent after that goes nowhere.
abbrev broken : List Call
broken =
    set true
    ∷ parts 1 ("a" ∷ []) false
    ∷ parts 2 ("b" ∷ []) false
    ∷ error_of 3 false "Busy" "no"
    ∷ parts 4 ("c" ∷ []) true
    ∷ plain 5 false "d" "e"
    ∷ []

created-calls-IsOnWire_example :
    let r = calls broken (create 0) in
    (after initial r.sent ≡ some r.state) × (r.finished ≡ (if r.end == 0 then 0 else 1))
created-calls-IsOnWire_example =
    created-calls-IsOnWire 0 broken
      (omega arith, (omega arith, (omega arith, (omega arith, (omega arith, (omega arith, tt))))))

broken_frames :
    (calls broken (create 0)).sent
    ≡ call_response ("a" ∷ []) false
      ∷ call_response_cont ("b" ∷ []) false
      ∷ error_frame "Busy" "no"
      ∷ []
unfolding calls call set_ok send_parts send_call_response_frame send_call_response_cont_frame
    send_error send emit_finish create
broken_frames = refl
