-- ===== src/Node/Services/Sending.antt =====
-- How node/request.js sends over the counters of node/services.js: `send` counts the request before
-- `resend` has it checked, and `emitError` takes a request that is refused off again.
use tchannel.Prelude.{String, List, [], ◌∷◌, Option, none, some}
use tchannel.Node.Services.{
  Services, Exceeded, error_if_exceeds_max_pending, on_request, on_request_response,
  on_request_error,
}
use tchannel.Node.Services.Pending.{Call, request, response, error}

-- send(), up to the check of the first attempt, of a request that tracks pending requests: the
-- counters, and the error that the caller is given. The outer `none` is a TypeError.
unfoldable pub send : String → Services → Option (Services × Option Exceeded)
send name s = elim (error_if_exceeds_max_pending name (on_request name s)) [
  | none ↦ some (on_request name s, none)
  | some x ↦ elim (on_request_error name (on_request name s)) [
    | none ↦ none
    | some s' ↦ some (s', some x)
  ]
]

-- what a sending leaves of the counters
abbrev pub left_by : Option (Services × Option Exceeded) → Option Services
left_by none = none
left_by (some (s, x)) = some s

-- one thing that happens: a request is sent, or one ends
unfoldable pub happen : Call → Services → Option Services
happen (request name) s = left_by (send name s)
happen (response name) s = on_request_response name s
happen (error name) s = on_request_error name s

unfoldable pub traffic : List Call → Services → Option Services
traffic [] s = some s
traffic (c ∷ cs) s = elim (happen c s) [ none ↦ none | some s' ↦ traffic cs s' ]
