-- ===== src/Node/Errors.antt =====
-- The classification of errors in node/errors.js: `classify`, `isUnhealthy`, `shouldRetry`,
-- `toHTTPCode` and `logLevel`. A code name is one of the names of error frames (node/v2/
-- error_response.js); `none` is null, or a name that the switch does not know.
use tchannel.Prelude.{
  ℕ, String, Bool, true, false, List, [], ◌∷◌, Option, none, some, if◌then◌else◌, contains,
  string_eq, nat_eq,
}

pub data CodeName : Type 0 where
  timeout cancelled busy declined unexpected_error : CodeName
  bad_request network_error unhealthy protocol_error : CodeName

-- what `classify` reads of an error
pub record Err : Type 0 where
  pub is_error_frame : Bool
  pub code_name : Option CodeName
  pub kind : String

-- the cases of the switch, one list for each code name that it returns
abbrev pub cancelled_kinds : List String
cancelled_kinds = "tchannel.request.retry-limit-exceeded" ∷ []

abbrev pub declined_kinds : List String
declined_kinds =
    "tchannel.max-pending" ∷ "tchannel.max-pending-for-service" ∷ "tchannel.no-peer-available"
    ∷ "tchannel.no-service-handler" ∷ "tchannel.request.drained" ∷ []

abbrev pub timeout_kinds : List String
timeout_kinds =
    "tchannel.connection-stale.timeout" ∷ "tchannel.connection.timeout" ∷ "tchannel.request.timeout"
    ∷ []

abbrev pub bad_request_kinds : List String
bad_request_kinds =
    "tchannel-handler.json.invalid-body" ∷ "tchannel-json-handler.parse-error.body-failed"
    ∷ "tchannel-json-handler.parse-error.head-failed"
    ∷ "tchannel-thrift-handler.parse-error.body-failed"
    ∷ "tchannel-thrift-handler.parse-error.head-failed" ∷ "tchannel.arg-chunk.gap"
    ∷ "tchannel.arg-chunk.out-of-order" ∷ "tchannel.arg1-fragmented"
    ∷ "tchannel.arg1-over-length-limit" ∷ "tchannel.argstream.exceeded-frame-parts"
    ∷ "tchannel.call.checksum-type-changed" ∷ "tchannel.checksum" ∷ "tchannel.duplicate-header-key"
    ∷ "tchannel.handler.incoming-req-as-header-required"
    ∷ "tchannel.handler.incoming-req-cn-header-required"
    ∷ "tchannel.http-handler.to-buffer-arg2.req-failed"
    ∷ "tchannel.http-handler.to-buffer-arg2.res-failed" ∷ "tchannel.null-key"
    ∷ "tchannel.request-already-done" ∷ "tchannel.request-frame-state" ∷ []

abbrev pub protocol_error_kinds : List String
protocol_error_kinds =
    "tchannel.argstream.finished" ∷ "tchannel.argstream.unimplemented"
    ∷ "tchannel.call-request.orphan-cont" ∷ "tchannel.call-response.orphan-cont"
    ∷ "tchannel.call.frame-unexpected.after-done" ∷ "tchannel.call.frame-unexpected.after-error"
    ∷ "tchannel.init.call-request-before-init-request"
    ∷ "tchannel.init.call-request-cont-before-init-request"
    ∷ "tchannel.init.call-response-before-init-response"
    ∷ "tchannel.init.call-response-cont-before-init-response"
    ∷ "tchannel.init.duplicate-init-request" ∷ "tchannel.init.duplicate-init-response"
    ∷ "tchannel.init.ephemeral-init-response" ∷ "tchannel.init.send-call-request-before-indentified"
    ∷ "tchannel.init.send-call-request-cont-before-indentified"
    ∷ "tchannel.init.send-call-response-before-indentified"
    ∷ "tchannel.init.send-call-response-cont-before-indentified" ∷ "tchannel.invalid-error-code"
    ∷ "tchannel.invalid-frame-type" ∷ "tchannel.missing-init-header"
    ∷ "tchannel.protocol.invalid-ttl" ∷ "tchannel.protocol.read-failed"
    ∷ "tchannel.protocol.too-many-headers" ∷ "tchannel.protocol.write-failed"
    ∷ "tchannel.transport-header-too-long" ∷ "tchannel.unhandled-frame-type" ∷ []

abbrev pub network_error_kinds : List String
network_error_kinds =
    "tchannel.connection.close" ∷ "tchannel.connection.reset" ∷ "tchannel.destroyed"
    ∷ "tchannel.local.reset" ∷ "tchannel.socket" ∷ "tchannel.socket-closed"
    ∷ "tchannel.socket-local-closed" ∷ []

abbrev pub unexpected_error_kinds : List String
unexpected_error_kinds =
    "tchannel-json-handler.stringify-error.body-failed"
    ∷ "tchannel-json-handler.stringify-error.head-failed"
    ∷ "tchannel-thrift-handler.stringify-error.body-failed"
    ∷ "tchannel-thrift-handler.stringify-error.head-failed"
    ∷ "tchannel.argstream.unknown-frame-handling-state" ∷ "tchannel.connection.unknown-reset"
    ∷ "tchannel.handler.outgoing-req-as-header-required"
    ∷ "tchannel.handler.outgoing-req-cn-header-required"
    ∷ "tchannel.http-handler.from-buffer-arg2.req-failed"
    ∷ "tchannel.http-handler.from-buffer-arg2.res-failed" ∷ "tchannel.hydrated-error.default-type"
    ∷ "tchannel.invalid-argument" ∷ "tchannel.invalid-handler"
    ∷ "tchannel.invalid-handler.for-registration" ∷ "tchannel.invalid-header-type"
    ∷ "tchannel.lazy-frame.write-corrupt" ∷ "tchannel.response-already-done"
    ∷ "tchannel.response-already-started" ∷ "tchannel.response-frame-state"
    ∷ "tchannel.server.listen-failed" ∷ "tchannel.top-level-register" ∷ "tchannel.top-level-request"
    ∷ "tchannel.tracer.parent-required" ∷ "tchannel.unimplemented-method" ∷ []

-- the switch over `err.type`, in its order
abbrev pub cases : List (List String × CodeName)
cases =
    (cancelled_kinds, cancelled)
    ∷ (declined_kinds, declined)
    ∷ (timeout_kinds, timeout)
    ∷ (bad_request_kinds, bad_request)
    ∷ (protocol_error_kinds, protocol_error)
    ∷ (network_error_kinds, network_error)
    ∷ (unexpected_error_kinds, unexpected_error)
    ∷ []

unfoldable pub switch : List (List String × CodeName) → String → Option CodeName
switch [] kind = none
switch ((kinds, name) ∷ rest) kind = if contains kinds kind then some name else switch rest kind

unfoldable pub classify : Err → Option CodeName
classify e = if e.is_error_frame then e.code_name else switch cases e.kind

unfoldable pub is_unhealthy : Option CodeName → Option Bool
is_unhealthy none = none
is_unhealthy (some bad_request) = some false
is_unhealthy (some cancelled) = some false
is_unhealthy (some unhealthy) = some true
is_unhealthy (some timeout) = some true
is_unhealthy (some busy) = some true
is_unhealthy (some declined) = some true
is_unhealthy (some unexpected_error) = some true
is_unhealthy (some network_error) = some true
is_unhealthy (some protocol_error) = some true

-- node/retry-flags.js
pub record RetryFlags : Type 0 where
  pub never : Bool
  pub on_connection_error : Bool
  pub on_timeout : Bool

unfoldable pub should_retry : Option CodeName → RetryFlags → Option Bool
should_retry none flags = none
should_retry (some bad_request) flags = some false
should_retry (some cancelled) flags = some false
should_retry (some unhealthy) flags = some false
should_retry (some busy) flags = some true
should_retry (some declined) flags = some true
should_retry (some timeout) flags = some flags.on_timeout
should_retry (some network_error) flags = some flags.on_connection_error
should_retry (some protocol_error) flags = some flags.on_connection_error
should_retry (some unexpected_error) flags = some flags.on_connection_error

pub record HttpInfo : Type 0 where
  pub status_code : ℕ
  pub status_message : String

abbrev http : ℕ → String → HttpInfo
http code message = record { status_code = code; status_message = message }

unfoldable pub to_http_code : Option CodeName → HttpInfo
to_http_code (some cancelled) = http 500 "TChannel Cancelled"
to_http_code (some unhealthy) = http 503 "Service Unavailable"
to_http_code (some declined) = http 503 "Service Unavailable"
to_http_code (some timeout) = http 504 "Gateway Timeout"
to_http_code (some bad_request) = http 400 "Bad Request"
to_http_code (some busy) = http 429 "Too Many Requests"
to_http_code (some protocol_error) = http 500 "TChannel Protocol Error"
to_http_code (some network_error) = http 500 "TChannel Network Error"
to_http_code (some unexpected_error) = http 500 "Internal Server Error"
to_http_code none = http 500 "Internal Server Error"

pub data LogLevel : Type 0 where
  info warn error : LogLevel

unfoldable pub log_level : Err → Option CodeName → LogLevel
log_level e (some protocol_error) = if e.is_error_frame then warn else error
log_level e (some unexpected_error) = if e.is_error_frame then warn else error
log_level e (some busy) = warn
log_level e (some cancelled) = warn
log_level e (some declined) = warn
log_level e (some network_error) = warn
log_level e (some bad_request) = info
log_level e (some timeout) = info
log_level e _ = error
