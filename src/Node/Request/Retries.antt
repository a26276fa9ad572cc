-- ===== src/Node/Request/Retries.antt =====
-- When an attempt that failed is made again.
use tchannel.Prelude.{
  ℕ, ◌-◌, Bool, true, false, not, ◌&&◌, Option, none, some, ltb, string_eq, nat_eq, length,
}
use tchannel.Node.Errors.{
  CodeName, timeout, cancelled, busy, declined, unexpected_error, bad_request, network_error,
  unhealthy, protocol_error, Err, RetryFlags, classify,
}
use tchannel.Node.Request.{Request}

-- What the protocol says of a call that ended with an error (docs/protocol.md: the codes of error
-- frames, and the flags of the transport header `re`).
pub data Advice : Type 0 where
  do_not_retry safe_to_retry retry_on_timeout retry_on_connection_error : Advice

abbrev pub advice : CodeName → Advice
advice busy = safe_to_retry
advice declined = safe_to_retry
advice cancelled = do_not_retry
advice bad_request = do_not_retry
advice unhealthy = do_not_retry
advice timeout = retry_on_timeout
advice network_error = retry_on_connection_error
advice protocol_error = retry_on_connection_error
advice unexpected_error = retry_on_connection_error

abbrev pub follows : RetryFlags → Advice → Bool
follows flags do_not_retry = false
follows flags safe_to_retry = true
follows flags retry_on_timeout = flags.on_timeout
follows flags retry_on_connection_error = flags.on_connection_error

-- an error of no known class may be retried
abbrev pub allowed : RetryFlags → Option CodeName → Bool
allowed flags none = true
allowed flags (some name) = follows flags (advice name)

-- there is time for another attempt, the limit of attempts is not reached, and the error allows it
unfoldable pub may_retry : ℕ → Err → Request → Bool
may_retry now e r =
    ltb (now - r.start) r.timeout
    && ltb (length r.out_reqs) r.limit
    && not r.options.retry_flags.never
    && allowed r.options.retry_flags (classify e)
