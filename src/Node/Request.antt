-- ===== src/Node/Request.antt =====
-- node/request.js: a request, which makes attempts over out requests until one is answered for good.
-- Every method returns what the request then waits for; none asks whether the request still waited for
-- its call. `now` is the clock of the call, never before the start. What the caller is given is kept
-- in a log.
pub mod Trace
pub mod Sound
pub mod Answers
pub mod Attempts
pub mod Retries
mod Tests
use tchannel.Prelude.{
  ℕ, zero, suc, ◌+◌, ◌-◌, ◌*◌, ◌/◌, ◌%◌, ◌≤◌, ◌<◌, ◌≡◌, refl, sym, ap, ◌∙◌, ◌≢◌, ◌⊎◌, inl, inr, ◌↔◌,
  String, Bool, true, false, not, ◌&&◌, ◌||◌, List, [], ◌∷◌, ◌++◌, map, Option, none, some, arith,
  ltb, leb, ◌==◌, if◌then◌else◌, contains, string_eq, nat_eq, Eq, beq_self, is_some, or_default,
  Bool-cases, Option-cases, length, get_elem?, get_or, set, take, replicate, All, length-append,
  length-set, length-replicate, get_or-set, length-take, get_or-take, get_or-append, get_or-length,
}
use tchannel.Node.Errors.{Err, CodeName, RetryFlags, classify, should_retry}

pub record Res : Type 0 where
  pub ok : Bool
  pub body : String

-- what an attempt was given, and its own err and res
pub record OutReq : Type 0 where
  pub timeout : ℕ
  pub retry_count : ℕ
  pub err : Option Err
  pub res : Option Res

pub record Options : Type 0 where
  pub timeout : ℕ
  pub timeout_per_attempt : ℕ
  pub retry_limit : ℕ
  pub retry_flags : RetryFlags
  pub track_pending : Bool
  pub should_application_retry : Bool

-- what errorEvent and responseEvent emit
pub data Outcome : Type 0 where
  emitted_error : Err → Outcome
  emitted_response : Res → Outcome

pub record Request : Type 0 where
  pub options : Options
  pub out_reqs : List OutReq
  pub timeout : ℕ
  pub timeout_per_attempt : ℕ
  pub limit : ℕ
  pub start : ℕ
  pub end : ℕ
  pub elapsed : ℕ
  pub resend_sanity : ℕ
  pub err : Option Err
  pub res : Option Res
  pub emitted : List Outcome

-- a || b, for numbers
abbrev pub nonzero_or : ℕ → ℕ → ℕ
nonzero_or d n = if n == 0 then d else n

-- new TChannelRequest(options), where an option that is not given is 0
unfoldable pub create : Options → Request
create o =
    let timeout = nonzero_or 100 o.timeout in
    let flags =
      if o.timeout_per_attempt == 0
      then o.retry_flags
      else record o.retry_flags { on_timeout = true } in
    record {
      options = record o { retry_flags = flags };
      out_reqs = [];
      timeout = timeout;
      timeout_per_attempt = nonzero_or timeout o.timeout_per_attempt;
      limit = nonzero_or 5 o.retry_limit;
      start = 0;
      end = 0;
      elapsed = 0;
      resend_sanity = 0;
      err = none;
      res = none;
      emitted = [];
    }

abbrev pub typed : String → Err
typed kind = record { is_error_frame = false; code_name = none; kind = kind }

abbrev pub no_peer_available : Err
no_peer_available = typed "tchannel.no-peer-available"

abbrev pub retry_limit_exceeded : Err
retry_limit_exceeded = typed "tchannel.request.retry-limit-exceeded"

abbrev pub request_timeout : Err
request_timeout = typed "tchannel.request.timeout"

unfoldable pub emit_error : ℕ → Err → Request → Request
emit_error now e r = record r {
  end = nonzero_or now r.end;
  err = some e;
  emitted = r.emitted ++ emitted_error e ∷ [];
}

unfoldable pub emit_response : ℕ → Res → Request → Request
emit_response now x r = record r {
  end = nonzero_or now r.end;
  res = some x;
  emitted = r.emitted ++ emitted_response x ∷ [];
}

-- What the request waits for: nothing; a deferred resend; the peer that was chosen to be identified; the
-- attempt that was sent; or the answer of the application to whether a response is retried.
pub data Next : Type 0 where
  nothing resend_later identification attempt : Next
  application : Res → Next

-- checkTimeout(err, res)
unfoldable pub check_timeout : ℕ → Option Err → Option Res → Request → Request × Bool
check_timeout now err res r =
    let r' = record r { elapsed = now - r.start } in
    if ltb r'.elapsed r'.timeout then (r', false) else (
      elim err [
        | some e ↦ if is_some r'.err then r' else emit_error now e r'
        | none ↦ elim res [
          | some x ↦ if is_some r'.err || is_some r'.res then r' else emit_response now x r'
          | none ↦ if is_some r'.err then r' else emit_error now request_timeout r'
        ]
      ],
      true,
    )

-- shouldRetryError(err); an error that no code name is known for is retried
unfoldable pub should_retry_error : Err → Request → Bool
should_retry_error e r =
    if leb r.limit (length r.out_reqs)
    then false
    else (if r.options.retry_flags.never
        then false
        else or_default true (should_retry (classify e) r.options.retry_flags))

-- `--self.resendSanity <= 0`; below zero it stays so, and here it stays at zero
unfoldable pub defer_resend : ℕ → Request → Request × Next
defer_resend now r =
    let r' = record r { resend_sanity = r.resend_sanity - 1 } in
    if leb r'.resend_sanity 0
    then (emit_error now retry_limit_exceeded r', nothing)
    else (r', resend_later)

abbrev pub last_req : List OutReq → Option OutReq
last_req [] = none
last_req (x ∷ []) = some x
last_req (x ∷ y ∷ l) = last_req (y ∷ l)

-- what the caller is given where no peer is left
unfoldable pub without_peer : ℕ → Request → Request
without_peer now r = elim (last_req r.out_reqs) [
  | none ↦ emit_error now no_peer_available r
  | some x ↦ elim x.err [
    | some e ↦ emit_error now e r
    | none ↦ elim x.res [
      | some y ↦ emit_response now y r
      | none ↦ emit_error now no_peer_available r
    ]
  ]
]

-- resend(). `pending` is the error of checkPending, if there is one, and `peer` whether choosePeer
-- finds a peer.
unfoldable pub resend : ℕ → Option Err → Bool → Request → Request × Next
resend now pending peer r = elim (if r.options.track_pending then pending else none) [
  | some e ↦ (emit_error now e r, nothing)
  | none ↦
      let (r', late) = check_timeout now none none r in
      if late
      then (r', nothing)
      else (if peer then (r', identification) else (without_peer now r', nothing))
]

unfoldable pub send : ℕ → Option Err → Bool → Request → Request × Next
send now pending peer r =
    resend now pending peer (record r { start = now; resend_sanity = r.limit + 1 })

abbrev pub min : ℕ → ℕ → ℕ
min a b = if ltb b a then b else a

-- onIdentified of resend, and of the request
unfoldable pub on_identified : ℕ → Option Err → Request → Request × Next
on_identified now (some e) r = (emit_error now e r, nothing)
on_identified now none r =
    let out_req : OutReq = record {
      timeout = min (r.timeout - r.elapsed) r.timeout_per_attempt;
      retry_count = length r.out_reqs;
      err = none;
      res = none;
    } in
    (record r { out_reqs = r.out_reqs ++ out_req ∷ [] }, attempt)

-- the last attempt keeps what it reports
unfoldable pub keep_report : Option Err → Option Res → List OutReq → List OutReq
keep_report e x [] = []
keep_report e x (o ∷ []) = record o { err = e; res = x } ∷ []
keep_report e x (o ∷ o' ∷ l) = o ∷ keep_report e x (o' ∷ l)

unfoldable pub on_subreq_error : ℕ → Err → Request → Request × Next
on_subreq_error now e r =
    let kept = record r { out_reqs = keep_report (some e) none r.out_reqs } in
    let (r', late) = check_timeout now (some e) none kept in
    if late
    then (r', nothing)
    else (if should_retry_error e r' then defer_resend now r' else (emit_error now e r', nothing))

unfoldable pub on_subreq_response : ℕ → Res → Request → Request × Next
on_subreq_response now x r =
    let kept = record r { out_reqs = keep_report none (some x) r.out_reqs } in
    let (r', late) = check_timeout now none (some x) kept in
    if late
    then (r', nothing)
    else (if x.ok
        then (emit_response now x r', nothing)
        else (if r'.options.should_application_retry
            then (r', application x)
            else (emit_response now x r', nothing)))

-- the callbacks `retry` and `done` of maybeAppRetry
unfoldable pub app_retry : ℕ → Res → Request → Request × Next
app_retry now x r =
    let (r', late) = check_timeout now none (some x) r in
    if late then (r', nothing) else defer_resend now r'

unfoldable pub app_done : ℕ → Option Err → Res → Request → Request × Next
app_done now (some e) x r = (emit_error now e r, nothing)
app_done now none x r = (emit_response now x r, nothing)
