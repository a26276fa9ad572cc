-- ===== src/Node/Request/Tests.antt =====
-- A run of a request, and the theorems at it.
use tchannel.Prelude.{
  ◌+◌, ◌*◌, ◌≤◌, ◌≡◌, refl, true, false, List, [], ◌∷◌, none, some, if◌then◌else◌, string_eq,
  nat_eq, length,
}
use tchannel.Node.Errors.{RetryFlags, busy, Err}
use tchannel.Node.Request.{
  Res, Options, Request, create, emit_error, check_timeout, defer_resend, resend, send,
  on_identified, keep_report, on_subreq_response, app_retry, app_done, emit_response,
}
use tchannel.Node.Request.Trace.{
  Input, resent, identified, answered, retry, done, step, run, all_fit, is_over,
}
use tchannel.Node.Request.Answers.{answered_once}
use tchannel.Node.Request.Attempts.{inputs_bounded}

abbrev flags : RetryFlags
flags = record { never = false; on_connection_error = true; on_timeout = false }

abbrev options : Options
options = record {
  timeout = 0;
  timeout_per_attempt = 0;
  retry_limit = 1;
  retry_flags = flags;
  track_pending = false;
  should_application_retry = true;
}

abbrev good : Res
good = record { ok = true; body = "yes" }

abbrev bad : Res
bad = record { ok = false; body = "no" }

-- The application asks for a retry of both responses that it gets.
abbrev inputs : List Input
inputs =
    identified 2 none
    ∷ answered 3 bad
    ∷ retry 4 bad
    ∷ resent 5 none true
    ∷ identified 6 none
    ∷ answered 7 bad
    ∷ retry 8 bad
    ∷ []

-- The retry limit is one, and two attempts are made.
limit_and_one_attempts : length (run inputs (send 1 none true (create options))).0.out_reqs ≡ 2
unfolding run step send create resend check_timeout on_identified on_subreq_response app_retry
    defer_resend keep_report emit_error
limit_and_one_attempts = refl

inputs_fit : all_fit inputs (send 1 none true (create options)) ≡ true
unfolding all_fit step send create resend check_timeout on_identified on_subreq_response app_retry
    defer_resend keep_report emit_error
inputs_fit = refl

answered_once_example :
    let (r, n) = run inputs (send 1 none true (create options)) in
    (length r.emitted ≡ (if is_over n then 1 else 0))
    × (length r.out_reqs ≤ (create options).limit + 1)
answered_once_example = answered_once options 1 none true inputs inputs_fit

-- A second answer of an attempt, or a second call of the application, is not awaited, and still
-- answers the caller once more.
abbrev late_answers : List Input
late_answers = identified 2 none ∷ answered 3 good ∷ answered 4 good ∷ done 5 none bad ∷ []

answered_three_times : length (run late_answers (send 1 none true (create options))).0.emitted ≡ 3
unfolding run step send create resend check_timeout on_identified on_subreq_response app_done
    keep_report emit_error emit_response
answered_three_times = refl

inputs_bounded_example : length inputs ≤ 4 * (create options).limit + 6
inputs_bounded_example = inputs_bounded options 1 none true inputs inputs_fit

abbrev busy_error : Err
busy_error = record { is_error_frame = true; code_name = some busy; kind = "tchannel.busy" }

-- the first attempt of a request that may make two
abbrev waiting : Request
waiting = record (create (record options { retry_limit = 2 })) {
  out_reqs = record { timeout = 100; retry_count = 0; err = none; res = none } ∷ [];
  start = 1;
  resend_sanity = 3;
}
