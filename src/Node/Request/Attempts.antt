-- ===== src/Node/Request/Attempts.antt =====
-- A request comes to its end.
use tchannel.Prelude.{
  ℕ, ◌+◌, ◌-◌, ◌*◌, ◌≤◌, ◌<◌, ◌≡◌, inl, inr, Bool, true, false, List, [], ◌∷◌, Option, none, some,
  arith, if◌then◌else◌, string_eq, nat_eq, Bool-cases, Option-cases, length,
}
use tchannel.Node.Errors.{Err}
use tchannel.Node.Request.{
  Res, Options, Request, create, emit_error, emit_response, Next, nothing, resend_later,
  identification, attempt, application, check_timeout, should_retry_error, defer_resend,
  without_peer, resend, send, on_identified, keep_report, on_subreq_error, on_subreq_response,
  app_retry, app_done,
}
use tchannel.Node.Request.Trace.{
  Input, resent, identified, failed, answered, retry, done, step, fits, all_fit, is_over,
}
use tchannel.Node.Request.Sound.{IsSound, step-IsSound, check_timeout-early}
use tchannel.Node.Request.Answers.{send-IsSound}

weight : Next → ℕ
weight nothing = 0
weight resend_later = 3
weight identification = 2
weight attempt = 1
weight (application x) = 0

-- how many calls may still come
measure : Request × Next → ℕ
unfolding weight
measure (r, n) = if is_over n then 0 else 4 * r.resend_sanity + weight n

over : (r : Request) (m : ℕ) → measure (r, nothing) ≤ m
unfolding measure
over r m = omega arith

after_check :
    (now m : ℕ) (err : Option Err) (res : Option Res) (r : Request) (k : Request → Request × Next)
    → measure (k (record r { elapsed = now - r.start })) ≤ m
    → let (r', late) = check_timeout now err res r in
      measure (if late then (r', nothing) else k r') ≤ m
after_check now m err res r k h = elim (Bool-cases (check_timeout now err res r).1) [
  | inl late ↦ rw late (over (check_timeout now err res r).0 m)
  | inr early ↦ rw (early, check_timeout-early now err res r early) h
]

defer_resend-le :
    (now m : ℕ) (r : Request) → 4 * r.resend_sanity ≤ m + 1 → measure (defer_resend now r) ≤ m
unfolding defer_resend measure
defer_resend-le now m r h = ground (arith, h)

resend-le :
    (now : ℕ) (pending : Option Err) (peer : Bool) (r : Request)
    → measure (resend now pending peer r) ≤ 4 * r.resend_sanity + 2
unfolding measure resend
resend-le now pending true r =
    elim (Option-cases (if r.options.track_pending then pending else none)) [
      | inr (x, over') ↦ rw (resend, over') (omega arith)
      | inl under ↦
          rw (resend, under)
            (after_check now (4 * r.resend_sanity + 2) none none r (λ r'. (r', identification))
              (omega arith))
    ]
resend-le now pending false r =
    elim (Option-cases (if r.options.track_pending then pending else none)) [
      | inr (x, over') ↦ rw (resend, over') (omega arith)
      | inl under ↦
          rw (resend, under)
            (after_check now (4 * r.resend_sanity + 2) none none r
              (λ r'. (without_peer now r', nothing)) (omega arith))
    ]

retry_or_emit-le :
    (now : ℕ) (b : Bool) (x : Err) (r : Request)
    → measure (if b then defer_resend now r else (emit_error now x r, nothing))
      ≤ 4 * r.resend_sanity
unfolding measure
retry_or_emit-le now true x r = defer_resend-le now (4 * r.resend_sanity) r (omega arith)
retry_or_emit-le now false x r = omega arith

answer_or_ask-le :
    (now : ℕ) (ok asks : Bool) (x : Res) (r : Request)
    → measure (
        if ok
        then (emit_response now x r, nothing)
        else (if asks then (r, application x) else (emit_response now x r, nothing)))
      ≤ 4 * r.resend_sanity
unfolding measure
answer_or_ask-le now true asks x r = omega arith
answer_or_ask-le now false true x r = omega arith
answer_or_ask-le now false false x r = omega arith

-- every call that comes leaves less to come
step-less :
    (n : Next) (i : Input) (r : Request)
    → fits n i ≡ true
    → 0 < r.resend_sanity
    → measure (step i r) < measure (r, n)
unfolding step measure weight on_identified on_subreq_error on_subreq_response app_retry app_done
step-less resend_later (resent now pending peer) r h s = omega (arith, resend-le now pending peer r)
step-less identification (identified now (some e)) r h s = omega (arith, s)
step-less identification (identified now none) r h s = omega (arith, s)
step-less attempt (failed now x) r h s =
    let kept : Request = record r { out_reqs = keep_report (some x) none r.out_reqs } in
    let left =
      after_check now (4 * r.resend_sanity) (some x) none kept
        (λ r'.
          if should_retry_error x r' then defer_resend now r' else (emit_error now x r', nothing))
        (retry_or_emit-le now _ x (record kept { elapsed = now - r.start })) in
    omega (arith, left)
step-less attempt (answered now x) r h s =
    let kept : Request = record r { out_reqs = keep_report none (some x) r.out_reqs } in
    let left =
      after_check now (4 * r.resend_sanity) none (some x) kept
        (λ r'.
          if x.ok
          then (emit_response now x r', nothing)
          else (if r'.options.should_application_retry
              then (r', application x)
              else (emit_response now x r', nothing)))
        (answer_or_ask-le now x.ok _ x (record kept { elapsed = now - r.start })) in
    omega (arith, left)
step-less (application x) (retry now y) r h s =
    let left =
      after_check now (4 * r.resend_sanity - 1) none (some y) r (λ r'. defer_resend now r')
        (defer_resend-le now (4 * r.resend_sanity - 1) (record r { elapsed = now - r.start })
          (omega arith)) in
    omega (arith, left, s)
step-less (application x) (done now (some e) y) r h s = omega (arith, s)
step-less (application x) (done now none y) r h s = omega (arith, s)
step-less n _ r h s = cc

IsSound-positive :
    (l : ℕ) (r : Request) (n : Next) (i : Input)
    → IsSound l (r, n)
    → fits n i ≡ true
    → 0 < r.resend_sanity
IsSound-positive l r nothing i h f = cc
IsSound-positive l r resend_later i (e, err, res, s, n) f = s
IsSound-positive l r identification i (e, err, res, s, n) f = s
IsSound-positive l r attempt i (e, err, res, s, n) f = s
IsSound-positive l r (application x) i (e, err, res, s, n) f = s

inputs-le :
    (l : ℕ) (is : List Input) (r : Request) (n : Next)
    → IsSound l (r, n)
    → all_fit is (r, n) ≡ true
    → length is ≤ measure (r, n)
unfolding all_fit
inputs-le l [] r n h f = omega arith
inputs-le l (i ∷ is) r n h f =
    let here : fits n i ≡ true = ground (arith, f) in
    let rest : all_fit is (step i r) ≡ true = ground (arith, f) in
    let less = step-less n i r here (IsSound-positive l r n i h here) in
    let (r', n') = step i r in
    omega (arith, less, inputs-le l is r' n' (step-IsSound l n i r h here) rest)

-- A request does not go on for ever: of calls that each are what it waits for, at most four for each
-- of the retry limit, and six more, come before it has been answered.
pub inputs_bounded :
    (o : Options) (now : ℕ) (pending : Option Err) (peer : Bool) (is : List Input)
    → all_fit is (send now pending peer (create o)) ≡ true
    → length is ≤ 4 * (create o).limit + 6
unfolding send
inputs_bounded o now pending peer is f =
    let sent : Request = record (create o) { start = now; resend_sanity = (create o).limit + 1 } in
    let (r, n) = resend now pending peer sent in
    let most = resend-le now pending peer sent in
    omega (arith, most, inputs-le (create o).limit is r n (send-IsSound o now pending peer) f)
