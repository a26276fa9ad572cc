-- ===== src/Node/Request/Sound.antt =====
-- Each handler of an open request leaves it open, or answers it.
use tchannel.Prelude.{
  ℕ, suc, ◌+◌, ◌-◌, ◌≤◌, ◌<◌, ◌≡◌, refl, ap, inl, inr, Bool, true, false, List, [], ◌∷◌, Option,
  none, some, arith, ltb, leb, if◌then◌else◌, string_eq, nat_eq, Bool-cases, Option-cases, length,
  length-append,
}
use tchannel.Node.Errors.{Err}
use tchannel.Node.Request.{
  Res, OutReq, Request, no_peer_available, retry_limit_exceeded, emit_error, emit_response, Next,
  nothing, resend_later, identification, attempt, application, check_timeout, should_retry_error,
  defer_resend, last_req, without_peer, resend, on_identified, keep_report, on_subreq_error,
  on_subreq_response, app_retry, app_done,
}
use tchannel.Node.Request.Trace.{
  Input, resent, identified, failed, answered, retry, done, step, fits, run, all_fit, has_attempt,
}

pub length-keep_report :
    (e : Option Err) (x : Option Res) (l : List OutReq) → length (keep_report e x l) ≡ length l
unfolding keep_report
length-keep_report e x [] = refl
length-keep_report e x (o ∷ []) = refl
length-keep_report e x (o ∷ o' ∷ l) = ap suc (length-keep_report e x (o' ∷ l))

pub check_timeout-early :
    (now : ℕ) (err : Option Err) (res : Option Res) (r : Request)
    → (check_timeout now err res r).1 ≡ false
    → (check_timeout now err res r).0 ≡ record r { elapsed = now - r.start }
unfolding check_timeout
check_timeout-early now err res r early = elim (Bool-cases (ltb (now - r.start) r.timeout)) [
  | inl yes' ↦ rw yes'
  | inr no' ↦ let no : ⊥ = ground (arith, early, no') in elim no [ ]
]

module _ (limit : ℕ) where
  -- Not answered yet, with attempts left.
  abbrev pub IsOpen : Request → Next → Type 0
  IsOpen r n =
      (r.emitted ≡ [])
      × (r.err ≡ none)
      × (r.res ≡ none)
      × (0 < r.resend_sanity)
      × (length r.out_reqs + r.resend_sanity ≡ limit + (if has_attempt n then 2 else 1))

  -- Answered, once.
  abbrev pub IsClosed : Request → Type 0
  IsClosed r = (length r.emitted ≡ 1) × (length r.out_reqs ≤ limit + 1)

  abbrev pub IsSound : Request × Next → Type 0
  IsSound (r, nothing) = IsClosed r
  IsSound (r, n) = IsOpen r n

  emit_error-IsClosed :
      (now : ℕ) (x : Err) (r : Request)
      → r.emitted ≡ []
      → length r.out_reqs ≤ limit + 1
      → IsClosed (emit_error now x r)
  unfolding emit_error
  emit_error-IsClosed now x r e b = (rw e, b)

  emit_response-IsClosed :
      (now : ℕ) (x : Res) (r : Request)
      → r.emitted ≡ []
      → length r.out_reqs ≤ limit + 1
      → IsClosed (emit_response now x r)
  unfolding emit_response
  emit_response-IsClosed now x r e b = (rw e, b)

  check_timeout-IsClosed :
      (now : ℕ) (err : Option Err) (res : Option Res) (r : Request)
      → r.emitted ≡ []
      → r.err ≡ none
      → r.res ≡ none
      → length r.out_reqs ≤ limit + 1
      → (check_timeout now err res r).1 ≡ true
      → IsClosed (check_timeout now err res r).0
  unfolding check_timeout emit_error emit_response
  check_timeout-IsClosed now (some x) res r e ne nr b late = ground (arith, e, ne, nr, b, late)
  check_timeout-IsClosed now none (some y) r e ne nr b late = ground (arith, e, ne, nr, b, late)
  check_timeout-IsClosed now none none r e ne nr b late = ground (arith, e, ne, nr, b, late)

  without_peer-IsClosed :
      (now : ℕ) (r : Request)
      → r.emitted ≡ []
      → length r.out_reqs ≤ limit + 1
      → IsClosed (without_peer now r)
  unfolding without_peer
  without_peer-IsClosed now r e b = elim (Option-cases (last_req r.out_reqs)) [
    | inl none' ↦ rw (without_peer, none') (emit_error-IsClosed now no_peer_available r e b)
    | inr (o, last) ↦ elim (Option-cases o.err) [
      | inr (x, failed') ↦ rw (without_peer, last, failed') (emit_error-IsClosed now x r e b)
      | inl good ↦ elim (Option-cases o.res) [
        | inr (y, answered') ↦
            rw (without_peer, last, good, answered') (emit_response-IsClosed now y r e b)
        | inl silent ↦
            rw (without_peer, last, good, silent) (emit_error-IsClosed now no_peer_available r e b)
      ]
    ]
  ]

  -- what the handlers do after the clock was checked
  after_check :
      (now : ℕ) (err : Option Err) (res : Option Res) (r : Request) (k : Request → Request × Next)
      → r.emitted ≡ []
      → r.err ≡ none
      → r.res ≡ none
      → length r.out_reqs ≤ limit + 1
      → IsSound (k (record r { elapsed = now - r.start }))
      → let (r', late) = check_timeout now err res r in
        IsSound (if late then (r', nothing) else k r')
  after_check now err res r k e ne nr b sound = elim (Bool-cases (check_timeout now err res r).1) [
    | inl late ↦ rw late (check_timeout-IsClosed now err res r e ne nr b late)
    | inr early ↦ rw (early, check_timeout-early now err res r early) sound
  ]

  with_peer :
      (now : ℕ) (peer : Bool) (r : Request)
      → IsOpen r identification
      → IsSound (if peer then (r, identification) else (without_peer now r, nothing))
  with_peer now true r open' = open'
  with_peer now false r (e, err, res, s, n) = without_peer-IsClosed now r e (omega (arith, n))

  pub resend-IsSound :
      (now : ℕ) (pending : Option Err) (peer : Bool) (r : Request)
      → IsOpen r resend_later
      → IsSound (resend now pending peer r)
  unfolding resend
  resend-IsSound now pending peer r (e, err, res, s, n) =
      let b : length r.out_reqs ≤ limit + 1 = omega (arith, n) in
      elim (Option-cases (if r.options.track_pending then pending else none)) [
        | inr (x, over) ↦ rw (resend, over) (emit_error-IsClosed now x r e b)
        | inl under ↦
            rw (resend, under)
              (after_check now none none r
                (λ r'. if peer then (r', identification) else (without_peer now r', nothing)) e err
                res b
                (with_peer now peer (record r { elapsed = now - r.start }) (e, err, res, s, n)))
      ]

  on_identified-IsSound :
      (now : ℕ) (e : Option Err) (r : Request)
      → IsOpen r identification
      → IsSound (on_identified now e r)
  unfolding on_identified
  on_identified-IsSound now none r (e, err, res, s, n) =
      (e, err, res, s, omega (arith, n, length-append r.out_reqs (_ ∷ [])))
  on_identified-IsSound now (some x) r (e, err, res, s, n) =
      emit_error-IsClosed now x r e (omega (arith, n))

  defer_resend-IsSound : (now : ℕ) (r : Request) → IsOpen r attempt → IsSound (defer_resend now r)
  unfolding defer_resend
  defer_resend-IsSound now r (e, err, res, s, n) = elim (Bool-cases (leb (r.resend_sanity - 1) 0)) [
    | inl last ↦ rw last (
        emit_error-IsClosed now retry_limit_exceeded
          (record r { resend_sanity = r.resend_sanity - 1 }) e (omega (arith, n, s)))
    | inr more ↦ rw more (e, err, res, ground (arith, more), omega (arith, n, s))
  ]

  -- an error is retried or given to the caller
  retry_or_emit-IsSound :
      (now : ℕ) (b : Bool) (x : Err) (r : Request)
      → IsOpen r attempt
      → IsSound (if b then defer_resend now r else (emit_error now x r, nothing))
  retry_or_emit-IsSound now true x r open' = defer_resend-IsSound now r open'
  retry_or_emit-IsSound now false x r (e, err, res, s, n) =
      emit_error-IsClosed now x r e (omega (arith, n, s))

  on_subreq_error-IsSound :
      (now : ℕ) (x : Err) (r : Request) → IsOpen r attempt → IsSound (on_subreq_error now x r)
  unfolding on_subreq_error
  on_subreq_error-IsSound now x r (e, err, res, s, n) =
      let same = length-keep_report (some x) none r.out_reqs in
      let kept : Request = record r { out_reqs = keep_report (some x) none r.out_reqs } in
      let open' : IsOpen (record kept { elapsed = now - r.start }) attempt =
        (e, err, res, s, omega (arith, n, same)) in
      after_check now (some x) none kept
        (λ r'.
          if should_retry_error x r' then defer_resend now r' else (emit_error now x r', nothing))
        e err res (omega (arith, n, s, same))
        (retry_or_emit-IsSound now _ x (record kept { elapsed = now - r.start }) open')

  -- a response is given to the caller, or the application is asked
  answer_or_ask-IsSound :
      (now : ℕ) (ok asks : Bool) (x : Res) (r : Request)
      → IsOpen r attempt
      → IsSound (
          if ok
          then (emit_response now x r, nothing)
          else (if asks then (r, application x) else (emit_response now x r, nothing)))
  answer_or_ask-IsSound now true asks x r (e, err, res, s, n) =
      emit_response-IsClosed now x r e (omega (arith, n, s))
  answer_or_ask-IsSound now false true x r open' = open'
  answer_or_ask-IsSound now false false x r (e, err, res, s, n) =
      emit_response-IsClosed now x r e (omega (arith, n, s))

  on_subreq_response-IsSound :
      (now : ℕ) (x : Res) (r : Request) → IsOpen r attempt → IsSound (on_subreq_response now x r)
  unfolding on_subreq_response
  on_subreq_response-IsSound now x r (e, err, res, s, n) =
      let same = length-keep_report none (some x) r.out_reqs in
      let kept : Request = record r { out_reqs = keep_report none (some x) r.out_reqs } in
      let open' : IsOpen (record kept { elapsed = now - r.start }) attempt =
        (e, err, res, s, omega (arith, n, same)) in
      after_check now none (some x) kept
        (λ r'.
          if x.ok
          then (emit_response now x r', nothing)
          else (if r'.options.should_application_retry
              then (r', application x)
              else (emit_response now x r', nothing)))
        e err res (omega (arith, n, s, same))
        (answer_or_ask-IsSound now x.ok _ x (record kept { elapsed = now - r.start }) open')

  app_retry-IsSound :
      (now : ℕ) (x : Res) (r : Request) → IsOpen r attempt → IsSound (app_retry now x r)
  unfolding app_retry
  app_retry-IsSound now x r (e, err, res, s, n) =
      after_check now none (some x) r (λ r'. defer_resend now r') e err res (omega (arith, n, s))
        (defer_resend-IsSound now (record r { elapsed = now - r.start }) (e, err, res, s, n))

  pub step-IsSound :
      (n : Next) (i : Input) (r : Request) → IsSound (r, n) → fits n i ≡ true → IsSound (step i r)
  unfolding step app_done
  step-IsSound resend_later (resent now pending peer) r h f = resend-IsSound now pending peer r h
  step-IsSound identification (identified now e) r h f = on_identified-IsSound now e r h
  step-IsSound attempt (failed now x) r h f = on_subreq_error-IsSound now x r h
  step-IsSound attempt (answered now x) r h f = on_subreq_response-IsSound now x r h
  step-IsSound (application x) (retry now y) r h f = app_retry-IsSound now y r h
  step-IsSound (application x) (done now (some e) y) r (e', err, res, s, n) f =
      emit_error-IsClosed now e r e' (omega (arith, n, s))
  step-IsSound (application x) (done now none y) r (e', err, res, s, n) f =
      emit_response-IsClosed now y r e' (omega (arith, n, s))
  step-IsSound n _ r h f = cc

  pub run-IsSound :
      (is : List Input) (r : Request) (n : Next)
      → IsSound (r, n)
      → all_fit is (r, n) ≡ true
      → IsSound (run is (r, n))
  unfolding run all_fit
  run-IsSound [] r n h f = h
  run-IsSound (i ∷ is) r n h f =
      let here : fits n i ≡ true = ground (arith, f) in
      let rest : all_fit is (step i r) ≡ true = ground (arith, f) in
      let (r', n') = step i r in run-IsSound is r' n' (step-IsSound n i r h here) rest
