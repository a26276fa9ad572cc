-- ===== src/Node/Request/Answers.antt =====
-- A request is answered exactly once, after a bounded number of attempts.
use tchannel.Prelude.{
  ℕ, ◌+◌, ◌≤◌, ◌≡◌, refl, Bool, true, List, Option, arith, if◌then◌else◌, string_eq, nat_eq, length,
}
use tchannel.Node.Errors.{Err}
use tchannel.Node.Request.{
  Options, Request, create, Next, nothing, resend_later, identification, attempt, application, send,
}
use tchannel.Node.Request.Trace.{Input, run, all_fit, is_over}
use tchannel.Node.Request.Sound.{IsSound, run-IsSound, resend-IsSound}

pub send-IsSound :
    (o : Options) (now : ℕ) (pending : Option Err) (peer : Bool)
    → IsSound (create o).limit (send now pending peer (create o))
unfolding send create
send-IsSound o now pending peer =
    resend-IsSound (create o).limit now pending peer
      (record (create o) { start = now; resend_sanity = (create o).limit + 1 })
      (refl, refl, refl, omega arith, omega arith)

IsSound-answers :
    (l : ℕ) (r : Request) (n : Next)
    → IsSound l (r, n)
    → (length r.emitted ≡ (if is_over n then 1 else 0)) × (length r.out_reqs ≤ l + 1)
IsSound-answers l r nothing h = h
IsSound-answers l r resend_later (e, err, res, s, n) = (rw e, omega (arith, n, s))
IsSound-answers l r identification (e, err, res, s, n) = (rw e, omega (arith, n, s))
IsSound-answers l r attempt (e, err, res, s, n) = (rw e, omega (arith, n, s))
IsSound-answers l r (application x) (e, err, res, s, n) = (rw e, omega (arith, n, s))

-- As long as each thing that comes back to a sent request is what the request waits for, and comes
-- once, the caller is given nothing while the request still waits, and exactly one error or response
-- once it does not; the attempts are at most one more than the retry limit.
pub answered_once :
    (o : Options) (now : ℕ) (pending : Option Err) (peer : Bool) (is : List Input)
    → all_fit is (send now pending peer (create o)) ≡ true
    → let (r, n) = run is (send now pending peer (create o)) in
      (length r.emitted ≡ (if is_over n then 1 else 0)) × (length r.out_reqs ≤ (create o).limit + 1)
answered_once o now pending peer is f =
    let (r, n) = send now pending peer (create o) in
    let last = run is (r, n) in
    IsSound-answers (create o).limit last.0 last.1
      (run-IsSound (create o).limit is r n (send-IsSound o now pending peer) f)
