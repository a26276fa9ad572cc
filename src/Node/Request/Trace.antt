-- ===== src/Node/Request/Trace.antt =====
-- The calls that a request is given, one after the other.
use tchannel.Prelude.{ℕ, Bool, true, false, ◌&&◌, List, [], ◌∷◌, Option, string_eq, nat_eq}
use tchannel.Node.Errors.{Err}
use tchannel.Node.Request.{
  Res, Request, Next, nothing, resend_later, identification, attempt, application, resend,
  on_identified, on_subreq_error, on_subreq_response, app_retry, app_done,
}

-- What comes back to a request, with the time: a deferred resend runs, the peer is identified, the
-- attempt fails or is answered, the application asks for a retry of a response, or says that there is
-- none.
pub data Input : Type 0 where
  resent : ℕ → Option Err → Bool → Input
  identified : ℕ → Option Err → Input
  failed : ℕ → Err → Input
  answered : ℕ → Res → Input
  retry : ℕ → Res → Input
  done : ℕ → Option Err → Res → Input

-- Each input runs its handler, whether the request still waits for it or not.
unfoldable pub step : Input → Request → Request × Next
step (resent now pending peer) r = resend now pending peer r
step (identified now e) r = on_identified now e r
step (failed now e) r = on_subreq_error now e r
step (answered now x) r = on_subreq_response now x r
step (retry now x) r = app_retry now x r
step (done now e x) r = app_done now e x r

-- The input is the one that the request waits for.
abbrev pub fits : Next → Input → Bool
fits resend_later (resent now pending peer) = true
fits identification (identified now e) = true
fits attempt (failed now e) = true
fits attempt (answered now x) = true
fits (application x) (retry now y) = true
fits (application x) (done now e y) = true
fits _ _ = false

unfoldable pub run : List Input → Request × Next → Request × Next
run [] (r, n) = (r, n)
run (i ∷ is) (r, n) = run is (step i r)

-- every input is what the request waits for when it comes
unfoldable pub all_fit : List Input → Request × Next → Bool
all_fit [] (r, n) = true
all_fit (i ∷ is) (r, n) = fits n i && all_fit is (step i r)

abbrev pub is_over : Next → Bool
is_over nothing = true
is_over _ = false

-- an attempt was made since the last resend
abbrev pub has_attempt : Next → Bool
has_attempt attempt = true
has_attempt (application x) = true
has_attempt _ = false
