-- ===== src/Node/OutResponse/Wire.antt =====
-- What a response puts on the wire.
use tchannel.Prelude.{
  ℕ, ◌<◌, ◌≡◌, refl, ◌∙◌, inl, inr, String, Bool, true, false, List, [], ◌∷◌, ◌++◌, Option, none,
  some, arith, ◌==◌, if◌then◌else◌, string_eq, nat_eq, Bool-cases, Option-cases, All,
}
use tchannel.Node.OutResponse.{
  State, initial, streaming, done, error, Frame, call_response, call_response_cont, error_frame,
  OutResponse, create, done_or_streaming, send_call_response_frame, send_call_response_cont_frame,
  send_parts, emit_finish, send_error, is_initial, set_ok, send, send_ok, is_error, send_not_ok,
}

-- What is called on a response. The streamed response calls send_parts and emit_finish.
pub data Call : Type 0 where
  frame cont parts : ℕ → List String → Bool → Call
  error_of : ℕ → Bool → String → String → Call
  set : Bool → Call
  plain ok not_ok : ℕ → Bool → String → String → Call
  finish : ℕ → Call

unfoldable pub call : Call → OutResponse → OutResponse
call (frame now args last) r = send_call_response_frame now args last r
call (cont now args last) r = send_call_response_cont_frame args last r
call (parts now args last) r = send_parts now args last r
call (error_of now closing c m) r = send_error now closing c m r
call (set b) r = (set_ok b r).0
call (plain now closing a b) r = send now closing a b r
call (ok now closing a b) r = send_ok now closing a b r
call (not_ok now closing a b) r = send_not_ok now closing a b r
call (finish now) r = emit_finish now r

unfoldable pub calls : List Call → OutResponse → OutResponse
calls [] r = r
calls (c ∷ cs) r = calls cs (call c r)

-- the protocol: which frame may come, and what state it leads to
abbrev pub next : State → Frame → Option State
next initial (call_response args last) = some (done_or_streaming last)
next streaming (call_response_cont args last) = some (done_or_streaming last)
next initial (error_frame c m) = some error
next streaming (error_frame c m) = some error
next _ _ = none

-- the state that a list of frames leads to, with `none` where one may not come
unfoldable pub after : State → List Frame → Option State
after s [] = some s
after s (f ∷ fs) = elim (next s f) [ none ↦ none | some s' ↦ after s' fs ]

after-one : (s : State) (f : Frame) → after s (f ∷ []) ≡ next s f
unfolding after
after-one s f = elim (Option-cases (next s f)) [
  | inl none' ↦ rw (after, none')
  | inr (s', some') ↦ rw (after, some')
]

after-append :
    (s s' : State) (fs : List Frame) (f : Frame)
    → after s fs ≡ some s'
    → after s (fs ++ f ∷ []) ≡ next s' f
unfolding after
after-append s s' [] f h = let e : s ≡ s' = cc in rw e (after-one s' f)
after-append s s' (g ∷ fs) f h = elim (Option-cases (next s g)) [
  | inl no_way ↦ let no : ⊥ = ground (arith, h, no_way) in elim no [ ]
  | inr (s₁, way) ↦
      let rest : after s₁ fs ≡ some s' = ground (arith, h, way) in
      rw (after, way) (after-append s₁ s' fs f rest)
]

-- the state is the one that the frames lead to, and it has finished once if it has an end
abbrev IsOnWire : OutResponse → Type 0
IsOnWire r = (after initial r.sent ≡ some r.state) × (r.finished ≡ (if r.end == 0 then 0 else 1))

-- a frame that may come keeps the log in step with the state
sent-more :
    (s : State) (r : OutResponse) (f : Frame) (s' : State)
    → r.state ≡ s
    → after initial r.sent ≡ some r.state
    → next s f ≡ some s'
    → after initial (r.sent ++ f ∷ []) ≡ some s'
sent-more s r f s' e w n = after-append initial s r.sent f (rw e at w) ∙ n

frame-IsOnWire :
    (now : ℕ) (args : List String) (last : Bool) (s : State) (r : OutResponse)
    → r.state ≡ s
    → IsOnWire r
    → IsOnWire (send_call_response_frame now args last r)
unfolding send_call_response_frame
frame-IsOnWire now args last initial r e (w, f) =
    rw (send_call_response_frame, e) (sent-more initial r (call_response args last) _ e w refl, f)
frame-IsOnWire now args last streaming r e (w, f) = rw (send_call_response_frame, e) (w, f)
frame-IsOnWire now args last done r e (w, f) = rw (send_call_response_frame, e) (w, f)
frame-IsOnWire now args last error r e (w, f) = rw (send_call_response_frame, e) (w, f)

cont-IsOnWire :
    (args : List String) (last : Bool) (s : State) (r : OutResponse)
    → r.state ≡ s
    → IsOnWire r
    → IsOnWire (send_call_response_cont_frame args last r)
unfolding send_call_response_cont_frame
cont-IsOnWire args last initial r e (w, f) = rw (send_call_response_cont_frame, e) (w, f)
cont-IsOnWire args last streaming r e (w, f) =
    rw (send_call_response_cont_frame, e)
      (sent-more streaming r (call_response_cont args last) _ e w refl, f)
cont-IsOnWire args last done r e (w, f) = rw (send_call_response_cont_frame, e) (w, f)
cont-IsOnWire args last error r e (w, f) = rw (send_call_response_cont_frame, e) (w, f)

parts-IsOnWire :
    (now : ℕ) (args : List String) (last : Bool) (s : State) (r : OutResponse)
    → r.state ≡ s
    → IsOnWire r
    → IsOnWire (send_parts now args last r)
unfolding send_parts
parts-IsOnWire now args last initial r e h =
    rw (send_parts, e) (frame-IsOnWire now args last initial r e h)
parts-IsOnWire now args last streaming r e h =
    rw (send_parts, e) (cont-IsOnWire args last streaming r e h)
parts-IsOnWire now args last done r e h = rw (send_parts, e) h
parts-IsOnWire now args last error r e h = rw (send_parts, e) h

finish-IsOnWire : (now : ℕ) (r : OutResponse) → 0 < now → IsOnWire r → IsOnWire (emit_finish now r)
unfolding emit_finish
finish-IsOnWire now r p (w, f) = elim (Bool-cases (r.end == 0)) [
  | inl first ↦ rw (emit_finish, first) (w, ground (arith, p, f, first))
  | inr again ↦ rw (emit_finish, again) (w, f)
]

error-IsOnWire :
    (now : ℕ) (closing : Bool) (c m : String) (s : State) (r : OutResponse)
    → r.state ≡ s
    → 0 < now
    → IsOnWire r
    → IsOnWire (send_error now closing c m r)
unfolding send_error
error-IsOnWire now true c m s r e p h = h
error-IsOnWire now false c m initial r e p (w, f) =
    rw e (finish-IsOnWire now _ p (sent-more initial r (error_frame c m) error e w refl, f))
error-IsOnWire now false c m streaming r e p (w, f) =
    rw e (finish-IsOnWire now _ p (sent-more streaming r (error_frame c m) error e w refl, f))
error-IsOnWire now false c m done r e p (w, f) = rw e (rw e at w, f)
error-IsOnWire now false c m error r e p (w, f) = rw e (rw e at w, f)

set_ok-IsOnWire : (b : Bool) (r : OutResponse) → IsOnWire r → IsOnWire (set_ok b r).0
unfolding set_ok
set_ok-IsOnWire b r h = elim (Bool-cases (is_initial r.state)) [
  | inl fresh ↦ rw (set_ok, fresh) h
  | inr started ↦ rw (set_ok, started) h
]

send-IsOnWire :
    (now : ℕ) (closing : Bool) (a b : String) (r : OutResponse)
    → 0 < now
    → IsOnWire r
    → IsOnWire (send now closing a b r)
unfolding send
send-IsOnWire now closing a b r p h = elim (Bool-cases (r.end == 0)) [
  | inr over ↦ rw (send, over) h
  | inl going ↦
      let r' : OutResponse = record r { arg2 = a; arg3 = b } in
      elim (Bool-cases closing) [
        | inl yes' ↦ rw (send, going, yes') (finish-IsOnWire now r' p h)
        | inr no' ↦
            rw (send, going, no')
              (finish-IsOnWire now _ p
                (frame-IsOnWire now (r.arg1 ∷ a ∷ b ∷ []) true r.state r' refl h))
      ]
]

-- the clock of a call
abbrev pub time : Call → ℕ
time (frame now args last) = now
time (cont now args last) = now
time (parts now args last) = now
time (error_of now closing c m) = now
time (set b) = 1
time (plain now closing a b) = now
time (ok now closing a b) = now
time (not_ok now closing a b) = now
time (finish now) = now

call-IsOnWire : (c : Call) (r : OutResponse) → 0 < time c → IsOnWire r → IsOnWire (call c r)
unfolding call send_ok send_not_ok
call-IsOnWire (frame now args last) r p h = frame-IsOnWire now args last r.state r refl h
call-IsOnWire (cont now args last) r p h = cont-IsOnWire args last r.state r refl h
call-IsOnWire (parts now args last) r p h = parts-IsOnWire now args last r.state r refl h
call-IsOnWire (error_of now closing c m) r p h = error-IsOnWire now closing c m r.state r refl p h
call-IsOnWire (set b) r p h = set_ok-IsOnWire b r h
call-IsOnWire (plain now closing a b) r p h = send-IsOnWire now closing a b r p h
call-IsOnWire (ok now closing a b) r p h =
    send-IsOnWire now closing a b (set_ok true r).0 p (set_ok-IsOnWire true r h)
call-IsOnWire (not_ok now closing a b) r p h = elim (Bool-cases (is_error r.state)) [
  | inl wrong ↦ rw (send_not_ok, wrong) h
  | inr right ↦
      rw (send_not_ok, right)
        (send-IsOnWire now closing a b (set_ok false r).0 p (set_ok-IsOnWire false r h))
]
call-IsOnWire (finish now) r p h = finish-IsOnWire now r p h

calls-IsOnWire :
    (cs : List Call) (r : OutResponse)
    → All (λ c. 0 < time c) cs
    → IsOnWire r
    → IsOnWire (calls cs r)
unfolding calls
calls-IsOnWire [] r p h = h
calls-IsOnWire (c ∷ cs) r p h = calls-IsOnWire cs (call c r) p.1 (call-IsOnWire c r p.0 h)

-- Whatever is called on a new response, at times after zero, in any order: every frame that it sends
-- may come where it comes (one response, continuations until the last of them, and an error frame at
-- most in place of what is left), its state is the one that the frames lead to, and it finishes at
-- most once, which is when it gets an end.
pub created-calls-IsOnWire :
    (code : ℕ) (cs : List Call)
    → All (λ c. 0 < time c) cs
    → let r = calls cs (create code) in
      (after initial r.sent ≡ some r.state) × (r.finished ≡ (if r.end == 0 then 0 else 1))
unfolding create after
created-calls-IsOnWire code cs p = calls-IsOnWire cs (create code) p (refl, refl)
