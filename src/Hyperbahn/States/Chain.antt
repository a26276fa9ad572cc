-- ===== src/Hyperbahn/States/Chain.antt =====
-- The changes that a machine reports are a chain.
use tchannel.Prelude.{
  ℕ, zero, suc, ◌+◌, ◌≡◌, refl, sym, ap, ◌∙◌, ◌≢◌, inl, inr, Bool, true, false, ◌&&◌, List, [], ◌∷◌,
  ◌++◌, Option, none, some, arith, ltb, leb, string_eq, nat_eq, Bool-cases,
}
use tchannel.Hyperbahn.States.{
  StateOptions, Healthy, Unhealthy, State, healthy, unhealthy, locked_healthy, locked_unhealthy,
  Kind, healthy_kind, unhealthy_kind, locked_healthy_kind, locked_unhealthy_kind, kind, same_kind,
  Machine, new_state, is_kind, kind?, set_state, with_state, over_rate, check_healthy,
  check_unhealthy, will_call, on_state, request_in, healthy_in, unhealthy_in, error_in,
  should_request_from, should_request, on_request, on_request_healthy, on_request_unhealthy,
  on_request_error, counts_against,
}
use tchannel.Hyperbahn.States.Trace.{
  Event, ask, sent, good, bad, failed, force, left_by, step, run, IsChain, last_kind, Tracked,
}

IsChain-append :
    (from : Option Kind) (l : List (Option Kind × Kind)) (new : Kind)
    → IsChain from l
    → last_kind from l ≢ some new
    → IsChain from (l ++ (last_kind from l, new) ∷ [])
IsChain-append from [] new c h = (refl, h, tt)
IsChain-append from ((o, k) ∷ l) new (e, d, c) h = (e, d, IsChain-append (some k) l new c h)

last_kind-append :
    (from : Option Kind) (l : List (Option Kind × Kind)) (o : Option Kind) (new : Kind)
    → last_kind from (l ++ (o, new) ∷ []) ≡ some new
last_kind-append from [] o new = refl
last_kind-append from ((o', k) ∷ l) o new = last_kind-append (some k) l o new

kind-new_state : (o : StateOptions) (now : ℕ) (k : Kind) → kind (new_state o now k) ≡ k
unfolding new_state
kind-new_state o now healthy_kind = refl
kind-new_state o now unhealthy_kind = refl
kind-new_state o now locked_healthy_kind = refl
kind-new_state o now locked_unhealthy_kind = refl

same_kind_refl : (k : Kind) → same_kind k k ≡ true
same_kind_refl k = ground arith

is_kind-kind? : (o : Option State) (k : Kind) → kind? o ≡ some k → is_kind o k ≡ true
is_kind-kind? none k h = cc
is_kind-kind? (some s) k h = let e : kind s ≡ k = cc h in rw e (same_kind_refl k)

other : (o : Option State) (k : Kind) → kind? o ≡ some k → is_kind o k ≡ false → ⊥
other o k h e = cc (is_kind-kind? o k h)

set_state-Tracked : (now : ℕ) (k : Kind) (m : Machine) → Tracked m → Tracked (set_state now k m)
unfolding set_state
set_state-Tracked now k m (c, l) = elim (Bool-cases (is_kind m.state k)) [
  | inl e ↦ rw (e, set_state) (c, l)
  | inr e ↦
      rw (e, set_state)
        (
          rw (← l) (IsChain-append none m.changes k c (λ h. other m.state k (sym l ∙ h) e)),
          last_kind-append none m.changes _ k ∙ ap some (sym (kind-new_state m.options now k)),
        )
]

module _ (m : Machine) (t : Tracked m) where
  with_state-Tracked : (s : State) → kind? m.state ≡ some (kind s) → Tracked (with_state s m)
  with_state-Tracked s e = (t.0, t.1 ∙ e)

  check_healthy-Tracked :
      (now : ℕ) (h : Healthy)
      → kind? m.state ≡ some healthy_kind
      → Tracked (check_healthy now h m).0
  unfolding check_healthy
  check_healthy-Tracked now h e = elim (Bool-cases (leb (h.start + h.period) now)) [
    | inr more ↦ rw more (with_state-Tracked (healthy h) e)
    | inl over ↦ elim (Bool-cases (over_rate h && ltb h.min_requests h.total_requests)) [
      | inl trips ↦ rw (over, trips) (set_state-Tracked now unhealthy_kind m t)
      | inr calm ↦
          rw (over, calm)
            (with_state-Tracked
              (healthy (record h { start = now; healthy_count = 0; unhealthy_count = 0 })) e)
    ]
  ]

  check_unhealthy-Tracked :
      (now : ℕ) (u : Unhealthy)
      → kind? m.state ≡ some unhealthy_kind
      → Tracked (check_unhealthy now u m).0
  unfolding check_unhealthy
  check_unhealthy-Tracked now u e = elim (Bool-cases (leb (u.start + u.period) now)) [
    | inr more ↦ rw more (with_state-Tracked (unhealthy u) e)
    | inl over ↦ elim (Bool-cases (leb u.min_response_count u.healthy_count)) [
      | inl full ↦ rw (over, full) (set_state-Tracked now healthy_kind m t)
      | inr short ↦
          rw (over, short)
            (with_state-Tracked (unhealthy (record u { start = now; tried_this_period = false })) e)
    ]
  ]

  will_call-Tracked :
      (now : ℕ) (s : State) → kind? m.state ≡ some (kind s) → Tracked (will_call now s m).0
  unfolding will_call
  will_call-Tracked now (healthy h) e = check_healthy-Tracked now h e
  will_call-Tracked now (unhealthy u) e = check_unhealthy-Tracked now u e
  will_call-Tracked now locked_healthy e = t
  will_call-Tracked now locked_unhealthy e = t

  request_in-Tracked :
      (now : ℕ) (s : State) → kind? m.state ≡ some (kind s) → Tracked (request_in now m s)
  unfolding request_in
  request_in-Tracked now (unhealthy u) e =
      check_unhealthy-Tracked now (record u { tried_this_period = true }) e
  request_in-Tracked now (healthy h) e = t
  request_in-Tracked now locked_healthy e = t
  request_in-Tracked now locked_unhealthy e = t

  healthy_in-Tracked :
      (now : ℕ) (s : State) → kind? m.state ≡ some (kind s) → Tracked (healthy_in now m s)
  unfolding healthy_in
  healthy_in-Tracked now (healthy h) e =
      check_healthy-Tracked now
        (record h { healthy_count = h.healthy_count + 1; total_requests = h.total_requests + 1 }) e
  healthy_in-Tracked now (unhealthy u) e =
      elim (Bool-cases (ltb u.min_response_count (u.healthy_count + 1))) [
        | inl enough ↦ rw enough (set_state-Tracked now healthy_kind m t)
        | inr few ↦
            rw few
              (check_unhealthy-Tracked now (record u { healthy_count = u.healthy_count + 1 }) e)
      ]
  healthy_in-Tracked now locked_healthy e = t
  healthy_in-Tracked now locked_unhealthy e = t

  unhealthy_in-Tracked :
      (now : ℕ) (s : State) → kind? m.state ≡ some (kind s) → Tracked (unhealthy_in now m s)
  unfolding unhealthy_in
  unhealthy_in-Tracked now (healthy h) e =
      check_healthy-Tracked now
        (record h {
          unhealthy_count = h.unhealthy_count + 1;
          total_requests = h.total_requests + 1;
        })
        e
  unhealthy_in-Tracked now (unhealthy u) e =
      check_unhealthy-Tracked now (record u { healthy_count = 0 }) e
  unhealthy_in-Tracked now locked_healthy e = t
  unhealthy_in-Tracked now locked_unhealthy e = t

  error_in-Tracked :
      (now : ℕ) (b : Bool) (s : State)
      → kind? m.state ≡ some (kind s)
      → Tracked (error_in now b m s)
  unfolding error_in
  error_in-Tracked now true (unhealthy u) e =
      with_state-Tracked (unhealthy (record u { healthy_count = 0 })) e
  error_in-Tracked now true (healthy h) e = unhealthy_in-Tracked now (healthy h) e
  error_in-Tracked now true locked_healthy e = t
  error_in-Tracked now true locked_unhealthy e = t
  error_in-Tracked now false s e = healthy_in-Tracked now s e

  -- a call made in the present state
  on_state-Tracked :
      (f : State → Machine)
      → ((s : State) → kind? m.state ≡ some (kind s) → Tracked (f s))
      → Tracked (on_state m f)
  unfolding on_state
  on_state-Tracked f keep = go m.state refl
    where
      go : (o : Option State) → m.state ≡ o → Tracked (elim o [ none ↦ m | some s ↦ f s ])
      go none e = t
      go (some s) e = keep s (rw e)

asked-Tracked :
    (fuel now : ℕ) (s : State) (m d : Machine)
    → Tracked d
    → Tracked m
    → kind? m.state ≡ some (kind s)
    → Tracked (left_by d (should_request_from fuel now s m))
unfolding should_request_from left_by
asked-Tracked zero now s m d td t e = td
asked-Tracked (suc fuel) now s m d td t e =
    go (asked-Tracked fuel now) (will_call now s m).1 (is_kind m'.state (kind s)) m'.state refl
  where
    m' : Machine
    m' = (will_call now s m).0

    t' : Tracked m'
    t' = will_call-Tracked m t now s e

    Asked : Type 0
    Asked =
        (s : State) (m d : Machine)
        → Tracked d
        → Tracked m
        → kind? m.state ≡ some (kind s)
        → Tracked (left_by d (should_request_from fuel now s m))

    next :
        Asked
        → (o : Option State) → m'.state ≡ o
        → Tracked (
            left_by d
              (elim o [ none ↦ some (m', false) | some s' ↦ should_request_from fuel now s' m' ]))
    next ih none g = t'
    next ih (some s') g = ih s' m' d td t' (rw g)

    go :
        Asked
        → (b c : Bool) (o : Option State) → m'.state ≡ o
        → Tracked (
            left_by d (elim b [
              | true ↦ some (m', true)
              | false ↦ elim c [
                | true ↦ some (m', false)
                | false ↦ elim o [
                  | none ↦ some (m', false)
                  | some s' ↦ should_request_from fuel now s' m'
                ]
              ]
            ]))
    go ih true c o g = t'
    go ih false true o g = t'
    go ih false false o g = next ih o g

step-Tracked : (e : Event) (m : Machine) → Tracked m → Tracked (step e m)
unfolding step should_request
step-Tracked (ask now) m t = go m.state refl
  where
    go :
        (o : Option State)
        → m.state ≡ o
        → Tracked (left_by m (elim o [ none ↦ none | some s ↦ should_request_from 2 now s m ]))
    go none g = unfold left_by in t
    go (some s) g = asked-Tracked 2 now s m m t t (rw g)
step-Tracked (sent now) m t =
    unfold on_request in on_state-Tracked m t _ (request_in-Tracked m t now)
step-Tracked (good now) m t =
    unfold on_request_healthy in on_state-Tracked m t _ (healthy_in-Tracked m t now)
step-Tracked (bad now) m t =
    unfold on_request_unhealthy in on_state-Tracked m t _ (unhealthy_in-Tracked m t now)
step-Tracked (failed now err) m t =
    unfold on_request_error in
    on_state-Tracked m t _ (error_in-Tracked m t now (counts_against err))
step-Tracked (force now k) m t = set_state-Tracked now k m t

run-Tracked : (es : List Event) (m : Machine) → Tracked m → Tracked (run es m)
unfolding run
run-Tracked [] m t = t
run-Tracked (e ∷ es) m t = run-Tracked es (step e m) (step-Tracked e m t)

-- A machine before its first setState.
abbrev pub blank : StateOptions → Machine
blank o = record { options = o; state = none; changes = [] }

-- After any events, from a machine with no state, the reported changes are a chain: the first comes
-- from no state, each later one from the kind that the change before it led to, none leads to
-- the kind that it comes from, and the last leads to the kind of the present state.
pub changes-IsChain :
    (o : StateOptions) (es : List Event)
    → IsChain none (run es (blank o)).changes
      × (last_kind none (run es (blank o)).changes ≡ kind? (run es (blank o)).state)
changes-IsChain o es = run-Tracked es (blank o) (tt, refl)
