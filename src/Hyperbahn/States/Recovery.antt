-- ===== src/Hyperbahn/States/Recovery.antt =====
-- How a circuit recovers, and what holds along every sequence of events.
use tchannel.Prelude.{
  ℕ, ◌+◌, ◌≤◌, ◌<◌, ◌≡◌, refl, ◌⊎◌, inl, inr, false, List, [], ◌∷◌, Option, some, arith, ltb, leb,
  string_eq, nat_eq, or_default, Bool-cases, length,
}
use tchannel.Hyperbahn.States.{
  Healthy, Unhealthy, State, healthy, unhealthy, Machine, new_state, nonzero_or, rate_or, set_state,
  over_rate, check_healthy, check_unhealthy, on_request_healthy,
}

-- healthy responses at the given times
unfoldable pub healthy_run : List ℕ → Machine → Machine
healthy_run [] m = m
healthy_run (now ∷ nows) m = healthy_run nows (on_request_healthy now m)

-- a healthy state that has seen no failure in its period
abbrev pub IsClean : Option State → Type 0
IsClean s = (h : Healthy) × (s ≡ some (healthy h)) × (h.unhealthy_count ≡ 0)

over_rate-clean : (h : Healthy) → h.unhealthy_count ≡ 0 → over_rate h ≡ false
over_rate-clean h z = rw z (ground arith)

on_request_healthy-IsClean :
    (now : ℕ) (m : Machine) → IsClean m.state → IsClean (on_request_healthy now m).state
unfolding on_request_healthy check_healthy
on_request_healthy-IsClean now m (h, e, z) =
    let h' = record h {
      healthy_count = h.healthy_count + 1;
      total_requests = h.total_requests + 1;
    } in
    elim (Bool-cases (leb (h.start + h.period) now)) [
      | inl over ↦ (
        record h' { start = now; healthy_count = 0; unhealthy_count = 0 },
        ground (arith, e, over, over_rate-clean h' z),
        refl,
      )
      | inr more ↦ (h', ground (arith, e, more), z)
    ]

healthy_run-IsClean :
    (nows : List ℕ) (m : Machine) → IsClean m.state → IsClean (healthy_run nows m).state
unfolding healthy_run
healthy_run-IsClean [] m c = c
healthy_run-IsClean (now ∷ nows) m c =
    healthy_run-IsClean nows (on_request_healthy now m) (on_request_healthy-IsClean now m c)

-- the healthy state that a machine goes to
abbrev fresh : ℕ → Machine → Healthy
fresh now m = record {
  period = nonzero_or 1000 m.options.period;
  start = now;
  max_error_rate = rate_or (record { num = 1; den = 2 }) m.options.max_error_rate;
  healthy_count = 0;
  unhealthy_count = 0;
  total_requests = 0;
  min_requests = or_default 5 m.options.min_requests;
}

-- one healthy response in the unhealthy state: the circuit is healthy again, or it is one nearer
abbrev Nearer : Unhealthy → Option State → Type 0
Nearer u s =
    IsClean s
    ⊎ ((u' : Unhealthy) × (s ≡ some (unhealthy u'))
        × (u'.healthy_count ≡ u.healthy_count + 1)
        × (u'.min_response_count ≡ u.min_response_count)
        × (u'.healthy_count ≤ u.min_response_count))

nearer :
    (now : ℕ) (u : Unhealthy) (m : Machine)
    → m.state ≡ some (unhealthy u)
    → Nearer u (on_request_healthy now m).state
unfolding on_request_healthy check_unhealthy set_state new_state
nearer now u m e =
    let n = u.healthy_count + 1 in
    let u' = record u { healthy_count = n } in
    elim (Bool-cases (ltb u.min_response_count n)) [
      | inl enough ↦ inl (fresh now m, ground (arith, e, enough), refl)
      | inr few ↦ elim (Bool-cases (leb (u.start + u.period) now)) [
        | inr more ↦ inr (u', ground (arith, e, few, more), refl, refl, ground (arith, few))
        | inl over ↦ elim (Bool-cases (leb u.min_response_count n)) [
          | inl full ↦ inl (fresh now m, ground (arith, e, few, over, full), refl)
          | inr short ↦ inr (
            record u' { start = now; tried_this_period = false },
            ground (arith, e, few, over, short),
            refl,
            refl,
            ground (arith, few),
          )
        ]
      ]
    ]

-- An unhealthy circuit that has not had more healthy responses than its probation asks for, and
-- now gets enough of them and no other, ends up healthy, with no failure counted: one more than what
-- the probation still asks for is enough. The responses are counted, and not their periods: their
-- times do not matter, and all of them may come within one period.
pub recovers :
    (nows : List ℕ) (u : Unhealthy) (m : Machine)
    → m.state ≡ some (unhealthy u)
    → u.healthy_count ≤ u.min_response_count
    → u.min_response_count < u.healthy_count + length nows
    → IsClean (healthy_run nows m).state
unfolding healthy_run
recovers [] u m e b h = absurd (omega arith)
recovers (now ∷ nows) u m e b h = elim (nearer now u m e) [
  | inl c ↦ healthy_run-IsClean nows (on_request_healthy now m) c
  | inr (u', e', n, k, b') ↦
      recovers nows u' (on_request_healthy now m) e' (omega arith) (omega arith)
]
