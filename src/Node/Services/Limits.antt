-- ===== src/Node/Services/Limits.antt =====
-- The limits on pending requests hold along all traffic.
use tchannel.Prelude.{
  ℕ, ◌-◌, ◌≡◌, refl, ap, ◌∙◌, inl, inr, String, Bool, true, false, not, ◌||◌, List, [], ◌∷◌, Option,
  none, some, arith, contains, string_eq, nat_eq, or_default, Bool-cases, Option-cases,
}
use tchannel.Node.Services.{
  Service, Services, key, new_service, more, fewer, reaches, error_if_exceeds_max_pending,
  on_request, on_request_response, on_request_error,
}
use tchannel.Prelude.Int.{ℤ, pos, negsuc, ◌+ℤ◌, ◌-ℤ◌, ltb_ℤ}
use tchannel.Prelude.Dict
use tchannel.Node.Services.Pending.{
  Call, request, response, error, pending_of, key_eq, request-IsCounted, response-IsCounted,
}
use tchannel.Node.Services.Traffic.{matched, HasAll, HasAll-request, response-HasAll}
use tchannel.Node.Services.Sending.{send, happen, traffic}

-- pending < maxPending, or nothing is pending where that is 0
abbrev pub under : ℤ → Option ℕ → Bool
under n none = true
under n (some max) = not (ltb_ℤ (pos (max - 1)) n)

under-zero : (o : Option ℕ) → under (pos 0) o ≡ true
under-zero none = refl
under-zero (some m) = ground arith

under-fewer : (z : ℤ) (o : Option ℕ) → under z o ≡ true → under (z -ℤ pos 1) o ≡ true
unfolding ◌-ℤ◌
under-fewer z none h = refl
under-fewer (pos n) (some m) h = ground (arith, h)
under-fewer (negsuc n) (some m) h = ground (arith, h)

under-reaches : (z : ℤ) (o : Option ℕ) → reaches z o ≡ false → under z o ≡ true
under-reaches z none h = refl
under-reaches (pos n) (some m) h = ground (arith, h)
under-reaches (negsuc n) (some m) h = ground (arith, h)

more-fewer : (z : ℤ) → z +ℤ pos 1 -ℤ pos 1 ≡ z
unfolding ◌+ℤ◌ ◌-ℤ◌
more-fewer (pos n) = ground arith
more-fewer (negsuc n) = ground arith

module _ (total each : Option ℕ) where
  -- the limits in force
  unfoldable HasLimits : Services → Type 0
  HasLimits s =
      (s.max_pending ≡ total)
      × (s.max_pending_for_service ≡ each)
      × ((name : String) (x : Service)
          → string_eq.beq name "" ≡ false
          → Dict.get (key name) s.services ≡ some x
          → x.max_pending ≡ each)

  -- no counter is over its limit
  abbrev IsUnder : Services → Type 0
  IsUnder s =
      (under s.pending total ≡ true)
      × ((name : String) → string_eq.beq name "" ≡ false → under (pending_of name s) each ≡ true)

  request-HasLimits : (n : String) (s : Services) → HasLimits s → HasLimits (on_request n s)
  unfolding HasLimits on_request new_service
  request-HasLimits n s (t, e, h) = elim (Bool-cases (string_eq.beq n "")) [
    | inl f ↦
        (ground (arith, f, t), ground (arith, f, e), λ name x g. ground (arith, f, h name x g))
    | inr f ↦ (
      ground (arith, f, t),
      ground (arith, f, e),
      λ name x g get.
          let y = more (or_default (new_service n s) (Dict.get (key n) s.services)) in
          elim (Option-cases (Dict.get (key n) s.services)) [
            | inl absent ↦ ground (
              arith,
              f,
              g,
              e,
              get,
              absent,
              h name x g,
              key_eq n name,
              Dict.get-put (key name) (key n) y s.services,
            )
            | inr (z, present) ↦ ground (
              arith,
              f,
              g,
              get,
              present,
              h name x g,
              h n z f,
              key_eq n name,
              Dict.get-put (key name) (key n) y s.services,
            )
          ],
    )
  ]

  response-HasLimits :
      (n : String) (s s' : Services)
      → on_request_response n s ≡ some s'
      → HasLimits s
      → HasLimits s'
  unfolding HasLimits on_request_response
  response-HasLimits n s s' q (t, e, h) = elim (Bool-cases (string_eq.beq n "")) [
    | inl f ↦ (
      ground (arith, f, t, q),
      ground (arith, f, e, q),
      λ name x g get. ground (arith, f, q, get, h name x g),
    )
    | inr f ↦ elim (Option-cases (Dict.get (key n) s.services)) [
      | inl absent ↦ let no : ⊥ = ground (arith, f, q, absent) in elim no [ ]
      | inr (z, present) ↦ (
        ground (arith, f, t, q, present),
        ground (arith, f, e, q, present),
        λ name x g get. ground (
          arith,
          f,
          g,
          q,
          get,
          present,
          h name x g,
          h n z f,
          key_eq n name,
          Dict.get-put (key name) (key n) (fewer z) s.services,
        ),
      )
    ]
  ]

  response-IsUnder :
      (n : String) (s s' : Services) → on_request_response n s ≡ some s' → IsUnder s → IsUnder s'
  response-IsUnder n s s' q (t, h) =
      let (t', h') = response-IsCounted n s s' q in
      (
        rw t' (under-fewer s.pending total t),
        λ name f. elim (Bool-cases (string_eq.beq n name)) [
          | inl same ↦
              let here : pending_of name s' ≡ pending_of name s -ℤ pos 1 = rw same at (h' name f) in
              rw here (under-fewer (pending_of name s) each (h name f))
          | inr other ↦
              let here : pending_of name s' ≡ pending_of name s = rw other at (h' name f) in
              rw here (h name f)
        ],
      )

  -- a request that is let through is counted, and under every limit
  admitted-IsUnder :
      (n : String) (s : Services)
      → HasLimits s
      → IsUnder s
      → error_if_exceeds_max_pending n (on_request n s) ≡ none
      → IsUnder (on_request n s)
  unfolding error_if_exceeds_max_pending HasLimits
  admitted-IsUnder n s l (t, h) none' =
      let s' = on_request n s in
      let (t₁, e₁, h₁) = request-HasLimits n s l in
      let (_, counted) = request-IsCounted n s in
      (
        rw t₁ at (under-reaches s'.pending s'.max_pending (ground (arith, none'))),
        λ name f. elim (Bool-cases (string_eq.beq n name)) [
          | inr other ↦
              let here : pending_of name s' ≡ pending_of name s = rw other at (counted name f) in
              rw here (h name f)
          | inl same ↦
              let is : n ≡ name = (string_eq.beq_iff n name).0 same in
              elim (Option-cases (Dict.get (key name) s'.services)) [
                | inl absent ↦ ground (arith, absent, under-zero each)
                | inr (x, present) ↦
                    let low : reaches x.pending x.max_pending ≡ false =
                      ground (arith, none', f, is, present) in
                    let mine : under x.pending each ≡ true =
                      rw (h₁ name x f present) at (under-reaches x.pending x.max_pending low) in
                    ground (arith, present, mine)
              ]
        ],
      )

  -- a request that is refused leaves the counters as they were
  refused-IsUnder :
      (n : String) (s s' : Services)
      → IsUnder s
      → on_request_response n (on_request n s) ≡ some s'
      → IsUnder s'
  refused-IsUnder n s s' (t, h) q =
      let (t₁, h₁) = request-IsCounted n s in
      let (t₂, h₂) = response-IsCounted n (on_request n s) s' q in
      let same_total : s'.pending ≡ s.pending =
        t₂ ∙ ap (λ z. z -ℤ pos 1) t₁ ∙ more-fewer s.pending in
      (
        rw same_total t,
        λ name f. elim (Bool-cases (string_eq.beq n name)) [
          | inr other ↦
              let here : pending_of name s' ≡ pending_of name s =
                (rw other at (h₂ name f)) ∙ (rw other at (h₁ name f)) in
              rw here (h name f)
          | inl same ↦
              let here : pending_of name s' ≡ pending_of name s =
                (rw same at (h₂ name f))
                ∙ ap (λ z. z -ℤ pos 1) (rw same at (h₁ name f))
                ∙ more-fewer (pending_of name s) in
              rw here (h name f)
        ],
      )

  -- what holds between two things that happen
  abbrev IsLimited : List String → Services → Type 0
  IsLimited known s = HasAll known s × HasLimits s × IsUnder s

  response-IsLimited :
      (known : List String) (n : String) (s : Services)
      → IsLimited known s
      → (string_eq.beq n "" || contains known n) ≡ true
      → (s' : Services) × (on_request_response n s ≡ some s') × IsLimited known s'
  response-IsLimited known n s (all, l, u) m =
      let (s', q, all') = response-HasAll known n s all m in
      (s', q, (all', response-HasLimits n s s' q l, response-IsUnder n s s' q u))

  request-IsLimited :
      (known : List String) (n : String) (s : Services)
      → IsLimited known s
      → (s' : Services) × (happen (request n) s ≡ some s') × IsLimited (n ∷ known) s'
  unfolding happen send on_request_error
  request-IsLimited known n s (all, l, u) =
      let s₁ = on_request n s in
      let all₁ = HasAll-request known n s all in
      let l₁ = request-HasLimits n s l in
      elim (Option-cases (error_if_exceeds_max_pending n s₁)) [
        | inl admitted ↦
            (s₁, rw (happen, send, admitted) refl, (all₁, l₁, admitted-IsUnder n s l u admitted))
        | inr (x, refused) ↦
            let (s', q, all') =
              response-HasAll (n ∷ known) n s₁ all₁ (ground (arith, string_eq.beq_iff n n)) in
            (
              s',
              rw (happen, send, refused, on_request_error, q) refl,
              (all', response-HasLimits n s₁ s' q l₁, refused-IsUnder n s s' u q),
            )
      ]

  traffic-IsLimited :
      (known : List String) (cs : List Call) (s : Services)
      → IsLimited known s
      → matched known cs ≡ true
      → (s' : Services) × (traffic cs s ≡ some s') × IsUnder s'
  unfolding traffic happen on_request_error
  traffic-IsLimited known [] s (all, l, u) m = (s, refl, u)
  traffic-IsLimited known (request n ∷ cs) s h m =
      let (s₁, q, h₁) = request-IsLimited known n s h in
      rw (traffic, q) (traffic-IsLimited (n ∷ known) cs s₁ h₁ m)
  traffic-IsLimited known (response n ∷ cs) s h m =
      let (s₁, q, h₁) = response-IsLimited known n s h (ground (arith, m)) in
      rw (traffic, happen, q) (traffic-IsLimited known cs s₁ h₁ (ground (arith, m)))
  traffic-IsLimited known (error n ∷ cs) s h m =
      let (s₁, q, h₁) = response-IsLimited known n s h (ground (arith, m)) in
      rw (traffic, happen, on_request_error, q)
        (traffic-IsLimited known cs s₁ h₁ (ground (arith, m)))

-- Along any traffic of requests that track pending ones, from counters at zero, in which every answer
-- comes after a request to its service, no call throws, and what is pending stays under the limits:
-- in total under maxPending, and for each named service under maxPendingForService. Since a request
-- is counted before it is checked, a limit of n lets n - 1 be pending.
pub traffic-bounded :
    (cs : List Call) (s : Services)
    → s.services ≡ []
    → s.pending ≡ pos 0
    → matched [] cs ≡ true
    → (s' : Services) × (traffic cs s ≡ some s')
      × (under s'.pending s.max_pending ≡ true)
      × ((name : String)
          → string_eq.beq name "" ≡ false
          → under (pending_of name s') s.max_pending_for_service ≡ true)
unfolding HasAll HasLimits Dict.get
traffic-bounded cs s e z m =
    let T = s.max_pending in
    let M = s.max_pending_for_service in
    let limits : HasLimits T M s = (refl, refl, λ name x f get. ground (arith, e, get)) in
    let under' : IsUnder T M s = (rw z (under-zero T), λ name f. rw e (under-zero M)) in
    let none_known : HasAll [] s = λ n f c. cc in
    let (s', q, u) = traffic-IsLimited T M [] cs s (none_known, limits, under') m in
    (s', q, u.0, u.1)
