-- ===== src/Node/Services/Traffic.antt =====
-- Traffic over the counters of node/services.js: calls that match.
use tchannel.Prelude.{
  ◌≡◌, refl, ap, ◌∙◌, inl, inr, String, Bool, true, false, ◌&&◌, ◌||◌, List, [], ◌∷◌, some, arith,
  contains, string_eq, nat_eq, is_some, or_default, Bool-cases, Option-cases,
}
use tchannel.Node.Services.{
  Services, key, new_service, more, fewer, on_request, on_request_response, on_request_error,
}
use tchannel.Prelude.Int.{pos, sub_ℕ, ◌+ℤ◌}
use tchannel.Prelude.Dict
use tchannel.Prelude.Dict.{Dict}
use tchannel.Node.Services.Pending.{
  Call, request, response, error, call, calls, started, ended, calls_of, pending_of, key_eq,
  pending-calls,
}

-- every answer to a named service comes after a request to it, or the service is known
abbrev pub matched : List String → List Call → Bool
matched known [] = true
matched known (request n ∷ cs) = matched (n ∷ known) cs
matched known (response n ∷ cs) = (string_eq.beq n "" || contains known n) && matched known cs
matched known (error n ∷ cs) = (string_eq.beq n "" || contains known n) && matched known cs

unfoldable pub HasAll : List String → Services → Type 0
HasAll known s =
    (n : String)
    → string_eq.beq n "" ≡ false
    → contains known n ≡ true
    → is_some (Dict.get (key n) s.services) ≡ true

pub HasAll-request :
    (known : List String) (n : String) (s : Services)
    → HasAll known s
    → HasAll (n ∷ known) (on_request n s)
unfolding HasAll on_request
HasAll-request known n s h name f c = elim (Bool-cases (string_eq.beq n "")) [
  | inl e ↦ ground (arith, e, f, c, h name f, string_eq.beq_iff n name)
  | inr e ↦
      let x = more (or_default (new_service n s) (Dict.get (key n) s.services)) in
      ground (arith, e, f, c, h name f, Dict.get-put (key name) (key n) x s.services, key_eq n name)
]

pub response-HasAll :
    (known : List String) (n : String) (s : Services)
    → HasAll known s
    → (string_eq.beq n "" || contains known n) ≡ true
    → (s' : Services) × (on_request_response n s ≡ some s') × HasAll known s'
unfolding HasAll on_request_response
response-HasAll known n s h m = elim (Bool-cases (string_eq.beq n "")) [
  | inl e ↦ rw e (_, refl, h)
  | inr e ↦ elim (Option-cases (Dict.get (key n) s.services)) [
    | inl absent ↦ let no : ⊥ = ground (arith, e, m, h n e, absent) in elim no [ ]
    | inr (x, present) ↦
        rw (e, present)
          (
            _,
            refl,
            λ name f c. ground (
              arith,
              f,
              c,
              h name f,
              Dict.get-put (key name) (key n) (fewer x) s.services,
              key_eq n name,
            ),
          )
  ]
]

calls-total :
    (known : List String) (cs : List Call) (s : Services)
    → HasAll known s
    → matched known cs ≡ true
    → (s' : Services) × (calls cs s ≡ some s')
unfolding calls call on_request_error
calls-total known [] s h m = (s, refl)
calls-total known (request n ∷ cs) s h m =
    calls-total (n ∷ known) cs (on_request n s) (HasAll-request known n s h) m
calls-total known (response n ∷ cs) s h m =
    let (s₁, e, h₁) = response-HasAll known n s h (ground (arith, m)) in
    rw (calls, call, on_request_error, e) (calls-total known cs s₁ h₁ (ground (arith, m)))
calls-total known (error n ∷ cs) s h m =
    let (s₁, e, h₁) = response-HasAll known n s h (ground (arith, m)) in
    rw (calls, call, on_request_error, e) (calls-total known cs s₁ h₁ (ground (arith, m)))

-- If every answer comes after a request to its service, no call throws, and afterwards the total is
-- the number of requests less that of answers, and the counter of each named service the same for the
-- calls of that service.
pub calls_lem :
    (cs : List Call) (s : Services)
    → s.services ≡ []
    → s.pending ≡ pos 0
    → matched [] cs ≡ true
    → (s' : Services) × (calls cs s ≡ some s')
      × (s'.pending ≡ pos 0 +ℤ sub_ℕ (started cs) (ended cs))
      × ((name : String)
          → string_eq.beq name "" ≡ false
          → pending_of name s'
            ≡ pos 0 +ℤ sub_ℕ (started (calls_of name cs)) (ended (calls_of name cs)))
unfolding HasAll Dict.get
calls_lem cs s e z m =
    let none_known : HasAll [] s = λ n f c. cc in
    let (s', went) = calls-total [] cs s none_known m in
    let (total, each) = pending-calls cs s s' went in
    (
      s',
      went,
      total ∙ ap (λ n. n +ℤ sub_ℕ (started cs) (ended cs)) z,
      λ name f. rw e at (each name f),
    )
