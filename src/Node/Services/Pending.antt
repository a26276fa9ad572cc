-- ===== src/Node/Services/Pending.antt =====
-- The calls on the counters of node/services.js, and what they count.
use tchannel.Prelude.{
  ℕ, ◌+◌, ◌≡◌, sym, ap, ◌∙◌, inl, inr, String, Bool, true, false, List, [], ◌∷◌, Option, none, some,
  arith, if◌then◌else◌, string_eq, nat_eq, or_default, Bool-cases, Option-cases,
}
use tchannel.Node.Services.{
  Service, Services, key, new_service, more, fewer, on_request, on_request_response,
  on_request_error,
}
use text.Mathlib.TextLemmas.{append_cancel_left}
use tchannel.Prelude.Int.{ℤ, pos, negsuc, sub_ℕ, ◌+ℤ◌, ◌-ℤ◌}
use tchannel.Prelude.Dict
use tchannel.Prelude.Dict.{Dict}

-- what a channel calls
pub data Call : Type 0 where
  request response error : String → Call

unfoldable pub call : Call → Services → Option Services
call (request name) s = some (on_request name s)
call (response name) s = on_request_response name s
call (error name) s = on_request_error name s

unfoldable pub calls : List Call → Services → Option Services
calls [] s = some s
calls (c ∷ cs) s = elim (call c s) [ none ↦ none | some s' ↦ calls cs s' ]

abbrev pub is_start : Call → Bool
is_start (request name) = true
is_start (response name) = false
is_start (error name) = false

abbrev pub name_of : Call → String
name_of (request name) = name
name_of (response name) = name
name_of (error name) = name

-- how many requests start, and how many end
unfoldable pub started : List Call → ℕ
started [] = 0
started (c ∷ cs) = (if is_start c then 1 else 0) + started cs

unfoldable pub ended : List Call → ℕ
ended [] = 0
ended (c ∷ cs) = (if is_start c then 0 else 1) + ended cs

-- the calls of one service
unfoldable pub calls_of : String → List Call → List Call
calls_of name [] = []
calls_of name (c ∷ cs) =
    if string_eq.beq (name_of c) name then c ∷ calls_of name cs else calls_of name cs

abbrev pub pending_in : String → Dict String Service → ℤ
pending_in name m = elim (Dict.get (key name) m) [ none ↦ pos 0 | some x ↦ x.pending ]

abbrev pub pending_of : String → Services → ℤ
pending_of name s = pending_in name s.services

pub key_eq : (a b : String) → string_eq.beq (key a) (key b) ≡ string_eq.beq a b
key_eq a b =
    let injective : key a ≡ key b → a ≡ b = append_cancel_left "$" a b in
    ground (arith, string_eq.beq_iff (key a) (key b), string_eq.beq_iff a b, injective, ap key)

-- the difference of two counts with one more
sub-more : (z : ℤ) (a b : ℕ) → (z +ℤ pos 1) +ℤ sub_ℕ a b ≡ z +ℤ sub_ℕ (1 + a) b
unfolding ◌+ℤ◌
sub-more (pos n) a b = ground arith
sub-more (negsuc n) a b = ground arith

sub-fewer : (z : ℤ) (a b : ℕ) → (z -ℤ pos 1) +ℤ sub_ℕ a b ≡ z +ℤ sub_ℕ a (1 + b)
unfolding ◌+ℤ◌ ◌-ℤ◌
sub-fewer (pos n) a b = ground arith
sub-fewer (negsuc n) a b = ground arith

-- a count with one more, or one less
abbrev pub counted : Bool → ℤ → ℤ
counted true z = z +ℤ pos 1
counted false z = z -ℤ pos 1

abbrev pub IsCounted : Call → Services → Services → Type 0
IsCounted c s s' =
    (s'.pending ≡ counted (is_start c) s.pending)
    × ((name : String)
        → string_eq.beq name "" ≡ false
        → pending_of name s' ≡ (
            if string_eq.beq (name_of c) name
            then counted (is_start c) (pending_of name s)
            else pending_of name s))

pending_in-put :
    (n name : String) (x : Service) (m : Dict String Service)
    → pending_in name (Dict.put (key n) x m)
      ≡ (if string_eq.beq n name then x.pending else pending_in name m)
pending_in-put n name x m = ground (arith, Dict.get-put (key name) (key n) x m, key_eq n name)

pending-known :
    (n name : String) (s : Services)
    → string_eq.beq n name ≡ true
    → (or_default (new_service n s) (Dict.get (key n) s.services)).pending ≡ pending_of name s
unfolding new_service
pending-known n name s h =
    let e : n ≡ name = (string_eq.beq_iff n name).0 h in
    elim (Option-cases (Dict.get (key n) s.services)) [
      | inl absent ↦ ground (arith, absent, e)
      | inr (x, present) ↦ ground (arith, present, e)
    ]

pub request-IsCounted : (n : String) (s : Services) → IsCounted (request n) s (on_request n s)
unfolding on_request
request-IsCounted n s = elim (Bool-cases (string_eq.beq n "")) [
  | inl e ↦ (ground (arith, e), λ name f. ground (arith, e, f, string_eq.beq_iff n name))
  | inr e ↦ (
    ground (arith, e),
    λ name f.
        let x = more (or_default (new_service n s) (Dict.get (key n) s.services)) in
        ground (arith, e, pending_in-put n name x s.services, pending-known n name s),
  )
]

pub response-IsCounted :
    (n : String) (s s' : Services) → on_request_response n s ≡ some s' → IsCounted (response n) s s'
unfolding on_request_response
response-IsCounted n s s' q = elim (Bool-cases (string_eq.beq n "")) [
  | inl e ↦ (ground (arith, e, q), λ name f. ground (arith, e, f, q, string_eq.beq_iff n name))
  | inr e ↦ elim (Option-cases (Dict.get (key n) s.services)) [
    | inl absent ↦ let no : ⊥ = ground (arith, e, q, absent) in elim no [ ]
    | inr (x, present) ↦ (
      ground (arith, e, q, present),
      λ name f. ground (
        arith,
        e,
        q,
        present,
        pending_in-put n name (fewer x) s.services,
        string_eq.beq_iff n name,
      ),
    )
  ]
]

call-IsCounted : (c : Call) (s s' : Services) → call c s ≡ some s' → IsCounted c s s'
unfolding call on_request_error
call-IsCounted (request n) s s' q =
    let e : on_request n s ≡ s' = cc in rw (sym e) (request-IsCounted n s)
call-IsCounted (response n) s s' q = response-IsCounted n s s' q
call-IsCounted (error n) s s' q = response-IsCounted n s s' q

add_zero : (z : ℤ) → z +ℤ pos 0 ≡ z
unfolding ◌+ℤ◌
add_zero (pos n) = ground arith
add_zero (negsuc n) = ground arith

counted-sub :
    (b : Bool) (z : ℤ) (a e : ℕ)
    → counted b z +ℤ sub_ℕ a e ≡ z +ℤ sub_ℕ ((if b then 1 else 0) + a) ((if b then 0 else 1) + e)
counted-sub true z a e =
    let zero_e : e ≡ 0 + e = omega arith in sub-more z a e ∙ ap (λ n. z +ℤ sub_ℕ (1 + a) n) zero_e
counted-sub false z a e =
    let zero_a : a ≡ 0 + a = omega arith in sub-fewer z a e ∙ ap (λ n. z +ℤ sub_ℕ n (1 + e)) zero_a

pub pending-calls :
    (cs : List Call) (s s' : Services)
    → calls cs s ≡ some s'
    → (s'.pending ≡ s.pending +ℤ sub_ℕ (started cs) (ended cs))
      × ((name : String)
          → string_eq.beq name "" ≡ false
          → pending_of name s'
            ≡ pending_of name s +ℤ sub_ℕ (started (calls_of name cs)) (ended (calls_of name cs)))
unfolding calls started ended calls_of
pending-calls [] s s' e =
    let q : s ≡ s' = cc in
    rw (sym q) (sym (add_zero s.pending), λ name f. sym (add_zero (pending_of name s)))
pending-calls (c ∷ cs) s s' e = elim (Option-cases (call c s)) [
  | inl threw ↦ let no : ⊥ = ground (arith, e, threw) in elim no [ ]
  | inr (s₁, went) ↦
      let (total, each) = call-IsCounted c s s₁ went in
      let rest : calls cs s₁ ≡ some s' = ground (arith, e, went) in
      let (total', each') = pending-calls cs s₁ s' rest in
      (
        total'
            ∙ ap (λ z. z +ℤ sub_ℕ (started cs) (ended cs)) total
            ∙ counted-sub (is_start c) s.pending (started cs) (ended cs),
        λ name f. elim (Bool-cases (string_eq.beq (name_of c) name)) [
          | inl same ↦
              let mine = calls_of name cs in
              let here : pending_of name s₁ ≡ counted (is_start c) (pending_of name s) =
                rw same at (each name f) in
              rw same (
                each' name f
                ∙ ap (λ z. z +ℤ sub_ℕ (started mine) (ended mine)) here
                ∙ counted-sub (is_start c) (pending_of name s) (started mine) (ended mine))
          | inr other ↦
              let mine = calls_of name cs in
              let here : pending_of name s₁ ≡ pending_of name s = rw other at (each name f) in
              rw other (each' name f ∙ ap (λ z. z +ℤ sub_ℕ (started mine) (ended mine)) here)
        ],
      )
]
