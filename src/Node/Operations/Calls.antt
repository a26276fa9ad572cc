-- ===== src/Node/Operations/Calls.antt =====
-- The calls that a connection makes on its operations, one after another.
use tchannel.Prelude.{
  ℕ, ◌≡◌, refl, inl, inr, Bool, true, ◌&&◌, List, [], ◌∷◌, none, arith, ◌==◌, string_eq, nat_eq,
  Bool-cases, and_true,
}
use tchannel.Prelude.Dict
use tchannel.Prelude.Dict.{Dict}
use tchannel.Prelude.Counting.{count}
use tchannel.Node.Operations.{
  Req, Tombstone, Op, request, tombstone, Operations, create, get_out_req, get_in_req, add_out_req,
  add_in_req, has_drained, pop_out_req, pop_in_req, tombstone_timeout, is_op_drained,
  is_out_drained, is_in_drained, clear, clear_in,
}
use tchannel.Node.Operations.Counted.{
  is_any, is_request, IsCounted, create-IsCounted, add_out_req-IsCounted, add_in_req-IsCounted,
  pop_out_req-IsCounted, pop_in_req-IsCounted, tombstone_timeout-IsCounted, clear_out-IsCounted,
  clear_in-IsCounted,
}

pub data Call : Type 0 where
  add_out add_in : Req → Call
  pop_out : ℕ → ℕ → Call
  pop_in : ℕ → Call
  timeout : Tombstone → Call
  drain : Call
  clear_all : ℕ → Call

module _ (drain_exempt : Req → Bool) where
  unfoldable pub call : Call → Operations → Operations
  call (add_out req) self = add_out_req req self
  call (add_in req) self = add_in_req req self
  call (pop_out now id) self = (pop_out_req drain_exempt now id self).0
  call (pop_in id) self = (pop_in_req drain_exempt id self).0
  call (timeout t) self = tombstone_timeout t self
  call drain self = record self { draining = true }
  call (clear_all now) self = clear drain_exempt now self

  abbrev pub calls : List Call → Operations → Operations
  calls [] self = self
  calls (c ∷ cs) self = calls cs (call c self)

  -- an id that is added has no request under way in its table
  abbrev pub IsFresh : Call → Operations → Type 0
  IsFresh (add_out req) self = get_out_req req.id self ≡ none
  IsFresh (add_in req) self = get_in_req req.id self ≡ none
  IsFresh (pop_out now id) self = Unit
  IsFresh (pop_in id) self = Unit
  IsFresh (timeout t) self = Unit
  IsFresh drain self = Unit
  IsFresh (clear_all now) self = Unit

  abbrev pub IsFreshRun : List Call → Operations → Type 0
  IsFreshRun [] self = Unit
  IsFreshRun (c ∷ cs) self = IsFresh c self × IsFreshRun cs (call c self)

  call-IsCounted :
      (c : Call) (self : Operations) → IsFresh c self → IsCounted self → IsCounted (call c self)
  unfolding call clear
  call-IsCounted (add_out req) self fresh k = add_out_req-IsCounted req self fresh k
  call-IsCounted (add_in req) self fresh k = add_in_req-IsCounted req self fresh k
  call-IsCounted (pop_out now id) self fresh k = pop_out_req-IsCounted drain_exempt now id self k
  call-IsCounted (pop_in id) self fresh k = pop_in_req-IsCounted drain_exempt id self k
  call-IsCounted (timeout t) self fresh k = tombstone_timeout-IsCounted t self k
  call-IsCounted drain self fresh k = record {
    distinct_in = k.distinct_in;
    distinct_out = k.distinct_out;
    counted_in = k.counted_in;
    counted_out = k.counted_out;
  }
  call-IsCounted (clear_all now) self fresh k =
      clear_out-IsCounted drain_exempt now (Dict.keys self.requests_out)
        (clear_in drain_exempt (Dict.keys self.requests_in) self)
        (clear_in-IsCounted drain_exempt (Dict.keys self.requests_in) self k)

  calls-IsCounted :
      (cs : List Call) (self : Operations)
      → IsFreshRun cs self
      → IsCounted self
      → IsCounted (calls cs self)
  calls-IsCounted [] self fresh k = k
  calls-IsCounted (c ∷ cs) self fresh k =
      calls-IsCounted cs (call c self) fresh.1 (call-IsCounted c self fresh.0 k)

  -- From a new table on, through any calls in which no request is added under an id that is under way,
  -- pending.in and pending.out are the numbers of requests in the two tables, tombstones not counted,
  -- and each id stands once in a table.
  pub created-calls-IsCounted :
      (cs : List Call) → IsFreshRun cs create → IsCounted (calls cs create)
  created-calls-IsCounted cs fresh = calls-IsCounted cs create fresh create-IsCounted

  no_in : (m : Dict ℕ Req) → count is_any m ≡ 0 → is_in_drained drain_exempt m ≡ true
  unfolding is_in_drained
  no_in [] h = refl
  no_in ((id, req) ∷ m) h = let no : ⊥ = omega (arith, h) in elim no [ ]

  no_out : (m : Dict ℕ Op) → count is_request m ≡ 0 → is_out_drained drain_exempt m ≡ true
  unfolding is_out_drained is_op_drained
  no_out [] h = refl
  no_out ((id, request req) ∷ m) h = let no : ⊥ = omega (arith, h) in elim no [ ]
  no_out ((id, tombstone t) ∷ m) h = no_out m (omega (arith, h))

  -- Where the counts are right, the counts of pending requests that hasDrained looks at first give
  -- the answer that the scan of the two tables gives.
  pub has_drained-scan :
      (self : Operations)
      → IsCounted self
      → has_drained drain_exempt self ≡ (
          is_in_drained drain_exempt self.requests_in
          && is_out_drained drain_exempt self.requests_out)
  unfolding has_drained
  has_drained-scan self c = elim (Bool-cases (self.pending_in == 0 && self.pending_out == 0)) [
    | inr some_pending ↦ rw some_pending
    | inl idle ↦
        let (i, o) = and_true (self.pending_in == 0) (self.pending_out == 0) idle in
        let zero_in : count is_any self.requests_in ≡ 0 = ground (arith, i, c.counted_in) in
        let zero_out : count is_request self.requests_out ≡ 0 = ground (arith, o, c.counted_out) in
        rw (idle, no_in self.requests_in zero_in, no_out self.requests_out zero_out)
  ]
