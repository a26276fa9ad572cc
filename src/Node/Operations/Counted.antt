-- ===== src/Node/Operations/Counted.antt =====
-- The pending counts of the operations against their tables, through every call.
use tchannel.Prelude.{
  ℕ, ◌+◌, ◌≡◌, refl, ap, Bool, true, false, List, [], ◌∷◌, ◌++◌, Option, none, some, arith,
  if◌then◌else◌, string_eq, nat_eq,
}
use tchannel.Prelude.Dict
use tchannel.Prelude.Dict.{Dict}
use tchannel.Prelude.Counting.{
  count, counts, Distinct, Distinct-put, Distinct-remove, count-put, count-remove,
}
use tchannel.Node.Operations.{
  Req, Tombstone, Op, request, tombstone, Operations, create, added, HeapCall, cancel, live_of,
  cleared, destroyed, popped_out, popped_in, clear_out, clear_in, get_out_req, get_in_req,
  add_out_req, add_in_req, has_drained, check_drained, if_draining, bury, taken, pop_out_req,
  pop_in_req, same_tombstone, tombstone_timeout,
}

abbrev pub is_request : Op → Bool
is_request (request req) = true
is_request (tombstone t) = false

abbrev pub is_any : Req → Bool
is_any req = true

-- Each id stands once in its table, and the counts are the numbers of requests that are under way.
pub record IsCounted (self : Operations) : Type 0 where
  pub distinct_in : Distinct self.requests_in
  pub distinct_out : Distinct self.requests_out
  pub counted_in : self.pending_in ≡ count is_any self.requests_in
  pub counted_out : self.pending_out ≡ count is_request self.requests_out

pub create-IsCounted : IsCounted create
unfolding create
create-IsCounted = record {
  distinct_in = tt;
  distinct_out = tt;
  counted_in = refl;
  counted_out = refl;
}

not_live : (o : Option Op) → live_of o ≡ none → counts is_request o ≡ 0
not_live none h = refl
not_live (some (request req)) h = cc
not_live (some (tombstone t)) h = refl

no_request :
    (id : ℕ) (self : Operations)
    → get_out_req id self ≡ none
    → counts is_request (Dict.get id self.requests_out) ≡ 0
unfolding get_out_req
no_request id self h = not_live (Dict.get id self.requests_out) h

pub add_out_req-IsCounted :
    (req : Req) (self : Operations)
    → get_out_req req.id self ≡ none
    → IsCounted self
    → IsCounted (add_out_req req self)
unfolding add_out_req
add_out_req-IsCounted req self fresh c =
    let k = count-put is_request req.id (request (added req)) self.requests_out in
    record {
      distinct_in = c.distinct_in;
      distinct_out = Distinct-put req.id (request (added req)) self.requests_out c.distinct_out;
      counted_in = c.counted_in;
      counted_out = omega (arith, k, c.counted_out, no_request req.id self fresh);
    }

pub add_in_req-IsCounted :
    (req : Req) (self : Operations)
    → get_in_req req.id self ≡ none
    → IsCounted self
    → IsCounted (add_in_req req self)
unfolding add_in_req get_in_req
add_in_req-IsCounted req self fresh c =
    let k = count-put is_any req.id (added req) self.requests_in in
    let z : counts is_any (Dict.get req.id self.requests_in) ≡ 0 = rw fresh in
    record {
      distinct_in = Distinct-put req.id (added req) self.requests_in c.distinct_in;
      distinct_out = c.distinct_out;
      counted_in = omega (arith, k, c.counted_in, z);
      counted_out = c.counted_out;
    }

buried : (t : Tombstone) (o : Option Op) → same_tombstone t o ≡ true → counts is_request o ≡ 0
buried t none h = refl
buried t (some (request req)) h = cc
buried t (some (tombstone u)) h = refl

if-IsCounted :
    (b : Bool) (x y : Operations)
    → (b ≡ true → IsCounted x)
    → IsCounted y
    → IsCounted (if b then x else y)
if-IsCounted true x y c d = c refl
if-IsCounted false x y c d = d

-- only the tables and the counts matter
same-IsCounted :
    (self : Operations) (heap : List HeapCall) (drains : ℕ)
    → IsCounted self
    → IsCounted (record self { heap = heap; drains = drains })
same-IsCounted self heap drains c = record {
  distinct_in = c.distinct_in;
  distinct_out = c.distinct_out;
  counted_in = c.counted_in;
  counted_out = c.counted_out;
}

pub tombstone_timeout-IsCounted :
    (t : Tombstone) (self : Operations) → IsCounted self → IsCounted (tombstone_timeout t self)
unfolding tombstone_timeout
tombstone_timeout-IsCounted t self c =
    if-IsCounted (same_tombstone t (Dict.get t.id self.requests_out)) _ self
      (λ same.
        let k = count-remove is_request t.id self.requests_out c.distinct_out in
        let z = buried t (Dict.get t.id self.requests_out) same in
        record {
          distinct_in = c.distinct_in;
          distinct_out = Distinct-remove t.id self.requests_out c.distinct_out;
          counted_in = c.counted_in;
          counted_out = omega (arith, k, c.counted_out, z);
        })
      c

destroyed-IsCounted :
    (self : Operations) (o : Option Op) → IsCounted self → IsCounted (destroyed self o)
destroyed-IsCounted self none c = c
destroyed-IsCounted self (some (request req)) c = c
destroyed-IsCounted self (some (tombstone t)) c =
    tombstone_timeout-IsCounted t (record self { heap = self.heap ++ (cancel (tombstone t) ∷ []) })
      (same-IsCounted self (self.heap ++ (cancel (tombstone t) ∷ [])) self.drains c)

bury-IsCounted :
    (now id : ℕ) (req : Req) (self : Operations)
    → Dict.get id self.requests_out ≡ some (request req)
    → IsCounted self
    → IsCounted (bury now id req self)
bury-IsCounted now id req self e c =
    let t : Tombstone = record {
      serial = self.serials;
      id = id;
      time = now;
      timeout = 500 + req.timeout;
    } in
    let k = count-put is_request id (tombstone t) self.requests_out in
    let z : counts is_request (Dict.get id self.requests_out) ≡ 1 = ap (counts is_request) e in
    record {
      distinct_in = c.distinct_in;
      distinct_out = Distinct-put id (tombstone t) self.requests_out c.distinct_out;
      counted_in = c.counted_in;
      counted_out = omega (arith, k, c.counted_out, z);
    }

taken-IsCounted :
    (id : ℕ) (req : Req) (self : Operations)
    → Dict.get id self.requests_in ≡ some req
    → IsCounted self
    → IsCounted (taken id req self)
taken-IsCounted id req self e c =
    let k = count-remove is_any id self.requests_in c.distinct_in in
    let z : counts is_any (Dict.get id self.requests_in) ≡ 1 = ap (counts is_any) e in
    record {
      distinct_in = Distinct-remove id self.requests_in c.distinct_in;
      distinct_out = c.distinct_out;
      counted_in = omega (arith, k, c.counted_in, z);
      counted_out = c.counted_out;
    }

module _ (drain_exempt : Req → Bool) where
  if_draining-IsCounted :
      (self : Operations) → IsCounted self → IsCounted (if_draining drain_exempt self)
  unfolding check_drained
  if_draining-IsCounted self c =
      if-IsCounted self.draining _ self
        (λ d.
          if-IsCounted (has_drained drain_exempt self) _ self
            (λ e. same-IsCounted self self.heap (self.drains + 1) c) c)
        c

  popped_out-IsCounted :
      (now id : ℕ) (self : Operations) (o : Option Op)
      → Dict.get id self.requests_out ≡ o
      → IsCounted self
      → IsCounted (popped_out drain_exempt now id self o).0
  popped_out-IsCounted now id self none e c = c
  popped_out-IsCounted now id self (some (tombstone t)) e c = c
  popped_out-IsCounted now id self (some (request req)) e c =
      if_draining-IsCounted (bury now id req self) (bury-IsCounted now id req self e c)

  popped_in-IsCounted :
      (id : ℕ) (self : Operations) (o : Option Req)
      → Dict.get id self.requests_in ≡ o
      → IsCounted self
      → IsCounted (popped_in drain_exempt id self o).0
  popped_in-IsCounted id self none e c = c
  popped_in-IsCounted id self (some req) e c =
      if_draining-IsCounted (taken id req self) (taken-IsCounted id req self e c)

  pub pop_out_req-IsCounted :
      (now id : ℕ) (self : Operations)
      → IsCounted self
      → IsCounted (pop_out_req drain_exempt now id self).0
  unfolding pop_out_req
  pop_out_req-IsCounted now id self c =
      popped_out-IsCounted now id self (Dict.get id self.requests_out) refl c

  pub pop_in_req-IsCounted :
      (id : ℕ) (self : Operations) → IsCounted self → IsCounted (pop_in_req drain_exempt id self).0
  unfolding pop_in_req
  pop_in_req-IsCounted id self c = popped_in-IsCounted id self (Dict.get id self.requests_in) refl c

  pub clear_out-IsCounted :
      (now : ℕ) (ids : List ℕ) (self : Operations)
      → IsCounted self
      → IsCounted (clear_out drain_exempt now ids self)
  unfolding clear_out
  clear_out-IsCounted now [] self c = c
  clear_out-IsCounted now (id ∷ ids) self c =
      let ops = (pop_out_req drain_exempt now id self).0 in
      clear_out-IsCounted now ids (cleared drain_exempt now id self) (
        destroyed-IsCounted ops (Dict.get id ops.requests_out)
          (pop_out_req-IsCounted now id self c))

  pub clear_in-IsCounted :
      (ids : List ℕ) (self : Operations)
      → IsCounted self
      → IsCounted (clear_in drain_exempt ids self)
  unfolding clear_in
  clear_in-IsCounted [] self c = c
  clear_in-IsCounted (id ∷ ids) self c =
      clear_in-IsCounted ids (pop_in_req drain_exempt id self).0 (pop_in_req-IsCounted id self c)
