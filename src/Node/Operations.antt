-- ===== src/Node/Operations.antt =====
-- node/operations.js: the requests of a connection that are under way, in and out, and the tombstones
-- of outgoing ones that have ended. The calls of the time heap are kept in a log, and so is how
-- often drainEvent was emitted; `now` is the clock of the call.
pub mod Counted
pub mod Calls
mod Tests
use tchannel.Prelude.{
  ℕ, zero, suc, ◌+◌, ◌-◌, ◌*◌, ◌/◌, ◌%◌, ◌≤◌, ◌<◌, ◌≡◌, refl, sym, ap, ◌∙◌, ◌≢◌, ◌⊎◌, inl, inr, ◌↔◌,
  String, Bool, true, false, not, ◌&&◌, ◌||◌, List, [], ◌∷◌, ◌++◌, map, Option, none, some, arith,
  ltb, leb, ◌==◌, if◌then◌else◌, contains, string_eq, nat_eq, Eq, beq_self, is_some, or_default,
  Bool-cases, ltb→lt, or_false, and_true, or_true, Option-cases, length, get_elem?, get_or, set,
  take, drop, replicate, All, length-append, append_assoc, append_nil, take-append-drop,
  length-drop, drop-length-append, length-set, length-replicate, get_or-set, length-take,
  get_or-take, get_or-append, get_or-length,
}
use tchannel.Prelude.Dict
use tchannel.Prelude.Dict.{Dict}

abbrev pub tombstone_ttl_offset : ℕ
tombstone_ttl_offset = 500

-- what the table reads of a request
pub record Req : Type 0 where
  pub id : ℕ
  pub timeout : ℕ
  pub drained : Bool
  pub timed_out : Bool
  pub has_handle : Bool
  pub has_operations : Bool

-- `serial` tells the objects apart.
pub record Tombstone : Type 0 where
  pub serial : ℕ
  pub id : ℕ
  pub time : ℕ
  pub timeout : ℕ

pub data Op : Type 0 where
  request : Req → Op
  tombstone : Tombstone → Op

-- timeHeap.update(item) and timeHeapHandle.cancel()
pub data HeapCall : Type 0 where
  update cancel : Op → HeapCall

pub record Operations : Type 0 where
  pub draining : Bool
  pub requests_in : Dict ℕ Req
  pub requests_out : Dict ℕ Op
  pub pending_in : ℕ
  pub pending_out : ℕ
  pub serials : ℕ
  pub heap : List HeapCall
  pub drains : ℕ

unfoldable pub create : Operations
create = record {
  draining = false;
  requests_in = [];
  requests_out = [];
  pending_in = 0;
  pending_out = 0;
  serials = 0;
  heap = [];
  drains = 0;
}

-- a tombstone is no request
abbrev pub live_of : Option Op → Option Req
live_of none = none
live_of (some (request req)) = some req
live_of (some (tombstone t)) = none

unfoldable pub get_out_req : ℕ → Operations → Option Req
get_out_req id self = live_of (Dict.get id self.requests_out)

unfoldable pub get_in_req : ℕ → Operations → Option Req
get_in_req id self = Dict.get id self.requests_in

-- req.operations = self, req.timeHeapHandle = ...
abbrev pub added : Req → Req
added req = record req { has_handle = true; has_operations = true }

unfoldable pub add_out_req : Req → Operations → Operations
add_out_req req self = record self {
  requests_out = Dict.put req.id (request (added req)) self.requests_out;
  pending_out = self.pending_out + 1;
  heap = self.heap ++ (update (request req) ∷ []);
}

unfoldable pub add_in_req : Req → Operations → Operations
add_in_req req self = record self {
  requests_in = Dict.put req.id (added req) self.requests_in;
  pending_in = self.pending_in + 1;
  heap = self.heap ++ (update (request req) ∷ []);
}

-- the log after `if (req.timeHeapHandle)`
abbrev pub cancelled : Req → List HeapCall → List HeapCall
cancelled req heap = if req.has_handle then heap ++ (cancel (request req) ∷ []) else heap

abbrev pub without_handle : Req → Req
without_handle req = record req { has_handle = false }

-- a tombstone in the place of the request
abbrev pub bury : ℕ → ℕ → Req → Operations → Operations
bury now id req self =
    let t : Tombstone = record {
      serial = self.serials;
      id = id;
      time = now;
      timeout = tombstone_ttl_offset + req.timeout;
    } in
    record self {
      requests_out = Dict.put id (tombstone t) self.requests_out;
      pending_out = self.pending_out - 1;
      serials = self.serials + 1;
      heap = cancelled req self.heap ++ (update (tombstone t) ∷ []);
    }

abbrev pub taken : ℕ → Req → Operations → Operations
taken id req self = record self {
  requests_in = Dict.remove id self.requests_in;
  pending_in = self.pending_in - 1;
  heap = cancelled req self.heap;
}

-- onTimeout of a tombstone: only the tombstone that stands in the table is taken out
abbrev pub same_tombstone : Tombstone → Option Op → Bool
same_tombstone t none = false
same_tombstone t (some (request req)) = false
same_tombstone t (some (tombstone u)) = u.serial == t.serial

unfoldable pub tombstone_timeout : Tombstone → Operations → Operations
tombstone_timeout t self =
    if same_tombstone t (Dict.get t.id self.requests_out)
    then record self { requests_out = Dict.remove t.id self.requests_out }
    else self

-- `clear` of an entry that popOutReq has left: cancelled and destroyed
abbrev pub destroyed : Operations → Option Op → Operations
destroyed self none = self
destroyed self (some (request req)) = self
destroyed self (some (tombstone t)) =
    tombstone_timeout t (record self { heap = self.heap ++ (cancel (tombstone t) ∷ []) })

-- `drain_exempt` of a channel or a connection, or a function that is always false
module _ (drain_exempt : Req → Bool) where
  -- what lets a collection count as drained
  unfoldable pub is_op_drained : Op → Bool
  is_op_drained (request req) = req.drained || drain_exempt req
  is_op_drained (tombstone t) = true

  unfoldable pub is_out_drained : Dict ℕ Op → Bool
  is_out_drained [] = true
  is_out_drained ((id, op) ∷ coll) = is_op_drained op && is_out_drained coll

  unfoldable pub is_in_drained : Dict ℕ Req → Bool
  is_in_drained [] = true
  is_in_drained ((id, req) ∷ coll) = is_op_drained (request req) && is_in_drained coll

  unfoldable pub has_drained : Operations → Bool
  has_drained self =
      if self.pending_in == 0 && self.pending_out == 0
      then true
      else is_in_drained self.requests_in && is_out_drained self.requests_out

  unfoldable pub check_drained : Operations → Operations
  check_drained self = if has_drained self then record self { drains = self.drains + 1 } else self

  abbrev pub if_draining : Operations → Operations
  if_draining self = if self.draining then check_drained self else self

  abbrev pub popped_out : ℕ → ℕ → Operations → Option Op → Operations × Option Req
  popped_out now id self none = (self, none)
  popped_out now id self (some (tombstone t)) = (self, none)
  popped_out now id self (some (request req)) = (
    if_draining (bury now id req self),
    some (record (without_handle req) { has_operations = false }),
  )

  unfoldable pub pop_out_req : ℕ → ℕ → Operations → Operations × Option Req
  pop_out_req now id self = popped_out now id self (Dict.get id self.requests_out)

  abbrev pub popped_in : ℕ → Operations → Option Req → Operations × Option Req
  popped_in id self none = (self, none)
  popped_in id self (some req) = (if_draining (taken id req self), some (without_handle req))

  unfoldable pub pop_in_req : ℕ → Operations → Operations × Option Req
  pop_in_req id self = popped_in id self (Dict.get id self.requests_in)

  abbrev pub cleared : ℕ → ℕ → Operations → Operations
  cleared now id self =
      let ops = (pop_out_req now id self).0 in destroyed ops (Dict.get id ops.requests_out)

  -- the second loop of `clear`, over the keys of its start
  unfoldable pub clear_out : ℕ → List ℕ → Operations → Operations
  clear_out now [] self = self
  clear_out now (id ∷ ids) self = clear_out now ids (cleared now id self)

  unfoldable pub clear_in : List ℕ → Operations → Operations
  clear_in [] self = self
  clear_in (id ∷ ids) self = clear_in ids (pop_in_req id self).0

  unfoldable pub clear : ℕ → Operations → Operations
  clear now self =
      let out_req_keys = Dict.keys self.requests_out in
      clear_out now out_req_keys (clear_in (Dict.keys self.requests_in) self)
