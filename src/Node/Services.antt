-- ===== src/Node/Services.antt =====
-- node/services.js: the counters of pending requests of a channel, in total and for each service. The
-- counters are integers, since nothing in the code keeps them from going below zero. A limit `none`
-- is Infinity, which is also what an undefined maxPendingForService comes to.
pub mod Pending
pub mod Traffic
pub mod Sending
pub mod Limits
mod Tests
use tchannel.Prelude.{
  ℕ, zero, suc, ◌+◌, ◌-◌, ◌*◌, ◌/◌, ◌%◌, ◌≤◌, ◌<◌, ◌≡◌, refl, sym, ap, ◌∙◌, ◌≢◌, ◌⊎◌, inl, inr, ◌↔◌,
  String, Bool, true, false, not, ◌&&◌, ◌||◌, List, [], ◌∷◌, ◌++◌, map, Option, none, some, arith,
  ltb, leb, ◌==◌, if◌then◌else◌, contains, string_eq, nat_eq, Eq, beq_self, is_some, or_default,
  Bool-cases, Option-cases, length, get_elem?, get_or, set, take, replicate, All, length-append,
  length-set, length-replicate, get_or-set, length-take, get_or-take, get_or-append, get_or-length,
}
use Prim.Native.String.{◌++◌ as ◌++s◌}
use tchannel.Prelude.Int.{ℤ, pos, negsuc, pos_part, neg_part, sub_ℕ, ◌+ℤ◌, ◌-ℤ◌, ltb_ℤ}
use tchannel.Prelude.Dict
use tchannel.Prelude.Dict.{Dict}

pub record Service : Type 0 where
  pub service_name : String
  pub max_pending : Option ℕ
  pub pending : ℤ

pub record Services : Type 0 where
  pub services : Dict String Service
  pub max_pending_for_service : Option ℕ
  pub max_pending : Option ℕ
  pub pending : ℤ

abbrev pub initial : Services
initial = record {
  services = [];
  max_pending_for_service = none;
  max_pending = none;
  pending = pos 0;
}

abbrev pub key : String → String
key name = "$" ++s name

-- pending >= maxPending
abbrev pub reaches : ℤ → Option ℕ → Bool
reaches n none = false
reaches n (some max) = not (ltb_ℤ n (pos max))

pub data Exceeded : Type 0 where
  max_pending_error : ℤ → Exceeded
  max_pending_for_service_error : String → ℤ → Exceeded

-- TChannelService.prototype.errorIfExceedsMaxPending
abbrev service_error : Service → Option Exceeded
service_error s =
    if reaches s.pending s.max_pending
    then some (max_pending_for_service_error s.service_name s.pending)
    else none

-- errorIfExceedsMaxPending; a request without a service name has the name ""
unfoldable pub error_if_exceeds_max_pending : String → Services → Option Exceeded
error_if_exceeds_max_pending name s =
    if reaches s.pending s.max_pending
    then some (max_pending_error s.pending)
    else (if string_eq.beq name ""
        then none
        else elim (Dict.get (key name) s.services) [ none ↦ none | some x ↦ service_error x ])

unfoldable pub new_service : String → Services → Service
new_service name s = record {
  service_name = name;
  max_pending = s.max_pending_for_service;
  pending = pos 0;
}

-- a pending count changed by the operations of a service
abbrev pub more : Service → Service
more x = record x { pending = x.pending +ℤ pos 1 }

abbrev pub fewer : Service → Service
fewer x = record x { pending = x.pending -ℤ pos 1 }

unfoldable pub on_request : String → Services → Services
on_request name s =
    let counted = record s { pending = s.pending +ℤ pos 1 } in
    if string_eq.beq name ""
    then counted
    else let x = or_default (new_service name s) (Dict.get (key name) s.services) in
      record counted { services = Dict.put (key name) (more x) s.services }

-- onRequestResponse and onRequestError, which do the same; `none` is the TypeError of a service that
-- is not there
unfoldable pub on_request_response : String → Services → Option Services
on_request_response name s =
    let counted = record s { pending = s.pending -ℤ pos 1 } in
    if string_eq.beq name "" then some counted else elim (Dict.get (key name) s.services) [
      | none ↦ none
      | some x ↦ some (record counted { services = Dict.put (key name) (fewer x) s.services })
    ]

unfoldable pub on_request_error : String → Services → Option Services
on_request_error name s = on_request_response name s
