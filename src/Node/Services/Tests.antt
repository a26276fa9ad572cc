-- ===== src/Node/Services/Tests.antt =====
-- Runs of the counters, and the theorems at concrete ones.
use tchannel.Prelude.{◌≡◌, refl, String, true, false, List, [], ◌∷◌, some, string_eq, nat_eq}
use tchannel.Node.Services.{
  Services, new_service, error_if_exceeds_max_pending, on_request, on_request_response,
  on_request_error,
}
use tchannel.Prelude.Int.{pos, sub_ℕ, ◌+ℤ◌, ◌-ℤ◌}
use tchannel.Prelude.Dict
use tchannel.Prelude.Dict.{Dict}
use tchannel.Node.Services.Pending.{
  Call, request, error, call, calls, started, ended, calls_of, pending_of,
}
use mathlib.Core.Option
use tchannel.Node.Services.Traffic.{calls_lem}
use tchannel.Node.Services.Sending.{send, happen, traffic}
use tchannel.Node.Services.Limits.{under, traffic-bounded}

abbrev limited : Services
limited = record {
  services = [];
  max_pending_for_service = some 1;
  max_pending = some 3;
  pending = pos 0;
}

abbrev requests : List Call
requests = request "foo" ∷ request "" ∷ error "foo" ∷ request "foo" ∷ []

calls_lem_example :
    (s' : Services) × (calls requests limited ≡ some s')
    × (s'.pending ≡ pos 0 +ℤ sub_ℕ (started requests) (ended requests))
    × ((name : String)
        → string_eq.beq name "" ≡ false
        → pending_of name s'
          ≡ pos 0 +ℤ sub_ℕ (started (calls_of name requests)) (ended (calls_of name requests)))
calls_lem_example = calls_lem requests limited refl refl refl

two_pending : Option.map (λ s. s.pending) (calls requests limited) ≡ some (pos 2)
unfolding calls call on_request on_request_error on_request_response Dict.get Dict.put new_service
    ◌+ℤ◌ ◌-ℤ◌
two_pending = refl

traffic-bounded_example :
    (s' : Services) × (traffic requests limited ≡ some s')
    × (under s'.pending (some 3) ≡ true)
    × ((name : String) → string_eq.beq name "" ≡ false → under (pending_of name s') (some 1) ≡ true)
traffic-bounded_example = traffic-bounded requests limited refl refl refl

-- Of a limit of 3, two requests are let through at once and the third is refused; the service's limit
-- of 1 lets no request of a named service through.
third_refused :
    Option.map (λ s. s.pending) (traffic (request "" ∷ request "" ∷ request "" ∷ []) limited)
    ≡ some (pos 2)
unfolding traffic happen send error_if_exceeds_max_pending on_request on_request_error
    on_request_response Dict.get ◌+ℤ◌ ◌-ℤ◌
third_refused = refl
