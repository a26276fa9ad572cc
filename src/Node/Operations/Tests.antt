-- ===== src/Node/Operations/Tests.antt =====
-- Runs of the operations, and the properties at them.
use tchannel.Prelude.{ℕ, ◌≡◌, refl, Bool, false, ◌&&◌, List, [], ◌∷◌, string_eq, nat_eq}
use tchannel.Prelude.Dict
use tchannel.Prelude.Dict.{Dict}
use tchannel.Node.Operations.{
  Req, create, get_out_req, get_in_req, add_out_req, add_in_req, has_drained, pop_out_req,
  pop_in_req, is_out_drained, is_in_drained,
}
use tchannel.Node.Operations.Counted.{IsCounted}
use tchannel.Node.Operations.Calls.{
  Call, add_out, add_in, pop_out, pop_in, call, calls, created-calls-IsCounted, has_drained-scan,
}

abbrev req : ℕ → Req
req id = record {
  id = id;
  timeout = 100;
  drained = false;
  timed_out = false;
  has_handle = false;
  has_operations = false;
}

abbrev none_exempt : Req → Bool
none_exempt req = false

-- two requests out, one of which is answered and whose tombstone stays, and one in
abbrev run : List Call
run =
    add_out (req 1)
    ∷ add_out (req 2)
    ∷ add_in (req 7)
    ∷ pop_out 10 1
    ∷ add_out (req 1)
    ∷ pop_in 7
    ∷ []

created-calls-IsCounted_example : IsCounted (calls none_exempt run create)
unfolding call create get_out_req get_in_req add_out_req add_in_req pop_out_req pop_in_req Dict.get
    Dict.put
created-calls-IsCounted_example =
    created-calls-IsCounted none_exempt run (refl, (refl, (refl, (tt, (refl, (tt, tt))))))

run_pending : (calls none_exempt run create).pending_out ≡ 2
unfolding call create add_out_req add_in_req pop_out_req pop_in_req Dict.get Dict.put
run_pending = refl

has_drained-scan_example : has_drained none_exempt (calls none_exempt run create) ≡ (
    is_in_drained none_exempt (calls none_exempt run create).requests_in
    && is_out_drained none_exempt (calls none_exempt run create).requests_out)
has_drained-scan_example =
    has_drained-scan none_exempt (calls none_exempt run create) created-calls-IsCounted_example
