-- ===== src/Node/V2/Sending.antt =====
-- node/v2/handler.js, sendCallBodies: the frames of the continuations of a call, each with the checksum
-- that the frame before left. A frame that cannot be written ends the model's loop with its error.
use tchannel.Prelude.{ℕ, zero, suc, ◌-◌, List, [], ◌∷◌, Option, none, some, string_eq, nat_eq}
use tchannel.Node.V2.Rw.{Result, ok, ◌>>=◌, Bytes}
use tchannel.Node.V2.Checksum.{Checksum, Hashes}
use tchannel.Node.V2.Bufrw.{Bufrw}
use tchannel.Node.V2.Args.{Body, Cont}
use tchannel.Node.V2.Call.{write_call_cont_into}

-- Frame.MaxBodySize: the room that pushFrame's buffer of Frame.MaxSize has behind the frame's header
abbrev pub max_body_size : ℕ
max_body_size = 0xffff - 0x10

-- the body that `cont` holds, with the checksum it is given before it is pushed
abbrev pub cont_body : Cont → Checksum → Body
cont_body c csum = record { flags = c.flags; csum = csum; args = c.args; cont = none }

-- a frame in front of those that are pushed after it
abbrev pub in_front : Bytes → Option (List Bytes × Checksum) → Option (List Bytes × Checksum)
in_front bs none = none
in_front bs (some (frames, csum)) = some (bs ∷ frames, csum)

module _ (p : Bufrw) (hashes : Hashes) where
  -- `none` when the rounds are used up
  unfoldable pub send_conts : ℕ → Option Cont → Checksum → Result (Option (List Bytes × Checksum))
  send_conts fuel none csum = ok (some ([], csum))
  send_conts zero (some c) csum = ok none
  send_conts (suc fuel) (some c) csum = do
    (bs, body) ← write_call_cont_into p hashes (cont_body c csum) max_body_size
    sent ← send_conts fuel body.cont body.csum
    ok (in_front bs sent)
