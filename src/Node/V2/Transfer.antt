-- ===== src/Node/V2/Transfer.antt =====
-- A call request from the first frame to the last one: what sendCallBodies writes, and the streamed
-- request that the other side makes of it.
use tchannel.Prelude.{
  ℕ, ◌+◌, ◌-◌, ◌≤◌, ◌<◌, ◌≡◌, refl, sym, ap, ◌∙◌, inl, inr, String, true, false, List, [], ◌∷◌,
  none, some, arith, leb, string_eq, nat_eq, Bool-cases, ltb→lt, Option-cases, length,
}
use tchannel.Node.ArgStream.{create, create_request, handle_frame, handle_request_frame, pass_on}
use tchannel.Node.V2.Rw.{ok, Bytes}
use tchannel.Node.V2.Checksum
use tchannel.Node.V2.Checksum.{Hashes, kind-updated, updated, verify, verify-first, verify-updated}
use tchannel.Node.V2.Bufrw.{Bufrw, Laws, IsChecksum, checksum_width}
use tchannel.Node.V2.Args.{Body, Cont, set_fragment}
use tchannel.Node.V2.Args.Cutting.{rejoin, cont_args, left_over}
use tchannel.Node.V2.Args.RoundTrip.{IsFrame, IsCuttable, AreHashes, args_room, updated-IsChecksum}
use tchannel.Node.V2.Call.{
  CallRequest, verify_checksum, read_body, req_prefix_length, read_call_req_from,
  write_call_req_into,
}
use tchannel.Node.V2.Call.Requests.{IsCallRequest, IsRequestFrame, write_call_req_into-read}
use tchannel.Node.V2.Sending.{max_body_size, cont_body, send_conts}
use tchannel.Node.V2.Receiving.{
  InCall, is_last, check_call_frame, handle_call_frame, handle_call_request,
}
use tchannel.Node.V2.Streams.{weight, holding, rejoin-length, frame-holding}
use tchannel.Node.V2.Delivery.{no_flag, send_conts-receive}
use tchannel.Node.V2.Delivery.Rounds.{
  IsLooseRun, receive, under_way, delivered, is_last-set, type_eq_self,
}

-- the request of handleCallRequest before its frame
abbrev start : Body → InCall
start body = record { checksum = Checksum.create body.csum.kind; request = create_request }

-- the first frame, with the whole of the first argument and a part at least of the second
handle_first :
    (hashes : Hashes) (kind : Checksum.ChecksumType) (body : Body) (arg1 part : Bytes)
    (parts : List Bytes)
    → body.csum ≡ updated hashes body.args (Checksum.create kind)
    → body.flags ≡ set_fragment 0
    → body.args ≡ arg1 ∷ part ∷ parts
    → length parts ≤ 1
    → handle_call_request hashes body ≡ under_way body.csum arg1 (part ∷ parts)
unfolding handle_call_request handle_call_frame check_call_frame handle_request_frame pass_on
    verify_checksum create_request create Checksum.create
handle_first hashes kind body arg1 part parts summed cut split small =
    let checked : verify hashes body.csum body.args none ≡ none =
      verify-first hashes body.csum body.args
      ∙ (rw summed (verify-updated hashes body.args (Checksum.create kind))) in
    let same = type_eq_self body.csum.kind in
    let last : is_last body ≡ false = is_last-set body 0 cut refl in
    let got : handle_frame (part ∷ parts) false create ≡ (none, holding (part ∷ parts)) =
      frame-holding ([] ∷ []) (part ∷ parts) (omega arith) (omega arith) (omega (arith, small)) in
    rw (same, checked, last, split, got)

-- the frames of a request that takes more than one, and the request that the other side has when they
-- have come
abbrev pub IsTransferred : Bufrw → Hashes → ℕ → CallRequest → Bytes → Bytes → Bytes → Type 0
IsTransferred p hashes fuel req arg1 arg2 arg3 =
    (first : Bytes) × (call' : Body) × (received : CallRequest) × (next : Cont) × (frames : List
      Bytes)
    × (csum : Checksum.Checksum) × (write_call_req_into p hashes req max_body_size
        ≡ ok (first, record req { call = call' }))
    × (call'.cont ≡ some next)
    × (send_conts p hashes fuel call'.cont call'.csum ≡ ok (some (frames, csum)))
    × (read_call_req_from p first ≡ ok received)
    × (receive p hashes frames (handle_call_request hashes received.call)
        ≡ ok (delivered csum arg1 arg2 arg3))

-- what is begun of the second argument goes on in the continuation
split_rejoin :
    (sent more : List Bytes) (arg1 arg2 arg3 : Bytes)
    → 2 ≤ length sent
    → 0 < length more
    → rejoin sent more ≡ arg1 ∷ arg2 ∷ arg3 ∷ []
    → (part : Bytes) × (parts : List Bytes) × (sent ≡ arg1 ∷ part ∷ parts)
      × (length parts ≤ 1)
      × (rejoin (part ∷ parts) more ≡ arg2 ∷ arg3 ∷ [])
split_rejoin [] more arg1 arg2 arg3 h k e = let no : ⊥ = omega (arith, h) in elim no [ ]
split_rejoin (a ∷ []) more arg1 arg2 arg3 h k e = let no : ⊥ = omega (arith, h) in elim no [ ]
split_rejoin (a ∷ part ∷ parts) more arg1 arg2 arg3 h k e =
    let first : a ≡ arg1 = cc in
    let rest : rejoin (part ∷ parts) more ≡ arg2 ∷ arg3 ∷ [] = cc in
    let l : length (rejoin (part ∷ parts) more) ≡ 2 = ap length rest in
    (
      part,
      parts,
      ap (λ x. x ∷ part ∷ parts) first,
      omega (arith, l, k, rejoin-length (part ∷ parts) more (omega arith) k),
      rest,
    )

length-left_over : (args : List Bytes) (room : ℕ) → length (left_over args room) ≤ length args
length-left_over [] room = omega arith
length-left_over (arg ∷ args) room = elim (Bool-cases (leb (2 + length arg) room)) [
  | inl fits ↦ rw fits (omega (arith, length-left_over args (room - (2 + length arg))))
  | inr full ↦ rw full (omega arith)
]

-- where the first of three arguments fits, the second is begun
two_begun :
    (sent more args : List Bytes) (arg1 arg2 arg3 : Bytes) (room : ℕ)
    → rejoin sent more ≡ args
    → more ≡ left_over args room
    → args ≡ arg1 ∷ arg2 ∷ arg3 ∷ []
    → 2 + length arg1 ≤ room
    → 0 < length sent
    → 0 < length (left_over args room)
    → 2 ≤ length sent
two_begun sent more args arg1 arg2 arg3 room joined left three fits some_sent some_left =
    let le : leb (2 + length arg1) room ≡ true = ground (arith, fits) in
    let rest : left_over args room ≡ left_over (arg2 ∷ arg3 ∷ []) (room - (2 + length arg1)) =
      ap (λ l. left_over l room) three ∙ rw le in
    let l₁ : length more ≡ length (left_over args room) = ap length left in
    let l₂ : length (left_over args room)
        ≡ length (left_over (arg2 ∷ arg3 ∷ []) (room - (2 + length arg1))) =
      ap length rest in
    let l₃ = length-left_over (arg2 ∷ arg3 ∷ []) (room - (2 + length arg1)) in
    let l₄ : length (rejoin sent more) ≡ 3 = ap length (joined ∙ three) in
    omega (arith, l₁, l₂, l₃, l₄, rejoin-length sent more some_sent (omega (arith, l₁, some_left)))

loose_next :
    (fuel : ℕ) (args args' : List Bytes) (kind kind' : Checksum.ChecksumType)
    → args ≡ args'
    → kind ≡ kind'
    → IsLooseRun fuel args' (max_body_size - 1 - (1 + checksum_width kind'))
    → IsLooseRun fuel args (max_body_size - 1 - (1 + checksum_width kind))
loose_next fuel args args' kind kind' e k h = rw (e, k) h

module _ (p : Bufrw) (hashes : Hashes) (Stored : String → Type 0) (laws : Laws p Stored)
    (bounded : AreHashes hashes) where
  -- one frame and its continuation
  transfer :
      (req : CallRequest) (left fuel : ℕ) (arg1 arg2 arg3 first xs : Bytes) (call' : Body)
      (next : Cont) (kind : Checksum.ChecksumType)
      → IsCallRequest p Stored req
      → IsRequestFrame p hashes req max_body_size left first call'
      → IsFrame p hashes req.call left xs call'
      → req.call.csum ≡ Checksum.create kind
      → req.call.flags ≡ 0
      → req.call.args ≡ arg1 ∷ arg2 ∷ arg3 ∷ []
      → call'.cont ≡ some next
      → 2 ≤ length call'.args
      → weight next.args ≤ fuel
      → IsLooseRun fuel next.args (args_room (cont_body next call'.csum) (max_body_size - 1))
      → IsTransferred p hashes fuel req arg1 arg2 arg3
  transfer req left fuel arg1 arg2 arg3 first xs call' next kind good frame f fresh zero_flags three
        on begun enough loose =
      let some_args : 0 < length next.args = ltb→lt 0 (length next.args) (sym (rw on at f.whole)) in
      let joined : rejoin call'.args next.args ≡ arg1 ∷ arg2 ∷ arg3 ∷ [] =
        (rw on at f.joined) ∙ three in
      let (part, parts, split, small, rest) =
        split_rejoin call'.args next.args arg1 arg2 arg3 begun some_args joined in
      let flags : call'.flags ≡ set_fragment 0 =
        (rw on at f.flagged) ∙ ap set_fragment zero_flags in
      let summed : call'.csum ≡ updated hashes call'.args (Checksum.create kind) =
        f.summed ∙ ap (updated hashes call'.args) fresh in
      let body = read_body call'.flags (call'.csum, call'.args) in
      let begins = handle_first hashes kind body arg1 part parts summed flags split small in
      let good_csum : IsChecksum call'.csum =
        rw f.summed (updated-IsChecksum hashes bounded call'.args req.call.csum good.csum) in
      let (frames, csum, sent, got) =
        send_conts-receive p hashes Stored laws bounded fuel next call'.csum arg1 arg2 arg3
          (part ∷ parts) enough (f.cont_flags next on ∙ no_flag p hashes req.call.flags zero_flags)
          good_csum some_args loose (omega arith) rest in
      (
        first,
        call',
        record req { call = body },
        next,
        frames,
        csum,
        frame.written,
        on,
        rw on sent,
        frame.reads,
        rw begins got,
      )

  -- A whole request over several frames. Take a request that its fields can hold, with a new checksum, no
  -- fragment flag, and three arguments that do not fit the frame behind the fields in front of them,
  -- though the first one does; let no argument end where its frame has no room for
  -- the next size, and let there be as many rounds as there are bytes and sizes. Then all frames are
  -- written and read, each passes its checksum, and the request that they make on the other
  -- side has the three arguments, both streams complete.
  pub request-IsTransferred :
      (req : CallRequest) (n fuel : ℕ) (arg1 arg2 arg3 : Bytes) (kind : Checksum.ChecksumType)
      → IsCallRequest p Stored req
      → req_prefix_length p req ≡ ok n
      → n ≤ max_body_size
      → req.call.csum ≡ Checksum.create kind
      → req.call.flags ≡ 0
      → req.call.args ≡ arg1 ∷ arg2 ∷ arg3 ∷ []
      → IsCuttable req.call (max_body_size - n)
      → 2 + length arg1 ≤ args_room req.call (max_body_size - n)
      → 0 < length (left_over req.call.args (args_room req.call (max_body_size - n)))
      → weight (left_over req.call.args (args_room req.call (max_body_size - n))) ≤ fuel
      → IsLooseRun fuel
          (left_over req.call.args (args_room req.call (max_body_size - n)))
          (max_body_size - 1 - (1 + checksum_width kind))
      → IsTransferred p hashes fuel req arg1 arg2 arg3
  unfolding Checksum.create
  request-IsTransferred req n fuel arg1 arg2 arg3 kind good e fits fresh zero_flags three cuttable
        first_fits some_left enough loose =
      let (first, call', frame) =
        write_call_req_into-read p hashes Stored laws bounded req n max_body_size good e fits
          cuttable (omega arith) in
      let (xs, f) = frame.frame in
      let begun =
        two_begun call'.args (cont_args call'.cont) req.call.args arg1 arg2 arg3
          (args_room req.call (max_body_size - n)) f.joined f.left three first_fits f.some_sent
          some_left in
      let kind' : call'.csum.kind ≡ kind =
        (ap (λ c. c.kind) f.summed ∙ kind-updated hashes call'.args req.call.csum)
        ∙ ap (λ c. c.kind) fresh in
      elim (Option-cases call'.cont) [
        | inl ended ↦
            let nothing : left_over req.call.args (args_room req.call (max_body_size - n)) ≡ [] =
              sym f.left ∙ ap cont_args ended in
            let z : length (left_over req.call.args (args_room req.call (max_body_size - n))) ≡ 0 =
              ap length nothing in
            let no : ⊥ = omega (arith, z, some_left) in elim no [ ]
        | inr (next, on) ↦
            let left : next.args
                ≡ left_over req.call.args (args_room req.call (max_body_size - n)) =
              sym (ap cont_args on) ∙ f.left in
            transfer req (max_body_size - n) fuel arg1 arg2 arg3 first xs call' next kind good frame
              f fresh zero_flags three on begun (rw left enough)
              (loose_next fuel next.args _ call'.csum.kind kind left kind' loose)
      ]
