-- ===== src/Node/V2/Tracing.antt =====
-- node/v2/tracing.js: the three identifiers and the flags of a call's trace.
use tchannel.Prelude.{
  ℕ, ◌+◌, ◌-◌, ◌≤◌, ◌<◌, ◌≡◌, String, ◌++◌, arith, string_eq, nat_eq, length, length-append,
  append_assoc,
}
use tchannel.Node.V2.Rw.{Rw, Lawful, Result, ok, ◌>>=◌, Bytes, ok-bind}
use tchannel.Node.V2.Bufrw.{Bufrw, Laws, width-written, width-fits}

pub record Tracing : Type 0 where
  pub spanid : Bytes
  pub parentid : Bytes
  pub traceid : Bytes
  pub flags : ℕ

-- three FixedWidth(8) and a UInt8
abbrev pub IsTracing : Tracing → Type 0
IsTracing t =
    (length t.spanid ≡ 8) × (length t.parentid ≡ 8) × (length t.traceid ≡ 8) × (t.flags < 256)

unfoldable pub tracing_byte_length : Tracing → Result ℕ
tracing_byte_length t = ok (8 + 8 + 8 + 1)

module _ (p : Bufrw) where
  unfoldable pub write_tracing_into : Tracing → ℕ → Result Bytes
  write_tracing_into tracing room = do
    span ← p.fix8.write_into tracing.spanid room
    parent ← p.fix8.write_into tracing.parentid (room - length span)
    trace ← p.fix8.write_into tracing.traceid (room - length span - length parent)
    flags ← p.uint8.write_into tracing.flags (room - length span - length parent - length trace)
    ok (span ++ (parent ++ (trace ++ flags)))

  unfoldable pub read_tracing_from : Bytes → Result (Tracing × Bytes)
  read_tracing_from buffer = do
    (span, b₁) ← p.fix8.read_from buffer
    (parent, b₂) ← p.fix8.read_from b₁
    (trace, b₃) ← p.fix8.read_from b₂
    (flags, b₄) ← p.uint8.read_from b₃
    ok (record { spanid = span; parentid = parent; traceid = trace; flags = flags }, b₄)

  -- Tracing.RW
  abbrev pub tracing_rw : Rw Tracing
  tracing_rw = record {
    byte_length = tracing_byte_length;
    write_into = write_tracing_into;
    read_from = read_tracing_from;
  }

-- the four fields as they were written
data TracingWritten (p : Bufrw) (t : Tracing) (room : ℕ) (bs : Bytes) : Type 0 where
  fields :
      (span parent trace flags : Bytes)
      → p.fix8.write_into t.spanid room ≡ ok span
      → p.fix8.write_into t.parentid (room - length span) ≡ ok parent
      → p.fix8.write_into t.traceid (room - length span - length parent) ≡ ok trace
      → p.uint8.write_into t.flags (room - length span - length parent - length trace) ≡ ok flags
      → bs ≡ span ++ (parent ++ (trace ++ flags))
      → TracingWritten p t room bs

write_tracing_into-TracingWritten :
    (p : Bufrw) (t : Tracing) (room : ℕ) (bs : Bytes)
    → write_tracing_into p t room ≡ ok bs
    → TracingWritten p t room bs
unfolding write_tracing_into
write_tracing_into-TracingWritten p t room bs h =
    let (span, w₁, h₁) = ok-bind (p.fix8.write_into t.spanid room) _ bs h in
    let (parent, w₂, h₂) = ok-bind (p.fix8.write_into t.parentid (room - length span)) _ bs h₁ in
    let (trace, w₃, h₃) =
      ok-bind (p.fix8.write_into t.traceid (room - length span - length parent)) _ bs h₂ in
    let (flags, w₄, h₄) =
      ok-bind (p.uint8.write_into t.flags (room - length span - length parent - length trace)) _ bs
        h₃ in
    let e : bs ≡ span ++ (parent ++ (trace ++ flags)) = cc in
    fields span parent trace flags w₁ w₂ w₃ w₄ e

write_tracing_into-ok :
    (p : Bufrw) (t : Tracing) (room : ℕ) (span parent trace flags : Bytes)
    → p.fix8.write_into t.spanid room ≡ ok span
    → p.fix8.write_into t.parentid (room - length span) ≡ ok parent
    → p.fix8.write_into t.traceid (room - length span - length parent) ≡ ok trace
    → p.uint8.write_into t.flags (room - length span - length parent - length trace) ≡ ok flags
    → write_tracing_into p t room ≡ ok (span ++ (parent ++ (trace ++ flags)))
unfolding write_tracing_into
write_tracing_into-ok p t room span parent trace flags w₁ w₂ w₃ w₄ = rw (w₁, w₂, w₃, w₄)

module _ (p : Bufrw) (Stored : String → Type 0) (laws : Laws p Stored) where
  tracing-writes :
      (t : Tracing) (n room : ℕ)
      → IsTracing t
      → tracing_byte_length t ≡ ok n
      → n ≤ room
      → (bs : Bytes) × (write_tracing_into p t room ≡ ok bs)
  unfolding tracing_byte_length
  tracing-writes t n room (i₁, i₂, i₃, i₄) l fits =
      let e : 25 ≡ n = cc in
      let (span, w₁, l₁) =
        width-fits laws.fix8 t.spanid 8 room i₁ (laws.fix8_width t.spanid i₁)
          (omega (arith, e, fits)) in
      let (parent, w₂, l₂) =
        width-fits laws.fix8 t.parentid 8 (room - length span) i₂ (laws.fix8_width t.parentid i₂)
          (omega (arith, e, fits, l₁)) in
      let (trace, w₃, l₃) =
        width-fits laws.fix8 t.traceid 8 (room - length span - length parent) i₃
          (laws.fix8_width t.traceid i₃) (omega (arith, e, fits, l₁, l₂)) in
      let (flags, w₄, l₄) =
        width-fits laws.uint8 t.flags 1 (room - length span - length parent - length trace) i₄
          (laws.uint8_width t.flags i₄) (omega (arith, e, fits, l₁, l₂, l₃)) in
      (
        span ++ (parent ++ (trace ++ flags)),
        write_tracing_into-ok p t room span parent trace flags w₁ w₂ w₃ w₄,
      )

  tracing-measures :
      (t : Tracing) (room : ℕ) (bs : Bytes)
      → IsTracing t
      → write_tracing_into p t room ≡ ok bs
      → (tracing_byte_length t ≡ ok (length bs)) × (length bs ≤ room)
  unfolding tracing_byte_length
  tracing-measures t room bs (i₁, i₂, i₃, i₄) h =
      elim (write_tracing_into-TracingWritten p t room bs h) [
        | fields span parent trace flags w₁ w₂ w₃ w₄ e ↦
            let f₁ =
              width-written laws.fix8 t.spanid 8 room span i₁ (laws.fix8_width t.spanid i₁) w₁ in
            let f₂ =
              width-written laws.fix8 t.parentid 8 (room - length span) parent i₂
                (laws.fix8_width t.parentid i₂) w₂ in
            let f₃ =
              width-written laws.fix8 t.traceid 8 (room - length span - length parent) trace i₃
                (laws.fix8_width t.traceid i₃) w₃ in
            let f₄ =
              width-written laws.uint8 t.flags 1 (room - length span - length parent - length trace)
                flags i₄ (laws.uint8_width t.flags i₄) w₄ in
            let l : length bs ≡ 25 = rw e (
              omega (
                arith,
                length-append span (parent ++ (trace ++ flags)),
                length-append parent (trace ++ flags),
                length-append trace flags,
                f₁.0,
                f₂.0,
                f₃.0,
                f₄.0,
              )) in
            let fits : length bs ≤ room =
              omega (arith, l, f₁.0, f₂.0, f₃.0, f₁.1, f₂.1, f₃.1, f₄.1) in
            (rw l, fits)
      ]

  tracing-reads :
      (t : Tracing) (room : ℕ) (bs rest : Bytes)
      → IsTracing t
      → write_tracing_into p t room ≡ ok bs
      → read_tracing_from p (bs ++ rest) ≡ ok (t, rest)
  unfolding read_tracing_from
  tracing-reads t room bs rest (i₁, i₂, i₃, i₄) h =
      elim (write_tracing_into-TracingWritten p t room bs h) [
        | fields span parent trace flags w₁ w₂ w₃ w₄ e ↦
            let q : bs ++ rest ≡ span ++ (parent ++ (trace ++ (flags ++ rest))) = rw (
              e,
              append_assoc span (parent ++ (trace ++ flags)) rest,
              append_assoc parent (trace ++ flags) rest,
              append_assoc trace flags rest,
            ) in
            let r₁ =
              laws.fix8.reads t.spanid room span (parent ++ (trace ++ (flags ++ rest))) i₁ w₁ in
            let r₂ =
              laws.fix8.reads t.parentid (room - length span) parent (trace ++ (flags ++ rest)) i₂
                w₂ in
            let r₃ =
              laws.fix8.reads t.traceid (room - length span - length parent) trace (flags ++ rest)
                i₃ w₃ in
            let r₄ =
              laws.uint8.reads t.flags (room - length span - length parent - length trace) flags
                rest i₄ w₄ in
            rw (q, r₁, r₂, r₃, r₄)
      ]

  -- Tracing.RW writes 25 bytes where they fit, and reads back what it has written.
  pub tracing_rw-Lawful : Lawful (tracing_rw p) IsTracing
  tracing_rw-Lawful = record {
    writes = tracing-writes;
    measures = tracing-measures;
    reads = tracing-reads;
  }
