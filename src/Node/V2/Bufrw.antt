-- ===== src/Node/V2/Bufrw.antt =====
-- The readers and writers of the bufrw package that node/v2 uses, as a parameter, and what is
-- documented of them.
use tchannel.Prelude.{
  ℕ, ◌+◌, ◌≤◌, ◌<◌, ◌≡◌, sym, ◌∙◌, String, arith, string_eq, nat_eq, length, drop,
}
use Prim.Native.Nat.{◌^◌}
use tchannel.Node.V2.Rw.{Rw, Lawful, Result, ok, Bytes}
use tchannel.Node.V2.Checksum.{Checksum, ChecksumType, none_type, crc32, farm32, crc32c}

pub record Bufrw : Type 0 where
  pub uint8 : Rw ℕ
  pub uint16be : Rw ℕ
  pub uint32be : Rw ℕ
  pub str1 : Rw String
  pub str2 : Rw String
  -- FixedWidth(8)
  pub fix8 : Rw Bytes
  -- VariableBuffer(UInt16BE)
  pub buffer2 : Rw Bytes
  -- Switch(UInt8, rwCases, {cons: Checksum, valKey: 'type', dataKey: 'val'})
  pub checksum : Rw Checksum
  -- the length that str1 and str2 give for what is not a string
  pub other_length : String → Result ℕ

-- bufrw.Null has no bytes, bufrw.UInt32BE four
abbrev pub checksum_width : ChecksumType → ℕ
checksum_width none_type = 0
checksum_width crc32 = 4
checksum_width farm32 = 4
checksum_width crc32c = 4

-- what the four bytes of a checksum hold, or no bytes
abbrev pub IsChecksum : Checksum → Type 0
IsChecksum csum = (csum.val < 2 ^ 32) × (csum.kind ≡ none_type → csum.val ≡ 0)

-- `Stored` are the strings that UTF-8 keeps.
pub record Laws (p : Bufrw) (Stored : String → Type 0) : Type 0 where
  pub uint8 : Lawful p.uint8 (λ n. n < 256)
  pub uint8_width : (n : ℕ) → n < 256 → p.uint8.byte_length n ≡ ok 1
  pub uint16be : Lawful p.uint16be (λ n. n < 65536)
  pub uint16be_width : (n : ℕ) → n < 65536 → p.uint16be.byte_length n ≡ ok 2
  pub uint32be : Lawful p.uint32be (λ n. n < 2 ^ 32)
  pub uint32be_width : (n : ℕ) → n < 2 ^ 32 → p.uint32be.byte_length n ≡ ok 4
  pub str1 : Lawful p.str1 Stored
  pub str2 : Lawful p.str2 Stored
  pub fix8 : Lawful p.fix8 (λ b. length b ≡ 8)
  pub fix8_width : (b : Bytes) → length b ≡ 8 → p.fix8.byte_length b ≡ ok 8
  pub buffer2 : Lawful p.buffer2 (λ b. length b < 65536)
  pub buffer2_width : (b : Bytes) → length b < 65536 → p.buffer2.byte_length b ≡ ok (2 + length b)
  pub buffer2_bytes :
      (b : Bytes) (room : ℕ) (bs : Bytes)
      → length b < 65536
      → p.buffer2.write_into b room ≡ ok bs
      → drop 2 bs ≡ b
  pub checksum : Lawful p.checksum IsChecksum
  pub checksum_length :
      (csum : Checksum) → p.checksum.byte_length csum ≡ ok (1 + checksum_width csum.kind)

-- a value of a known width is written in that many bytes
pub width-written :
    {A : Type 0} {rw : Rw A} {Holds : A → Type 0} (laws : Lawful rw Holds) (a : A) (n room : ℕ)
    (bs : Bytes)
    → Holds a
    → rw.byte_length a ≡ ok n
    → rw.write_into a room ≡ ok bs
    → (length bs ≡ n) × (n ≤ room)
width-written laws a n room bs h l w =
    let (measured, fits) = laws.measures a room bs h w in
    let q : ok (length bs) ≡ ok n = sym measured ∙ l in
    let e : length bs ≡ n = cc in (e, omega (arith, fits, e))

-- and it is written where there is room
pub width-fits :
    {A : Type 0} {rw : Rw A} {Holds : A → Type 0} (laws : Lawful rw Holds) (a : A) (n room : ℕ)
    → Holds a
    → rw.byte_length a ≡ ok n
    → n ≤ room
    → (bs : Bytes) × (rw.write_into a room ≡ ok bs) × (length bs ≡ n)
width-fits laws a n room h l fits =
    let (bs, w) = laws.writes a n room h l fits in (bs, w, (width-written laws a n room bs h l w).0)
