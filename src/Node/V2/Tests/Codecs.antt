-- ===== src/Node/V2/Tests/Codecs.antt =====
-- Readers and writers of bytes in network order that have the laws which the codec asks of bufrw.
use tchannel.Prelude.{
  ℕ, ◌+◌, ◌*◌, ◌/◌, ◌%◌, ◌≤◌, ◌<◌, ◌≡◌, refl, ap, inl, inr, String, true, [], ◌∷◌, ◌++◌, arith, ltb,
  leb, ◌==◌, if◌then◌else◌, string_eq, nat_eq, or_default, Bool-cases, length, take, drop,
  length-append, drop-length-append,
}
use Prim.Native.Nat.{◌^◌}
use tchannel.Node.V2.Rw.{Rw, RwError, bufrw_error, Lawful, Result, ok, err, ◌>>=◌, Bytes}
use tchannel.Node.V2.Checksum.{Checksum, ChecksumType, none_type, crc32, farm32, crc32c, Hashes}
use tchannel.Node.V2.Args.RoundTrip.{AreHashes}
use tchannel.Node.V2.Bufrw.{Bufrw, Laws, IsChecksum, checksum_width}

short : RwError
short = bufrw_error "bufrw.short-buffer"

-- what is written is `enc a` where it fits
abbrev pub codec : {A : Type 0} → (A → Bytes) → (Bytes → Result (A × Bytes)) → Rw A
codec enc dec = record {
  byte_length = λ a. ok (length (enc a));
  write_into = λ a room.
      if leb (length (enc a)) room then ok (enc a) else err (bufrw_error "bufrw.short-buffer");
  read_from = dec;
}

codec-written :
    {A : Type 0} (enc : A → Bytes) (dec : Bytes → Result (A × Bytes)) (a : A) (room : ℕ)
    (bs : Bytes)
    → (codec enc dec).write_into a room ≡ ok bs
    → (enc a ≡ bs) × (length (enc a) ≤ room)
codec-written enc dec a room bs h = elim (Bool-cases (leb (length (enc a)) room)) [
  | inl fits ↦
      let q : ok (enc a) ≡ ok bs = rw fits at h in
      let e : enc a ≡ bs = cc in (e, ground (arith, fits))
  | inr full ↦ let q : err (bufrw_error "bufrw.short-buffer") ≡ ok bs = rw full at h in cc
]

pub codec-Lawful :
    {A : Type 0} (enc : A → Bytes) (dec : Bytes → Result (A × Bytes)) (Holds : A → Type 0)
    → ((a : A) (rest : Bytes) → Holds a → dec (enc a ++ rest) ≡ ok (a, rest))
    → Lawful (codec enc dec) Holds
codec-Lawful enc dec Holds back = record {
  writes = λ a n room h l fits.
      let e : length (enc a) ≡ n = cc in
      let le : leb (length (enc a)) room ≡ true = ground (arith, e, fits) in (enc a, rw le);
  measures =
      λ a room bs h w. let (e, fits) = codec-written enc dec a room bs w in (rw e, rw e at fits);
  reads = λ a room bs rest h w.
      let (e, fits) = codec-written enc dec a room bs w in rw⁻¹ e (back a rest h);
}

abbrev be8 : ℕ → Bytes
be8 n = n ∷ []

abbrev of_be8 : Bytes → Result (ℕ × Bytes)
of_be8 [] = err (bufrw_error "bufrw.short-read")
of_be8 (a ∷ rest) = ok (a, rest)

abbrev be16 : ℕ → Bytes
be16 n = n / 256 ∷ n % 256 ∷ []

abbrev of_be16 : Bytes → Result (ℕ × Bytes)
of_be16 [] = err (bufrw_error "bufrw.short-read")
of_be16 (a ∷ []) = err (bufrw_error "bufrw.short-read")
of_be16 (a ∷ b ∷ rest) = ok (a * 256 + b, rest)

be16-read : (n : ℕ) (rest : Bytes) → of_be16 (be16 n ++ rest) ≡ ok (n, rest)
be16-read n rest = let e : n / 256 * 256 + n % 256 ≡ n = omega arith in rw e

abbrev be32 : ℕ → Bytes
be32 n = be16 (n / 65536) ++ be16 (n % 65536)

abbrev of_be32 : Bytes → Result (ℕ × Bytes)
of_be32 bs = do (a, rest) ← of_be16 bs; (b, rest') ← of_be16 rest; ok (a * 65536 + b, rest')

halves : (n : ℕ) → n / 65536 / 256 * 256 + n / 65536 % 256 ≡ n / 65536
halves n = omega arith

halves_low : (n : ℕ) → n % 65536 / 256 * 256 + n % 65536 % 256 ≡ n % 65536
halves_low n = omega arith

halves_both : (n : ℕ) → n / 65536 * 65536 + n % 65536 ≡ n
halves_both n = omega arith

be32-read : (n : ℕ) (rest : Bytes) → of_be32 (be32 n ++ rest) ≡ ok (n, rest)
be32-read n rest = rw (halves n, halves_low n, halves_both n)

abbrev of_fixed : ℕ → Bytes → Result (Bytes × Bytes)
of_fixed n bs =
    if leb n (length bs) then ok (take n bs, drop n bs) else err (bufrw_error "bufrw.short-read")

take-length-append : (xs ys : Bytes) → take (length xs) (xs ++ ys) ≡ xs
take-length-append [] ys = refl
take-length-append (x ∷ xs) ys = ap (λ l. x ∷ l) (take-length-append xs ys)

fixed-read : (b rest : Bytes) → of_fixed (length b) (b ++ rest) ≡ ok (b, rest)
fixed-read b rest =
    let le : leb (length b) (length (b ++ rest)) ≡ true = ground (arith, length-append b rest) in
    rw (le, take-length-append b rest, drop-length-append b rest)

fix8-read : (b rest : Bytes) → length b ≡ 8 → of_fixed 8 (b ++ rest) ≡ ok (b, rest)
fix8-read b rest h = rw⁻¹ h (fixed-read b rest)

abbrev buffer2 : Bytes → Bytes
buffer2 b = be16 (length b) ++ b

abbrev of_buffer2 : Bytes → Result (Bytes × Bytes)
of_buffer2 bs = do (n, rest) ← of_be16 bs; of_fixed n rest

buffer2-read : (b rest : Bytes) → of_buffer2 (buffer2 b ++ rest) ≡ ok (b, rest)
buffer2-read b rest =
    let e : length b / 256 * 256 + length b % 256 ≡ length b = omega arith in
    rw (e, fixed-read b rest)

-- the strings of the examples
pub data IsName : String → Type 0 where
  cn : IsName "cn"
  caller : IsName "caller"
  service : IsName "service"

-- a size and the UTF-8 of these strings
abbrev utf8 : String → Bytes
utf8 s =
    if string_eq.beq s "cn"
    then 99 ∷ 110 ∷ []
    else if string_eq.beq s "caller"
    then 99 ∷ 97 ∷ 108 ∷ 108 ∷ 101 ∷ 114 ∷ []
    else 115 ∷ 101 ∷ 114 ∷ 118 ∷ 105 ∷ 99 ∷ 101 ∷ []

abbrev of_utf8 : Bytes → Result String
of_utf8 bs =
    if leb (length bs) 2 then ok "cn" else if leb (length bs) 6 then ok "caller" else ok "service"

abbrev str1 : String → Bytes
str1 s = length (utf8 s) ∷ utf8 s

abbrev of_str1 : Bytes → Result (String × Bytes)
of_str1 bs = do (n, rest) ← of_be8 bs; (u, rest') ← of_fixed n rest; s ← of_utf8 u; ok (s, rest')

name-utf8 : (s : String) → IsName s → of_utf8 (utf8 s) ≡ ok s
name-utf8 _ cn = refl
name-utf8 _ caller = refl
name-utf8 _ service = refl

str1-read : (s : String) (rest : Bytes) → IsName s → of_str1 (str1 s ++ rest) ≡ ok (s, rest)
str1-read s rest h = rw (fixed-read (utf8 s) rest, name-utf8 s h)

abbrev checksum_bytes : Checksum → Bytes
checksum_bytes csum = elim csum.kind [
  | none_type ↦ 0 ∷ []
  | crc32 ↦ 1 ∷ be32 csum.val
  | farm32 ↦ 2 ∷ be32 csum.val
  | crc32c ↦ 3 ∷ be32 csum.val
]

abbrev of_kind : ℕ → Bytes → Result (Checksum × Bytes)
of_kind n rest =
    if n == 0
    then ok (record { kind = none_type; val = 0 }, rest)
    else if ltb 3 n
    then err (bufrw_error "bufrw.invalid-switch-value")
    else do
      (v, rest') ← of_be32 rest
      ok (
        record { kind = if n == 1 then crc32 else if n == 2 then farm32 else crc32c; val = v },
        rest',
      )

abbrev of_checksum : Bytes → Result (Checksum × Bytes)
of_checksum bs = do (n, rest) ← of_be8 bs; of_kind n rest

kind-read :
    (kind : ChecksumType) (val : ℕ) (rest : Bytes)
    → (kind ≡ none_type → val ≡ 0)
    → of_checksum (checksum_bytes (record { kind = kind; val = val }) ++ rest)
      ≡ ok (record { kind = kind; val = val }, rest)
kind-read none_type val rest h = rw (h refl)
kind-read crc32 val rest h = rw (halves val, halves_low val, halves_both val)
kind-read farm32 val rest h = rw (halves val, halves_low val, halves_both val)
kind-read crc32c val rest h = rw (halves val, halves_low val, halves_both val)

kind-length :
    (kind : ChecksumType) (val : ℕ)
    → length (checksum_bytes (record { kind = kind; val = val })) ≡ 1 + checksum_width kind
kind-length none_type val = refl
kind-length crc32 val = refl
kind-length farm32 val = refl
kind-length crc32c val = refl

abbrev pub bufrw : Bufrw
bufrw = record {
  uint8 = codec be8 of_be8;
  uint16be = codec be16 of_be16;
  uint32be = codec be32 of_be32;
  str1 = codec str1 of_str1;
  str2 = codec str1 of_str1;
  fix8 = codec (λ b. b) (of_fixed 8);
  buffer2 = codec buffer2 of_buffer2;
  checksum = codec checksum_bytes of_checksum;
  other_length = λ t. err (bufrw_error "bufrw.invalid-argument");
}

buffer2-bytes :
    (b : Bytes) (room : ℕ) (bs : Bytes) → bufrw.buffer2.write_into b room ≡ ok bs → drop 2 bs ≡ b
buffer2-bytes b room bs w = rw⁻¹ (codec-written buffer2 of_buffer2 b room bs w).0 refl

pub bufrw-Laws : Laws bufrw IsName
bufrw-Laws = record {
  uint8 = codec-Lawful be8 of_be8 (λ n. n < 256) (λ a rest h. refl);
  uint8_width = λ n h. refl;
  uint16be = codec-Lawful be16 of_be16 (λ n. n < 65536) (λ a rest h. be16-read a rest);
  uint16be_width = λ n h. refl;
  uint32be = codec-Lawful be32 of_be32 (λ n. n < 2 ^ 32) (λ a rest h. be32-read a rest);
  uint32be_width = λ n h. refl;
  str1 = codec-Lawful str1 of_str1 IsName str1-read;
  str2 = codec-Lawful str1 of_str1 IsName str1-read;
  fix8 = codec-Lawful (λ b. b) (of_fixed 8) (λ b. length b ≡ 8) fix8-read;
  fix8_width = λ b h. ap ok h;
  buffer2 =
      codec-Lawful buffer2 of_buffer2 (λ b. length b < 65536) (λ b rest h. buffer2-read b rest);
  buffer2_width = λ b h. ap ok (omega arith);
  buffer2_bytes = λ b room bs h w. buffer2-bytes b room bs w;
  checksum =
      codec-Lawful checksum_bytes of_checksum IsChecksum
        (λ csum rest h. kind-read csum.kind csum.val rest h.1);
  checksum_length = λ csum. ap ok (kind-length csum.kind csum.val);
}

-- sums in place of the packages' hashes
abbrev sum : Bytes → ℕ → ℕ
sum [] prior = prior
sum (b ∷ bs) prior = sum bs ((prior + b) % 2 ^ 32)

abbrev hash : Bytes → ℕ → ℕ
hash arg prior = sum arg prior % 2 ^ 32

abbrev pub hashes : Hashes
hashes = record {
  crc32_of = λ arg prior. hash arg (or_default 0 prior);
  crc32c_of = hash;
  farm32_of = hash;
}

pub hashes-AreHashes : AreHashes hashes
hashes-AreHashes = (λ arg prior. omega arith, λ arg prior. omega arith, λ arg prior. omega arith)
