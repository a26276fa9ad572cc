-- ===== src/Node/V2/Rw.antt =====
-- What node/v2 uses of the bufrw package, which is not in the repository: the results of its readers
-- and writers, the interface of a reader and writer of one type, and what is documented of it.
-- A buffer that is read is the list of the bytes from the offset on, and what is written is the list
-- of the bytes that go in at the offset, given the room that is left in the buffer.
use tchannel.Prelude.{
  ℕ, ◌≤◌, ◌≡◌, refl, ◌++◌, length, List, String, Bool, true, false, if◌then◌else◌,
}

-- bufrw's own errors by their type, and those of node/errors.js that node/v2 returns, without the
-- offsets that some of them carry
pub data RwError : Type 0 where
  bufrw_error : String → RwError
  too_many_headers : ℕ → ℕ → RwError
  transport_header_too_long : ℕ → String → RwError
  invalid_header_type : String → String → RwError
  null_key : RwError
  duplicate_header_key : String → RwError
  invalid_ttl : ℕ → RwError
  invalid_frame_type : ℕ → RwError
  missing_init_header : String → RwError
  invalid_error_code : ℕ → RwError

pub data Result {ℓ} (A : Type ℓ) : Type ℓ where
  ok : A → Result A
  err : RwError → Result A

infixl 5 ◌>>=◌
abbrev pub ◌>>=◌ {ℓ κ} : {A : Type ℓ} {B : Type κ} → Result A → (A → Result B) → Result B
ok a >>= f = f a
err e >>= f = err e

abbrev pub Bytes : Type 0
Bytes = List ℕ

-- byteLength, writeInto and readFrom
pub record Rw (A : Type 0) : Type 0 where
  pub byte_length : A → Result ℕ
  pub write_into : A → ℕ → Result Bytes
  pub read_from : Bytes → Result (A × Bytes)

-- What a reader and writer is for: a value whose length fits the room is written, in as many bytes
-- as its length, and read back, whatever follows it. `Holds` are the values that it stands for.
pub record Lawful {A : Type 0} (rw : Rw A) (Holds : A → Type 0) : Type 0 where
  pub writes :
      (a : A) (n room : ℕ)
      → Holds a
      → rw.byte_length a ≡ ok n
      → n ≤ room
      → (bs : Bytes) × (rw.write_into a room ≡ ok bs)
  pub measures :
      (a : A) (room : ℕ) (bs : Bytes)
      → Holds a
      → rw.write_into a room ≡ ok bs
      → (rw.byte_length a ≡ ok (length bs)) × (length bs ≤ room)
  pub reads :
      (a : A) (room : ℕ) (bs rest : Bytes)
      → Holds a
      → rw.write_into a room ≡ ok bs
      → rw.read_from (bs ++ rest) ≡ ok (a, rest)

-- a chain that ends well had a first step that did
pub ok-bind {ℓ κ} :
    {A : Type ℓ} {B : Type κ} (r : Result A) (f : A → Result B) (b : B)
    → (r >>= f) ≡ ok b
    → (a : A) × (r ≡ ok a) × (f a ≡ ok b)
ok-bind (ok a) f b h = (a, refl, h)
ok-bind (err e) f b h = cc

-- what a test lets through with an error on its other branch
pub ok-unless {ℓ} :
    {A : Type ℓ} (c : Bool) (e : RwError) (r : Result A) (a : A)
    → (if c then err e else r) ≡ ok a
    → (c ≡ false) × (r ≡ ok a)
ok-unless true e r a h = cc
ok-unless false e r a h = (refl, h)
