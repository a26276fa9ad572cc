-- ===== src/Node/V2/Checksum.antt =====
-- node/v2/checksum.js: the checksum of a call's arguments. The hash functions come from packages that
-- are not in the repository and are a parameter.
use tchannel.Prelude.{
  ℕ, ◌≡◌, refl, Bool, true, false, List, [], ◌∷◌, Option, none, some, ◌==◌, if◌then◌else◌,
  string_eq, nat_eq, beq_self, or_default,
}
use tchannel.Node.V2.Rw.{Bytes}

-- Checksum.Types
pub data ChecksumType : Type 0 where
  none_type crc32 farm32 crc32c : ChecksumType

abbrev pub type_eq : ChecksumType → ChecksumType → Bool
type_eq none_type none_type = true
type_eq crc32 crc32 = true
type_eq farm32 farm32 = true
type_eq crc32c crc32c = true
type_eq none_type crc32 = false
type_eq none_type farm32 = false
type_eq none_type crc32c = false
type_eq crc32 none_type = false
type_eq crc32 farm32 = false
type_eq crc32 crc32c = false
type_eq farm32 none_type = false
type_eq farm32 crc32 = false
type_eq farm32 crc32c = false
type_eq crc32c none_type = false
type_eq crc32c crc32 = false
type_eq crc32c farm32 = false

pub record Checksum : Type 0 where
  pub kind : ChecksumType
  pub val : ℕ

-- new Checksum(type), as objOrType gives it for a type
unfoldable pub create : ChecksumType → Checksum
create kind = record { kind = kind; val = 0 }

-- crc32 of the package crc, which takes an optional previous value, calculate of sse4_crc32 and
-- fingerprint32 of farmhash
pub record Hashes : Type 0 where
  pub crc32_of : Bytes → Option ℕ → ℕ
  pub crc32c_of : Bytes → ℕ → ℕ
  pub farm32_of : Bytes → ℕ → ℕ

pub record ChecksumError : Type 0 where
  pub checksum_type : ChecksumType
  pub expected_value : ℕ
  pub actual_value : ℕ

module _ (hashes : Hashes) where
  -- self._compute, by the type that the constructor saw
  unfoldable pub compute1 : ChecksumType → Bytes → ℕ → ℕ
  compute1 none_type arg prior = 0
  compute1 crc32 arg prior = hashes.crc32_of arg (if prior == 0 then none else some prior)
  compute1 farm32 arg prior = hashes.farm32_of arg prior
  compute1 crc32c arg prior = hashes.crc32c_of arg prior

  unfoldable pub compute_loop : ChecksumType → List Bytes → ℕ → ℕ
  compute_loop kind [] csum = csum
  compute_loop kind (arg ∷ args) csum = compute_loop kind args (compute1 kind arg csum)

  unfoldable pub compute : ChecksumType → List Bytes → Option ℕ → ℕ
  compute none_type args prior = 0
  compute crc32 args prior = compute_loop crc32 args (or_default 0 prior)
  compute farm32 args prior = compute_loop farm32 args (or_default 0 prior)
  compute crc32c args prior = compute_loop crc32c args (or_default 0 prior)

  unfoldable pub update1 : Bytes → ℕ → Checksum → Checksum
  update1 arg prior self = record self { val = compute1 self.kind arg prior }

  -- `none` for null
  unfoldable pub verify : Checksum → List Bytes → Option ℕ → Option ChecksumError
  verify self args prior =
      if type_eq self.kind none_type
      then none
      else let val = compute self.kind args prior in
        if val == self.val
        then none
        else some
            (record { checksum_type = self.kind; expected_value = self.val; actual_value = val })

  -- update1 over the arguments one after another, as writing them does
  abbrev pub updated : List Bytes → Checksum → Checksum
  updated [] csum = csum
  updated (arg ∷ args) csum = updated args (update1 arg csum.val csum)

  pub kind-updated : (args : List Bytes) (csum : Checksum) → (updated args csum).kind ≡ csum.kind
  unfolding update1
  kind-updated [] csum = refl
  kind-updated (arg ∷ args) csum = kind-updated args (update1 arg csum.val csum)

  val-updated :
      (args : List Bytes) (csum : Checksum)
      → (updated args csum).val ≡ compute_loop csum.kind args csum.val
  unfolding compute_loop update1
  val-updated [] csum = refl
  val-updated (arg ∷ args) csum = val-updated args (update1 arg csum.val csum)

  verify-kind :
      (kind : ChecksumType) (args : List Bytes) (csum done : Checksum)
      → csum.kind ≡ kind
      → done.kind ≡ kind
      → done.val ≡ compute_loop kind args csum.val
      → verify done args (some csum.val) ≡ none
  unfolding verify compute
  verify-kind none_type args csum done k d v = rw d
  verify-kind crc32 args csum done k d v = rw (d, v, beq_self (compute_loop crc32 args csum.val))
  verify-kind farm32 args csum done k d v = rw (d, v, beq_self (compute_loop farm32 args csum.val))
  verify-kind crc32c args csum done k d v = rw (d, v, beq_self (compute_loop crc32c args csum.val))

  -- A checksum that was updated argument by argument from a value verifies against the same arguments
  -- and the value that it had before them.
  pub verify-updated :
      (args : List Bytes) (csum : Checksum) → verify (updated args csum) args (some csum.val) ≡ none
  verify-updated args csum =
      verify-kind csum.kind args csum (updated args csum) refl (kind-updated args csum)
        (val-updated args csum)

  compute-first :
      (kind : ChecksumType) (args : List Bytes)
      → compute kind args none ≡ compute kind args (some 0)
  unfolding compute
  compute-first none_type args = refl
  compute-first crc32 args = refl
  compute-first farm32 args = refl
  compute-first crc32c args = refl

  -- the first frame has no value before it, and starts from 0
  pub verify-first :
      (self : Checksum) (args : List Bytes) → verify self args none ≡ verify self args (some 0)
  unfolding verify
  verify-first self args = rw (compute-first self.kind args)
