-- ===== src/Node/V2/Header.antt =====
-- node/v2/header.js: transport headers, a count and as many pairs of a key and a value.
pub mod Written
pub mod Lengths
pub mod RoundTrip
use tchannel.Prelude.{
  ℕ, zero, suc, ◌+◌, ◌-◌, ◌*◌, ◌/◌, ◌%◌, ◌≤◌, ◌<◌, ◌≡◌, refl, sym, ap, ◌∙◌, ◌≢◌, ◌⊎◌, inl, inr, ◌↔◌,
  String, Bool, true, false, not, ◌&&◌, ◌||◌, List, [], ◌∷◌, ◌++◌, map, Option, none, some, arith,
  ltb, leb, ◌==◌, if◌then◌else◌, contains, string_eq, nat_eq, Eq, beq_self, is_some, or_default,
  Bool-cases, Option-cases, length, get_elem?, get_or, set, take, drop, replicate, All,
  length-append, append_assoc, append_nil, take-append-drop, drop-length-append, length-set,
  length-replicate, get_or-set, length-take, get_or-take, get_or-append, get_or-length,
}
use tchannel.Prelude.Dict
use tchannel.Prelude.Dict.{Dict}
use tchannel.Node.V2.Rw.{
  Rw, Result, ok, err, ◌>>=◌, Bytes, RwError, too_many_headers, transport_header_too_long,
  invalid_header_type, null_key, duplicate_header_key,
}

-- a value of a header as the program gives it: a string, or something else by its `typeof`
pub data HeaderValue : Type 0 where
  text : String → HeaderValue
  other : String → HeaderValue

-- `none` for the bound Infinity
abbrev pub exceeds : ℕ → Option ℕ → Bool
exceeds n none = false
exceeds n (some most) = ltb most n

-- what every `{}` has without being given it: `headers[key]` is not undefined for these either
abbrev pub object_prototype : List String
object_prototype =
    "constructor" ∷ "toString" ∷ "toLocaleString" ∷ "valueOf" ∷ "hasOwnProperty" ∷ "isPrototypeOf"
    ∷ "propertyIsEnumerable" ∷ "__defineGetter__" ∷ "__defineSetter__" ∷ "__lookupGetter__"
    ∷ "__lookupSetter__" ∷ "__proto__" ∷ []

-- headers[key] !== undefined
unfoldable pub is_defined : Dict String String → String → Bool
is_defined headers key = is_some (Dict.get key headers) || contains object_prototype key

pub record HeaderRw : Type 0 where
  pub countrw : Rw ℕ
  pub keyrw : Rw String
  pub valrw : Rw String
  -- valrw.byteLength of what is not a string
  pub other_length : String → Result ℕ
  -- countrw.width
  pub count_width : ℕ
  pub max_header_count : Option ℕ
  pub max_key_length : Option ℕ

module _ (self : HeaderRw) where
  unfoldable pub value_length : HeaderValue → Result ℕ
  value_length (text s) = self.valrw.byte_length s
  value_length (other t) = self.other_length t

  unfoldable pub pairs_length : Dict String HeaderValue → Result ℕ
  pairs_length [] = ok 0
  pairs_length ((key, value) ∷ more) = do
    n ← self.keyrw.byte_length key
    m ← value_length value
    if exceeds m self.max_key_length
        then err (transport_header_too_long (or_default 0 self.max_key_length) key)
        else do rest ← pairs_length more; ok (n + m + rest)

  unfoldable pub byte_length : Dict String HeaderValue → Result ℕ
  byte_length headers =
      let count = length (Dict.keys headers) in
      if exceeds count self.max_header_count
      then err (too_many_headers count (or_default 0 self.max_header_count))
      else do n ← pairs_length headers; ok (self.count_width + n)

  unfoldable pub write_value : String → HeaderValue → ℕ → Result Bytes
  write_value key (text s) room = self.valrw.write_into s room
  write_value key (other t) room = err (invalid_header_type key t)

  unfoldable pub write_pairs : Dict String HeaderValue → ℕ → Result Bytes
  write_pairs [] room = ok []
  write_pairs ((key, value) ∷ more) room = do
    ks ← self.keyrw.write_into key room
    if exceeds (length ks) self.max_key_length
        then err (transport_header_too_long (or_default 0 self.max_key_length) key)
        else do
          vs ← write_value key value (room - length ks)
          rest ← write_pairs more (room - length ks - length vs)
          ok (ks ++ (vs ++ rest))

  unfoldable pub write_into : Dict String HeaderValue → ℕ → Result Bytes
  write_into headers room =
      let count = length (Dict.keys headers) in
      let counted = self.countrw.write_into count room in
      if exceeds count self.max_header_count
      then err (too_many_headers count (or_default 0 self.max_header_count))
      else do cs ← counted; rest ← write_pairs headers (room - length cs); ok (cs ++ rest)

  -- the loop with its `n` rounds to go
  unfoldable pub read_pairs : ℕ → Bytes → Dict String String → Result (Dict String String × Bytes)
  read_pairs zero buffer headers = ok (headers, buffer)
  read_pairs (suc n) buffer headers = do
    (key, after) ← self.keyrw.read_from buffer
    if string_eq.beq key ""
        then err null_key
        else if exceeds (length buffer - length after) self.max_key_length
        then err (transport_header_too_long (or_default 0 self.max_key_length) key)
        else do
          (val, after') ← self.valrw.read_from after
          if is_defined headers key
              then err (duplicate_header_key key)
              else read_pairs n after' (Dict.put key val headers)

  unfoldable pub read_from : Bytes → Result (Dict String String × Bytes)
  read_from buffer = do
    (n, after) ← self.countrw.read_from buffer
    if exceeds n self.max_header_count
        then err (too_many_headers n (or_default 0 self.max_header_count))
        else read_pairs n after []
