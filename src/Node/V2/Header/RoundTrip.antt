-- ===== src/Node/V2/Header/RoundTrip.antt =====
-- Transport headers that are written are read back.
use tchannel.Prelude.{
  ℕ, suc, ◌-◌, ◌≡◌, refl, sym, inl, inr, String, true, false, [], ◌∷◌, ◌++◌, arith, contains,
  string_eq, nat_eq, is_some, Bool-cases, or_false, length, length-append, append_assoc, append_nil,
}
use tchannel.Prelude.Dict
use tchannel.Prelude.Dict.{Dict}
use tchannel.Node.V2.Rw.{Lawful, ok, Bytes}
use tchannel.Node.V2.Header.{
  HeaderRw, HeaderValue, text, other, exceeds, object_prototype, is_defined, write_value,
  write_pairs, write_into, read_pairs, read_from,
}
use tchannel.Node.V2.Header.Written.{write_pairs-cons, pair, write_into-Written, counted}

-- what is asked of the readers and writers that a HeaderRW is made of
pub record Laws (self : HeaderRw) (Counts : ℕ → Type 0) (Stored : String → Type 0) : Type 0 where
  pub counts : Lawful self.countrw Counts
  pub width : (n : ℕ) → Counts n → self.countrw.byte_length n ≡ ok self.count_width
  pub keys : Lawful self.keyrw Stored
  pub vals : Lawful self.valrw Stored

-- Object.keys gives each key once, and the reader refuses "" and what every object has
abbrev pub IsKey : String → Dict String HeaderValue → Type 0
IsKey key more =
    (string_eq.beq key "" ≡ false)
    × (contains object_prototype key ≡ false)
    × (contains (Dict.keys more) key ≡ false)

abbrev pub IsText : (String → Type 0) → HeaderValue → Type 0
IsText Stored (text s) = Stored s
IsText Stored (other t) = ⊥

-- headers that the reader takes: strings under proper keys
abbrev pub IsHeaders : (String → Type 0) → Dict String HeaderValue → Type 0
IsHeaders Stored [] = Unit
IsHeaders Stored ((key, value) ∷ more) =
    Stored key × IsText Stored value × IsKey key more × IsHeaders Stored more

abbrev pub string_of : HeaderValue → String
string_of (text s) = s
string_of (other t) = ""

abbrev pub strings : Dict String HeaderValue → Dict String String
strings = Dict.map_values (λ key value. string_of value)

-- no key that is still to come has been read
abbrev Apart : Dict String String → Dict String HeaderValue → Type 0
Apart read [] = Unit
Apart read ((key, value) ∷ more) = (is_some (Dict.get key read) ≡ false) × Apart read more

Apart-put :
    (read : Dict String String) (key s : String) (more : Dict String HeaderValue)
    → contains (Dict.keys more) key ≡ false
    → Apart read more
    → Apart (Dict.put key s read) more
unfolding Dict.keys
Apart-put read key s [] h a = tt
Apart-put read key s ((k, value) ∷ more) h a =
    let (other', h') = or_false (string_eq.beq k key) (contains (Dict.keys more) key) h in
    let apart : string_eq.beq key k ≡ false =
      ground (arith, string_eq.beq_iff k key, string_eq.beq_iff key k, other') in
    (rw (Dict.get-put k key s read, apart) a.0, Apart-put read key s more h' a.1)

put_new :
    (read : Dict String String) (key s : String)
    → is_some (Dict.get key read) ≡ false
    → Dict.put key s read ≡ read ++ (key, s) ∷ []
unfolding Dict.put Dict.get
put_new [] key s h = refl
put_new ((k, v) ∷ read) key s h = elim (Bool-cases (string_eq.beq k key)) [
  | inl same ↦ let no : true ≡ false = rw same at h in cc
  | inr other' ↦
      let h' : is_some (Dict.get key read) ≡ false = rw other' at h in
      rw (other', put_new read key s h')
]

Apart-nil : (headers : Dict String HeaderValue) → Apart [] headers
unfolding Dict.get
Apart-nil [] = tt
Apart-nil ((key, value) ∷ more) = (refl, Apart-nil more)

module _ (self : HeaderRw) (Counts : ℕ → Type 0) (Stored : String → Type 0)
    (laws : Laws self Counts Stored) where
  write_value-text :
      (key : String) (value : HeaderValue) (room : ℕ) (vs rest : Bytes)
      → IsText Stored value
      → write_value self key value room ≡ ok vs
      → self.valrw.read_from (vs ++ rest) ≡ ok (string_of value, rest)
  unfolding write_value
  write_value-text key (text s) room vs rest stored h = laws.vals.reads s room vs rest stored h
  write_value-text key (other t) room vs rest stored h = elim stored [ ]

  -- one round of the reader over what one pair was written as
  read_pair :
      (key s : String) (ks vs rest : Bytes) (n : ℕ) (read : Dict String String)
      → self.keyrw.read_from (ks ++ (vs ++ rest)) ≡ ok (key, vs ++ rest)
      → self.valrw.read_from (vs ++ rest) ≡ ok (s, rest)
      → exceeds (length ks) self.max_key_length ≡ false
      → string_eq.beq key "" ≡ false
      → is_defined read key ≡ false
      → read_pairs self (suc n) (ks ++ (vs ++ rest)) read
        ≡ read_pairs self n rest (Dict.put key s read)
  unfolding read_pairs
  read_pair key s ks vs rest n read hk hv small named new =
      let width : length (ks ++ (vs ++ rest)) - length (vs ++ rest) ≡ length ks =
        omega (arith, length-append ks (vs ++ rest)) in
      rw (hk, named, width, small, hv, new)

  read_pairs-written :
      (headers : Dict String HeaderValue) (room : ℕ) (bs rest : Bytes) (read : Dict String String)
      → IsHeaders Stored headers
      → Apart read headers
      → write_pairs self headers room ≡ ok bs
      → read_pairs self (length (Dict.keys headers)) (bs ++ rest) read
        ≡ ok (read ++ strings headers, rest)
  unfolding write_pairs read_pairs is_defined Dict.keys Dict.map_values
  read_pairs-written [] room bs rest read good apart h =
      let e : [] ≡ bs = cc in rw (sym e, append_nil read)
  read_pairs-written ((key, value) ∷ more) room bs rest read (stored, is_text, proper, good) apart
        h =
      elim (write_pairs-cons self key value more room bs h) [
        | pair ks vs rs hk small hv hr e ↦
            let s = string_of value in
            let q : bs ++ rest ≡ ks ++ (vs ++ (rs ++ rest)) =
              rw (e, append_assoc ks (vs ++ rs) rest, append_assoc vs rs rest) in
            let new : is_defined read key ≡ false = rw (apart.0, proper.1) in
            let round =
              read_pair key s ks vs (rs ++ rest) (length (Dict.keys more)) read
                (laws.keys.reads key room ks (vs ++ (rs ++ rest)) stored hk)
                (write_value-text key value (room - length ks) vs (rs ++ rest) is_text hv) small
                proper.0 new in
            let others =
              read_pairs-written more (room - length ks - length vs) rs rest (Dict.put key s read)
                good (Apart-put read key s more proper.2 apart.1) hr in
            rw (
              q,
              round,
              others,
              put_new read key s apart.0,
              append_assoc read ((key, s) ∷ []) (strings more),
            )
      ]

  -- Transport headers that writeInto has written, of proper keys and of string values, as many as the
  -- count can hold, are what readFrom gives, with the bytes behind them left.
  pub read_from-write_into :
      (headers : Dict String HeaderValue) (room : ℕ) (bs rest : Bytes)
      → Counts (length (Dict.keys headers))
      → IsHeaders Stored headers
      → write_into self headers room ≡ ok bs
      → read_from self (bs ++ rest) ≡ ok (strings headers, rest)
  unfolding read_from
  read_from-write_into headers room bs rest count good h =
      elim (write_into-Written self headers room bs h) [
        | counted cs rs few hc hr e ↦
            let n = length (Dict.keys headers) in
            let q : bs ++ rest ≡ cs ++ (rs ++ rest) = rw (e, append_assoc cs rs rest) in
            let first = laws.counts.reads n room cs (rs ++ rest) count hc in
            let pairs =
              read_pairs-written headers (room - length cs) rs rest [] good (Apart-nil headers)
                hr in
            rw (q, first, few, pairs)
      ]
