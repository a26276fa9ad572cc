-- ===== src/Node/V2/Header/Written.antt =====
-- What a write of transport headers that ends well has written, pair by pair.
use tchannel.Prelude.{ℕ, ◌-◌, ◌≡◌, String, false, ◌∷◌, ◌++◌, length}
use tchannel.Prelude.Dict
use tchannel.Prelude.Dict.{Dict}
use tchannel.Node.V2.Rw.{ok, Bytes, ok-bind, ok-unless}
use tchannel.Node.V2.Header.{HeaderRw, HeaderValue, exceeds, write_value, write_pairs, write_into}

-- what one pair puts in front of the others
pub data PairWritten (self : HeaderRw) (key : String) (value : HeaderValue)
    (more : Dict String HeaderValue) (room : ℕ) (bs : Bytes) : Type 0 where
  pair :
      (ks vs rest : Bytes)
      → self.keyrw.write_into key room ≡ ok ks
      → exceeds (length ks) self.max_key_length ≡ false
      → write_value self key value (room - length ks) ≡ ok vs
      → write_pairs self more (room - length ks - length vs) ≡ ok rest
      → bs ≡ ks ++ (vs ++ rest)
      → PairWritten self key value more room bs

pub write_pairs-cons :
    (self : HeaderRw) (key : String) (value : HeaderValue) (more : Dict String HeaderValue)
    (room : ℕ) (bs : Bytes)
    → write_pairs self ((key, value) ∷ more) room ≡ ok bs
    → PairWritten self key value more room bs
unfolding write_pairs
write_pairs-cons self key value more room bs h =
    let (ks, hk, h₁) = ok-bind (self.keyrw.write_into key room) _ bs h in
    let (small, h₂) = ok-unless (exceeds (length ks) self.max_key_length) _ _ bs h₁ in
    let (vs, hv, h₃) = ok-bind (write_value self key value (room - length ks)) _ bs h₂ in
    let (rest, hr, h₄) = ok-bind (write_pairs self more (room - length ks - length vs)) _ bs h₃ in
    let e : bs ≡ ks ++ (vs ++ rest) = cc in pair ks vs rest hk small hv hr e

-- the count and the pairs behind it
pub data Written (self : HeaderRw) (headers : Dict String HeaderValue) (room : ℕ) (bs : Bytes)
    : Type 0 where
  counted :
      (cs rest : Bytes)
      → exceeds (length (Dict.keys headers)) self.max_header_count ≡ false
      → self.countrw.write_into (length (Dict.keys headers)) room ≡ ok cs
      → write_pairs self headers (room - length cs) ≡ ok rest
      → bs ≡ cs ++ rest
      → Written self headers room bs

pub write_into-Written :
    (self : HeaderRw) (headers : Dict String HeaderValue) (room : ℕ) (bs : Bytes)
    → write_into self headers room ≡ ok bs
    → Written self headers room bs
unfolding write_into
write_into-Written self headers room bs h =
    let (few, h₁) =
      ok-unless (exceeds (length (Dict.keys headers)) self.max_header_count) _ _ bs h in
    let (cs, hc, h₂) =
      ok-bind (self.countrw.write_into (length (Dict.keys headers)) room) _ bs h₁ in
    let (rest, hr, h₃) = ok-bind (write_pairs self headers (room - length cs)) _ bs h₂ in
    let e : bs ≡ cs ++ rest = cc in counted cs rest few hc hr e
