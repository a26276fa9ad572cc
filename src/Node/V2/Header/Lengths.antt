-- ===== src/Node/V2/Header/Lengths.antt =====
-- The length of transport headers and the room that writing them takes.
use tchannel.Prelude.{
  ℕ, ◌+◌, ◌-◌, ◌≤◌, ◌≡◌, refl, sym, ◌∙◌, String, false, [], ◌∷◌, ◌++◌, arith, string_eq, nat_eq,
  length, length-append,
}
use tchannel.Prelude.Dict
use tchannel.Prelude.Dict.{Dict}
use tchannel.Node.V2.Rw.{ok, Bytes, ok-bind, ok-unless}
use tchannel.Node.V2.Header.{
  HeaderRw, HeaderValue, text, other, exceeds, value_length, pairs_length, byte_length, write_value,
  write_pairs, write_into,
}
use tchannel.Node.V2.Header.RoundTrip.{Laws, IsText, IsHeaders}

-- each key is short enough for writeInto, which byteLength does not look at
abbrev pub HasShortKeys : HeaderRw → Dict String HeaderValue → Type 0
HasShortKeys self [] = Unit
HasShortKeys self ((key, value) ∷ more) =
    ((n : ℕ) → self.keyrw.byte_length key ≡ ok n → exceeds n self.max_key_length ≡ false)
    × HasShortKeys self more

pub data PairLength (self : HeaderRw) (key : String) (value : HeaderValue)
    (more : Dict String HeaderValue) (n : ℕ) : Type 0 where
  pair_length :
      (k v m : ℕ)
      → self.keyrw.byte_length key ≡ ok k
      → value_length self value ≡ ok v
      → pairs_length self more ≡ ok m
      → n ≡ k + v + m
      → PairLength self key value more n

pairs_length-cons :
    (self : HeaderRw) (key : String) (value : HeaderValue) (more : Dict String HeaderValue) (n : ℕ)
    → pairs_length self ((key, value) ∷ more) ≡ ok n
    → PairLength self key value more n
unfolding pairs_length
pairs_length-cons self key value more n h =
    let (k, hk, h₁) = ok-bind (self.keyrw.byte_length key) _ n h in
    let (v, hv, h₂) = ok-bind (value_length self value) _ n h₁ in
    let (small, h₃) = ok-unless (exceeds v self.max_key_length) _ _ n h₂ in
    let (m, hm, h₄) = ok-bind (pairs_length self more) _ n h₃ in
    let e : n ≡ k + v + m = cc in pair_length k v m hk hv hm e

write_into-ok :
    (self : HeaderRw) (headers : Dict String HeaderValue) (room : ℕ) (cs rs : Bytes)
    → exceeds (length (Dict.keys headers)) self.max_header_count ≡ false
    → self.countrw.write_into (length (Dict.keys headers)) room ≡ ok cs
    → write_pairs self headers (room - length cs) ≡ ok rs
    → write_into self headers room ≡ ok (cs ++ rs)
unfolding write_into
write_into-ok self headers room cs rs few wc wr = rw (few, wc, wr)

module _ (self : HeaderRw) (Counts : ℕ → Type 0) (Stored : String → Type 0)
    (laws : Laws self Counts Stored) where
  -- a value of known length is written where it fits
  write_value-fits :
      (key : String) (value : HeaderValue) (n room : ℕ)
      → IsText Stored value
      → value_length self value ≡ ok n
      → n ≤ room
      → (vs : Bytes) × (write_value self key value room ≡ ok vs) × (length vs ≡ n)
  unfolding write_value value_length
  write_value-fits key (text s) n room stored h fits =
      let (vs, hv) = laws.vals.writes s n room stored h fits in
      let e : ok (length vs) ≡ ok n = sym (laws.vals.measures s room vs stored hv).0 ∙ h in
      let e' : length vs ≡ n = cc in (vs, hv, e')
  write_value-fits key (other t) n room stored h fits = elim stored [ ]

  pub write_pairs-fits :
      (headers : Dict String HeaderValue) (n room : ℕ)
      → IsHeaders Stored headers
      → HasShortKeys self headers
      → pairs_length self headers ≡ ok n
      → n ≤ room
      → (bs : Bytes) × (write_pairs self headers room ≡ ok bs) × (length bs ≡ n)
  unfolding write_pairs pairs_length
  write_pairs-fits [] n room good short h fits = let e : 0 ≡ n = cc in ([], refl, e)
  write_pairs-fits ((key, value) ∷ more) n room (stored, is_text, proper, good) short h fits =
      elim (pairs_length-cons self key value more n h) [
        | pair_length k v m hk hv hm e ↦
            let (ks, wk) = laws.keys.writes key k room stored hk (omega (arith, e, fits)) in
            let q : ok (length ks) ≡ ok k = sym (laws.keys.measures key room ks stored wk).0 ∙ hk in
            let lk : length ks ≡ k = cc in
            let (vs, wv, lv) =
              write_value-fits key value v (room - length ks) is_text hv
                (omega (arith, e, fits, lk)) in
            let (rs, wr, lr) =
              write_pairs-fits more m (room - length ks - length vs) good short.1 hm
                (omega (arith, e, fits, lk, lv)) in
            let small : exceeds (length ks) self.max_key_length ≡ false = rw lk (short.0 k hk) in
            (
              ks ++ (vs ++ rs),
              rw (wk, small, wv, wr),
              omega (arith, length-append ks (vs ++ rs), length-append vs rs, e, lk, lv, lr),
            )
      ]

  -- Headers of a length that fits the room are written, in as many bytes as their length, when no key
  -- is too long.
  pub write_into-fits :
      (headers : Dict String HeaderValue) (n room : ℕ)
      → Counts (length (Dict.keys headers))
      → IsHeaders Stored headers
      → HasShortKeys self headers
      → byte_length self headers ≡ ok n
      → n ≤ room
      → (bs : Bytes) × (write_into self headers room ≡ ok bs) × (length bs ≡ n)
  unfolding byte_length
  write_into-fits headers n room count good short h fits =
      let c = length (Dict.keys headers) in
      let (few, h₁) = ok-unless (exceeds c self.max_header_count) _ _ n h in
      let (m, hm, h₂) = ok-bind (pairs_length self headers) _ n h₁ in
      let e : n ≡ self.count_width + m = cc in
      let (cs, wc) =
        laws.counts.writes c self.count_width room count (laws.width c count)
          (omega (arith, e, fits)) in
      let q : ok (length cs) ≡ ok self.count_width =
        sym (laws.counts.measures c room cs count wc).0 ∙ laws.width c count in
      let lc : length cs ≡ self.count_width = cc in
      let (rs, wr, lr) =
        write_pairs-fits headers m (room - length cs) good short hm (omega (arith, e, fits, lc)) in
      (
        cs ++ rs,
        write_into-ok self headers room cs rs few wc wr,
        omega (arith, length-append cs rs, e, lc, lr),
      )
