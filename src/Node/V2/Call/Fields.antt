-- ===== src/Node/V2/Call/Fields.antt =====
-- What the fields of a call frame have in common: header1 over bufrw, and the flags that the arguments
-- leave.
use tchannel.Prelude.{
  ℕ, ◌≤◌, ◌<◌, ◌≡◌, refl, ap, inl, inr, String, [], ◌∷◌, ◌++◌, arith, string_eq, nat_eq, is_some,
  Bool-cases, length,
}
use tchannel.Prelude.Dict
use tchannel.Prelude.Dict.{Dict}
use tchannel.Node.V2.Rw.{ok, Bytes}
use tchannel.Node.V2.Header
use tchannel.Node.V2.Header.{HeaderRw, HeaderValue, text, other}
use tchannel.Node.V2.Header.RoundTrip.{IsHeaders, strings}
use tchannel.Node.V2.Checksum.{Hashes}
use tchannel.Node.V2.Bufrw.{Bufrw, Laws, width-fits}
use tchannel.Node.V2.Tracing.{
  Tracing, IsTracing, tracing_byte_length, read_tracing_from, write_tracing_into, tracing_rw-Lawful,
}
use tchannel.Node.V2.Args.{Body, set_fragment}
use tchannel.Node.V2.Args.RoundTrip.{IsFrame}
use tchannel.Node.V2.Call.{header1, texts}

pub header1-Laws :
    (p : Bufrw) (Stored : String → Type 0)
    → Laws p Stored
    → Header.RoundTrip.Laws (header1 p) (λ n. n < 256) Stored
header1-Laws p Stored laws = record {
  counts = laws.uint8;
  width = laws.uint8_width;
  keys = laws.str1;
  vals = laws.str1;
}

-- strings that are read are the values that were written
pub texts-strings :
    (Stored : String → Type 0) (headers : Dict String HeaderValue)
    → IsHeaders Stored headers
    → texts (strings headers) ≡ headers
unfolding Dict.map_values
texts-strings Stored [] h = refl
texts-strings Stored ((key, text s) ∷ more) (stored, is_text, proper, h) =
    ap (λ m. (key, text s) ∷ m) (texts-strings Stored more h)
texts-strings Stored ((key, other t) ∷ more) (stored, is_text, proper, h) = elim is_text [ ]

pub set_fragment-bounded : (flags : ℕ) → flags < 256 → set_fragment flags < 256
unfolding set_fragment
set_fragment-bounded flags h = ground (arith, h)

-- the flags of what ArgsRW has written fit their byte
pub flags-bounded :
    (p : Bufrw) (hashes : Hashes) (body : Body) (room : ℕ) (bs : Bytes) (body' : Body)
    → body.flags < 256
    → IsFrame p hashes body room bs body'
    → body'.flags < 256
flags-bounded p hashes body room bs body' h frame = elim (Bool-cases (is_some body'.cont)) [
  | inl cut ↦
      let q : body'.flags ≡ set_fragment body.flags = rw cut at frame.flagged in
      rw q (set_fragment-bounded body.flags h)
  | inr whole ↦ let q : body'.flags ≡ body.flags = rw whole at frame.flagged in rw q h
]

pub tracing-fits :
    (p : Bufrw) (Stored : String → Type 0) (laws : Laws p Stored) (t : Tracing) (room : ℕ)
    → IsTracing t
    → 25 ≤ room
    → (bs : Bytes) × (write_tracing_into p t room ≡ ok bs) × (length bs ≡ 25)
unfolding tracing_byte_length
tracing-fits p Stored laws t room good fits =
    width-fits (tracing_rw-Lawful p Stored laws) t 25 room good refl fits

pub tracing-reads :
    (p : Bufrw) (Stored : String → Type 0) (laws : Laws p Stored) (t : Tracing) (room : ℕ)
    (bs rest : Bytes)
    → IsTracing t
    → write_tracing_into p t room ≡ ok bs
    → read_tracing_from p (bs ++ rest) ≡ ok (t, rest)
tracing-reads p Stored laws t room bs rest good w =
    (tracing_rw-Lawful p Stored laws).reads t room bs rest good w
