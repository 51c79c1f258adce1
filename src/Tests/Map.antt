-- ===== src/Tests/Map.antt =====
-- The theorems on the header map at concrete maps and bytes.
use sofa_bolt_go.Base.{
  ◌≡◌, ◌≢◌, ◌↔◌, refl, none, some, [], ◌∷◌, ◌++◌, arith, true, Bytes, codes, equal, AreBytes,
  length, length-append, drop, ◌≤◌,
}
use sofa_bolt_go.Buffer.{Buffer}
use sofa_bolt_go.SimpleMap.{
  FastSimpleMap, KvHeader, DecodeError, empty, set, get, range, get_encode_size, encode, decode,
  map_equal,
}
use sofa_bolt_go.SimpleMap
use sofa_bolt_go.SimpleMap.Entries.{flat, length-flat-range}
use sofa_bolt_go.SimpleMap.Lookup.{map_equal_iff}
use sofa_bolt_go.SimpleMap.Encode.{encode-flat}
use sofa_bolt_go.SimpleMap.Parse.{parse}
use sofa_bolt_go.SimpleMap.Decode.{decode-parse}
use sofa_bolt_go.SimpleMap.RoundTrip.{decode-encode}
use sofa_bolt_go.SimpleMap.Fuzz.{fuzz, crashed, fuzz-ne-crashed}
use sofa_bolt_go.Tests.Samples.{headers, headers-IsWellFormed}

-- `encode` into a buffer of the right size.
abbrev room : Bytes
room = flat (range headers)

abbrev wire : Bytes
wire = 0 ∷ 0 ∷ 0 ∷ 1 ∷ 97 ∷ 0 ∷ 0 ∷ 0 ∷ 2 ∷ 98 ∷ 99 ∷ []

wire-AreBytes : AreBytes wire
wire-AreBytes = (
  omega arith,
  (
    omega arith,
    (
      omega arith,
      (
        omega arith,
        (
          omega arith,
          (
            omega arith,
            (omega arith, (omega arith, (omega arith, (omega arith, (omega arith, tt))))),
          ),
        ),
      ),
    ),
  ),
)

-- The same key set twice is there once.
set_twice :
    (set (codes "a") (codes "2") (set (codes "a") (codes "1") empty)).kvs
    ≡ record { key = codes "a"; value = codes "2" } ∷ []
unfolding set SimpleMap.set_kv empty equal
set_twice = refl

decode-encode_example :
    (b : Buffer) × (encode headers room [] ≡ some (get_encode_size headers, b))
    × (length b.bytes ≡ get_encode_size headers)
    × (decode empty b.bytes [] ≡ some (none, record headers { raw = b.bytes }))
decode-encode_example =
    decode-encode headers room [] [] headers-IsWellFormed (length-flat-range headers)

fuzz-ne-crashed_example : fuzz wire [] ≢ crashed
fuzz-ne-crashed_example = fuzz-ne-crashed wire [] wire-AreBytes

decode-parse_example : decode headers wire [] ≡ some (parse 12 wire (record headers { raw = wire }))
decode-parse_example = decode-parse headers wire []

room_fits : get_encode_size headers ≤ length (room ++ 7 ∷ [])
room_fits = omega (arith, length-flat-range headers, length-append room (7 ∷ []))

encode-flat_example :
    encode headers (room ++ 7 ∷ []) []
    ≡ some (
      get_encode_size headers,
      record {
        pos = get_encode_size headers;
        bytes = flat (range headers) ++ drop (get_encode_size headers) (room ++ 7 ∷ []);
        spare = [];
      },
    )
encode-flat_example = encode-flat headers (room ++ 7 ∷ []) [] room_fits

map_equal_iff_example :
    (map_equal headers empty ≡ true)
    ↔ (headers.host ≡ empty.host)
      × (headers.service ≡ empty.service)
      × (headers.content_type ≡ empty.content_type)
      × (headers.authorization ≡ empty.authorization)
      × (headers.kvs ≡ empty.kvs)
map_equal_iff_example = map_equal_iff headers empty
