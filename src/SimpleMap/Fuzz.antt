-- ===== src/SimpleMap/Fuzz.antt =====
-- sofabolt/simplemap/fastsimplemap/fuzz.go: the fuzz target of the header map.
use sofa_bolt_go.Base.{
  ℕ, suc, ◌≡◌, ◌≢◌, refl, true, not, Option, none, some, [], Bytes, AreBytes, if◌then◌else◌, length,
  replicate, length-replicate,
}
use sofa_bolt_go.Buffer.{Buffer}
use sofa_bolt_go.SimpleMap.{
  FastSimpleMap, DecodeError, empty, get_encode_size, encode, decode, map_equal,
}
use sofa_bolt_go.SimpleMap.Parse.{parse}
use sofa_bolt_go.SimpleMap.Decode.{decode-parse}
use sofa_bolt_go.SimpleMap.Invariant.{IsWellFormed, empty-IsWellFormed}
use sofa_bolt_go.SimpleMap.Parsed.{parse-IsWellFormed}
use sofa_bolt_go.SimpleMap.Lookup.{map_equal_iff}
use sofa_bolt_go.SimpleMap.RoundTrip.{decode-encode}

-- The results 0 and 1, and a panic, of the code under test or of the target itself.
pub data Outcome : Type 0 where
  rejected accepted crashed : Outcome

-- `nm.Decode(e)`, and the comparison of `nm` and `om`.
fuzz_compare : FastSimpleMap → Option (Option DecodeError × FastSimpleMap) → Outcome
fuzz_compare om none = crashed
fuzz_compare om (some (some e, nm)) = crashed
fuzz_compare om (some (none, nm)) = if not (map_equal nm om) then crashed else accepted

-- `e := make([]byte, n)`, and `om.Encode(e)`, whose result is not looked at.
fuzz_decode : FastSimpleMap → Option (ℕ × Buffer) → Outcome
unfolding fuzz_compare
fuzz_decode om none = crashed
fuzz_decode om (some (n, b)) = fuzz_compare om (decode empty b.bytes [])

fuzz_encode : Option (Option DecodeError × FastSimpleMap) → Outcome
unfolding fuzz_decode
fuzz_encode none = crashed
fuzz_encode (some (some e, om)) = rejected
fuzz_encode (some (none, om)) = fuzz_decode om (encode om (replicate (get_encode_size om) 0) [])

unfoldable pub fuzz : Bytes → Bytes → Outcome
unfolding fuzz_encode
fuzz bytes spare = fuzz_encode (decode empty bytes spare)

fuzz_encode-accepted :
    (om : FastSimpleMap) → IsWellFormed om → fuzz_encode (some (none, om)) ≡ accepted
unfolding fuzz_encode
fuzz_encode-accepted om w =
    let zeros = replicate (get_encode_size om) 0 in
    let (b, e, size, d) =
      decode-encode om zeros [] [] w (length-replicate (get_encode_size om) 0) in
    rw e (rw d (rw (equal b) refl))
  where
    equal : (b : Buffer) → map_equal (record om { raw = b.bytes }) om ≡ true
    equal b = (map_equal_iff (record om { raw = b.bytes }) om).1 (refl, refl, refl, refl, refl)

fuzz_encode-ne-crashed :
    (r : Option DecodeError × FastSimpleMap) → IsWellFormed r.1 → fuzz_encode (some r) ≢ crashed
fuzz_encode-ne-crashed (some e, om) w = unfold fuzz_encode in λ h. cc
fuzz_encode-ne-crashed (none, om) w = λ h. cc (fuzz_encode-accepted om w)

-- On no bytes at all does the fuzz target crash: whatever is decoded without an error is encoded
-- and decoded again, without a panic or an error, into an equal map.
pub fuzz-ne-crashed : (bytes spare : Bytes) → AreBytes bytes → fuzz bytes spare ≢ crashed
unfolding fuzz
fuzz-ne-crashed bytes spare h = rw (decode-parse empty bytes spare) (
    fuzz_encode-ne-crashed (parse (suc (length bytes)) bytes (record empty { raw = bytes })) (
      parse-IsWellFormed (suc (length bytes)) bytes (record empty { raw = bytes }) h
        (empty-IsWellFormed bytes)))
