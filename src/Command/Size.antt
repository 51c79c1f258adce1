-- ===== src/Command/Size.antt =====
-- `Size` and `CopyTo` against the bytes that are written.
use sofa_bolt_go.Base.{
  ℕ, ◌+◌, ◌≡◌, refl, subst, Bool, not, ◌&&◌, true, false, ◌==◌, ◌||◌, ◌++◌, arith, Bytes, be32, ltb,
  length, length-append, if◌then◌else◌, inl, inr, Bool-cases,
}
use sofa_bolt_go.SimpleMap.{get_encode_size, range}
use sofa_bolt_go.SimpleMap
use sofa_bolt_go.SimpleMap.Entries.{flat, length-flat-range}
use sofa_bolt_go.Checksum.{checksum}
use sofa_bolt_go.Command.{Command, size, copy_to, is_bolt_request}
use sofa_bolt_go.Command.Wire.{
  concat, body, with_crc, request_v1, response_v1, request_v2, response_v2,
}
use sofa_bolt_go.Command.Write.{written}
use sofa_bolt_go.Command.Write.Layout.{layout}

length-body :
    (c : Command) → length (body c) ≡ length c.class + get_encode_size c.headers + length c.content
length-body c = omega (
  arith,
  length-append c.class (flat (range c.headers) ++ c.content),
  length-append (flat (range c.headers)) c.content,
  length-flat-range c.headers,
)

pub length-with_crc :
    (c : Command) (bs : Bytes)
    → length (with_crc c bs) ≡ length bs + (if ltb 0 c.switc then 4 else 0)
unfolding with_crc
length-with_crc c bs = elim (Bool-cases (ltb 0 c.switc)) [
  | inl on ↦ rw on (length-append bs (be32 (checksum bs)))
  | inr off ↦ rw off (omega arith)
]

-- A V1 request (protocol 0 or 1) is two bytes longer than `Size` says.
length-request_v1 :
    (c : Command)
    → (c.proto == 0 || c.proto == 1) ≡ true
    → is_bolt_request c.typ ≡ true
    → length (concat (request_v1 c) ++ body c) ≡ size c + 2
unfolding size
length-request_v1 c p t = rw (p, t) (omega (arith, length-body c))

-- A V1 command of another type than a request, laid out as a response, is four bytes shorter than
-- `Size` says.
length-response_v1 :
    (c : Command)
    → (c.proto == 0 || c.proto == 1) ≡ true
    → is_bolt_request c.typ ≡ false
    → length (concat (response_v1 c) ++ body c) + 4 ≡ size c
unfolding size
length-response_v1 c p t = rw (p, t) (omega (arith, length-body c))

not_v1 : (proto : ℕ) → proto ≡ 2 → (proto == 0 || proto == 1) ≡ false
not_v1 proto p = ground arith

is_v2 : (proto : ℕ) → proto ≡ 2 → (proto == 2) ≡ true
is_v2 proto p = ground arith

-- A V2 command of either kind takes `Size` bytes, and four more with a checksum.
length-v2 :
    (c : Command)
    → c.proto ≡ 2
    → length (
        with_crc c
          (concat (if is_bolt_request c.typ then request_v2 c else response_v2 c) ++ body c))
      ≡ size c + (if ltb 0 c.switc then 4 else 0)
unfolding size
length-v2 c p = elim (Bool-cases (is_bolt_request c.typ)) [
  | inl request ↦
      rw (length-with_crc, not_v1 c.proto p, is_v2 c.proto p, request)
        (omega (arith, length-body c))
  | inr response ↦
      rw (length-with_crc, not_v1 c.proto p, is_v2 c.proto p, response)
        (omega (arith, length-body c))
]

abbrev pub is_v1 : Command → Bool
is_v1 c = c.proto == 0 || c.proto == 1

-- What the length of the bytes and `Size` want to be equal.
abbrev Fits : Command → Bytes → Type 0
Fits c bs =
    length bs + (if is_v1 c && not (is_bolt_request c.typ) then 4 else 0)
    ≡ size c
      + (if is_v1 c
          then (if is_bolt_request c.typ then 2 else 0)
          else if ltb 0 c.switc
          then 4
          else 0)

of_written : (c : Command) (xs bs : Bytes) → written xs ≡ written bs → Fits c xs → Fits c bs
of_written c xs bs e f = let q : xs ≡ bs = cc e in subst (Fits c) q f

length-v1 : (c : Command) (bs : Bytes) → is_v1 c ≡ true → layout c ≡ written bs → Fits c bs
length-v1 c bs v e = elim (Bool-cases (is_bolt_request c.typ)) [
  | inl request ↦
      of_written c _ bs (rw (v, request) at e)
        (rw (v, request) (omega (arith, length-request_v1 c v request)))
  | inr other ↦ elim (Bool-cases (c.typ == 0)) [
    | inl response ↦
        of_written c _ bs (rw (v, other, response) at e)
          (rw (v, other) (omega (arith, length-response_v1 c v other)))
    | inr unknown ↦ absurd (cc (rw (v, other, unknown) at e))
  ]
]

length-not_v1 :
    (c : Command) (bs : Bytes)
    → is_v1 c ≡ false
    → (c.proto == 13) ≡ false
    → layout c ≡ written bs
    → Fits c bs
length-not_v1 c bs v n e = elim (Bool-cases (c.proto == 2)) [
  | inr other ↦ absurd (cc (rw (v, other, n) at e))
  | inl two ↦
      let p : c.proto ≡ 2 = ground (arith, two) in
      elim (Bool-cases (is_bolt_request c.typ)) [
        | inl request ↦
            of_written c _ bs (rw (v, two, request) at e)
              (rw v (omega (arith, rw request at (length-v2 c p))))
        | inr other ↦ elim (Bool-cases (c.typ == 0)) [
          | inl response ↦
              of_written c _ bs (rw (v, two, other, response) at e)
                (rw v (omega (arith, rw other at (length-v2 c p))))
          | inr unknown ↦ absurd (cc (rw (v, two, other, unknown) at e))
        ]
      ]
]

-- A BOLT command that is laid out as bytes: they are as many as `Size` says and four more for a V2
-- command with a checksum, two more for a V1 request, and four less for a V1 response.
pub length-layout :
    (c : Command) (bs : Bytes)
    → (c.proto == 13) ≡ false
    → layout c ≡ written bs
    → length bs + (if is_v1 c && not (is_bolt_request c.typ) then 4 else 0)
      ≡ size c
        + (if is_v1 c
            then (if is_bolt_request c.typ then 2 else 0)
            else if ltb 0 c.switc
            then 4
            else 0)
length-layout c bs n e = elim (Bool-cases (is_v1 c)) [
  | inl v ↦ length-v1 c bs v e
  | inr v ↦ length-not_v1 c bs v n e
]

range-copy_to : (c d : Command) → range (SimpleMap.copy_to c.headers d.headers) ≡ range c.headers
unfolding SimpleMap.range SimpleMap.copy_to
range-copy_to c d = refl

-- After `CopyTo`, a BOLT command of the destination is written exactly as the source is, and takes
-- what `Size` says of the source.
pub layout-copy_to :
    (c d : Command)
    → (c.proto == 13) ≡ false
    → (layout (copy_to c d) ≡ layout c) × (size (copy_to c d) ≡ size c)
unfolding copy_to size SimpleMap.copy_to range get_encode_size with_crc
layout-copy_to c d n = (rw n refl, refl)
