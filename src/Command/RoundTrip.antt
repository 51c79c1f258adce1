-- ===== src/Command/RoundTrip.antt =====
-- What the readers make of what the writers wrote.
pub mod RequestV2
pub mod ResponseV2
pub mod RequestV1
pub mod ResponseV1
pub mod TbRemoting
use sofa_bolt_go.Base.{
  ℕ, ◌+◌, ◌/◌, ◌%◌, ◌≤◌, ◌<◌, ◌≡◌, refl, ap, ◌∙◌, none, some, [], ◌∷◌, ◌++◌, append-nil,
  append_assoc, arith, Bytes, be32, ltb, length, inl, inr, Bool-cases, true, false, ◌==◌, ◌||◌,
  if◌then◌else◌,
}
use sofa_bolt_go.SimpleMap.{get_encode_size}
use sofa_bolt_go.SimpleMap.Invariant.{IsWellFormed}
use sofa_bolt_go.Checksum.{checksum}
use sofa_bolt_go.ReadHelper.{ReadHelper, IsDocumented}
use sofa_bolt_go.Command.{Command, is_bolt_request}
use sofa_bolt_go.Command.Wire.{with_crc}
use sofa_bolt_go.Command.Read.Monad.{ok}
use sofa_bolt_go.Command.Read.{or_io, read_crc}
use sofa_bolt_go.Command.Read.Steps.{at, read_crc_on, read_crc_off}

-- The widths of the fields, of which the types of the source hold the first ten, and those of the
-- three lengths on the wire.
pub record InRange (c : Command) : Type 0 where
  pub proto : c.proto < 256
  pub ver1 : c.ver1 < 256
  pub typ : c.typ < 256
  pub cmdcode : c.cmdcode < 65536
  pub ver2 : c.ver2 < 256
  pub rid : c.rid < 4294967296
  pub codec : c.codec < 256
  pub switc : c.switc < 256
  pub timeout : c.timeout < 4294967296
  pub status : c.status < 65536
  pub class_len : length c.class < 65536
  pub header_len : get_encode_size c.headers < 65536
  pub content_len : length c.content < 4294967296

-- What `with_crc` appends.
abbrev pub crc_tail : ℕ → ℕ → Bytes
crc_tail switc v = if ltb 0 switc then be32 v else []

pub with_crc-crc_tail :
    (cmd : Command) (bs : Bytes) → with_crc cmd bs ≡ bs ++ crc_tail cmd.switc (checksum bs)
unfolding with_crc
with_crc-crc_tail cmd bs = elim (Bool-cases (ltb 0 cmd.switc)) [
  | inl on ↦ rw on
  | inr off ↦ rw (off, append-nil)
]

be32-mod : (v : ℕ) → be32 v ≡ be32 (v % 4294967296)
be32-mod v = cc (first, second, third, fourth)
  where
    first : v / 16777216 % 256 ≡ v % 4294967296 / 16777216 % 256
    first = omega arith

    second : v / 65536 % 256 ≡ v % 4294967296 / 65536 % 256
    second = omega arith

    third : v / 256 % 256 ≡ v % 4294967296 / 256 % 256
    third = omega arith

    fourth : v % 256 ≡ v % 4294967296 % 256
    fourth = omega arith

-- The checksum is read back if there is one, and the field keeps its old value if not.
pub read_crc-crc_tail :
    (rh : ReadHelper) (doc : IsDocumented rh) (v : ℕ) (rest : Bytes) (c : Command)
    → read_crc rh (at rh doc c (crc_tail c.switc v ++ rest)) ≡ (
      ok tt,
      at rh doc (record c { crc32 = if ltb 0 c.switc then v % 4294967296 else c.crc32 }) rest,
    )
read_crc-crc_tail rh doc v rest c = elim (Bool-cases (ltb 0 c.switc)) [
  | inl on ↦ rw on (
      ap (λ (bs : Bytes). read_crc rh (at rh doc c (bs ++ rest))) (be32-mod v)
      ∙ read_crc_on rh doc (v % 4294967296) rest c (ground arith) (omega arith))
  | inr off ↦ rw off (read_crc_off rh doc rest c (ground arith))
]

-- The tests of the readers and the writers on the protocol and the type.
pub not_response : (typ : ℕ) → is_bolt_request typ ≡ true → (typ == 0) ≡ false
not_response typ t = ground arith

pub not_v1 : (proto : ℕ) → proto ≡ 2 → (proto == 0 || proto == 1) ≡ false
not_v1 proto p = ground arith

pub is_v2 : (proto : ℕ) → proto ≡ 2 → (proto == 2) ≡ true
is_v2 proto p = ground arith

pub is_response : (typ : ℕ) → typ ≡ 0 → (typ == 0) ≡ true
is_response typ t = ground arith

pub not_request : (typ : ℕ) → typ ≡ 0 → is_bolt_request typ ≡ false
not_request typ t = ground arith
