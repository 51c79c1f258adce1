-- ===== src/ReadHelper.antt =====
-- The functions of github.com/sofastack/sofa-common-go/helper/readhelper that the codec calls. The
-- package is not part of the repository: it is a parameter of the codec, and `IsDocumented` says
-- what the codec relies on.
use sofa_bolt_go.Base.{
  ℕ, ◌≤◌, ◌<◌, ◌≡◌, Option, none, some, [], ◌∷◌, ◌++◌, Bytes, be32, length, drop,
}

pub record ReadHelper : Type 1 where
  pub Reader : Type 0  -- io.Reader, with what is still to come
  pub IoError : Type 0
  -- AllocToAtLeast(b, n)
  pub alloc_to_at_least : Bytes → ℕ → Bytes
  -- ReadToBytes(br, n, b): the error, `b` afterwards, and the reader.
  pub read_to_bytes : Reader → ℕ → Bytes → Option IoError × Bytes × Reader
  -- ReadUint8WithBytes and ReadBigEndianUint32WithBytes: their scratch bytes are not looked at.
  pub read_uint8 : Reader → ℕ × Option IoError × Reader
  pub read_big_endian_uint32 : Reader → ℕ × Option IoError × Reader

-- `stream bs` is a reader that delivers `bs` and then fails, as one does at its end.
pub record IsDocumented (rh : ReadHelper) : Type 0 where
  pub stream : Bytes → rh.Reader
  pub length-alloc : (b : Bytes) (n : ℕ) → length (rh.alloc_to_at_least b n) ≡ n
  pub read_full :
      (xs rest b : Bytes)
      → length xs ≤ length b
      → rh.read_to_bytes (stream (xs ++ rest)) (length xs) b
        ≡ (none, xs ++ drop (length xs) b, stream rest)
  pub read_short :
      (xs : Bytes) (n : ℕ) (b : Bytes)
      → length xs < n
      → (e : rh.IoError) × (b' : Bytes) × (r : rh.Reader) × (rh.read_to_bytes (stream xs) n b
          ≡ (some e, b', r))
  pub uint8_full :
      (x : ℕ) (rest : Bytes) → rh.read_uint8 (stream (x ∷ rest)) ≡ (x, none, stream rest)
  pub uint8_end :
      (e : rh.IoError) × (x : ℕ) × (r : rh.Reader) × (rh.read_uint8 (stream []) ≡ (x, some e, r))
  pub uint32_full :
      (v : ℕ) (rest : Bytes)
      → v < 4294967296
      → rh.read_big_endian_uint32 (stream (be32 v ++ rest)) ≡ (v, none, stream rest)
  pub uint32_short :
      (xs : Bytes)
      → length xs < 4
      → (e : rh.IoError) × (x : ℕ) × (r : rh.Reader) × (rh.read_big_endian_uint32 (stream xs)
          ≡ (x, some e, r))
