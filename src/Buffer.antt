-- ===== src/Buffer.antt =====
-- sofabolt/simplemap/buffer/buffer.go: the cursor over a byte slice that the header map is read
-- and written through. `data` is the slice, `spare` its backing array from the slice's length up
-- to its capacity, which slicing may reach. `none` is a run-time panic.
pub mod Cursor
use sofa_bolt_go.Base.{
  ℕ, suc, ◌+◌, ◌-◌, ◌*◌, ◌/◌, ◌%◌, ◌++◌, Bool, Option, none, some, Bytes, List, ◌∷◌, [], leb, ltb,
  if◌then◌else◌, be8, be16, be32, be64, uint16_at, uint32_at, uint64_at, length, take, drop, get_or,
  overwrite,
}

pub record Buffer : Type 0 where
  pub pos : ℕ
  pub bytes : Bytes
  pub spare : Bytes

-- ErrNotEnough is the one error of the package.
pub data Fetched (A : Type 0) : Type 0 where
  fetched : A → Buffer → Fetched A
  not_enough : Fetched A
  panicked : Fetched A

unfoldable pub new : Bytes → Bytes → Buffer
new bytes spare = record { pos = 0; bytes = bytes; spare = spare }

unfoldable pub remain : Buffer → ℕ
remain b = length b.bytes - b.pos

unfoldable pub check : Buffer → ℕ → Bool
check b size = leb (b.pos + size) (length b.bytes)

unfoldable pub gap : Buffer → ℕ
gap b = length b.spare

unfoldable pub advance : Buffer → ℕ → Buffer
advance b n = record b { pos = b.pos + n }

-- `b.data[b.pos : b.pos+size]`, bounded by the capacity.
unfoldable pub slice : Buffer → ℕ → Option Bytes
slice b size =
    if leb (b.pos + size) (length b.bytes + length b.spare)
    then some (take size (drop b.pos (b.bytes ++ b.spare)))
    else none

-- The indexing of `b.data[b.pos:]` by the fixed-width readers and writers: `n` bytes must be left.
within : Buffer → ℕ → Bool
within b n = leb (b.pos + n) (length b.bytes)

unfoldable pub peek : Buffer → ℕ → Option ℕ
peek b i = if ltb (b.pos + i) (length b.bytes) then some (get_or b.bytes (b.pos + i) 0) else none

unfoldable pub uint8 : Buffer → Fetched ℕ
unfolding check advance
uint8 b = if check b 1 then fetched (get_or b.bytes b.pos 0) (advance b 1) else not_enough

unfoldable pub uint32 : Buffer → Fetched ℕ
unfolding check advance
uint32 b =
    if check b 4 then fetched (uint32_at (drop b.pos b.bytes) 0) (advance b 4) else not_enough

unfoldable pub must_uint8 : Buffer → Option (ℕ × Buffer)
unfolding within advance
must_uint8 b = if within b 1 then some (get_or b.bytes b.pos 0, advance b 1) else none

unfoldable pub must_uint16 : Buffer → Option (ℕ × Buffer)
unfolding within advance
must_uint16 b = if within b 2 then some (uint16_at (drop b.pos b.bytes) 0, advance b 2) else none

unfoldable pub must_uint32 : Buffer → Option (ℕ × Buffer)
unfolding within advance
must_uint32 b = if within b 4 then some (uint32_at (drop b.pos b.bytes) 0, advance b 4) else none

unfoldable pub must_uint64 : Buffer → Option (ℕ × Buffer)
unfolding within advance
must_uint64 b = if within b 8 then some (uint64_at (drop b.pos b.bytes) 0, advance b 8) else none

-- `MustRef`: the bytes referred to, and the advanced buffer.
ref_from : Buffer → ℕ → Option Bytes → Option (Bytes × Buffer)
unfolding advance
ref_from b size (some bs) = some (bs, advance b size)
ref_from b size none = none

unfoldable pub must_ref : Buffer → ℕ → Option (Bytes × Buffer)
unfolding slice ref_from
must_ref b size = ref_from b size (slice b size)

-- The rest of `Uint32String` behind its length prefix.
string_rest : Option (ℕ × Buffer) → Fetched Bytes
string_rest none = panicked
string_rest (some (u32, b)) =
    if check b u32
    then elim (must_ref b u32) [ none ↦ panicked | some (bs, b') ↦ fetched bs b' ]
    else not_enough

unfoldable pub uint32_string : Buffer → Fetched Bytes
unfolding string_rest
uint32_string b = if check b 4 then string_rest (must_uint32 b) else not_enough

put_word : Buffer → Bytes → Option Buffer
unfolding within advance
put_word b word =
    if within b (length word)
    then some (advance (record b { bytes = overwrite b.bytes b.pos word }) (length word))
    else none

unfoldable pub must_put_uint8 : Buffer → ℕ → Option Buffer
unfolding put_word
must_put_uint8 b v = put_word b (be8 v)

unfoldable pub must_put_uint16 : Buffer → ℕ → Option Buffer
unfolding put_word
must_put_uint16 b v = put_word b (be16 v)

unfoldable pub must_put_uint32 : Buffer → ℕ → Option Buffer
unfolding put_word
must_put_uint32 b v = put_word b (be32 v)

unfoldable pub must_put_uint64 : Buffer → ℕ → Option Buffer
unfolding put_word
must_put_uint64 b v = put_word b (be64 v)

-- The slice written to is bounded by the capacity, so the write may reach into `spare`.
unfoldable pub must_put_bytes : Buffer → Bytes → Option Buffer
unfolding advance
must_put_bytes b src =
    let whole = overwrite (b.bytes ++ b.spare) b.pos src in
    let written = record b {
      bytes = take (length b.bytes) whole;
      spare = drop (length b.bytes) whole;
    } in
    if leb (b.pos + length src) (length b.bytes + length b.spare)
    then some (advance written (length src))
    else none

put_bytes_rest : Bytes → Option Buffer → Option Buffer
put_bytes_rest src (some b) = must_put_bytes b src
put_bytes_rest src none = none

-- `uint32(len(s))` wraps in PutUint32, whose four bytes are those of the length modulo 2^32.
unfoldable pub must_put_uint32_string : Buffer → Bytes → Option Buffer
unfolding put_bytes_rest
must_put_uint32_string b s = put_bytes_rest s (must_put_uint32 b (length s))

unfoldable pub must_skip : Buffer → ℕ → Buffer
unfolding advance
must_skip b n = advance b n
