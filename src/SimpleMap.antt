-- ===== src/SimpleMap.antt =====
-- sofabolt/simplemap/fastsimplemap/fast_simplemap.go: the header map of a command. A slice is the
-- list of its bytes, and every slot has buffers of its own, as in a map from which no key was deleted
-- but the last one. SimpleMap.Store has the slots with their arrays, those that `Reset` keeps behind
-- included, and what they may share after `Del`.
pub mod Entries
pub mod Lookup
pub mod Invariant
pub mod Parsed
pub mod Rebuild
pub mod Encode
pub mod Parse
pub mod Decode
pub mod RoundTrip
pub mod Fuzz
pub mod Removal
pub mod Store
use sofa_bolt_go.Base.{
  ℕ, zero, suc, ◌+◌, ◌-◌, Bool, true, false, not, ◌&&◌, Option, none, some, List, [], ◌∷◌, ◌++◌,
  Bytes, codes, equal, u32_max, ltb, ◌==◌, if◌then◌else◌, length,
}
use sofa_bolt_go.Buffer.{
  Buffer, fetched, Fetched, not_enough, panicked, new, check, uint32, must_ref, uint32_string,
  must_put_uint32_string,
}

abbrev pub str_host : Bytes
str_host = codes "host"

abbrev pub str_content_type : Bytes
str_content_type = codes "content-type"

abbrev pub str_service : Bytes
str_service = codes "service"

abbrev pub str_authorization : Bytes
str_authorization = codes "authorization"

pub record KvHeader : Type 0 where
  pub key : Bytes
  pub value : Bytes

pub record FastSimpleMap : Type 0 where
  pub authorization : Bytes
  pub service : Bytes
  pub host : Bytes
  pub content_type : Bytes
  pub kvs : List KvHeader
  pub raw : Bytes

unfoldable pub empty : FastSimpleMap
empty = record {
  authorization = [];
  service = [];
  host = [];
  content_type = [];
  kvs = [];
  raw = [];
}

-- `Reset`, which leaves `raw`.
unfoldable pub reset : FastSimpleMap → FastSimpleMap
reset m = record m { authorization = []; service = []; host = []; content_type = []; kvs = [] }

unfoldable pub field_size : Bytes → Bytes → ℕ
field_size name v = if ltb 0 (length v) then 4 + length name + 4 + length v else 0

unfoldable pub kvs_size : List KvHeader → ℕ
kvs_size [] = 0
kvs_size (kv ∷ kvs) = 4 + length kv.key + 4 + length kv.value + kvs_size kvs

unfoldable pub get_encode_size : FastSimpleMap → ℕ
get_encode_size m =
    field_size str_service m.service
    + field_size str_host m.host
    + field_size str_content_type m.content_type
    + field_size str_authorization m.authorization
    + kvs_size m.kvs

-- `CopyTo`: everything but `raw`.
unfoldable pub copy_to : FastSimpleMap → FastSimpleMap → FastSimpleMap
copy_to m dst = record dst {
  host = m.host;
  service = m.service;
  content_type = m.content_type;
  authorization = m.authorization;
  kvs = m.kvs;
}

infixl 5 ◌>>=◌
abbrev pub ◌>>=◌ : {A B : Type 0} → Option A → (A → Option B) → Option B
some a >>= f = f a
none >>= f = none

-- One key and its value.
unfoldable pub put_pair : Bytes → Bytes → Buffer → Option Buffer
put_pair name v b = must_put_uint32_string b name >>= λ b'. must_put_uint32_string b' v

unfoldable pub put_field : Bytes → Bytes → Buffer → Option Buffer
put_field name v b = if ltb 0 (length v) then put_pair name v b else some b

unfoldable pub put_kvs : List KvHeader → Buffer → Option Buffer
put_kvs [] b = some b
put_kvs (kv ∷ kvs) b = put_pair kv.key kv.value b >>= put_kvs kvs

-- `Encode` into a slice with its spare capacity: the position, and the buffer written.
unfoldable pub encode : FastSimpleMap → Bytes → Bytes → Option (ℕ × Buffer)
encode m bytes spare = do
  b ← put_field str_service m.service (new bytes spare)
  b ← put_field str_host m.host b
  b ← put_field str_content_type m.content_type b
  b ← put_field str_authorization m.authorization b
  b ← put_kvs m.kvs b
  some (b.pos, b)

unfoldable pub kv_equal : KvHeader → KvHeader → Bool
kv_equal k dst = equal k.key dst.key && equal k.value dst.value

-- The loop compares by index up to `len(m.kvs)`; the lengths were compared before.
unfoldable pub kvs_equal : List KvHeader → List KvHeader → Bool
kvs_equal [] dst = true
kvs_equal (k ∷ ks) [] = false
kvs_equal (k ∷ ks) (d ∷ dst) = kv_equal k d && kvs_equal ks dst

unfoldable pub map_equal : FastSimpleMap → FastSimpleMap → Bool
map_equal m dst =
    length m.kvs == length dst.kvs
    && equal m.host dst.host
    && equal m.service dst.service
    && equal m.content_type dst.content_type
    && equal m.authorization dst.authorization
    && kvs_equal m.kvs dst.kvs

unfoldable pub set_kv : Bytes → Bytes → List KvHeader → List KvHeader
set_kv k v [] = record { key = k; value = v } ∷ []
set_kv k v (kv ∷ kvs) =
    if equal kv.key k then record kv { value = v } ∷ kvs else kv ∷ set_kv k v kvs

unfoldable pub set : Bytes → Bytes → FastSimpleMap → FastSimpleMap
set k v m =
    if equal k str_host
    then record m { host = v }
    else if equal k str_content_type
    then record m { content_type = v }
    else if equal k str_service
    then record m { service = v }
    else if equal k str_authorization
    then record m { authorization = v }
    else record m { kvs = set_kv k v m.kvs }

unfoldable pub get_kv : Bytes → List KvHeader → Bytes
get_kv k [] = []
get_kv k (kv ∷ kvs) = if equal kv.key k then kv.value else get_kv k kvs

unfoldable pub get : Bytes → FastSimpleMap → Bytes
get k m =
    if equal k str_host
    then m.host
    else if equal k str_content_type
    then m.content_type
    else if equal k str_service
    then m.service
    else if equal k str_authorization
    then m.authorization
    else get_kv k m.kvs

unfoldable pub range_field : Bytes → Bytes → List (Bytes × Bytes)
range_field name v = if ltb 0 (length v) then (name, v) ∷ [] else []

unfoldable pub range_kvs : List KvHeader → List (Bytes × Bytes)
range_kvs [] = []
range_kvs (kv ∷ kvs) = (kv.key, kv.value) ∷ range_kvs kvs

-- The calls that `Range` makes of its argument, in order.
unfoldable pub range : FastSimpleMap → List (Bytes × Bytes)
range m =
    range_field str_service m.service
    ++ (range_field str_host m.host
        ++ (range_field str_content_type m.content_type
            ++ (range_field str_authorization m.authorization ++ range_kvs m.kvs)))

unfoldable pub dump_pair : Bytes → Bytes → Bytes → Bytes
dump_pair sep name v = name ++ (b':' ∷ (v ++ sep))

unfoldable pub dump_field : Bytes → Bytes → Bytes → Bytes
dump_field sep name v = if ltb 0 (length v) then dump_pair sep name v else []

unfoldable pub dump_kvs : Bytes → List KvHeader → Bytes
dump_kvs sep [] = []
dump_kvs sep (kv ∷ kvs) = dump_pair sep kv.key kv.value ++ dump_kvs sep kvs

unfoldable pub dump : Bytes → FastSimpleMap → Bytes
dump sep m =
    dump_field sep str_service m.service
    ++ (dump_field sep str_host m.host
        ++ (dump_field sep str_content_type m.content_type
            ++ (dump_field sep str_authorization m.authorization ++ dump_kvs sep m.kvs)))

pub data DecodeError : Type 0 where
  key_failed value_failed : DecodeError

-- One round of `Decode` up to the call of `set`.
pub data EntryRead : Type 0 where
  entry_read : Bytes → Bytes → Buffer → EntryRead
  entry_failed : DecodeError → EntryRead
  entry_panic : EntryRead

-- The value behind its length: `math.MaxUint32` and 0 both stand for the empty string.
unfoldable pub decode_value : Buffer → ℕ → Fetched Bytes
decode_value b u32 =
    if u32 == u32_max
    then fetched [] b
    else if u32 == 0
    then fetched [] b
    else if not (check b u32)
    then not_enough
    else elim (must_ref b u32) [ none ↦ panicked | some (d, b') ↦ fetched d b' ]

unfoldable pub value_read : Bytes → Fetched Bytes → EntryRead
value_read k (fetched v b) = entry_read k v b
value_read k not_enough = entry_failed value_failed
value_read k panicked = entry_panic

unfoldable pub length_read : Bytes → Fetched ℕ → EntryRead
length_read k (fetched u32 b) = value_read k (decode_value b u32)
length_read k not_enough = entry_failed value_failed
length_read k panicked = entry_panic

unfoldable pub key_read : Fetched Bytes → EntryRead
key_read (fetched k b) = length_read k (uint32 b)
key_read not_enough = entry_failed key_failed
key_read panicked = entry_panic

unfoldable pub read_entry : Buffer → EntryRead
read_entry b = key_read (uint32_string b)

-- `l` is the bytes still to be read; it never falls below 0, so `-` is exact. `none` is a panic, or
-- no fuel left.
unfoldable pub decode_loop :
    ℕ → ℕ → Buffer → FastSimpleMap → Option (Option DecodeError × FastSimpleMap)
decode_loop zero l b m = none
decode_loop (suc fuel) l b m = elim (l == 0) [
  | true ↦ some (none, m)
  | false ↦ elim (read_entry b) [
    | entry_read k v b' ↦ decode_loop fuel (l - 4 - length k - 4 - length v) b' (set k v m)
    | entry_failed e ↦ some (some e, m)
    | entry_panic ↦ none
  ]
]

-- `Decode`: the error, if any, and the map, which keeps the entries set before the error.
unfoldable pub decode : FastSimpleMap → Bytes → Bytes → Option (Option DecodeError × FastSimpleMap)
decode m bytes spare =
    decode_loop (suc (length bytes)) (length bytes) (new bytes spare) (record m { raw = bytes })
