-- ===== src/SimpleMap/Store.antt =====
-- sofabolt/simplemap/fastsimplemap/fast_simplemap.go, with the memory of its slots: `Set`, `Del`,
-- `Reset` and `CopyTo` on slices that share arrays. A slice here starts where its array does.
pub mod Writing
pub mod Sharing
pub mod SlotWriting
pub mod Putting
pub mod Refines
pub mod Deleting
pub mod Copying
pub mod Decoding
pub mod Operations
use sofa_bolt_go.Base.{
  ℕ, ◌+◌, ◌-◌, Bool, true, false, List, [], ◌∷◌, ◌++◌, Bytes, equal, leb, ltb, ◌==◌, if◌then◌else◌,
  length, take, replicate, overwrite,
}
use sofa_bolt_go.SimpleMap.{
  FastSimpleMap, KvHeader, str_host, str_content_type, str_service, str_authorization,
}

-- A nil slice, or one of so many bytes of an array.
pub data Slice : Type 0 where
  nil : Slice
  slice : ℕ → ℕ → Slice

-- The arrays, as long as they were made; those from `next` on are not made yet.
pub record Store : Type 0 where
  pub next : ℕ
  pub arrays : ℕ → Bytes

-- A `kvHeader`.
pub record Slot : Type 0 where
  pub key : Slice
  pub value : Slice

-- The spare capacity that Go's `append` gives, to an array of bytes by the old capacity and the new
-- length, and to the array of slots by its length.
pub record Runtime : Type 0 where
  pub spare : ℕ → ℕ → ℕ
  pub slots : ℕ → ℕ

-- The map: `kvs` up to its length, and the slots behind, up to its capacity. The buffers of the four
-- fields are never shared, and are the bytes they hold.
pub record SlotMap : Type 0 where
  pub authorization : Bytes
  pub service : Bytes
  pub host : Bytes
  pub content_type : Bytes
  pub raw : Bytes
  pub kvs : List Slot
  pub behind : List Slot
  pub store : Store

abbrev pub update : (ℕ → Bytes) → ℕ → Bytes → ℕ → Bytes
update f p v q = if p == q then v else f q

unfoldable pub bytes_of : Store → Slice → Bytes
bytes_of st nil = []
bytes_of st (slice r n) = take n (st.arrays r)

unfoldable pub cap : Store → Slice → ℕ
cap st nil = 0
cap st (slice r n) = length (st.arrays r)

pub record Appended : Type 0 where
  pub slice : Slice
  pub store : Store

unfoldable pub write_over : Slice → Bytes → Store → Appended
write_over nil v st = record { slice = nil; store = st }
write_over (slice r n) v st = record {
  slice = slice r (length v);
  store = record st { arrays = update st.arrays r (overwrite (st.arrays r) 0 v) };
}

-- `append(s[:0], v...)`.
unfoldable pub append_to : Runtime → Slice → Bytes → Store → Appended
append_to rt s v st = if leb (length v) (cap st s) then write_over s v st else record {
  slice = slice st.next (length v);
  store = record st {
    next = st.next + 1;
    arrays = update st.arrays st.next (v ++ replicate (rt.spare (cap st s) (length v)) 0);
  };
}

pub record Put : Type 0 where
  pub kvs : List Slot
  pub behind : List Slot
  pub store : Store

-- Both slices of a slot, the key's first.
unfoldable pub write_slot : Runtime → Bytes → Bytes → Slot → Store → Slot × Store
write_slot rt k v s st =
    let a = append_to rt s.key k st in
    let b = append_to rt s.value v a.store in (record { key = a.slice; value = b.slice }, b.store)

abbrev pub fresh_slot : Slot
fresh_slot = record { key = nil; value = nil }

-- `Set` of a key that has no slot, with the slots in use and those behind.
unfoldable pub append_slot : Runtime → Bytes → Bytes → ℕ → List Slot → Store → Put
append_slot rt k v n [] st =
    let w = write_slot rt k v fresh_slot st in
    record { kvs = w.0 ∷ []; behind = replicate (3 + rt.slots n) fresh_slot; store = w.1 }
append_slot rt k v n (s ∷ ss) st =
    let w = write_slot rt k v s st in record { kvs = w.0 ∷ []; behind = ss; store = w.1 }

abbrev pub put_behind : Slot → Put → Put
put_behind s p = record p { kvs = s ∷ p.kvs }

-- The loop of `set`, `n` slots in.
unfoldable pub set_slots : Runtime → Bytes → Bytes → ℕ → List Slot → List Slot → Store → Put
set_slots rt k v n [] behind st = append_slot rt k v n behind st
set_slots rt k v n (s ∷ ss) behind st =
    let rest = set_slots rt k v (n + 1) ss behind st in
    let a = append_to rt s.value v st in
    if equal (bytes_of st s.key) k
    then record { kvs = record s { value = a.slice } ∷ ss; behind = behind; store = a.store }
    else put_behind s rest

unfoldable pub put_in : SlotMap → Put → SlotMap
put_in m p = record m { kvs = p.kvs; behind = p.behind; store = p.store }

unfoldable pub set : Runtime → Bytes → Bytes → SlotMap → SlotMap
set rt k v m =
    if equal k str_host
    then record m { host = v }
    else if equal k str_content_type
    then record m { content_type = v }
    else if equal k str_service
    then record m { service = v }
    else if equal k str_authorization
    then record m { authorization = v }
    else put_in m (set_slots rt k v 0 m.kvs m.behind m.store)

abbrev pub last_of : Slot → List Slot → Slot
last_of s [] = s
last_of s (t ∷ ts) = last_of t ts

-- The loop of `del`: `append(m.kvs[:i], m.kvs[i+1:]...)` moves the later slots one place forward, and
-- the place behind the new length keeps what the last slot was. The slot that moves to the place of
-- the one taken out is not looked at.
unfoldable pub del_slots : Bytes → Store → List Slot → List Slot → List Slot × List Slot
del_slots k st [] behind = ([], behind)
del_slots k st (s ∷ []) behind =
    if equal (bytes_of st s.key) k then ([], s ∷ behind) else (s ∷ [], behind)
del_slots k st (s ∷ t ∷ ss) behind =
    let taken = del_slots k st ss (last_of t ss ∷ behind) in
    let kept = del_slots k st (t ∷ ss) behind in
    if equal (bytes_of st s.key) k then (t ∷ taken.0, taken.1) else (s ∷ kept.0, kept.1)

unfoldable pub del : Bytes → SlotMap → SlotMap
del k m =
    if equal k str_host
    then record m { host = [] }
    else if equal k str_content_type
    then record m { content_type = [] }
    else if equal k str_service
    then record m { service = [] }
    else if equal k str_authorization
    then record m { authorization = [] }
    else let left = del_slots k m.store m.kvs m.behind in record m { kvs = left.0; behind = left.1 }

-- `Reset`: the slots stay behind, with their arrays.
unfoldable pub reset : SlotMap → SlotMap
reset m = record m {
  authorization = [];
  service = [];
  host = [];
  content_type = [];
  kvs = [];
  behind = m.kvs ++ m.behind;
}

-- All the slots of a map, when it has room for so many: a longer array is made for those in use.
unfoldable pub room_for : ℕ → SlotMap → List Slot
room_for n m =
    if ltb (length m.kvs + length m.behind) n
    then m.kvs ++ replicate (n - length m.kvs) fresh_slot
    else m.kvs ++ m.behind

-- The loop of `CopyTo`, into slots that are at least as many.
unfoldable pub fill_slots : Runtime → List KvHeader → List Slot → Store → Put
fill_slots rt [] ss st = record { kvs = []; behind = ss; store = st }
fill_slots rt (kv ∷ kvs) [] st = record { kvs = []; behind = []; store = st }
fill_slots rt (kv ∷ kvs) (s ∷ ss) st =
    let w = write_slot rt kv.key kv.value s st in
    let rest = fill_slots rt kvs ss w.1 in put_behind w.0 rest

-- `CopyTo` into the slots, from a map that is none of theirs.
unfoldable pub copy_to : Runtime → FastSimpleMap → SlotMap → SlotMap
copy_to rt m dst =
    put_in
      (record dst {
        host = m.host;
        service = m.service;
        content_type = m.content_type;
        authorization = m.authorization;
      })
      (fill_slots rt m.kvs (room_for (length m.kvs) dst) dst.store)

-- What a slot holds.
unfoldable pub kv_of : Store → Slot → KvHeader
kv_of st s = record { key = bytes_of st s.key; value = bytes_of st s.value }

unfoldable pub kvs_of : Store → List Slot → List KvHeader
kvs_of st [] = []
kvs_of st (s ∷ ss) = kv_of st s ∷ kvs_of st ss

unfoldable pub view : SlotMap → FastSimpleMap
view m = record {
  authorization = m.authorization;
  service = m.service;
  host = m.host;
  content_type = m.content_type;
  kvs = kvs_of m.store m.kvs;
  raw = m.raw;
}
