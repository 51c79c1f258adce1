-- ===== src/SimpleMap/Lookup.antt =====
-- `Get`, `Set`, `Reset`, `CopyTo` and `Equal`: the map as a function of its keys.
use sofa_bolt_go.Base.{
  ◌≡◌, refl, ◌↔◌, true, false, List, [], ◌∷◌, arith, Bytes, equal, equal_refl, equal→≡, equal_iff,
  if◌then◌else◌, length,
}
use sofa_bolt_go.SimpleMap.{
  FastSimpleMap, KvHeader, str_host, str_content_type, str_service, str_authorization, reset,
  copy_to, kv_equal, kvs_equal, map_equal, set_kv, set, get_kv, get,
}

equal_trans_false : (a b c : Bytes) → equal a b ≡ true → equal a c ≡ false → equal b c ≡ false
equal_trans_false a b c e f = rw (equal→≡ a b e) at f

get_kv-set_kv :
    (k j v : Bytes) (kvs : List KvHeader)
    → get_kv j (set_kv k v kvs) ≡ (if equal k j then v else get_kv j kvs)
unfolding get_kv set_kv
get_kv-set_kv k j v [] = refl
get_kv-set_kv k j v (kv ∷ kvs) =
    ground (arith, equal_iff kv.key k, equal_iff k j, equal_iff kv.key j, get_kv-set_kv k j v kvs)

-- After `Set(k, v)`, `Get(j)` is `v` if `j` is `k`, and what it was before if not, whether the keys
-- are among the four that have their own field or not.
pub get-set :
    (k j v : Bytes) (m : FastSimpleMap) → get j (set k v m) ≡ (if equal k j then v else get j m)
unfolding get set
get-set k j v m = ground (
  arith,
  get_kv-set_kv k j v m.kvs,
  equal_iff k j,
  equal_iff k str_host,
  equal_iff k str_content_type,
  equal_iff k str_service,
  equal_iff k str_authorization,
  equal_iff j str_host,
  equal_iff j str_content_type,
  equal_iff j str_service,
  equal_iff j str_authorization,
)

-- `Reset` leaves no key.
pub get-reset : (k : Bytes) (m : FastSimpleMap) → get k (reset m) ≡ []
unfolding get reset get_kv
get-reset k m = ground arith

-- `CopyTo` gives the destination every value of the source, and makes the two equal.
pub get-copy_to : (k : Bytes) (m dst : FastSimpleMap) → get k (copy_to m dst) ≡ get k m
unfolding get copy_to
get-copy_to k m dst = refl

kvs_equal→≡ : (ks dst : List KvHeader) → length ks ≡ length dst → kvs_equal ks dst ≡ true → ks ≡ dst
unfolding kvs_equal kv_equal
kvs_equal→≡ [] [] l h = refl
kvs_equal→≡ [] (d ∷ dst) l h = absurd (omega (arith, l))
kvs_equal→≡ (k ∷ ks) [] l h = cc
kvs_equal→≡ (k ∷ ks) (d ∷ dst) l h =
    ground (arith, equal→≡ k.key d.key, equal→≡ k.value d.value, kvs_equal→≡ ks dst)

kvs_equal_refl : (ks : List KvHeader) → kvs_equal ks ks ≡ true
unfolding kvs_equal kv_equal
kvs_equal_refl [] = refl
kvs_equal_refl (k ∷ ks) = rw (equal_refl k.key, equal_refl k.value, kvs_equal_refl ks)

-- `Equal` is true of exactly the maps that agree on the four fields and on the list of the other
-- entries, order included.
pub map_equal_iff :
    (m dst : FastSimpleMap)
    → (map_equal m dst ≡ true)
      ↔ (m.host ≡ dst.host)
        × (m.service ≡ dst.service)
        × (m.content_type ≡ dst.content_type)
        × (m.authorization ≡ dst.authorization)
        × (m.kvs ≡ dst.kvs)
unfolding map_equal
map_equal_iff m dst = ground (
  arith,
  equal_iff m.host dst.host,
  equal_iff m.service dst.service,
  equal_iff m.content_type dst.content_type,
  equal_iff m.authorization dst.authorization,
  kvs_equal→≡ m.kvs dst.kvs,
  kvs_equal_refl m.kvs,
)
