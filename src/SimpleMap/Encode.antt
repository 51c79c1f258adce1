-- ===== src/SimpleMap/Encode.antt =====
-- `Encode` writes the wire form of what `Range` visits.
use sofa_bolt_go.Base.{
  ℕ, ◌+◌, ◌≤◌, ◌≡◌, refl, sym, ap, ◌∙◌, inl, inr, Bool-cases, Option, some, none, List, [], ◌∷◌,
  ◌++◌, append-nil, append_assoc, arith, Bytes, be32, ltb, length, drop, length-append, length-drop,
  drop-drop,
}
use sofa_bolt_go.Buffer.{Buffer, new}
use sofa_bolt_go.Buffer.Cursor.{front, put_string_fits}
use sofa_bolt_go.SimpleMap.{
  FastSimpleMap, KvHeader, put_pair, put_field, put_kvs, get_encode_size, range_field, range_kvs,
  range, encode, ◌>>=◌,
}
use sofa_bolt_go.SimpleMap.Entries.{entry_bytes, flat, length-entry_bytes, length-flat-range}

put_entries : List (Bytes × Bytes) → Buffer → Option Buffer
put_entries [] b = some b
put_entries ((k, v) ∷ es) b = put_pair k v b >>= put_entries es

>>=-assoc :
    {A B C : Type 0} (m : Option A) (f : A → Option B) (g : B → Option C)
    → ((m >>= f) >>= g) ≡ (m >>= λ a. f a >>= g)
>>=-assoc none f g = refl
>>=-assoc (some a) f g = refl

>>=-some : {A : Type 0} (m : Option A) → (m >>= some) ≡ m
>>=-some none = refl
>>=-some (some a) = refl

put_entries-append :
    (xs ys : List (Bytes × Bytes)) (b : Buffer)
    → put_entries (xs ++ ys) b ≡ (put_entries xs b >>= put_entries ys)
unfolding put_entries
put_entries-append [] ys b = refl
put_entries-append ((k, v) ∷ xs) ys b = simp (put_entries-append xs ys, >>=-assoc)

put_kvs_lem : (kvs : List KvHeader) (b : Buffer) → put_kvs kvs b ≡ put_entries (range_kvs kvs) b
unfolding put_entries put_kvs range_kvs
put_kvs_lem [] b = refl
put_kvs_lem (kv ∷ kvs) b = simp (put_kvs_lem kvs)

put_field_lem :
    (name v : Bytes) (b : Buffer) → put_field name v b ≡ put_entries (range_field name v) b
unfolding put_entries put_field range_field
put_field_lem name v b = elim (Bool-cases (ltb 0 (length v))) [
  | inl there ↦ rw there (sym (>>=-some (put_pair name v b)))
  | inr absent ↦ rw absent
]

finish : Buffer → Option (ℕ × Buffer)
finish b = some (b.pos, b)

encode_lem :
    (m : FastSimpleMap) (bytes spare : Bytes)
    → encode m bytes spare ≡ (put_entries (range m) (new bytes spare) >>= finish)
unfolding encode range finish
encode_lem m bytes spare = simp (put_field_lem, put_kvs_lem, put_entries-append, >>=-assoc)

put_pair_fits :
    (p q s k v : Bytes)
    → length (entry_bytes k v) ≤ length q
    → put_pair k v (front p q s)
      ≡ some (front (p ++ entry_bytes k v) (drop (length (entry_bytes k v)) q) s)
unfolding put_pair
put_pair_fits p q s k v h = rw (put_string_fits p q s k (omega (arith, length-entry_bytes k v))) (
    put_string_fits (p ++ be32 (length k) ++ k) (drop (4 + length k) q) s v
      (omega (arith, length-drop (4 + length k) q, length-entry_bytes k v))
    ∙ cc (same_front, same_room))
  where
    same_front : p ++ be32 (length k) ++ k ++ be32 (length v) ++ v ≡ p ++ entry_bytes k v
    same_front = unfold entry_bytes in simp append_assoc

    same_room : drop (4 + length v) (drop (4 + length k) q) ≡ drop (length (entry_bytes k v)) q
    same_room =
        drop-drop (4 + length k) (4 + length v) q
        ∙ ap (λ (n : ℕ). drop n q) (omega (arith, length-entry_bytes k v))

put_entries_fits :
    (p q s : Bytes) (es : List (Bytes × Bytes))
    → length (flat es) ≤ length q
    → put_entries es (front p q s) ≡ some (front (p ++ flat es) (drop (length (flat es)) q) s)
unfolding put_entries flat
put_entries_fits p q s [] h = rw append-nil
put_entries_fits p q s ((k, v) ∷ es) h =
    let all : length (entry_bytes k v ++ flat es) ≡ length (entry_bytes k v) + length (flat es) =
      length-append (entry_bytes k v) (flat es) in
    rw (put_pair_fits p q s k v (omega arith)) (
      put_entries_fits (p ++ entry_bytes k v) (drop (length (entry_bytes k v)) q) s es
        (omega (arith, length-drop (length (entry_bytes k v)) q))
      ∙ rw (append_assoc, drop-drop, all))

-- `Encode` into any slice of at least `GetEncodeSize` bytes does not panic. It writes, from the
-- start, each visited entry behind its lengths, returns `GetEncodeSize`, and leaves the rest of the
-- slice and its spare capacity as they were.
pub encode-flat :
    (m : FastSimpleMap) (bytes spare : Bytes)
    → get_encode_size m ≤ length bytes
    → encode m bytes spare
      ≡ some (
        get_encode_size m,
        record {
          pos = get_encode_size m;
          bytes = flat (range m) ++ drop (get_encode_size m) bytes;
          spare = spare;
        },
      )
unfolding new finish
encode-flat m bytes spare h = rw (encode_lem m bytes spare) (
    rw (put_entries_fits [] bytes spare (range m) (omega (arith, length-flat-range m)))
      (rw length-flat-range))
