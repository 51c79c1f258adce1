-- ===== src/SimpleMap/Store/Deleting.antt =====
-- `Del` and `Reset` on the slots: what they hold afterwards, and whether they share arrays.
use sofa_bolt_go.Base.{
  ℕ, ◌≡◌, refl, ap, sym, subst, inl, inr, true, false, List, [], ◌∷◌, ◌++◌, arith, Bytes, equal,
  Bool-cases,
}
use sofa_bolt_go.SimpleMap
use sofa_bolt_go.SimpleMap.{KvHeader, str_host, str_content_type, str_service, str_authorization}
use sofa_bolt_go.SimpleMap.Removal
use sofa_bolt_go.SimpleMap.Removal.{del_kv, has_key, del_kv-absent}
use sofa_bolt_go.SimpleMap.Store.{
  Store, Slot, SlotMap, bytes_of, del_slots, last_of, del, reset, kv_of, kvs_of, view,
}
use sofa_bolt_go.SimpleMap.Store.Sharing.{used, IsUnshared}
use sofa_bolt_go.SimpleMap.Store.Refines.{HasOwnArrays}

-- The slots but the last.
unfoldable pub but_last : List Slot → List Slot
but_last [] = []
but_last (s ∷ []) = []
but_last (s ∷ t ∷ ss) = s ∷ but_last (t ∷ ss)

-- The slot is the last one of those in use, and stands before the others behind.
abbrev pub Twice : Slot → List Slot → List Slot × List Slot → Type 0
Twice last behind left =
    (front : List Slot) × (left.0 ≡ front ++ (last ∷ [])) × (left.1 ≡ last ∷ behind)

module _ (k : Bytes) (st : Store) where
  kvs_of-del_slots :
      (ss behind : List Slot) → kvs_of st (del_slots k st ss behind).0 ≡ del_kv k (kvs_of st ss)
  unfolding del_slots del_kv kvs_of kv_of
  kvs_of-del_slots [] behind = refl
  kvs_of-del_slots (s ∷ []) behind = elim (Bool-cases (equal (bytes_of st s.key) k)) [
    | inl e ↦ rw e refl
    | inr e ↦ rw e refl
  ]
  kvs_of-del_slots (s ∷ t ∷ ss) behind = elim (Bool-cases (equal (bytes_of st s.key) k)) [
    | inl e ↦ rw e (ap (λ kvs. kv_of st t ∷ kvs) (kvs_of-del_slots ss (last_of t ss ∷ behind)))
    | inr e ↦ rw e (ap (λ kvs. kv_of st s ∷ kvs) (kvs_of-del_slots (t ∷ ss) behind))
  ]

  del_slots-slots :
      (ss behind : List Slot)
      → has_key k (kvs_of st (but_last ss)) ≡ false
      → (del_slots k st ss behind).0 ++ (del_slots k st ss behind).1 ≡ ss ++ behind
  unfolding del_slots kvs_of kv_of has_key but_last
  del_slots-slots [] behind h = refl
  del_slots-slots (s ∷ []) behind h = elim (Bool-cases (equal (bytes_of st s.key) k)) [
    | inl e ↦ rw e refl
    | inr e ↦ rw e refl
  ]
  del_slots-slots (s ∷ t ∷ ss) behind h = elim (Bool-cases (equal (bytes_of st s.key) k)) [
    | inl e ↦ cc
    | inr e ↦ rw e (ap (λ xs. s ∷ xs) (del_slots-slots (t ∷ ss) behind (ground (arith, h, e))))
  ]

  abbrev Both : ℕ → List Slot × List Slot → Type 0
  Both r left = (used left.0 r ≡ true) × (used left.1 r ≡ true)

-- `Del` through the slots is `Del` on what they hold.
pub view-del : (k : Bytes) (m : SlotMap) → view (del k m) ≡ Removal.del k (view m)
unfolding view del Removal.del
view-del k m = ground (arith, kvs_of-del_slots k m.store m.kvs m.behind)

-- `Del` of a key that has no slot but perhaps the last one leaves the slots as they were, so that
-- they share no array afterwards if they did not before.
pub del-HasOwnArrays :
    (k : Bytes) (m : SlotMap)
    → has_key k (kvs_of m.store (but_last m.kvs)) ≡ false
    → HasOwnArrays m
    → HasOwnArrays (del k m)
unfolding del HasOwnArrays
del-HasOwnArrays k m h u =
    let v = subst (IsUnshared m.store.next) (sym (del_slots-slots k m.store m.kvs m.behind h)) u in
    elim (Bool-cases (equal k str_host)) [
      | inl e ↦ rw e u
      | inr e ↦ elim (Bool-cases (equal k str_content_type)) [
        | inl c ↦ rw (e, c) u
        | inr c ↦ elim (Bool-cases (equal k str_service)) [
          | inl s ↦ rw (e, c, s) u
          | inr s ↦ elim (Bool-cases (equal k str_authorization)) [
            | inl a ↦ rw (e, c, s, a) u
            | inr a ↦ rw (e, c, s, a) v
          ]
        ]
      ]
    ]

-- `Reset` through the slots is `Reset` on what they hold, and leaves them for `Set` with the arrays
-- they have, which no two share afterwards if none did before.
pub view-reset :
    (m : SlotMap)
    → HasOwnArrays m
    → (view (reset m) ≡ SimpleMap.reset (view m)) × HasOwnArrays (reset m)
unfolding view reset SimpleMap.reset kvs_of HasOwnArrays
view-reset m u = (refl, u)
