-- ===== src/SimpleMap/Store/Copying.antt =====
-- `CopyTo` into the slots of a map.
use sofa_bolt_go.Base.{
  ℕ, ◌+◌, ◌-◌, ◌≤◌, ◌≡◌, refl, ap, inl, inr, false, List, [], ◌∷◌, ◌++◌, arith, ltb, Bool-cases,
  replicate, length, length-append, length-replicate,
}
use sofa_bolt_go.SimpleMap
use sofa_bolt_go.SimpleMap.{FastSimpleMap, KvHeader}
use sofa_bolt_go.SimpleMap.Store.{
  Store, Slot, Runtime, SlotMap, Put, write_slot, fresh_slot, put_behind, put_in, room_for,
  fill_slots, copy_to, view, kvs_of,
}
use sofa_bolt_go.SimpleMap.Store.SlotWriting.{SlotWritten-slot, kv_of-slot}
use sofa_bolt_go.SimpleMap.Store.Sharing.{
  used, IsApart, IsUnshared, SlotWritten, IsUnshared-written,
}
use sofa_bolt_go.SimpleMap.Store.Putting.{
  IsUnshared-fresh, used-fresh, PutDone, PutDone-behind, PutDone-after, kv_of-behind,
}
use sofa_bolt_go.SimpleMap.Store.Refines.{HasOwnArrays}

record FillDone (kvs : List KvHeader) (xs : List Slot) (st : Store) (p : Put) : Type 0 where
  done : PutDone xs st p
  viewed : kvs_of p.store p.kvs ≡ kvs

head-IsApart : (n : ℕ) (s : Slot) (ss : List Slot) → IsUnshared n (s ∷ ss) → IsApart n s (used ss)
unfolding IsUnshared
head-IsApart n s ss u = u.0

behind :
    (s : Slot) (ss : List Slot) (st : Store) (s' : Slot) (st' : Store)
    → SlotWritten s st s' st'
    → IsUnshared st.next (s ∷ ss)
    → IsUnshared st'.next ss
unfolding IsUnshared
behind s ss st s' st' w u = (IsUnshared-written s st s' st' ss w u).1

module _ (rt : Runtime) where
  FillDone-cons :
      (kv : KvHeader) (kvs : List KvHeader) (s : Slot) (ss : List Slot) (st : Store) (p : Put)
      → IsUnshared st.next (s ∷ ss)
      → FillDone kvs ss (write_slot rt kv.key kv.value s st).1 p
      → FillDone (kv ∷ kvs) (s ∷ ss) st (put_behind (write_slot rt kv.key kv.value s st).0 p)
  unfolding IsUnshared kvs_of
  FillDone-cons kv kvs s ss st p (a, u) d =
      let w = SlotWritten-slot rt kv.key kv.value s st (used ss) a in
      let s' = (write_slot rt kv.key kv.value s st).0 in
      let st' = (write_slot rt kv.key kv.value s st).1 in
      let b = (IsUnshared-written s st s' st' ss w (a, u)).0 in
      record {
        done = PutDone-after s st ss _ s' st' w (PutDone-behind s' st' ss p b d.done);
        viewed =
            rw
              (
                kv_of-behind s' st' ss p b d.done,
                kv_of-slot rt kv.key kv.value s st (used ss) a,
                d.viewed,
              )
              refl;
      }

  FillDone-slots :
      (kvs : List KvHeader) (ss : List Slot) (st : Store)
      → length kvs ≤ length ss
      → IsUnshared st.next ss
      → FillDone kvs ss st (fill_slots rt kvs ss st)
  unfolding fill_slots kvs_of
  FillDone-slots [] ss st l u = record {
    done = record {
      unshared = u;
      keeps = λ r h o. refl;
      takes = λ r o. inl o;
      grows = omega arith;
    };
    viewed = refl;
  }
  FillDone-slots (kv ∷ kvs) [] st l u = absurd (omega (arith, l))
  FillDone-slots (kv ∷ kvs) (s ∷ ss) st l u = FillDone-cons kv kvs s ss st _ u (
      FillDone-slots kvs ss _ (omega (arith, l)) (
        behind s ss st _ _
          (SlotWritten-slot rt kv.key kv.value s st (used ss) (head-IsApart st.next s ss u)) u))

front_free :
    (xs ys : List Slot) (m r : ℕ)
    → used (xs ++ ys) r ≡ false
    → used (xs ++ replicate m fresh_slot) r ≡ false
front_free [] ys m r h = used-fresh m r
front_free (x ∷ xs) ys m r h = ground (arith, front_free xs ys m r)

front_unshared :
    (n m : ℕ) (xs ys : List Slot)
    → IsUnshared n (xs ++ ys)
    → IsUnshared n (xs ++ replicate m fresh_slot)
unfolding IsUnshared
front_unshared n m [] ys u = IsUnshared-fresh n m
front_unshared n m (x ∷ xs) ys (a, u) = (
  record { below = a.below; apart = λ r o. front_free xs ys m r (a.apart r o); two = a.two },
  front_unshared n m xs ys u,
)

room_for-IsUnshared :
    (n : ℕ) (m : SlotMap) → HasOwnArrays m → IsUnshared m.store.next (room_for n m)
unfolding room_for HasOwnArrays
room_for-IsUnshared n m u = elim (Bool-cases (ltb (length m.kvs + length m.behind) n)) [
  | inl h ↦ rw h (front_unshared m.store.next (n - length m.kvs) m.kvs m.behind u)
  | inr h ↦ rw h u
]

length-room_for : (n : ℕ) (m : SlotMap) → n ≤ length (room_for n m)
unfolding room_for
length-room_for n m = ground (
  arith,
  length-append m.kvs m.behind,
  length-append m.kvs (replicate (n - length m.kvs) fresh_slot),
  length-replicate (n - length m.kvs) fresh_slot,
)

-- Where the destination's slots share no array, `CopyTo` into them gives a destination that holds
-- what `CopyTo` says, however long its list of slots was, and whose slots share no array.
pub view-copy_to :
    (rt : Runtime) (m : FastSimpleMap) (dst : SlotMap)
    → HasOwnArrays dst
    → (view (copy_to rt m dst) ≡ SimpleMap.copy_to m (view dst)) × HasOwnArrays (copy_to rt m dst)
unfolding view copy_to SimpleMap.copy_to HasOwnArrays put_in
view-copy_to rt m dst u =
    let d =
      FillDone-slots rt m.kvs (room_for (length m.kvs) dst) dst.store
        (length-room_for (length m.kvs) dst) (room_for-IsUnshared (length m.kvs) dst u) in
    (ap (λ kvs. record (SimpleMap.copy_to m (view dst)) { kvs = kvs }) d.viewed, d.done.unshared)
