-- ===== src/SimpleMap/Store/Refines.antt =====
-- `Set`, `Del`, `Reset` and the view of the slots as a map.
use sofa_bolt_go.Base.{
  ℕ, ◌+◌, ◌≡◌, refl, ap, sym, subst, inl, inr, true, false, List, [], ◌∷◌, ◌++◌, Bytes, equal,
  Bool-cases, replicate,
}
use sofa_bolt_go.SimpleMap
use sofa_bolt_go.SimpleMap.{
  KvHeader, set_kv, str_host, str_content_type, str_service, str_authorization,
}
use sofa_bolt_go.SimpleMap.Store.{
  Store, Slot, Runtime, SlotMap, Put, bytes_of, append_to, write_slot, fresh_slot, append_slot,
  put_behind, set_slots, put_in, set, view, kv_of, kvs_of,
}
use sofa_bolt_go.SimpleMap.Store.Writing.{bytes_of-append_to, Written-append_to}
use sofa_bolt_go.SimpleMap.Store.Putting.{
  fresh-IsApart, IsUnshared-fresh, used-fresh, PutDone, PutDone-written, PutDone-behind,
  kv_of-behind,
}
use sofa_bolt_go.SimpleMap.Store.SlotWriting.{SlotWritten-value, SlotWritten-slot, kv_of-slot}
use sofa_bolt_go.SimpleMap.Store.Sharing.{
  slot_owns, used, IsUnshared, used-kept, kvs_of-kept, bytes_of-kept, orb_left, orb_right,
  orb_cases, disjoint,
}

tail_unshared : (n : ℕ) (s : Slot) (ss : List Slot) → IsUnshared n (s ∷ ss) → IsUnshared n ss
unfolding IsUnshared
tail_unshared n s ss u = u.1

-- What the loop of `set` does from the slots `ss`, all of which with those behind are `xs`.
record SetDone (k v : Bytes) (ss xs : List Slot) (st : Store) (p : Put) : Type 0 where
  done : PutDone xs st p
  viewed : kvs_of p.store p.kvs ≡ set_kv k v (kvs_of st ss)

module _ (rt : Runtime) (k v : Bytes) where
  SetDone-append :
      (n : ℕ) (ss : List Slot) (st : Store)
      → IsUnshared st.next ss
      → SetDone k v [] ss st (append_slot rt k v n ss st)
  unfolding append_slot IsUnshared kvs_of set_kv
  SetDone-append n [] st u =
      let a = fresh-IsApart st.next (λ r. false) in
      let d =
        PutDone-written fresh_slot st (replicate (3 + rt.slots n) fresh_slot)
          ((write_slot rt k v fresh_slot st).0 ∷ []) (replicate (3 + rt.slots n) fresh_slot) _ _
          refl (SlotWritten-slot rt k v fresh_slot st (λ r. false) a)
          (fresh-IsApart st.next _, IsUnshared-fresh st.next (3 + rt.slots n)) in
      record {
        done = record {
          unshared = d.unshared;
          keeps = λ r h o. d.keeps r h (used-fresh (3 + rt.slots n) r);
          takes = λ r o. elim (d.takes r o) [
            | inl old ↦ absurd (disjoint _ old (used-fresh (3 + rt.slots n) r))
            | inr new ↦ inr new
          ];
          grows = d.grows;
        };
        viewed = ap (λ kv. kv ∷ []) (kv_of-slot rt k v fresh_slot st (λ r. false) a);
      }
  SetDone-append n (s ∷ ss) st (a, u) = record {
    done = PutDone-written s st ss _ _ _ _ refl (SlotWritten-slot rt k v s st (used ss) a) (a, u);
    viewed = ap (λ kv. kv ∷ []) (kv_of-slot rt k v s st (used ss) a);
  }

  set_slots-nil :
      (n : ℕ) (behind : List Slot) (st : Store)
      → set_slots rt k v n [] behind st ≡ append_slot rt k v n behind st
  unfolding set_slots
  set_slots-nil n behind st = refl

  unfoldable found : Slot → List Slot → List Slot → Store → Put
  found s ss behind st =
      let a = append_to rt s.value v st in
      record { kvs = record s { value = a.slice } ∷ ss; behind = behind; store = a.store }

  set_slots-found :
      (n : ℕ) (s : Slot) (ss behind : List Slot) (st : Store)
      → equal (bytes_of st s.key) k ≡ true
      → set_slots rt k v n (s ∷ ss) behind st ≡ found s ss behind st
  unfolding set_slots found
  set_slots-found n s ss behind st e = rw e refl

  set_slots-behind :
      (n : ℕ) (s : Slot) (ss behind : List Slot) (st : Store)
      → equal (bytes_of st s.key) k ≡ false
      → set_slots rt k v n (s ∷ ss) behind st ≡ put_behind s (set_slots rt k v (n + 1) ss behind st)
  unfolding set_slots
  set_slots-behind n s ss behind st e = rw e refl

  used-front : (ss behind : List Slot) (r : ℕ) → used ss r ≡ true → used (ss ++ behind) r ≡ true
  used-front [] behind r h = cc
  used-front (s ∷ ss) behind r h = elim (orb_cases (slot_owns s r) _ h) [
    | inl e ↦ orb_left _ _ e
    | inr e ↦ orb_right (slot_owns s r) _ (used-front ss behind r e)
  ]

  SetDone-found :
      (s : Slot) (ss behind : List Slot) (st : Store)
      → equal (bytes_of st s.key) k ≡ true
      → IsUnshared st.next (s ∷ ss ++ behind)
      → SetDone k v (s ∷ ss) (s ∷ ss ++ behind) st (found s ss behind st)
  unfolding IsUnshared found kvs_of kv_of set_kv
  SetDone-found s ss behind st e (a, u) =
      let w = SlotWritten-value rt v s st (used (ss ++ behind)) a in
      let st' = (append_to rt s.value v st).store in
      record {
        done = PutDone-written s st (ss ++ behind) _ _ _ _ refl w (a, u);
        viewed =
            rw
              (
                e,
                bytes_of-append_to rt s.value v st,
                bytes_of-kept s.key st st' (λ r o.
                    (Written-append_to rt s.value v st).keeps r (a.below r (orb_left _ _ o))
                      (a.two r o)),
                kvs_of-kept ss st st' (λ r o.
                    used-kept s st _ st' (ss ++ behind) w (a, u) r (used-front ss behind r o)),
              )
              refl;
      }

  SetDone-behind :
      (s : Slot) (ss behind : List Slot) (st : Store) (p : Put)
      → equal (bytes_of st s.key) k ≡ false
      → IsUnshared st.next (s ∷ ss ++ behind)
      → SetDone k v ss (ss ++ behind) st p
      → SetDone k v (s ∷ ss) (s ∷ ss ++ behind) st (put_behind s p)
  unfolding IsUnshared kvs_of kv_of set_kv
  SetDone-behind s ss behind st p e (a, u) d = record {
    done = PutDone-behind s st (ss ++ behind) p a d.done;
    viewed =
        rw (e, sym (kv_of-behind s st (ss ++ behind) p a d.done))
          (ap (λ kvs. kv_of p.store s ∷ kvs) d.viewed);
  }

  SetDone-slots :
      (n : ℕ) (ss behind : List Slot) (st : Store)
      → IsUnshared st.next (ss ++ behind)
      → SetDone k v ss (ss ++ behind) st (set_slots rt k v n ss behind st)
  SetDone-slots n [] behind st u =
      subst (λ p. SetDone k v [] behind st p) (sym (set_slots-nil n behind st))
        (SetDone-append n behind st u)
  SetDone-slots n (s ∷ ss) behind st u = elim (Bool-cases (equal (bytes_of st s.key) k)) [
    | inl e ↦
        subst (λ p. SetDone k v (s ∷ ss) (s ∷ ss ++ behind) st p)
          (sym (set_slots-found n s ss behind st e)) (SetDone-found s ss behind st e u)
    | inr e ↦
        subst (λ p. SetDone k v (s ∷ ss) (s ∷ ss ++ behind) st p)
          (sym (set_slots-behind n s ss behind st e))
          (SetDone-behind s ss behind st _ e u
            (SetDone-slots (n + 1) ss behind st (tail_unshared st.next s (ss ++ behind) u)))
  ]

-- The slots, those behind the length included, have arrays that no other slice has.
unfoldable pub HasOwnArrays : SlotMap → Type 0
HasOwnArrays m = IsUnshared m.store.next (m.kvs ++ m.behind)

put_in-IsView :
    (k v : Bytes) (m : SlotMap) (p : Put)
    → SetDone k v m.kvs (m.kvs ++ m.behind) m.store p
    → (view (put_in m p) ≡ record (view m) { kvs = set_kv k v (view m).kvs })
      × HasOwnArrays (put_in m p)
unfolding put_in view HasOwnArrays
put_in-IsView k v m p d = (ap (λ kvs. record (view m) { kvs = kvs }) d.viewed, d.done.unshared)

-- Where the slots share no array, `Set` through them is `Set` on what they hold, and they share none
-- afterwards, however Go's `append` grows arrays and slots.
pub view-set :
    (rt : Runtime) (k v : Bytes) (m : SlotMap)
    → HasOwnArrays m
    → (view (set rt k v m) ≡ SimpleMap.set k v (view m)) × HasOwnArrays (set rt k v m)
unfolding set SimpleMap.set HasOwnArrays view
view-set rt k v m u =
    let done = put_in-IsView k v m _ (SetDone-slots rt k v 0 m.kvs m.behind m.store u) in
    elim (Bool-cases (equal k str_host)) [
      | inl h ↦ rw h (refl, u)
      | inr h ↦ elim (Bool-cases (equal k str_content_type)) [
        | inl c ↦ rw (h, c) (refl, u)
        | inr c ↦ elim (Bool-cases (equal k str_service)) [
          | inl s ↦ rw (h, c, s) (refl, u)
          | inr s ↦ elim (Bool-cases (equal k str_authorization)) [
            | inl a ↦ rw (h, c, s, a) (refl, u)
            | inr a ↦ rw (h, c, s, a) done
          ]
        ]
      ]
    ]
