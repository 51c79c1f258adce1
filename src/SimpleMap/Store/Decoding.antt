-- ===== src/SimpleMap/Store/Decoding.antt =====
-- sofabolt/simplemap/fastsimplemap/fast_simplemap.go: `Decode` into a map with the memory of its
-- slots.
use sofa_bolt_go.Base.{
  ℕ, zero, suc, ◌-◌, ◌≡◌, refl, sym, ◌∙◌, subst, Bool-cases, inl, inr, true, false, Option, none,
  some, Bytes, AreBytes, length, ◌==◌,
}
use sofa_bolt_go.Buffer.{Buffer, new}
use sofa_bolt_go.SimpleMap
use sofa_bolt_go.SimpleMap.{
  FastSimpleMap, EntryRead, entry_read, entry_failed, entry_panic, read_entry, DecodeError,
}
use sofa_bolt_go.SimpleMap.Invariant.{IsWellFormed}
use sofa_bolt_go.SimpleMap.Parsed.{decode-IsWellFormed}
use sofa_bolt_go.SimpleMap.Store.{Runtime, SlotMap, set, view}
use sofa_bolt_go.SimpleMap.Store.Refines.{HasOwnArrays, view-set}

module _ (rt : Runtime) where
  -- The loop, as in SimpleMap, with `Set` into the slots.
  unfoldable pub decode_slots_loop :
      ℕ → ℕ → Buffer → SlotMap → Option (Option DecodeError × SlotMap)
  decode_slots_loop zero l b m = none
  decode_slots_loop (suc fuel) l b m = elim (l == 0) [
    | true ↦ some (none, m)
    | false ↦ elim (read_entry b) [
      | entry_read k v b' ↦
          decode_slots_loop fuel (l - 4 - length k - 4 - length v) b' (set rt k v m)
      | entry_failed e ↦ some (some e, m)
      | entry_panic ↦ none
    ]
  ]

  unfoldable pub decode_slots : SlotMap → Bytes → Bytes → Option (Option DecodeError × SlotMap)
  decode_slots m bytes spare =
      decode_slots_loop (suc (length bytes)) (length bytes) (new bytes spare)
        (record m { raw = bytes })

  -- A result on the slots, against one on the map.
  abbrev Agrees :
      Option (Option DecodeError × SlotMap) → Option (Option DecodeError × FastSimpleMap) → Type 0
  Agrees none o = o ≡ none
  Agrees (some (e, m)) o = (o ≡ some (e, view m)) × HasOwnArrays m

  agree_by :
      (o o' : Option (Option DecodeError × SlotMap))
      (p p' : Option (Option DecodeError × FastSimpleMap))
      → o ≡ o'
      → p ≡ p'
      → Agrees o' p'
      → Agrees o p
  agree_by o o' p p' e f h = subst (λ x. Agrees x p) (sym e) (subst (λ y. Agrees o' y) (sym f) h)

  entry_step :
      (fuel l : ℕ) (b : Buffer) (m : SlotMap) (r : EntryRead)
      → (l == 0) ≡ false
      → read_entry b ≡ r
      → HasOwnArrays m
      → ((l' : ℕ) (b' : Buffer) (m' : SlotMap)
          → HasOwnArrays m'
          → Agrees (decode_slots_loop fuel l' b' m') (SimpleMap.decode_loop fuel l' b' (view m')))
      → Agrees (decode_slots_loop (suc fuel) l b m) (SimpleMap.decode_loop (suc fuel) l b (view m))
  unfolding decode_slots_loop SimpleMap.decode_loop
  entry_step fuel l b m (entry_read k v b') on e u rest =
      let (same, own) = view-set rt k v m u in
      let l' = l - 4 - length k - 4 - length v in
      agree_by _ (decode_slots_loop fuel l' b' (set rt k v m)) _
        (SimpleMap.decode_loop fuel l' b' (view (set rt k v m)))
        (rw (decode_slots_loop, on, e) refl) (rw (SimpleMap.decode_loop, on, e, same) refl)
        (rest l' b' (set rt k v m) own)
  entry_step fuel l b m (entry_failed f) on e u rest =
      agree_by _ (some (some f, m)) _ (some (some f, view m)) (rw (decode_slots_loop, on, e) refl)
        (rw (SimpleMap.decode_loop, on, e) refl) (refl, u)
  entry_step fuel l b m entry_panic on e u rest =
      agree_by _ none _ none (rw (decode_slots_loop, on, e) refl)
        (rw (SimpleMap.decode_loop, on, e) refl) refl

  ended_lem :
      (fuel l : ℕ) (b : Buffer) (m : SlotMap)
      → (l == 0) ≡ true
      → HasOwnArrays m
      → Agrees (decode_slots_loop (suc fuel) l b m) (SimpleMap.decode_loop (suc fuel) l b (view m))
  unfolding decode_slots_loop SimpleMap.decode_loop
  ended_lem fuel l b m h u =
      agree_by _ (some (none, m)) _ (some (none, view m)) (rw (decode_slots_loop, h) refl)
        (rw (SimpleMap.decode_loop, h) refl) (refl, u)

  decode_slots_loop-Agrees :
      (fuel l : ℕ) (b : Buffer) (m : SlotMap)
      → HasOwnArrays m
      → Agrees (decode_slots_loop fuel l b m) (SimpleMap.decode_loop fuel l b (view m))
  decode_slots_loop-Agrees zero l b m u = unfold decode_slots_loop SimpleMap.decode_loop in refl
  decode_slots_loop-Agrees (suc fuel) l b m u = elim (Bool-cases (l == 0)) [
    | inl ended ↦ ended_lem fuel l b m ended u
    | inr on ↦
        entry_step fuel l b m (read_entry b) on refl u
          (λ l' b' m' w. decode_slots_loop-Agrees fuel l' b' m' w)
  ]

  some_of :
      (o : Option (Option DecodeError × SlotMap)) (p : Option (Option DecodeError × FastSimpleMap))
      (e : Option DecodeError) (n : FastSimpleMap)
      → Agrees o p
      → p ≡ some (e, n)
      → IsWellFormed n
      → (e' : Option DecodeError) × (m : SlotMap) × (o ≡ some (e', m))
        × (p ≡ some (e', view m))
        × IsWellFormed (view m)
        × HasOwnArrays m
  some_of none p e n a q w = absurd (cc (sym a ∙ q))
  some_of (some (e', m)) p e n (a, u) q w =
      let same : n ≡ view m = cc (sym q ∙ a) in (e', m, refl, a, subst IsWellFormed same w, u)

  -- `Decode` of any bytes into a well-formed map whose slots share no array ends without a panic. Its
  -- error and what the slots hold afterwards are those of `Decode` on the map itself; the map is well
  -- formed, also where an error ends the decoding half way, and its slots share no array.
  pub decode_slots-IsWellFormed :
      (m : SlotMap) (bytes spare : Bytes)
      → AreBytes bytes
      → HasOwnArrays m
      → IsWellFormed (view m)
      → (e : Option DecodeError) × (m' : SlotMap) × (decode_slots m bytes spare ≡ some (e, m'))
        × (SimpleMap.decode (view m) bytes spare ≡ some (e, view m'))
        × IsWellFormed (view m')
        × HasOwnArrays m'
  unfolding decode_slots SimpleMap.decode view HasOwnArrays
  decode_slots-IsWellFormed m bytes spare h u w =
      let (e, n, done, well) = decode-IsWellFormed (view m) bytes spare h w in
      some_of _ _ e n
        (decode_slots_loop-Agrees (suc (length bytes)) (length bytes) (new bytes spare)
          (record m { raw = bytes }) u)
        done well
