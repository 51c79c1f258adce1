-- ===== src/SimpleMap/Store/Operations.antt =====
-- Calls of the map on its slots, one behind the other, against the map that they stand for.
use sofa_bolt_go.Base.{◌≡◌, refl, ap, ◌∙◌, false, List, [], ◌∷◌, Bytes, equal, if◌then◌else◌}
use sofa_bolt_go.SimpleMap
use sofa_bolt_go.SimpleMap.{FastSimpleMap, get}
use sofa_bolt_go.SimpleMap.Lookup.{get-set}
use sofa_bolt_go.SimpleMap.Removal
use sofa_bolt_go.SimpleMap.Removal.{has_key}
use sofa_bolt_go.SimpleMap.Store.{Runtime, SlotMap, set, del, reset, copy_to, view, kvs_of}
use sofa_bolt_go.SimpleMap.Store.Refines.{HasOwnArrays, view-set}
use sofa_bolt_go.SimpleMap.Store.Deleting.{but_last, view-del, del-HasOwnArrays, view-reset}
use sofa_bolt_go.SimpleMap.Store.Copying.{view-copy_to}

-- `CopyTo` into the map, from another one.
pub data Operation : Type 0 where
  setting : Bytes → Bytes → Operation
  deleting : Bytes → Operation
  resetting : Operation
  copying : FastSimpleMap → Operation

abbrev pub on_map : Operation → FastSimpleMap → FastSimpleMap
on_map (setting k v) m = SimpleMap.set k v m
on_map (deleting k) m = Removal.del k m
on_map resetting m = SimpleMap.reset m
on_map (copying n) m = SimpleMap.copy_to n m

abbrev pub run_map : List Operation → FastSimpleMap → FastSimpleMap
run_map [] m = m
run_map (op ∷ ops) m = run_map ops (on_map op m)

module _ (rt : Runtime) where
  abbrev pub on_slots : Operation → SlotMap → SlotMap
  on_slots (setting k v) m = set rt k v m
  on_slots (deleting k) m = del k m
  on_slots resetting m = reset m
  on_slots (copying n) m = copy_to rt n m

  abbrev pub run_slots : List Operation → SlotMap → SlotMap
  run_slots [] m = m
  run_slots (op ∷ ops) m = run_slots ops (on_slots op m)

  -- A key that is deleted has no slot, or the last one.
  abbrev pub IsQuiet : Operation → SlotMap → Type 0
  IsQuiet (setting k v) m = Unit
  IsQuiet (deleting k) m = has_key k (kvs_of m.store (but_last m.kvs)) ≡ false
  IsQuiet resetting m = Unit
  IsQuiet (copying n) m = Unit

  abbrev pub AreQuiet : List Operation → SlotMap → Type 0
  AreQuiet [] m = Unit
  AreQuiet (op ∷ ops) m = IsQuiet op m × AreQuiet ops (on_slots op m)

  on_slots-view :
      (op : Operation) (m : SlotMap)
      → HasOwnArrays m
      → IsQuiet op m
      → (view (on_slots op m) ≡ on_map op (view m)) × HasOwnArrays (on_slots op m)
  on_slots-view (setting k v) m u q = view-set rt k v m u
  on_slots-view (deleting k) m u q = (view-del k m, del-HasOwnArrays k m q u)
  on_slots-view resetting m u q = view-reset m u
  on_slots-view (copying n) m u q = view-copy_to rt n m u

  -- Any calls of `Set`, `Del`, `Reset` and `CopyTo` into a map, one behind the other, where the slots
  -- share no array at first and no key is deleted whose slot is not the last one: the slots hold at the
  -- end what the same calls on the map itself give, and they share no array, those behind the length
  -- included.
  pub view-run_slots :
      (ops : List Operation) (m : SlotMap)
      → HasOwnArrays m
      → AreQuiet ops m
      → (view (run_slots ops m) ≡ run_map ops (view m)) × HasOwnArrays (run_slots ops m)
  view-run_slots [] m u q = (refl, u)
  view-run_slots (op ∷ ops) m u (q, qs) =
      let (same, own) = on_slots-view op m u q in
      let (viewed, owns) = view-run_slots ops (on_slots op m) own qs in
      (viewed ∙ ap (run_map ops) same, owns)

  -- Where the slots share no array: after `Set(k, v)`, `Get(j)` is `v` if `j` is `k`, and what it was
  -- before if not, whether the keys are among the four that have their own field or not.
  pub get-view-set :
      (k j v : Bytes) (m : SlotMap)
      → HasOwnArrays m
      → get j (view (set rt k v m)) ≡ (if equal k j then v else get j (view m))
  get-view-set k j v m u = ap (get j) (view-set rt k v m u).0 ∙ get-set k j v (view m)
