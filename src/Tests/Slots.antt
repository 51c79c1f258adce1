-- ===== src/Tests/Slots.antt =====
-- The header map with the memory of its slots, on concrete inputs.
use sofa_bolt_go.Base.{
  ◌≡◌, arith, refl, AreBytes, Bytes, List, Option, some, [], ◌∷◌, codes, equal, if◌then◌else◌,
}
use sofa_bolt_go.SimpleMap
use sofa_bolt_go.SimpleMap.{FastSimpleMap, KvHeader, DecodeError}
use sofa_bolt_go.SimpleMap.Removal
use sofa_bolt_go.SimpleMap.Removal.{has_key}
use sofa_bolt_go.SimpleMap.Store.{
  Slot, Runtime, SlotMap, set, del, del_slots, copy_to, view, kvs_of, slice, bytes_of, cap,
  write_over, append_to, write_slot, append_slot, set_slots, put_in, kv_of,
}
use sofa_bolt_go.SimpleMap.Store.Sharing.{IsUnshared}
use sofa_bolt_go.SimpleMap.Store.Refines.{HasOwnArrays, view-set}
use sofa_bolt_go.SimpleMap.Store.Deleting.{but_last, view-del}
use sofa_bolt_go.SimpleMap.Store.Copying.{view-copy_to}
use sofa_bolt_go.SimpleMap.Store.Decoding.{decode_slots, decode_slots-IsWellFormed}
use sofa_bolt_go.SimpleMap.Store.Operations.{
  Operation, setting, deleting, resetting, run_map, run_slots, AreQuiet, view-run_slots,
  get-view-set,
}
use sofa_bolt_go.SimpleMap.Invariant.{IsWellFormed, empty-IsWellFormed}

abbrev rt : Runtime
rt = record { spare = λ c n. 2; slots = λ n. 0 }

abbrev blank : SlotMap
blank = record {
  authorization = [];
  service = [];
  host = [];
  content_type = [];
  raw = [];
  kvs = [];
  behind = [];
  store = record { next = 0; arrays = λ r. [] };
}

blank-HasOwnArrays : HasOwnArrays blank
unfolding HasOwnArrays IsUnshared
blank-HasOwnArrays = tt

-- Three keys, in six arrays.
unfoldable letters : SlotMap
letters =
    set rt (codes "c") (codes "3")
      (set rt (codes "b") (codes "2") (set rt (codes "a") (codes "1") blank))

letters-HasOwnArrays : HasOwnArrays letters
unfolding letters
letters-HasOwnArrays =
    (view-set rt (codes "c") (codes "3") _
      (view-set rt (codes "b") (codes "2") _
        (view-set rt (codes "a") (codes "1") blank blank-HasOwnArrays).1).1).1

letters_hold :
    (view letters).kvs
    ≡ record { key = codes "a"; value = codes "1" }
      ∷ record { key = codes "b"; value = codes "2" }
      ∷ record { key = codes "c"; value = codes "3" }
      ∷ []
unfolding letters set set_slots append_slot write_slot append_to write_over cap bytes_of put_in view
    kvs_of kv_of equal
letters_hold = refl

-- `Del` of the first key and `Set` of a new one: the key that was the last one is gone, and the new one
-- is there twice.
overwritten :
    (view (set rt (codes "d") (codes "4") (del (codes "a") letters))).kvs
    ≡ record { key = codes "b"; value = codes "2" }
      ∷ record { key = codes "d"; value = codes "4" }
      ∷ record { key = codes "d"; value = codes "4" }
      ∷ []
unfolding letters set set_slots append_slot write_slot append_to write_over cap bytes_of put_in view
    kvs_of kv_of equal del del_slots
overwritten = refl

view-set_example :
    (view (set rt (codes "d") (codes "4") letters)
      ≡ SimpleMap.set (codes "d") (codes "4") (view letters))
    × HasOwnArrays (set rt (codes "d") (codes "4") letters)
view-set_example = view-set rt (codes "d") (codes "4") letters letters-HasOwnArrays

view-del_example : view (del (codes "a") letters) ≡ Removal.del (codes "a") (view letters)
view-del_example = view-del (codes "a") letters

view-copy_to_example :
    (view (copy_to rt (view letters) letters) ≡ SimpleMap.copy_to (view letters) (view letters))
    × HasOwnArrays (copy_to rt (view letters) letters)
view-copy_to_example = view-copy_to rt (view letters) letters letters-HasOwnArrays

abbrev first : Slot
first = record { key = slice 0 1; value = slice 1 1 }

abbrev second : Slot
second = record { key = slice 2 1; value = slice 3 1 }

letters_slots :
    kvs_of letters.store (first ∷ second ∷ [])
    ≡ record { key = codes "a"; value = codes "1" }
      ∷ record { key = codes "b"; value = codes "2" }
      ∷ []
unfolding letters set set_slots append_slot write_slot append_to write_over cap bytes_of put_in view
    kvs_of kv_of equal
letters_slots = refl

blank-IsWellFormed : IsWellFormed (view blank)
unfolding view kvs_of SimpleMap.empty
blank-IsWellFormed = empty-IsWellFormed []

-- One entry, and a byte that is none.
abbrev wire : Bytes
wire = 0 ∷ 0 ∷ 0 ∷ 1 ∷ 97 ∷ 0 ∷ 0 ∷ 0 ∷ 1 ∷ 49 ∷ 7 ∷ []

wire-AreBytes : AreBytes wire
wire-AreBytes = omega arith

decode_slots-IsWellFormed_example :
    (e : Option DecodeError) × (m : SlotMap) × (decode_slots rt blank wire [] ≡ some (e, m))
    × (SimpleMap.decode (view blank) wire [] ≡ some (e, view m))
    × IsWellFormed (view m)
    × HasOwnArrays m
decode_slots-IsWellFormed_example =
    decode_slots-IsWellFormed rt blank wire [] wire-AreBytes blank-HasOwnArrays blank-IsWellFormed

-- The last key is deleted, a new one is set, and the map is used again from the start.
abbrev operations : List Operation
operations =
    deleting (codes "c")
    ∷ setting (codes "d") (codes "4")
    ∷ resetting
    ∷ setting (codes "e") (codes "5")
    ∷ []

operations-AreQuiet : AreQuiet rt operations letters
unfolding letters set set_slots append_slot write_slot append_to write_over cap bytes_of put_in
    kvs_of kv_of equal has_key but_last
operations-AreQuiet = (refl, (tt, (tt, (tt, tt))))

view-run_slots_example :
    (view (run_slots rt operations letters) ≡ run_map operations (view letters))
    × HasOwnArrays (run_slots rt operations letters)
view-run_slots_example =
    view-run_slots rt operations letters letters-HasOwnArrays operations-AreQuiet

get-view-set_example : SimpleMap.get (codes "b") (view (set rt (codes "d") (codes "4") letters)) ≡ (
    if equal (codes "d") (codes "b") then codes "4" else SimpleMap.get (codes "b") (view letters))
get-view-set_example =
    get-view-set rt (codes "d") (codes "b") (codes "4") letters letters-HasOwnArrays
