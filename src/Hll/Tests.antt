-- ===== src/Hll/Tests.antt =====
-- Runs of the sketch on concrete values, and the theorems at inputs that meet their hypotheses.
use mathlib.Core.List.Memᴰ
use bug_han.Prelude.{◌≡◌, refl, some, List, [], ◌∷◌, ◌++◌, Bytes, codes}
use bug_han.Hll.{
  Sketch, empty, rank_loop, rank_of, insert_hash, insert_all, merge, marshal_binary,
  unmarshal_binary,
}
use bug_han.Hll.Merge.{IsValid, IsValid-empty, insert_hash-IsValid, merge_laws}
use bug_han.Hll.Union.{insert_all_same_values, merge-insert_all_union}
use bug_han.Hll.Blob.{unmarshal-marshal}

rank_of_runs : rank_of 0x0001_0000_0000_0000 ≡ 4
unfolding rank_of rank_loop
rank_of_runs = refl

abbrev one_value : Sketch
one_value = insert_hash empty 0xabcd_0001_0000_0000

one_value-IsValid : IsValid one_value
one_value-IsValid = insert_hash-IsValid empty 0xabcd_0001_0000_0000 IsValid-empty

-- a stand-in for SHA-256
abbrev digest : Bytes → Bytes
digest v = v ++ codes "01234567"

abbrev visits : List Bytes
visits = codes "ann" ∷ codes "bob" ∷ codes "ann" ∷ []

abbrev visitors : List Bytes
visitors = codes "bob" ∷ codes "ann" ∷ []

merge_laws_example :
    (merge one_value empty ≡ merge empty one_value)
    × (merge (merge one_value empty) one_value ≡ merge one_value (merge empty one_value))
    × (merge one_value empty ≡ one_value)
merge_laws_example = merge_laws one_value empty one_value one_value-IsValid IsValid-empty

insert_all_same_values_example : insert_all digest empty visits ≡ insert_all digest empty visitors
insert_all_same_values_example =
    insert_all_same_values digest visits visitors
      (Memᴰ.tail (Memᴰ.head refl), (Memᴰ.head refl, (Memᴰ.tail (Memᴰ.head refl), tt)))
      (Memᴰ.tail (Memᴰ.head refl), (Memᴰ.head refl, tt))

merge-insert_all_union_example :
    merge (insert_all digest empty visits) (insert_all digest empty visitors)
    ≡ insert_all digest empty (visits ++ visitors)
merge-insert_all_union_example = merge-insert_all_union digest visits visitors

unmarshal-marshal_example : unmarshal_binary (marshal_binary one_value) ≡ some one_value
unmarshal-marshal_example = unmarshal-marshal one_value one_value-IsValid
