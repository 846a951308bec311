-- ===== src/Hll/Union.antt =====
-- Merging sketches is the union of the values that were inserted into them.
use mathlib.Core.List.{Memᴰ}
use mathlib.Core.List.Memᴰ
use bug_han.Prelude.{ℕ, ◌≡◌, refl, ap, ◌∙◌, sym, List, [], ◌∷◌, ◌++◌, Bytes, foldl-append, All}
use bug_han.Hll.{Sketch, empty, insert_hash, insert, insert_all, merge}
use bug_han.Hll.Merge.{
  raise_idem, raise_comm, merge-insert_hash, merge_laws, IsValid-empty, insert_hash-IsValid,
  IsValid,
}

insert_hash_comm :
    (s : Sketch) (h k : ℕ) → insert_hash (insert_hash s h) k ≡ insert_hash (insert_hash s k) h
unfolding insert_hash
insert_hash_comm s h k = ap (λ rs. record { registers = rs }) (raise_comm _ _ _ _ s.registers)

insert_hash_idem : (s : Sketch) (h : ℕ) → insert_hash (insert_hash s h) h ≡ insert_hash s h
unfolding insert_hash
insert_hash_idem s h = ap (λ rs. record { registers = rs }) (raise_idem _ _ s.registers)

module _ (sha256 : Bytes → Bytes) where
  insert_comm :
      (s : Sketch) (v w : Bytes)
      → insert sha256 (insert sha256 s v) w ≡ insert sha256 (insert sha256 s w) v
  unfolding insert
  insert_comm s v w = insert_hash_comm s _ _

  insert_idem : (s : Sketch) (v : Bytes) → insert sha256 (insert sha256 s v) v ≡ insert sha256 s v
  unfolding insert
  insert_idem s v = insert_hash_idem s _

  insert-IsValid : (s : Sketch) (v : Bytes) → IsValid s → IsValid (insert sha256 s v)
  unfolding insert
  insert-IsValid s v = insert_hash-IsValid s _

  merge-insert :
      (s t : Sketch) (v : Bytes)
      → IsValid s
      → IsValid t
      → merge s (insert sha256 t v) ≡ insert sha256 (merge s t) v
  unfolding insert
  merge-insert s t v hs ht = merge-insert_hash s t _ (hs.count ∙ sym ht.count)

  insert_all-cons :
      (s : Sketch) (v : Bytes) (vs : List Bytes)
      → insert_all sha256 s (v ∷ vs) ≡ insert_all sha256 (insert sha256 s v) vs
  unfolding insert_all
  insert_all-cons s v vs = refl

  insert_all-nil : (s : Sketch) → insert_all sha256 s [] ≡ s
  unfolding insert_all
  insert_all-nil s = refl

  insert_all-append :
      (s : Sketch) (xs ys : List Bytes)
      → insert_all sha256 s (xs ++ ys) ≡ insert_all sha256 (insert_all sha256 s xs) ys
  unfolding insert_all
  insert_all-append s xs ys = foldl-append (insert sha256) s xs ys

  insert_all-insert :
      (s : Sketch) (vs : List Bytes) (v : Bytes)
      → insert_all sha256 (insert sha256 s v) vs ≡ insert sha256 (insert_all sha256 s vs) v
  insert_all-insert s [] v = simp insert_all-nil
  insert_all-insert s (w ∷ vs) v =
      rw (insert_all-cons (insert sha256 s v) w vs, insert_all-cons s w vs, insert_comm s v w)
        (insert_all-insert (insert sha256 s w) vs v)

  -- a value that is in already changes nothing
  insert_absorbed :
      (s : Sketch) (v : Bytes) (vs : List Bytes)
      → Memᴰ v vs
      → insert sha256 (insert_all sha256 s vs) v ≡ insert_all sha256 s vs
  insert_absorbed s v [] m = absurd (Memᴰ.not-nil m)
  insert_absorbed s v (w ∷ vs) (Memᴰ.head e) =
      rw (e, insert_all-cons s w vs, ← insert_all-insert (insert sha256 s w) vs w, insert_idem s w)
  insert_absorbed s v (w ∷ vs) (Memᴰ.tail m) =
      rw insert_all-cons (insert_absorbed (insert sha256 s w) v vs m)

  insert_all-IsValid : (s : Sketch) (vs : List Bytes) → IsValid s → IsValid (insert_all sha256 s vs)
  insert_all-IsValid s [] h = rw insert_all-nil h
  insert_all-IsValid s (v ∷ vs) h =
      rw insert_all-cons (insert_all-IsValid (insert sha256 s v) vs (insert-IsValid s v h))

  merge-insert_all :
      (s t : Sketch) (vs : List Bytes)
      → IsValid s
      → IsValid t
      → merge s (insert_all sha256 t vs) ≡ insert_all sha256 (merge s t) vs
  merge-insert_all s t [] hs ht = simp insert_all-nil
  merge-insert_all s t (v ∷ vs) hs ht =
      rw (insert_all-cons t v vs, insert_all-cons _ v vs, ← merge-insert s t v hs ht)
        (merge-insert_all s (insert sha256 t v) vs hs (insert-IsValid t v ht))

  All-absorbed :
      (s : Sketch) (xs ys : List Bytes)
      → All (λ y. Memᴰ y xs) ys
      → insert_all sha256 (insert_all sha256 s xs) ys ≡ insert_all sha256 s xs
  All-absorbed s xs [] h = simp insert_all-nil
  All-absorbed s xs (y ∷ ys) (m, h) =
      rw (insert_all-cons (insert_all sha256 s xs) y ys, insert_absorbed s y xs m)
        (All-absorbed s xs ys h)

  insert_all_swap :
      (s : Sketch) (xs ys : List Bytes)
      → insert_all sha256 (insert_all sha256 s xs) ys
        ≡ insert_all sha256 (insert_all sha256 s ys) xs
  insert_all_swap s [] ys = simp insert_all-nil
  insert_all_swap s (x ∷ xs) ys =
      rw (insert_all-cons s x xs, insert_all-cons _ x xs, ← insert_all-insert s ys x)
        (insert_all_swap (insert sha256 s x) xs ys)

  -- The sketch of a stream is the sketch of its set of values: two streams that hold the same values,
  -- in any order and however often, give equal sketches.
  pub insert_all_same_values :
      (xs ys : List Bytes)
      → All (λ x. Memᴰ x ys) xs
      → All (λ y. Memᴰ y xs) ys
      → insert_all sha256 empty xs ≡ insert_all sha256 empty ys
  insert_all_same_values xs ys h k =
      sym (All-absorbed empty xs ys k) ∙ insert_all_swap empty xs ys ∙ All-absorbed empty ys xs h

  -- Merging the sketches of two streams gives the sketch of both streams together.
  pub merge-insert_all_union :
      (xs ys : List Bytes)
      → merge (insert_all sha256 empty xs) (insert_all sha256 empty ys)
        ≡ insert_all sha256 empty (xs ++ ys)
  merge-insert_all_union xs ys =
      let v : IsValid (insert_all sha256 empty xs) = insert_all-IsValid empty xs IsValid-empty in
      merge-insert_all _ empty ys v IsValid-empty
      ∙ ap (λ (t : Sketch). insert_all sha256 t ys) (merge_laws _ empty empty v IsValid-empty).2
      ∙ sym (insert_all-append empty xs ys)
