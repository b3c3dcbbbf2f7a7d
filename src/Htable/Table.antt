-- ===== src/Htable/Table.antt =====
-- `htable_insert` and `htable_display` on a whole table.
use mycode_c.Base.{
  ℕ, Bool, some, List, [], ◌∷◌, ◌++◌, map, length, ◌≡◌, ◌≢◌, refl, ap, ◌∙◌, ◌<◌, All, get_elem?,
}
use mycode_c.Llist.{Ptr, Heap}
use mycode_c.Llist.Links.{Fresh}
use mycode_c.Llist.Ring.{contents}
use mycode_c.Llist.Ring.Steps.{run_then}
use mycode_c.Llist.Find.{search, llist_display-contents}
use mycode_c.Htable.{
  Htable, Insertion, replace_it, no_same, same, bad_mode, at_bucket, insert_in, insert_by,
  htable_insert, display_all,
}
use mycode_c.Htable.Bucket.{inserted, insertion_status, left, All-inserted, insert_in-Fills}
use mycode_c.Htable.Frame.{Bucket, block, Buckets, rows, bucket_changed}

abbrev pub heads : List Bucket → List Ptr
heads t = map (λ e. e.0) t

heads_middle :
    (l : List Bucket) (e : Bucket) (r : List Bucket)
    → get_elem? (heads (l ++ e ∷ r)) (length l) ≡ some e.0
heads_middle [] e r = refl
heads_middle (o ∷ l) e r = heads_middle l e r

module _ {A : Type 0} where
  Buckets-middle :
      (m : Heap A) (l : List Bucket) (e : Bucket) (r : List Bucket)
      → Buckets m (l ++ e ∷ r)
      → Buckets m (e ∷ r)
  Buckets-middle m [] e r k = k
  Buckets-middle m (o ∷ l) e r k = Buckets-middle m l e r k.2

  -- With no null argument the call is the insertion in the bucket that the hash says.
  insert_by_run :
      (m : Heap A) (fuel : ℕ) (got : Ptr) (h : Htable) (x : A) (hash : A → ℕ → ℕ)
      (cmp : A → A → Bool) (mode : Insertion) (b : Ptr)
      → get_elem? h.bucket (hash x h.capacity) ≡ some b
      → insert_by fuel got h x hash cmp mode m ≡ insert_in fuel got cmp x mode b m
  unfolding insert_by at_bucket insert_in
  insert_by_run m fuel got h x hash cmp replace_it b e =
      ap (λ o. at_bucket o (insert_in fuel got cmp x replace_it) m) e
  insert_by_run m fuel got h x hash cmp no_same b e =
      ap (λ o. at_bucket o (insert_in fuel got cmp x no_same) m) e
  insert_by_run m fuel got h x hash cmp same b e =
      ap (λ o. at_bucket o (insert_in fuel got cmp x same) m) e
  insert_by_run m fuel got h x hash cmp bad_mode b e = refl

  -- An insertion in a table whose buckets are rings that share no memory, when the hash is the index of a
  -- bucket and memory is given at a new address: the buckets are such rings still, the one of the hash holds what
  -- the mode says and the others what they held, and the call returns what the mode and a search of the bucket say.
  pub htable_insert-Buckets :
      (m : Heap A) (fuel : ℕ) (got : Ptr) (h : Htable) (x : A) (hash : A → ℕ → ℕ)
      (cmp : A → A → Bool) (mode : Insertion) (l : List Bucket) (b : Ptr) (ps : List Ptr)
      (r : List Bucket)
      → h.bucket ≡ heads (l ++ (b, ps) ∷ r)
      → hash x h.capacity ≡ length l
      → Buckets m (l ++ (b, ps) ∷ r)
      → length ps < fuel
      → got ≢ 0
      → Fresh got (b ∷ left mode (λ p. cmp (m.data' p) x) ps)
      → All (λ o. Fresh got (block o)) (l ++ r)
      → let found = search (λ y. cmp y x) (contents m ps) in
        let t = l ++ (b, inserted (λ p. cmp (m.data' p) x) got mode found ps) ∷ r in
        (m' : Heap A) × (htable_insert fuel got (some h) (some x) (some hash) (some cmp) mode m
          ≡ some (insertion_status mode found, m'))
        × Buckets m' t
        × (rows m' t ≡ rows m l ++ inserted (λ y. cmp y x) x mode found (contents m ps) ∷ rows m r)
  unfolding htable_insert
  htable_insert-Buckets m fuel got h x hash cmp mode l b ps r hb hi k n z fr others =
      let at =
        ap (λ bs. get_elem? bs (hash x h.capacity)) hb
        ∙ ap (get_elem? (heads (l ++ (b, ps) ∷ r))) hi
        ∙ heads_middle l (b, ps) r in
      let found = search (λ y. cmp y x) (contents m ps) in
      let f = λ (p : Ptr). cmp (m.data' p) x in
      let one =
        insert_in-Fills m fuel got b ps cmp x mode z fr (Buckets-middle m l (b, ps) r k).0 n in
      let all =
        bucket_changed m one.0 got b ps (inserted f got mode found ps) l r one.2.2 one.2.0
          (λ P g p. All-inserted P f got mode found ps g p) others k in
      (
        one.0,
        insert_by_run m fuel got h x hash cmp mode b at ∙ one.1,
        all.0,
        all.1 ∙ ap (λ row. rows m l ++ row ∷ rows m r) one.2.1,
      )

  -- In such a table, with fuel for the longest bucket and one step more, `htable_display` hands out the data of
  -- every bucket in order and leaves the heap alone.
  pub display_all-rows :
      (m : Heap A) (fuel : ℕ) (t : List Bucket)
      → Buckets m t
      → All (λ e. length e.1 < fuel) t
      → display_all fuel (heads t) m ≡ some (rows m t, m)
  unfolding display_all
  display_all-rows m fuel [] k n = refl
  display_all-rows m fuel (e ∷ t) k n =
      run_then _ _ m (contents m e.1) m _ (llist_display-contents m e.0 e.1 fuel k.0 n.0)
        (run_then _ _ m (rows m t) m _ (display_all-rows m fuel t k.2 n.1) refl)
