-- ===== src/Llist/Delete.antt =====
-- `llist_delete` and `llist_fetch`.
use mycode_c.Base.{ℕ, Bool, Option, none, some, List, length, ◌≡◌, sym, refl, ap, ◌∙◌, ◌<◌}
use mycode_c.Base.Int.{ℤ, pos, negsuc}
use mycode_c.Llist.{Ptr, Heap, delete_node, llist_delete, fetch_node, llist_fetch}
use mycode_c.Llist.Ring.{Ring, contents}
use mycode_c.Llist.Ring.Steps.{run_then, get_data_run, free_run, unlinked}
use mathlib.Core.Option.{map as map_option}
use mycode_c.Llist.Find.{search, search-map, find_node-search}
use mycode_c.Llist.Remove.{Removed, released, nothing-Removed, one-Removed}

-- What `llist_delete` and `llist_fetch` return, from what was found.
abbrev pub removal_status {ℓ} : {A : Type ℓ} → Option A → ℤ
removal_status none = negsuc 0
removal_status (some p) = pos 0

module _ {A : Type 0} where
  -- The removal, from what `_find` found.
  delete_node-Removed :
      (m : Heap A) (h : Ptr) (cmp : A → Bool) (ps : List Ptr) (r : Option Ptr)
      → Ring m h ps
      → search (λ p. cmp (m.data' p)) ps ≡ r
      → (m' : Heap A) × (delete_node r m ≡ some (removal_status r, m')) × Removed h cmp ps m m'
  unfolding delete_node
  delete_node-Removed m h cmp ps none ring e = (m, refl, nothing-Removed m h cmp ps ring e)
  delete_node-Removed m h cmp ps (some cur) ring e =
      let one = one-Removed m h cmp ps cur ring e in
      (
        released m cur,
        run_then _ _ m tt (unlinked m cur) _ one.1 (
            run_then _ _ (unlinked m cur) tt (released m cur) _
              (free_run (unlinked m cur) cur one.2) refl),
        one.0,
      )

  status-map : (g : Ptr → A) (r : Option Ptr) → removal_status r ≡ removal_status (map_option g r)
  status-map g none = refl
  status-map g (some p) = refl

  fetch_node-Removed :
      (m : Heap A) (h : Ptr) (cmp : A → Bool) (ps : List Ptr) (r : Option Ptr)
      → Ring m h ps
      → search (λ p. cmp (m.data' p)) ps ≡ r
      → (m' : Heap A) × (fetch_node r m
          ≡ some ((removal_status (map_option m.data' r), map_option m.data' r), m'))
        × Removed h cmp ps m m'
  unfolding fetch_node
  fetch_node-Removed m h cmp ps none ring e = (m, refl, nothing-Removed m h cmp ps ring e)
  fetch_node-Removed m h cmp ps (some cur) ring e =
      let one = one-Removed m h cmp ps cur ring e in
      let m1 = unlinked m cur in
      (
        released m cur,
        run_then _ _ m tt m1 _ one.1 (
            run_then _ _ m1 (m.data' cur) m1 _ (get_data_run m1 cur one.2)
              (run_then _ _ m1 tt (released m cur) _ (free_run m1 cur one.2) refl)),
        one.0,
      )

  -- In a ring, with one step of fuel more than there are nodes, `llist_delete` takes out the first node whose
  -- data the comparison accepts: what is left is a ring of the other nodes, with their data in order, the
  -- node found is free, and memory outside the list is as it was. It returns 0, or -1 when none was found.
  pub llist_delete-Removed :
      (m : Heap A) (h : Ptr) (cmp : A → Bool) (ps : List Ptr) (fuel : ℕ)
      → Ring m h ps
      → length ps < fuel
      → (m' : Heap A) × (llist_delete fuel h cmp m
          ≡ some (removal_status (search cmp (contents m ps)), m'))
        × Removed h cmp ps m m'
  unfolding llist_delete
  llist_delete-Removed m h cmp ps fuel ring n =
      let found = search (λ (p : Ptr). cmp (m.data' p)) ps in
      let done = delete_node-Removed m h cmp ps found ring refl in
      (
        done.0,
        run_then _ _ m found m _ (find_node-search m h cmp ps fuel ring n) done.1
            ∙ ap (λ z. some (z, done.0))
                (status-map m.data' found ∙ ap removal_status (sym (search-map cmp m.data' ps))),
        done.2,
      )

  -- In a ring, with one step of fuel more than there are nodes, `llist_fetch` takes out the first node whose
  -- data the comparison accepts, as `llist_delete` does, and copies that data to `*save`; it returns 0, or -1
  -- with `*save` left alone when none was found.
  pub llist_fetch-Removed :
      (m : Heap A) (h : Ptr) (cmp : A → Bool) (ps : List Ptr) (fuel : ℕ)
      → Ring m h ps
      → length ps < fuel
      → (m' : Heap A) × (llist_fetch fuel h cmp m
          ≡ some ((removal_status (search cmp (contents m ps)), search cmp (contents m ps)), m'))
        × Removed h cmp ps m m'
  unfolding llist_fetch
  llist_fetch-Removed m h cmp ps fuel ring n =
      let found = search (λ (p : Ptr). cmp (m.data' p)) ps in
      let done = fetch_node-Removed m h cmp ps found ring refl in
      (
        done.0,
        run_then _ _ m found m _ (find_node-search m h cmp ps fuel ring n) done.1
            ∙ ap (λ z. some ((removal_status z, z), done.0)) (sym (search-map cmp m.data' ps)),
        done.2,
      )
