-- ===== src/Recipes/Files/RoundTrip.antt =====
-- A list that is saved and then loaded.
use mycode_c.Base.{
  ℕ, zero, suc, ◌+◌, ◌<◌, ◌≤◌, true, Option, some, List, [], ◌∷◌, ◌++◌, map, length, length-append,
  append_assoc, append-nil, ◌≡◌, ◌≢◌, refl, sym, ap, ◌∙◌, subst, arith, All, All-left, All-right,
}
use mycode_c.Base.Int.{ℤ, pos}
use mycode_c.Llist.{Ptr, Heap, update}
use mycode_c.Llist.Links.{Fresh, Distinct}
use mycode_c.Llist.Ring.{Same, first_new, contents}
use mycode_c.Llist.Ring.Steps.{
  run_then, get_next_run, get_data_run, set_data_run, set_next_run, take_block_run,
}
use mycode_c.Llist.Links.{update_self}
use mycode_c.Llist.Insert.{Same-trans, contents-placed}
use mycode_c.Recipes.{Recipe}
use mycode_c.Recipes.Lists.{add_recipe_to_list}
use mycode_c.Recipes.Chain.{Seg, Chain, Seg-Kept}
use mycode_c.Recipes.Find.{not_null, count_recipes-length}
use mycode_c.Recipes.Make.{
  with_node, with_node-Seg, with_node-Same, with_node-Kept, add_recipe_to_list-Chain,
}
use mycode_c.Recipes.Files.{
  RecipeFile, save_from, save_recipes_to_file, read_int, rounds_for, read_record, load_from,
  load_recipes_from_file,
}

save_from-contents :
    (m : Heap Recipe) (p : Ptr) (ps : List Ptr) (fuel : ℕ)
    → Seg m p ps 0
    → length ps < fuel
    → save_from fuel p m ≡ some (contents m ps, m)
unfolding save_from
save_from-contents m p ps zero s n = absurd (omega (arith, n))
save_from-contents m p [] (suc fuel) s n =
    subst (λ x. save_from (suc fuel) x m ≡ some ([], m)) (sym s) refl
save_from-contents m p (q ∷ qs) (suc fuel) s n =
    subst (λ x. save_from (suc fuel) x m ≡ some (contents m (q ∷ qs), m)) (sym s.0)
      (not_null _ _ m q s.1
        ∙ run_then _ _ m (m.data' q) m _ (get_data_run m q s.2) (
            run_then _ _ m (m.next q) m _ (get_next_run m q _ s.2 refl) (
              run_then _ _ m (contents m qs) m _
                (save_from-contents m (m.next q) qs fuel s.3 (omega (arith, n))) refl)))

abbrev pub file_of : ℤ → Heap Recipe → List Ptr → RecipeFile
file_of next_id m ps = record { ints = next_id ∷ pos (length ps) ∷ []; records = contents m ps }

pub save-file_of :
    (m : Heap Recipe) (head : Ptr) (ps : List Ptr) (next_id : ℤ) (fuel : ℕ)
    → Seg m head ps 0
    → length ps < fuel
    → save_recipes_to_file fuel true next_id head m ≡ some (some (file_of next_id m ps), m)
unfolding save_recipes_to_file
save-file_of m head ps next_id fuel s n =
    run_then _ _ m (length ps) m _ (count_recipes-length m head ps fuel s n)
      (run_then _ _ m (contents m ps) m _ (save_from-contents m head ps fuel s n) refl)

-- One record more: the heap with the node read, and that node in the list.
load_one :
    (m : Heap Recipe) (fuel n : ℕ) (got : Ptr) (gots : List Ptr) (r : Recipe) (rs : List Recipe)
    (head head' : Ptr) (m' : Heap Recipe) (res : Option (Ptr × Heap Recipe))
    → got ≢ 0
    → add_recipe_to_list fuel head got (with_node m got r) ≡ some (head', m')
    → load_from fuel n gots rs head' m' ≡ res
    → load_from fuel (suc n) (got ∷ gots) (r ∷ rs) head m ≡ res
unfolding load_from read_record
load_one m fuel n got gots r rs head head' m' res z added rest =
    let m1 = record m { alive = update m.alive got true } in
    let m2 = record m1 { data' = update m.data' got r } in
    let live = update_self m.alive got true in
    not_null _ _ m got z
    ∙ run_then _ _ m tt m1 _ (take_block_run m got) (
        run_then _ _ m1 rs m2 _ (run_then _ _ m1 tt m2 _ (set_data_run m1 got r live) refl) (
          run_then _ _ m2 tt (with_node m got r) _ (set_next_run m2 got 0 live)
            (run_then _ _ (with_node m got r) head' m' _ added rest)))

-- What a load leaves: a list with the nodes of before and the new ones, the new records after the data of before, and
-- the rest of memory as it was.
abbrev pub Loaded : Heap Recipe → List Ptr → List Ptr → List Recipe → Ptr → Heap Recipe → Type 0
Loaded m qs gots rs head' m' =
    Chain m' head' (qs ++ gots)
    × (contents m' (qs ++ gots) ≡ contents m qs ++ rs)
    × ((q : Ptr) → Fresh q (qs ++ gots) → Same m m' q)

pub load_from-Loaded :
    (m : Heap Recipe) (fuel : ℕ) (head : Ptr) (qs gots : List Ptr) (rs : List Recipe)
    → length rs ≡ length gots
    → All (λ g. g ≢ 0) gots
    → Distinct (qs ++ gots)
    → Chain m head qs
    → length qs + length gots ≤ fuel
    → (head' : Ptr) × (m' : Heap Recipe) × (load_from fuel (length gots) gots rs head m
        ≡ some (head', m'))
      × Loaded m qs gots rs head' m'
unfolding load_from
load_from-Loaded m fuel head qs [] [] l z d c n = (
  head,
  m,
  refl,
  (
    subst (Chain m head) (sym (append-nil qs)) c,
    ap (contents m) (append-nil qs) ∙ sym (append-nil (contents m qs)),
    λ q f. (refl, refl, refl, refl),
  ),
)
load_from-Loaded m fuel head qs [] (r ∷ rs) l z d c n = absurd (omega (arith, l))
load_from-Loaded m fuel head qs (g ∷ gs) [] l z d c n = absurd (omega (arith, l))
load_from-Loaded m fuel head qs (g ∷ gs) (r ∷ rs) l z d c n =
    let f = first_new qs g gs d in
    let m0 = with_node m g r in
    let one =
      add_recipe_to_list-Chain m0 head g qs fuel
        (Seg-Kept m m0 head qs 0 c.0 (with_node-Kept m g r qs f), c.1) (with_node-Seg m g r z.0) f
        (omega (arith, n)) in
    let m1 = one.1 in
    let shape = append_assoc qs (g ∷ []) gs in
    let rest =
      load_from-Loaded m1 fuel one.0 (qs ++ g ∷ []) gs rs (omega (arith, l)) z.1
        (subst Distinct (sym shape) d) one.3 (omega (arith, n, length-append qs (g ∷ []))) in
    (
      rest.0,
      rest.1,
      load_one m fuel (length gs) g gs r rs head one.0 m1 _ z.0 one.2 rest.2,
      (
        subst (Chain rest.1 rest.0) shape rest.3.0,
        ap (contents rest.1) (sym shape)
            ∙ rest.3.1
            ∙ ap (λ t. t ++ rs)
                (ap (λ dd. map dd (qs ++ g ∷ [])) one.4 ∙ contents-placed m g r qs f)
            ∙ append_assoc (contents m qs) (r ∷ []) rs,
        λ q fq.
            Same-trans m m0 rest.1 q
              (with_node-Same m g r q (All-right (λ y. q ≢ y) qs (g ∷ gs) fq).0)
              (Same-trans m0 m1 rest.1 q (one.5 q (All-left (λ y. q ≢ y) qs (g ∷ gs) fq))
                (rest.3.2 q (subst (Fresh q) (sym shape) fq))),
      ),
    )

length-contents : (m : Heap Recipe) (ps : List Ptr) → length (contents m ps) ≡ length ps
length-contents m [] = refl
length-contents m (p ∷ ps) = ap suc (length-contents m ps)

pub load_file_run :
    (m : Heap Recipe) (fuel : ℕ) (gots : List Ptr) (next_id old unset : ℤ) (records : List Recipe)
    (head' : Ptr) (m' : Heap Recipe)
    → load_from fuel (length records) gots records 0 m ≡ some (head', m')
    → load_recipes_from_file fuel gots true old unset
        (record { ints = next_id ∷ pos (length records) ∷ []; records = records })
        m
      ≡ some ((head', next_id), m')
unfolding load_recipes_from_file read_int rounds_for
load_file_run m fuel gots next_id old unset records head' m' e = run_then _ _ m head' m' _ e refl

pub load_none :
    (m : Heap Recipe) (fuel : ℕ) (gots : List Ptr) → load_from fuel 0 gots [] 0 m ≡ some (0, m)
unfolding load_from
load_none m fuel gots = refl

-- A whole list that is saved, with one step of fuel more than there are nodes, and then loaded in any heap with memory
-- at as many new addresses: the load gives back `next_id` and a list of those addresses that holds the same
-- recipes in the same order, and leaves the rest of memory as it was.
pub save-load :
    (m : Heap Recipe) (head : Ptr) (ps : List Ptr) (next_id : ℤ) (fuel : ℕ) (m2 : Heap Recipe)
    (gots : List Ptr) (old unset : ℤ)
    → Chain m head ps
    → length ps < fuel
    → length gots ≡ length ps
    → All (λ g. g ≢ 0) gots
    → Distinct gots
    → (file : RecipeFile) × (save_recipes_to_file fuel true next_id head m ≡ some (some file, m))
      × (head' : Ptr) × (m' : Heap Recipe) × (load_recipes_from_file fuel gots true old unset file
            m2
          ≡ some ((head', next_id), m'))
      × Chain m' head' gots
      × (contents m' gots ≡ contents m ps)
      × ((q : Ptr) → Fresh q gots → Same m2 m' q)
unfolding load_recipes_from_file read_int rounds_for
save-load m head ps next_id fuel m2 gots old unset c n l z d =
    let loaded =
      load_from-Loaded m2 fuel 0 [] gots (contents m ps) (length-contents m ps ∙ sym l) z d
        (refl, tt) (omega (arith, n, l)) in
    (
      file_of next_id m ps,
      save-file_of m head ps next_id fuel c.0 n,
      loaded.0,
      loaded.1,
      run_then _ _ m2 loaded.0 loaded.1 _
          (ap (λ k. load_from fuel k gots (contents m ps) 0 m2) (sym l) ∙ loaded.2) refl,
      loaded.3.0,
      loaded.3.1,
      loaded.3.2,
    )
