-- ===== src/Recipes/Make.antt =====
-- New recipes, and recipes that join a list.
use mycode_c.Base.{
  ℕ, ◌<◌, true, some, List, [], ◌∷◌, ◌++◌, length, ◌≡◌, ◌≢◌, refl, sym, ap, ap₂, ◌∙◌, subst, arith,
  if◌then◌else◌, ◌==◌, All,
}
use mycode_c.Base.Int.{ℤ, pos, ◌+ℤ◌}
use mycode_c.Llist.{Ptr, Heap, pure, ◌>>=◌, ◌>>◌, update, set_next}
use mycode_c.Llist.Links.{Fresh, update_self, update_ne}
use mycode_c.Llist.Ring.{Live, Same, Apart-swap, Distinct-join}
use mycode_c.Llist.Ring.Steps.{run_then, get_data_run, set_data_run, set_next_run, take_block_run}
use mycode_c.Recipes.{Text, Recipe, c_string, row, fresh_recipe, create_recipe}
use mycode_c.Recipes.Strings.{IsString, copied, c_string-strncpy}
use mycode_c.Recipes.Lists.{find_last, add_recipe_to_list}
use mycode_c.Recipes.Chain.{
  Seg, Chain, last, last_has, Kept, Seg-Live, Seg-join, Seg-relinked, relinked, relinked-Kept,
  Seg-Kept,
}
use mycode_c.Recipes.Find.{find_last-last, not_null}

-- With the node of a recipe whose `next` is NULL, and which is not in the list, `add_recipe_to_list` puts it last:
-- the head leads to the nodes of before and then the new one, no node's data is changed, and only the
-- `next` of a node of the list is.
pub add_recipe_to_list-Chain :
    (m : Heap Recipe) (head new_recipe : Ptr) (ps : List Ptr) (fuel : ℕ)
    → Chain m head ps
    → Seg m new_recipe (new_recipe ∷ []) 0
    → Fresh new_recipe ps
    → length ps < fuel
    → (head' : Ptr) × (m' : Heap Recipe) × (add_recipe_to_list fuel head new_recipe m
        ≡ some (head', m'))
      × Chain m' head' (ps ++ new_recipe ∷ [])
      × (m'.data' ≡ m.data')
      × ((q : Ptr) → Fresh q ps → Same m m' q)
unfolding add_recipe_to_list
add_recipe_to_list-Chain m head new [] fuel c s f n = (
  new,
  m,
  not_null _ _ m new s.1
      ∙ subst
          (λ h.
            (if h == 0 then pure new else (find_last fuel h >>= λ l. set_next l new >> pure h)) m
            ≡ some (new, m))
          (sym c.0) refl,
  (s, (tt, tt)),
  refl,
  λ q g. (refl, refl, refl, refl),
)
add_recipe_to_list-Chain m head new (p ∷ ps) fuel c s f n =
    let l = last p ps in
    let m' = relinked m l new in
    let apart = last_has (λ q. new ≢ q) p ps f in
    (
      head,
      m',
      not_null _ _ m new s.1
          ∙ not_null _ _ m head (λ e. c.0.1 (sym c.0.0 ∙ e))
          ∙ run_then _ _ m l m _ (find_last-last m head p ps fuel c.0 (omega (arith, n))) (
              run_then _ _ m tt m' _
                (set_next_run m l new (last_has (Live m) p ps (Seg-Live m head (p ∷ ps) 0 c.0)))
                refl),
      (
        Seg-join m' head (p ∷ ps) new (new ∷ []) 0 (Seg-relinked m head p ps 0 new c.0 c.1) (
            Seg-Kept m m' new (new ∷ []) 0 s
              (relinked-Kept m l new (new ∷ []) ((λ e. apart (sym e)), tt))),
        Distinct-join (p ∷ ps) (new ∷ []) c.1 (tt, tt) (Apart-swap (new ∷ []) (p ∷ ps) (f, tt)),
      ),
      refl,
      λ q g.
          (refl, update_ne m.next l new q (λ e. last_has (λ y. q ≢ y) p ps g (sym e)), refl, refl),
    )

-- The heap with a node at a new address, which holds `r` and points to nothing.
abbrev pub with_node : {A : Type 0} → Heap A → Ptr → A → Heap A
with_node m got r = record m {
  alive = update m.alive got true;
  data' = update m.data' got r;
  next = update m.next got 0;
}

module _ {A : Type 0} where
  pub with_node-Seg :
      (m : Heap A) (got : Ptr) (r : A) → got ≢ 0 → Seg (with_node m got r) got (got ∷ []) 0
  with_node-Seg m got r z = (refl, z, update_self m.alive got true, update_self m.next got 0)

  pub with_node-Same :
      (m : Heap A) (got : Ptr) (r : A) (q : Ptr) → q ≢ got → Same m (with_node m got r) q
  with_node-Same m got r q d = (
    update_ne m.alive got true q (λ e. d (sym e)),
    update_ne m.next got 0 q (λ e. d (sym e)),
    refl,
    update_ne m.data' got r q (λ e. d (sym e)),
  )

  pub with_node-Kept :
      (m : Heap A) (got : Ptr) (r : A) (qs : List Ptr)
      → Fresh got qs
      → All (Kept m (with_node m got r)) qs
  with_node-Kept m got r [] f = tt
  with_node-Kept m got r (q ∷ qs) f = (
    (update_ne m.alive got true q f.0, update_ne m.next got 0 q f.0),
    with_node-Kept m got r qs f.1,
  )

-- `create_recipe` with memory at a new address.
pub create_recipe_run :
    (m : Heap Recipe) (got : Ptr) (name cuisine difficulty : Text) (prep_time next_id : ℤ)
    → got ≢ 0
    → create_recipe got name cuisine difficulty prep_time next_id m
      ≡ some (
        (got, next_id +ℤ pos 1),
        with_node m got (fresh_recipe name cuisine difficulty prep_time next_id (m.data' got)),
      )
unfolding create_recipe
create_recipe_run m got name cuisine difficulty prep_time next_id z =
    let r = fresh_recipe name cuisine difficulty prep_time next_id (m.data' got) in
    let m1 = record m { alive = update m.alive got true } in
    let m2 = record m1 { data' = update m.data' got r } in
    let live = update_self m.alive got true in
    not_null _ _ m got z
    ∙ run_then _ _ m tt m1 _ (take_block_run m got) (
        run_then _ _ m1 (m.data' got) m1 _ (get_data_run m1 got live) (
          run_then _ _ m1 tt m2 _ (set_data_run m1 got r live)
            (run_then _ _ m2 tt (with_node m got r) _ (set_next_run m2 got 0 live) refl)))

pub fresh_recipe-row :
    (name cuisine difficulty : Text) (prep_time next_id : ℤ) (old : Recipe)
    → IsString name
    → IsString cuisine
    → IsString difficulty
    → row (fresh_recipe name cuisine difficulty prep_time next_id old) ≡ (
      next_id,
      copied old.name name 99,
      copied old.cuisine cuisine 49,
      copied old.difficulty difficulty 19,
      prep_time,
    )
unfolding row fresh_recipe
fresh_recipe-row name cuisine difficulty prep_time next_id old sn sc sd =
    let r = fresh_recipe name cuisine difficulty prep_time next_id old in
    ap (λ a. (next_id, a, c_string r.cuisine, c_string r.difficulty, prep_time))
      (c_string-strncpy old.name name 99 (ground arith) sn)
    ∙ ap₂ (λ a b. (next_id, copied old.name name 99, a, b, prep_time))
        (c_string-strncpy old.cuisine cuisine 49 (ground arith) sc)
        (c_string-strncpy old.difficulty difficulty 19 (ground arith) sd)

-- With memory at a new address `create_recipe` returns it and the next id, and what is there is a list of one recipe with
-- the id and what was copied of the strings; memory elsewhere is as it was.
pub create_recipe-row :
    (m : Heap Recipe) (got : Ptr) (name cuisine difficulty : Text) (prep_time next_id : ℤ)
    → got ≢ 0
    → IsString name
    → IsString cuisine
    → IsString difficulty
    → let old = m.data' got in
      (m' : Heap Recipe) × (create_recipe got name cuisine difficulty prep_time next_id m
        ≡ some ((got, next_id +ℤ pos 1), m'))
      × Seg m' got (got ∷ []) 0
      × (row (m'.data' got) ≡ (
        next_id,
        copied old.name name 99,
        copied old.cuisine cuisine 49,
        copied old.difficulty difficulty 19,
        prep_time,
      ))
      × ((q : Ptr) → q ≢ got → Same m m' q)
create_recipe-row m got name cuisine difficulty prep_time next_id z sn sc sd =
    let r = fresh_recipe name cuisine difficulty prep_time next_id (m.data' got) in
    let old = m.data' got in
    (
      with_node m got r,
      create_recipe_run m got name cuisine difficulty prep_time next_id z,
      with_node-Seg m got r z,
      ap row (update_self m.data' got r)
          ∙ fresh_recipe-row name cuisine difficulty prep_time next_id old sn sc sd,
      λ q d. with_node-Same m got r q d,
    )
