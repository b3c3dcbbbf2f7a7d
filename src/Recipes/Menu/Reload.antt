-- ===== src/Recipes/Menu/Reload.antt =====
-- The choices 7 and 0 of the menu of c+ds/main.c.
use mycode_c.Base.{
  ℕ, ◌<◌, ◌≤◌, true, false, some, List, [], ◌∷◌, ◌≡◌, ◌≢◌, refl, ap, ap₂, ◌∙◌, All, All-map, length,
  arith,
}
use mycode_c.Base.Int.{ℤ, pos}
use mycode_c.Llist.{Ptr, Heap}
use mycode_c.Llist.Links.{Fresh, Distinct}
use mycode_c.Llist.Ring.{Same, Apart, Apart-swap, contents}
use mycode_c.Llist.Ring.Steps.{run_then}
use mycode_c.Llist.Insert.{Same-trans}
use mycode_c.Recipes.{Recipe}
use mycode_c.Recipes.Chain.{Chain, Kept, Seg-Kept, head_of}
use mycode_c.Recipes.Find.{not_null}
use mycode_c.Recipes.Free.{free_all-Freed}
use mycode_c.Recipes.Files.{RecipeFile, load_from}
use mycode_c.Recipes.Files.RoundTrip.{load_file_run, load_none, load_from-Loaded}
use mycode_c.Recipes.Menu.{reload_recipes}

Kept-of : (m m' : Heap Recipe) (qs : List Ptr) → All (Same m m') qs → All (Kept m m') qs
Kept-of m m' qs s = All-map (Same m m') (Kept m m') qs (λ q x. (x.0, x.1)) s

contents_of :
    (m m' : Heap Recipe) (qs : List Ptr) → All (Same m m') qs → contents m' qs ≡ contents m qs
contents_of m m' [] s = refl
contents_of m m' (q ∷ qs) s = ap₂ ◌∷◌ s.0.3 (contents_of m m' qs s.1)

Same-All :
    (m m' : Heap Recipe) (away qs : List Ptr)
    → ((q : Ptr) → Fresh q away → Same m m' q)
    → Apart qs away
    → All (Same m m') qs
Same-All m m' away qs s a = All-map (λ q. Fresh q away) (Same m m') qs s a

-- A list is in memory and a file holds a next id, a count and as many records; there is memory at as many new
-- addresses, and fuel for both lists. When the file holds no record, the choice 7 takes its next id and
-- leaves list and memory. When it holds some, the choice ends with a list of those records in their order,
-- every node of the old list is freed, and the rest of memory is as it was.
pub reload_recipes-Replaced :
    (m : Heap Recipe) (head : Ptr) (ps gots : List Ptr) (records : List Recipe) (fuel : ℕ)
    (next_id old unset : ℤ)
    → Chain m head ps
    → length ps < fuel
    → length records ≤ fuel
    → length records ≡ length gots
    → All (λ g. g ≢ 0) gots
    → Distinct gots
    → Apart gots ps
    → let file : RecipeFile = record {
      ints = next_id ∷ pos (length records) ∷ [];
      records = records;
    } in
      (records ≡ []
        → reload_recipes fuel gots true head old unset file m ≡ some ((head, next_id), m))
      × (records ≢ []
          → (head' : Ptr) × (m' : Heap Recipe) × (reload_recipes fuel gots true head old unset file
                m
              ≡ some ((head', next_id), m'))
            × Chain m' head' gots
            × (contents m' gots ≡ records)
            × All (λ q. m'.alive q ≡ false) ps
            × ((q : Ptr) → Fresh q gots → Fresh q ps → Same m m' q))
unfolding reload_recipes
reload_recipes-Replaced m head ps gots [] fuel next_id old unset c n1 n2 l z d a = (
  (λ e.
      run_then _ _ m (0, next_id) m _
        (load_file_run m fuel gots next_id old unset [] 0 m (load_none m fuel gots)) refl),
  λ e. absurd (e refl),
)
reload_recipes-Replaced m head ps [] (r ∷ rs) fuel next_id old unset c n1 n2 l z d a =
    absurd (omega (arith, l))
reload_recipes-Replaced m head ps (g ∷ gs) (r ∷ rs) fuel next_id old unset c n1 n2 l z d a = (
  λ e. absurd (ground (arith, e)),
  λ e.
      let loaded =
        load_from-Loaded m fuel 0 [] (g ∷ gs) (r ∷ rs) l z d (refl, tt) (omega (arith, n2, l)) in
      let m1 = loaded.1 in
      let still = Same-All m m1 (g ∷ gs) ps loaded.3.2 (Apart-swap (g ∷ gs) ps a) in
      let freed =
        free_all-Freed m1 head ps fuel (Seg-Kept m m1 head ps 0 c.0 (Kept-of m m1 ps still), c.1)
          n1 in
      let m2 = freed.0 in
      let there = Same-All m1 m2 ps (g ∷ gs) freed.3 a in
      (
        loaded.0,
        m2,
        run_then _ _ m (loaded.0, next_id) m1 _
            (load_file_run m fuel (g ∷ gs) next_id old unset (r ∷ rs) loaded.0 m1
              (ap (λ k. load_from fuel k (g ∷ gs) (r ∷ rs) 0 m) l ∙ loaded.2))
            (not_null _ _ m1 loaded.0 (head_of m1 loaded.0 g gs 0 loaded.3.0.0)
              ∙ run_then _ _ m1 tt m2 _ freed.1 refl),
        (Seg-Kept m1 m2 loaded.0 (g ∷ gs) 0 loaded.3.0.0 (Kept-of m1 m2 (g ∷ gs) there), d),
        contents_of m1 m2 (g ∷ gs) there ∙ loaded.3.1,
        freed.2,
        λ q f1 f2. Same-trans m m1 m2 q (loaded.3.2 q f1) (freed.3 q f2),
      ),
)
