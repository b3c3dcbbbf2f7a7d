-- ===== src/Recipes/Delete.antt =====
-- `delete_recipe_by_id`: the node before, and the list afterwards.
use mycode_c.Base.{
  ℕ, ◌<◌, Bool, true, false, Option, some, none, List, [], ◌∷◌, length, ◌≡◌, refl, sym, ap, ◌∙◌,
  subst, inl, inr, if◌then◌else◌, Bool-cases,
}
use mathlib.Core.Option.{some-injective}
use mycode_c.Base.Int.{ℤ}
use mycode_c.Llist.{Ptr, Heap, Cmd}
use mycode_c.Llist.Links.{Fresh, update_self, update_ne}
use mycode_c.Llist.Ring.{Live, Same}
use mycode_c.Llist.Ring.Steps.{run_then, get_next_run, get_data_run, set_next_run}
use mycode_c.Llist.Find.{search}
use mycode_c.Llist.Remove.{erase, search_hit, search_miss, kept, both_ends}
use mycode_c.Recipes.{Recipe}
use mycode_c.Recipes.Lists.{has_id, take_out, delete_recipe_by_id}
use mycode_c.Recipes.Chain.{Chain, last, last_has, Seg-Live, Seg-split, relinked, Seg-Kept}
use mycode_c.Recipes.Find.{not_null}
use mycode_c.Recipes.Remove.{stop_at, find_before-stop_at, Parted, parted, no_stop}
use mycode_c.Recipes.Taken.{freed, freed-Kept, taken, free_recipe_run, taken-Chain, taken-Same}

module _ {A : Type 0} where
  -- What taking the first node that passes out of a list leaves.
  abbrev pub Deleted : (Ptr → Bool) → List Ptr → Ptr → Heap A → Heap A → Type 0
  Deleted f ps head' m m' =
      Chain m' head' (erase f ps)
      × (m'.data' ≡ m.data')
      × ((p : Ptr) → search f ps ≡ some p → m'.alive p ≡ false)
      × ((q : Ptr) → Fresh q ps → Same m m' q)

-- 1 when a node was found, 0 when none was.
abbrev pub deletions : Option Ptr → ℕ
deletions none = 0
deletions (some p) = 1

erase_miss :
    (f : Ptr → Bool) (q : Ptr) (qs : List Ptr) → f q ≡ false → erase f (q ∷ qs) ≡ q ∷ erase f qs
unfolding erase
erase_miss f q qs miss = ap (λ b. if b then qs else q ∷ erase f qs) miss

erase_hit : (f : Ptr → Bool) (q : Ptr) (qs : List Ptr) → f q ≡ true → erase f (q ∷ qs) ≡ qs
unfolding erase
erase_hit f q qs hit = ap (λ b. if b then qs else q ∷ erase f qs) hit

stop_at_miss :
    (f : Ptr → Bool) (a q : Ptr) (qs : List Ptr)
    → f q ≡ false
    → stop_at f a (q ∷ qs) ≡ stop_at f q qs
unfolding stop_at
stop_at_miss f a q qs miss = ap (λ b. if b then (a, q) else stop_at f q qs) miss

take_out-Deleted :
    (m : Heap Recipe) (f : Ptr → Bool) (head q : Ptr) (qs : List Ptr) (r : Option Ptr)
    → Chain m head (q ∷ qs)
    → f q ≡ false
    → search f qs ≡ r
    → (m' : Heap Recipe) × (take_out head (stop_at f q qs).0 (stop_at f q qs).1 m
        ≡ some ((deletions r, head), m'))
      × Deleted f (q ∷ qs) head m m'
unfolding take_out
take_out-Deleted m f head q qs none k miss e =
    let none_there = search_miss f q qs miss ∙ e in
    (
      m,
      ap (λ c. take_out head (stop_at f q qs).0 c m) (no_stop f q qs e),
      (
        subst (Chain m head) (sym (kept f (q ∷ qs) none_there)) k,
        refl,
        (λ p e'. absurd (both_ends (sym none_there ∙ e'))),
        λ x g. (refl, refl, refl, refl),
      ),
    )
take_out-Deleted m f head q qs (some c) k miss e =
    let at : Parted f q qs c = parted f q qs c e in
    let before = at.0 in
    let after = at.1 in
    let l = last q before in
    let k' = subst (λ t. Chain m head (q ∷ t)) at.2 k in
    let s = Seg-split m head (q ∷ before) c after 0 k'.0 in
    let m1 = relinked m l (m.next c) in
    (
      taken m l c,
      ap (λ z. take_out head z.0 z.1 m) at.4
          ∙ not_null _ _ m c s.1.1
          ∙ run_then _ _ m (m.next c) m _ (get_next_run m c _ s.1.2 refl) (
              run_then _ _ m tt m1 _
                (set_next_run m l (m.next c)
                  (last_has (Live m) q before (Seg-Live m head (q ∷ before) c s.0)))
                (run_then _ _ m1 tt (freed m1 c) _ (free_recipe_run m1 c s.1.1 s.1.2) refl)),
      (
        subst (Chain (taken m l c) head) (sym (erase_miss f q qs miss ∙ ap (λ t. q ∷ t) at.3))
            (taken-Chain m head q before c after k'),
        refl,
        (λ p e'.
            subst (λ z. (taken m l c).alive z ≡ false)
              (some-injective c p (sym e ∙ sym (search_miss f q qs miss) ∙ e'))
              (update_self m.alive c false)),
        λ x g. taken-Same m head q before c after x (subst (λ t. Fresh x (q ∷ t)) at.2 g),
      ),
    )

-- The branch that a test takes.
pub when_true :
    {A B : Type 0} (c d : Cmd A B) (m : Heap A) (b : Bool) → b ≡ true → (if b then c else d) m ≡ c m
when_true c d m b e = ap (λ z. (if z then c else d) m) e

pub when_false :
    {A B : Type 0} (c d : Cmd A B) (m : Heap A) (b : Bool)
    → b ≡ false
    → (if b then c else d) m ≡ d m
when_false c d m b e = ap (λ z. (if z then c else d) m) e

-- What `delete_recipe_by_id` does from a head.
abbrev Deletes : Heap Recipe → List Ptr → ℤ → ℕ → Ptr → Type 0
Deletes m ps id fuel head =
    (head' : Ptr) × (m' : Heap Recipe) × (delete_recipe_by_id fuel head id m
      ≡ some ((deletions (search (λ q. has_id id (m.data' q)) ps), head'), m'))
    × Deleted (λ q. has_id id (m.data' q)) ps head' m m'

delete_first :
    (m : Heap Recipe) (p : Ptr) (ps : List Ptr) (id : ℤ) (fuel : ℕ)
    → Chain m p (p ∷ ps)
    → has_id id (m.data' p) ≡ true
    → Deletes m (p ∷ ps) id fuel p
unfolding delete_recipe_by_id
delete_first m p ps id fuel k hit =
    let f = λ (q : Ptr). has_id id (m.data' q) in
    let found = search_hit f p ps hit in
    let gone : erase f (p ∷ ps) ≡ ps = erase_hit f p ps hit in
    (
      m.next p,
      freed m p,
      not_null _ _ m p k.0.1
          ∙ run_then _ _ m (m.data' p) m _ (get_data_run m p k.0.2) (
              when_true _ _ m (f p) hit
              ∙ run_then _ _ m (m.next p) m _ (get_next_run m p _ k.0.2 refl)
                  (run_then _ _ m tt (freed m p) _ (free_recipe_run m p k.0.1 k.0.2) refl))
          ∙ ap (λ r. some ((deletions r, m.next p), freed m p)) (sym found),
      (
        subst (Chain (freed m p) (m.next p)) (sym gone)
            (Seg-Kept m (freed m p) (m.next p) ps 0 k.0.3 (freed-Kept m p ps k.1.0), k.1.1),
        refl,
        (λ q e.
            subst (λ z. (freed m p).alive z ≡ false) (some-injective p q (sym found ∙ e))
              (update_self m.alive p false)),
        λ x g. (update_ne m.alive p false x (λ e. g.0 (sym e)), refl, refl, refl),
      ),
    )

delete_later :
    (m : Heap Recipe) (p : Ptr) (ps : List Ptr) (id : ℤ) (fuel : ℕ)
    → Chain m p (p ∷ ps)
    → has_id id (m.data' p) ≡ false
    → length (p ∷ ps) < fuel
    → Deletes m (p ∷ ps) id fuel p
unfolding delete_recipe_by_id
delete_later m p ps id fuel k miss n =
    let f = λ (q : Ptr). has_id id (m.data' q) in
    let rest = take_out-Deleted m f p p ps (search f ps) k miss refl in
    (
      p,
      rest.0,
      not_null _ _ m p k.0.1
          ∙ run_then _ _ m (m.data' p) m _ (get_data_run m p k.0.2) (
              when_false _ _ m (f p) miss
              ∙ run_then _ _ m (stop_at f p ps) m _
                  (find_before-stop_at m (has_id id) 0 p (p ∷ ps) fuel k.0 n
                    ∙ ap (λ z. some (z, m)) (stop_at_miss f 0 p ps miss))
                  rest.1)
          ∙ ap (λ r. some ((deletions r, p), rest.0)) (sym (search_miss f p ps miss)),
      rest.2,
    )

-- On a whole list, with one step of fuel more than there are nodes, `delete_recipe_by_id` takes the first recipe
-- with the id out of the list and frees its node: the head leads to the other nodes in order, no node's data and
-- no memory outside the list is changed, and the call returns 1; when no recipe has the id it returns 0.
pub delete_recipe_by_id-Deleted :
    (m : Heap Recipe) (head : Ptr) (ps : List Ptr) (id : ℤ) (fuel : ℕ)
    → Chain m head ps
    → length ps < fuel
    → (head' : Ptr) × (m' : Heap Recipe) × (delete_recipe_by_id fuel head id m
        ≡ some ((deletions (search (λ q. has_id id (m.data' q)) ps), head'), m'))
      × Deleted (λ q. has_id id (m.data' q)) ps head' m m'
unfolding delete_recipe_by_id search erase
delete_recipe_by_id-Deleted m head [] id fuel k n = (
  head,
  m,
  subst (λ h. delete_recipe_by_id fuel h id m ≡ some ((0, h), m)) (sym k.0) refl,
  (k, refl, (λ p e. absurd (both_ends e)), λ q g. (refl, refl, refl, refl)),
)
delete_recipe_by_id-Deleted m head (p ∷ ps) id fuel k n =
    let k' = subst (λ h. Chain m h (p ∷ ps)) k.0.0 k in
    subst (Deletes m (p ∷ ps) id fuel) (sym k.0.0) (elim (Bool-cases (has_id id (m.data' p))) [
      | inl t ↦ delete_first m p ps id fuel k' t
      | inr t ↦ delete_later m p ps id fuel k' t n
    ])
