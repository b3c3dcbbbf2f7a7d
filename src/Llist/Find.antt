-- ===== src/Llist/Find.antt =====
-- The walks round the ring: `_find`, `llist_find` and `llist_display`.
use mycode_c.Base.{
  ℕ, zero, suc, Bool, Option, none, some, List, [], ◌∷◌, map, length, ◌≡◌, ◌≢◌, sym, refl, ap, ◌∙◌,
  subst, ◌<◌, arith, inl, inr, All, if◌then◌else◌, ◌==◌, ==_ne, ==_iff, Bool-cases,
}
use mathlib.Core.Option.{map as map_option}
use mycode_c.Llist.{
  Ptr, Heap, Cmd, display_from, llist_display, find_from, find_node, found_data, llist_find,
}
use mycode_c.Llist.Links.{Links}
use mycode_c.Llist.Ring.{Ring, Live, contents}
use mycode_c.Llist.Ring.Steps.{run_then, get_next_run, get_data_run}

-- The first element that passes, and the list without it.
unfoldable pub search {ℓ} : {A : Type ℓ} → (A → Bool) → List A → Option A
search f [] = none
search f (x ∷ xs) = if f x then some x else search f xs

pub search-map :
    {A : Type 0} (f : A → Bool) (g : Ptr → A) (ps : List Ptr)
    → search f (map g ps) ≡ map_option g (search (λ p. f (g p)) ps)
unfolding search
search-map f g [] = refl
search-map f g (p ∷ ps) = elim (Bool-cases (f (g p))) [
  | inl e ↦ rw (e) refl
  | inr e ↦ rw (e) (search-map f g ps)
]

module _ {A : Type 0} where
  pub at_head :
      {B : Type 0} (c d : Cmd A B) (m : Heap A) (h : Ptr) → (if h == h then c else d) m ≡ c m
  at_head c d m h = ap (λ b. (if b then c else d) m) ((==_iff h h).1 refl)

  pub past_head :
      {B : Type 0} (c d : Cmd A B) (m : Heap A) (h cur : Ptr)
      → h ≢ cur
      → (if cur == h then c else d) m ≡ d m
  past_head c d m h cur n = ap (λ b. (if b then c else d) m) (==_ne cur h (λ e. n (sym e)))

  -- The walk from the node after `a`, over a segment that ends at the handle.
  display_from-contents :
      (m : Heap A) (h a cur : Ptr) (ps : List Ptr) (fuel : ℕ)
      → Links m.next m.prev a ps h
      → m.next a ≡ cur
      → All (λ p. h ≢ p) ps
      → All (Live m) ps
      → length ps < fuel
      → display_from fuel h cur m ≡ some (contents m ps, m)
  unfolding display_from
  display_from-contents m h a cur ps zero l e d live n = absurd (omega (arith, n))
  display_from-contents m h a cur [] (suc fuel) l e d live n =
      subst (λ c. display_from (suc fuel) h c m ≡ some ([], m)) (sym l.0 ∙ e) (at_head _ _ m h)
  display_from-contents m h a cur (p ∷ ps) (suc fuel) l e d live n =
      subst (λ c. display_from (suc fuel) h c m ≡ some (contents m (p ∷ ps), m)) (sym l.0 ∙ e)
        (past_head _ _ m h p d.0
          ∙ run_then _ _ m (m.data' p) m _ (get_data_run m p live.0) (
              run_then _ _ m (m.next p) m _ (get_next_run m p _ live.0 refl) (
                run_then _ _ m (contents m ps) m _
                  (display_from-contents m h p (m.next p) ps fuel l.2 refl d.1 live.1
                    (omega (arith, n)))
                  refl)))

  find_from-search :
      (m : Heap A) (h a cur : Ptr) (cmp : A → Bool) (ps : List Ptr) (fuel : ℕ)
      → Links m.next m.prev a ps h
      → m.next a ≡ cur
      → All (λ p. h ≢ p) ps
      → All (Live m) ps
      → length ps < fuel
      → find_from fuel h cur cmp m ≡ some (search (λ p. cmp (m.data' p)) ps, m)
  unfolding find_from search
  find_from-search m h a cur cmp ps zero l e d live n = absurd (omega (arith, n))
  find_from-search m h a cur cmp [] (suc fuel) l e d live n =
      subst (λ c. find_from (suc fuel) h c cmp m ≡ some (none, m)) (sym l.0 ∙ e) (at_head _ _ m h)
  find_from-search m h a cur cmp (p ∷ ps) (suc fuel) l e d live n =
      let tests = λ (p : Ptr). cmp (m.data' p) in
      let later =
        find_from-search m h p (m.next p) cmp ps fuel l.2 refl d.1 live.1 (omega (arith, n)) in
      subst (λ c. find_from (suc fuel) h c cmp m ≡ some (search tests (p ∷ ps), m)) (sym l.0 ∙ e)
        (past_head _ _ m h p d.0
          ∙ run_then _ _ m (m.data' p) m _ (get_data_run m p live.0) (elim (Bool-cases (tests p)) [
            | inl t ↦ rw (t) refl
            | inr t ↦ rw (t) (run_then _ _ m (m.next p) m _ (get_next_run m p _ live.0 refl) later)
          ]))

  pub find_node-search :
      (m : Heap A) (h : Ptr) (cmp : A → Bool) (ps : List Ptr) (fuel : ℕ)
      → Ring m h ps
      → length ps < fuel
      → find_node fuel h cmp m ≡ some (search (λ p. cmp (m.data' p)) ps, m)
  unfolding find_node
  find_node-search m h cmp ps fuel r n =
      run_then _ _ m (m.next h) m _ (get_next_run m h _ r.2.0 refl)
        (find_from-search m h h (m.next h) cmp ps fuel r.0 refl r.1.0 r.2.1 n)

  -- What is found is one of the nodes, and its data is what is found among the data.
  found_run :
      (m : Heap A) (cmp : A → Bool) (ps : List Ptr)
      → All (Live m) ps
      → found_data (search (λ p. cmp (m.data' p)) ps) m ≡ some (search cmp (contents m ps), m)
  unfolding found_data search
  found_run m cmp [] live = refl
  found_run m cmp (p ∷ ps) live = elim (Bool-cases (cmp (m.data' p))) [
    | inl e ↦ rw (e) (run_then _ _ m (m.data' p) m _ (get_data_run m p live.0) refl)
    | inr e ↦ rw (e) (found_run m cmp ps live.1)
  ]

  -- In a ring, with one step of fuel more than there are nodes, `llist_find` returns the first data that the
  -- comparison accepts, NULL when it accepts none, and leaves the heap alone.
  pub llist_find-search :
      (m : Heap A) (h : Ptr) (cmp : A → Bool) (ps : List Ptr) (fuel : ℕ)
      → Ring m h ps
      → length ps < fuel
      → llist_find fuel h cmp m ≡ some (search cmp (contents m ps), m)
  unfolding llist_find
  llist_find-search m h cmp ps fuel r n =
      run_then _ _ m _ m _ (find_node-search m h cmp ps fuel r n) (found_run m cmp ps r.2.1)

  -- In a ring, with one step of fuel more than there are nodes, `llist_display` hands the data to `op` in the
  -- order of the list and leaves the heap alone.
  pub llist_display-contents :
      (m : Heap A) (h : Ptr) (ps : List Ptr) (fuel : ℕ)
      → Ring m h ps
      → length ps < fuel
      → llist_display fuel h m ≡ some (contents m ps, m)
  unfolding llist_display
  llist_display-contents m h ps fuel r n =
      run_then _ _ m (m.next h) m _ (get_next_run m h _ r.2.0 refl)
        (display_from-contents m h h (m.next h) ps fuel r.0 refl r.1.0 r.2.1 n)
