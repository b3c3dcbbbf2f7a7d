-- ===== src/Llist/Insert.antt =====
-- `llist_insert`, on the ring and the list of data that it stands for.
use mycode_c.Base.{
  Bool, true, false, some, List, [], ◌∷◌, ◌++◌, map, ◌≡◌, ◌≢◌, sym, refl, ap, ap₂, ◌∙◌, subst,
  append_assoc, if◌then◌else◌, ==_ne,
}
use mycode_c.Base.Int.{ℤ, pos, negsuc}
use mycode_c.Llist.{
  Ptr, Heap, Mode, head_insert, tail_insert, other, update, pure, ◌>>◌, take_block, set_data, place,
  llist_insert,
}
use mycode_c.Llist.Links.{Fresh, Links-split, update_self, update_ne}
use mycode_c.Llist.Ring.{Ring, Ring-rotate, All-rotate, Same, contents}
use mycode_c.Llist.Ring.Steps.{linked, run_then, get_prev_run, set_data_run, free_run}
use mycode_c.Llist.Ring.Change.{linked-Ring, link-runs, linked-Same, Ring-alive, contents-Fresh}

-- Where each mode puts a value, and what it returns.
abbrev pub placed {ℓ} : {A : Type ℓ} → Mode → A → List A → List A
placed head_insert x xs = x ∷ xs
placed tail_insert x xs = xs ++ x ∷ []
placed other x xs = xs

-- Whether the new node stays.
abbrev pub stays : Mode → Bool
stays head_insert = true
stays tail_insert = true
stays other = false

abbrev pub status : Mode → ℤ
status head_insert = pos 0
status tail_insert = pos 0
status other = negsuc 1

-- A list that is not empty has a last element.
last_of_cons : (x : Ptr) (xs : List Ptr) → (ys : List Ptr) × (y : Ptr) × (x ∷ xs ≡ ys ++ y ∷ [])
last_of_cons x [] = ([], x, refl)
last_of_cons x (z ∷ xs) = let l = last_of_cons z xs in (x ∷ l.0, l.1, ap (λ t. x ∷ t) l.2)

module _ {A : Type 0} where
  -- The heap after `malloc` and `memcpy`.
  abbrev pub stored : Heap A → Ptr → A → Heap A
  stored m got x = record m { alive = update m.alive got true; data' = update m.data' got x }

  -- What an insertion in a ring gives: the ring and its data, the rest of memory as it was, and the new node in
  -- memory or freed.
  abbrev pub Inserted : (got : Ptr) → Ptr → List Ptr → A → Mode → Heap A → Heap A → Type 0
  Inserted got h ps x mode m m' =
      Ring m' h (placed mode got ps)
      × (contents m' (placed mode got ps) ≡ placed mode x (contents m ps))
      × ((q : Ptr) → Fresh q (got ∷ h ∷ ps) → Same m m' q)
      × (m'.alive got ≡ stays mode)

  stored-Ring :
      (m : Heap A) (got : Ptr) (x : A) (h : Ptr) (ps : List Ptr)
      → Fresh got (h ∷ ps)
      → Ring m h ps
      → Ring (stored m got x) h ps
  stored-Ring m got x h ps f r = Ring-alive m got true h ps f r

  stored-Same : (m : Heap A) (got : Ptr) (x : A) (q : Ptr) → q ≢ got → Same m (stored m got x) q
  stored-Same m got x q d = (
    update_ne m.alive got true q (λ e. d (sym e)),
    refl,
    refl,
    update_ne m.data' got x q (λ e. d (sym e)),
  )

  pub Same-trans : (m m1 m2 : Heap A) (q : Ptr) → Same m m1 q → Same m1 m2 q → Same m m2 q
  Same-trans m m1 m2 q s t = (t.0 ∙ s.0, t.1 ∙ s.1, t.2 ∙ s.2, t.3 ∙ s.3)

  pub contents-placed :
      (m : Heap A) (got : Ptr) (x : A) (ps : List Ptr)
      → Fresh got ps
      → map (update m.data' got x) (ps ++ got ∷ []) ≡ contents m ps ++ x ∷ []
  contents-placed m got x [] f = ap (λ y. y ∷ []) (update_self m.data' got x)
  contents-placed m got x (p ∷ ps) f =
      ap₂ (λ y ys. y ∷ ys) (update_ne m.data' got x p f.0) (contents-placed m got x ps f.1)

  -- The rest of the call, from the stored node on.
  abbrev Places : Heap A → (got h : Ptr) → A → Mode → List Ptr → Type 0
  Places m got h x mode ps =
      (m' : Heap A) × (place got h mode (stored m got x) ≡ some (status mode, m'))
      × Inserted got h ps x mode m m'

  place_head :
      (m : Heap A) (got h : Ptr) (x : A) (ps : List Ptr)
      → Fresh got (h ∷ ps)
      → Ring m h ps
      → Places m got h x head_insert ps
  unfolding place
  place_head m got h x ps f r =
      let m0 = stored m got x in
      let r0 = stored-Ring m got x h ps f r in
      let l = update_self m.alive got true in
      (
        linked m0 got h,
        link-runs m0 got h ps r0 f l,
        (
          linked-Ring m0 got h ps r0 f l,
          ap₂ (λ y ys. y ∷ ys) (update_self m.data' got x) (contents-Fresh m got x ps f.1),
          λ q g.
              Same-trans m m0 (linked m0 got h) q (stored-Same m got x q g.0)
                (linked-Same m0 got h ps r0 q g),
          update_self m.alive got true,
        ),
      )

  place_last :
      (m : Heap A) (got h : Ptr) (x : A) (ls : List Ptr) (y : Ptr)
      → Fresh got (h ∷ ls ++ y ∷ [])
      → Ring m h (ls ++ y ∷ [])
      → Places m got h x tail_insert (ls ++ y ∷ [])
  unfolding place
  place_last m got h x ls y f r =
      let m0 = stored m got x in
      let live = update_self m.alive got true in
      let ry = Ring-rotate m0 h ls y [] (stored-Ring m got x h (ls ++ y ∷ []) f r) in
      let fy = All-rotate (λ q. got ≢ q) h ls y [] f in
      let m' = linked m0 got y in
      (
        m',
        run_then _ _ m0 y m0 _
            (get_prev_run m0 h y (stored-Ring m got x h (ls ++ y ∷ []) f r).2.0
              (Links-split m.next m.prev h ls y [] h r.0).1.1)
            (link-runs m0 got y (h ∷ ls) ry fy live),
        (
          subst (Ring m' h) (sym (append_assoc ls (y ∷ []) (got ∷ [])))
              (Ring-rotate m' y (got ∷ []) h ls (linked-Ring m0 got y (h ∷ ls) ry fy live)),
          contents-placed m got x (ls ++ y ∷ []) f.1,
          λ q g.
              Same-trans m m0 m' q (stored-Same m got x q g.0)
                (linked-Same m0 got y (h ∷ ls) ry q (g.0, All-rotate (λ z. q ≢ z) h ls y [] g.1)),
          update_self m.alive got true,
        ),
      )

  place_tail :
      (m : Heap A) (got h : Ptr) (x : A) (ps : List Ptr)
      → Fresh got (h ∷ ps)
      → Ring m h ps
      → Places m got h x tail_insert ps
  unfolding place
  place_tail m got h x [] f r =
      let m0 = stored m got x in
      let rest = place_head m got h x [] f r in
      (
        rest.0,
        run_then _ _ m0 h m0 _ (get_prev_run m0 h h (stored-Ring m got x h [] f r).2.0 r.0.1)
            rest.1,
        rest.2,
      )
  place_tail m got h x (p ∷ ps) f r =
      let l = last_of_cons p ps in
      subst (Places m got h x tail_insert) (sym l.2) (
        place_last m got h x l.0 l.1 (subst (λ t. Fresh got (h ∷ t)) l.2 f)
          (subst (Ring m h) l.2 r))

  place_other :
      (m : Heap A) (got h : Ptr) (x : A) (ps : List Ptr)
      → Fresh got (h ∷ ps)
      → Ring m h ps
      → Places m got h x other ps
  unfolding place
  place_other m got h x ps f r =
      let m0 = stored m got x in
      let m' = record m0 { alive = update m0.alive got false } in
      (
        m',
        run_then _ _ m0 tt m' _ (free_run m0 got (update_self m.alive got true)) refl,
        (
          Ring-alive m0 got false h ps f (stored-Ring m got x h ps f r),
          contents-Fresh m got x ps f.1,
          λ q g.
              Same-trans m m0 m' q (stored-Same m got x q g.0)
                (update_ne m0.alive got false q (λ e. g.0 (sym e)), refl, refl, refl),
          update_self m0.alive got false,
        ),
      )

  place-Places :
      (m : Heap A) (got h : Ptr) (x : A) (mode : Mode) (ps : List Ptr)
      → Fresh got (h ∷ ps)
      → Ring m h ps
      → Places m got h x mode ps
  place-Places m got h x head_insert ps f r = place_head m got h x ps f r
  place-Places m got h x tail_insert ps f r = place_tail m got h x ps f r
  place-Places m got h x other ps f r = place_other m got h x ps f r

  stored_run :
      (m : Heap A) (got h : Ptr) (x : A) (mode : Mode)
      → got ≢ 0
      → llist_insert got h x mode m ≡ place got h mode (stored m got x)
  unfolding llist_insert take_block
  stored_run m got h x mode z =
      let m1 = record m { alive = update m.alive got true } in
      ap
        (λ b.
          (if b then pure (negsuc 0) else (take_block got >> (set_data got x >> place got h mode)))
            m)
        (==_ne got 0 z)
      ∙ run_then _ _ m tt m1 _ refl (
          run_then _ _ m1 tt (stored m got x) _
            (set_data_run m1 got x (update_self m.alive got true)) refl)

  -- With memory at a new address an insertion returns what its mode says: at the head or the tail the
  -- new node stands first or last and so does its data, any other mode frees the node, and
  -- in each case the ring is whole and memory outside it is as it was.
  pub llist_insert-Ring :
      (m : Heap A) (got h : Ptr) (x : A) (mode : Mode) (ps : List Ptr)
      → got ≢ 0
      → Fresh got (h ∷ ps)
      → Ring m h ps
      → (m' : Heap A) × (llist_insert got h x mode m ≡ some (status mode, m'))
        × Inserted got h ps x mode m m'
  llist_insert-Ring m got h x mode ps z f r =
      let rest = place-Places m got h x mode ps f r in
      (rest.0, stored_run m got h x mode z ∙ rest.1, rest.2)
