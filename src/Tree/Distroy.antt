-- ===== src/Tree/Distroy.antt =====
-- `tree_distroy` of tree/01tree.c, on the heap of Llist: the pointers `l` and `r` of a `struct tree_node` are
-- the fields `prev` and `next` there.
use mycode_c.Base.{
  ℕ, zero, suc, ◌<◌, ◌≡◌, ◌≢◌, refl, sym, ap, subst, ◌∙◌, arith, false, some, none, List, [], ◌∷◌,
  ◌++◌, max, All, All-append, All-left, All-right, ◌==◌, ==_ne, if◌then◌else◌,
}
use mycode_c.Tree.{Stu}
use mycode_c.Llist.{Ptr, Heap, Cmd, pure, ◌>>=◌, ◌>>◌, get_prev, get_next, free, update}
use mycode_c.Llist.Links.{Fresh, Distinct, All-both, update_self, update_ne}
use mycode_c.Llist.Ring.{Live, Same, Apart, Apart-swap, Distinct-split}
use mycode_c.Llist.Ring.Steps.{run_then, get_prev_run, get_next_run, free_run}

-- `none` is an access to a node that is not allocated, or fuel that ran out.
unfoldable pub tree_distroy : (fuel : ℕ) → (root : Ptr) → Cmd Stu (Unit {0})
tree_distroy zero root = λ m. none
tree_distroy (suc fuel) root = if root == 0 then pure tt else (do
  l ← get_prev root
  tree_distroy fuel l
  r ← get_next root
  tree_distroy fuel r
  free root)

-- The addresses of a tree's nodes, in its shape.
pub data Shape : Type 0 where
  leaf : Shape
  branch : (p : Ptr) (l r : Shape) → Shape

unfoldable pub nodes : Shape → List Ptr
nodes leaf = []
nodes (branch p l r) = nodes l ++ (nodes r ++ (p ∷ []))

unfoldable pub depth : Shape → ℕ
depth leaf = 0
depth (branch p l r) = suc (max (depth l) (depth r))

-- The tree at `root` in memory has this shape.
unfoldable pub Rooted : Heap Stu → (root : Ptr) → Shape → Type 0
Rooted m root leaf = root ≡ 0
Rooted m root (branch p l r) =
    (root ≡ p) × (p ≢ 0) × Live m p × Rooted m (m.prev p) l × Rooted m (m.next p) r

Rooted-Same :
    (m m' : Heap Stu) (root : Ptr) (t : Shape)
    → Rooted m root t
    → All (Same m m') (nodes t)
    → Rooted m' root t
unfolding Rooted nodes
Rooted-Same m m' root leaf h k = h
Rooted-Same m m' root (branch p l r) (e, z, live, hl, hr) k =
    let kl = All-left (Same m m') (nodes l) (nodes r ++ (p ∷ [])) k in
    let kr = All-right (Same m m') (nodes l) (nodes r ++ (p ∷ [])) k in
    let krr = All-left (Same m m') (nodes r) (p ∷ []) kr in
    let kp = (All-right (Same m m') (nodes r) (p ∷ []) kr).0 in
    (
      e,
      z,
      kp.0 ∙ live,
      subst (λ q. Rooted m' q l) (sym kp.2) (Rooted-Same m m' (m.prev p) l hl kl),
      subst (λ q. Rooted m' q r) (sym kp.1) (Rooted-Same m m' (m.next p) r hr krr),
    )

-- These addresses are no longer allocated, and the rest of memory is as before.
abbrev pub Freed : List Ptr → Heap Stu → Heap Stu → Type 0
Freed ps m m' = All (λ q. m'.alive q ≡ false) ps × ((q : Ptr) → Fresh q ps → Same m m' q)

Same-both : (m m1 m2 : Heap Stu) (q : Ptr) → Same m m1 q → Same m1 m2 q → Same m m2 q
Same-both m m1 m2 q s t = (t.0 ∙ s.0, t.1 ∙ s.1, t.2 ∙ s.2, t.3 ∙ s.3)

still_freed :
    (m m' : Heap Stu) (ps qs : List Ptr)
    → All (λ q. m.alive q ≡ false) ps
    → Apart ps qs
    → ((q : Ptr) → Fresh q qs → Same m m' q)
    → All (λ q. m'.alive q ≡ false) ps
still_freed m m' ps qs dead apart same = All-both ps dead apart (λ q d f. (same q f).0 ∙ d)

Freed-join :
    (m m1 m2 : Heap Stu) (ps qs : List Ptr)
    → Apart ps qs
    → Freed ps m m1
    → Freed qs m1 m2
    → Freed (ps ++ qs) m m2
Freed-join m m1 m2 ps qs apart f g = (
  All-append (λ q. m2.alive q ≡ false) ps qs (still_freed m1 m2 ps qs f.0 apart g.1) g.0,
  λ q h.
      Same-both m m1 m2 q (f.1 q (All-left (λ y. q ≢ y) ps qs h))
        (g.1 q (All-right (λ y. q ≢ y) ps qs h)),
)

free-Freed :
    (m : Heap Stu) (p : Ptr) → Freed (p ∷ []) m (record m { alive = update m.alive p false })
free-Freed m p = (
  (update_self m.alive p false, tt),
  λ q f. (update_ne m.alive p false q (λ e. f.0 (sym e)), refl, refl, refl),
)

Same-All :
    (m m' : Heap Stu) (ps qs : List Ptr)
    → Apart qs ps
    → ((q : Ptr) → Fresh q ps → Same m m' q)
    → All (Same m m') qs
Same-All m m' ps [] a f = tt
Same-All m m' ps (q ∷ qs) a f = (f q a.0, Same-All m m' ps qs a.1 f)

at_leaf :
    {B : Type 0} (c d : Cmd Stu B) (m : Heap Stu) (root : Ptr)
    → root ≡ 0
    → (if root == 0 then c else d) m ≡ c m
at_leaf c d m root e = subst (λ r. (if r == 0 then c else d) m ≡ c m) (sym e) refl

at_branch :
    {B : Type 0} (c d : Cmd Stu B) (m : Heap Stu) (root : Ptr)
    → root ≢ 0
    → (if root == 0 then c else d) m ≡ d m
at_branch c d m root n = ap (λ b. (if b then c else d) m) (==_ne root 0 n)

-- On a tree of distinct, allocated nodes, with fuel for one level more than it has, `tree_distroy` ends
-- without an access to a node that is not allocated, having freed every node, each once; the rest of memory
-- is as it was.
pub tree_distroy-Freed :
    (fuel : ℕ) (m : Heap Stu) (root : Ptr) (t : Shape)
    → Rooted m root t
    → Distinct (nodes t)
    → depth t < fuel
    → (m' : Heap Stu) × (tree_distroy fuel root m ≡ some (tt, m')) × Freed (nodes t) m m'
unfolding tree_distroy Rooted nodes depth
tree_distroy-Freed zero m root t h d n = absurd (omega (arith, n))
tree_distroy-Freed (suc fuel) m root leaf h d n =
    (m, at_leaf _ _ m root h, (tt, λ q f. (refl, refl, refl, refl)))
tree_distroy-Freed (suc fuel) m root (branch p l r) (e, z, live, hl, hr) d n =
    let (dl, drest, apart) = Distinct-split (nodes l) (nodes r ++ (p ∷ [])) d in
    let (dr, dp, apart') = Distinct-split (nodes r) (p ∷ []) drest in
    let (m1, run1, freed1) = tree_distroy-Freed fuel m (m.prev p) l hl dl (omega (arith, n)) in
    let kept1 =
      Same-All m m1 (nodes l) (nodes r ++ (p ∷ []))
        (Apart-swap (nodes l) (nodes r ++ (p ∷ [])) apart) freed1.1 in
    let kept_r = All-left (Same m m1) (nodes r) (p ∷ []) kept1 in
    let kept_p = (All-right (Same m m1) (nodes r) (p ∷ []) kept1).0 in
    let (m2, run2, freed2) =
      tree_distroy-Freed fuel m1 (m.next p) r (Rooted-Same m m1 (m.next p) r hr kept_r) dr
        (omega (arith, n)) in
    let same_p = (freed2.1 p (Apart-swap (nodes r) (p ∷ []) apart').0) in
    let live1 : Live m1 p = kept_p.0 ∙ live in
    let live2 : Live m2 p = same_p.0 ∙ live1 in
    let m3 = record m2 { alive = update m2.alive p false } in
    (
      m3,
      subst (λ q. tree_distroy (suc fuel) q m ≡ some (tt, m3)) (sym e)
          (at_branch _ _ m p z
            ∙ run_then _ _ m (m.prev p) m _ (get_prev_run m p _ live refl) (
                run_then _ _ m tt m1 _ run1 (
                  run_then _ _ m1 (m.next p) m1 _ (get_next_run m1 p _ live1 kept_p.1)
                    (run_then _ _ m1 tt m2 _ run2 (free_run m2 p live2))))),
      Freed-join m m1 m3 (nodes l) (nodes r ++ (p ∷ [])) apart freed1
          (Freed-join m1 m2 m3 (nodes r) (p ∷ []) apart' freed2 (free-Freed m2 p)),
    )
