-- ===== src/Llist/Create.antt =====
-- `llist_create`.
use mycode_c.Base.{true, some, [], ◌≡◌, ◌≢◌, sym, refl, ap, ◌∙◌, if◌then◌else◌, ==_ne}
use mycode_c.Llist.{Ptr, Heap, update, pure, ◌>>◌, take_block, set_next, set_prev, llist_create}
use mycode_c.Llist.Links.{update_self, update_ne}
use mycode_c.Llist.Ring.{Ring, Same}
use mycode_c.Llist.Ring.Steps.{run_then, set_next_run, set_prev_run}

module _ {A : Type 0} where
  -- With memory at a new address a new list is a ring of no nodes, and memory elsewhere is as it was.
  pub llist_create-Ring :
      (m : Heap A) (got : Ptr)
      → got ≢ 0
      → (m' : Heap A) × (llist_create got m ≡ some (got, m'))
        × Ring m' got []
        × ((q : Ptr) → q ≢ got → Same m m' q)
  unfolding llist_create take_block
  llist_create-Ring m got z =
      let m1 = record m { alive = update m.alive got true } in
      let m2 = record m1 { next = update m.next got got } in
      let m3 = record m2 { prev = update m.prev got got } in
      let live = update_self m.alive got true in
      (
        m3,
        ap
              (λ b.
                (if b
                    then pure 0
                    else (take_block got >> (set_next got got >> (set_prev got got >> pure got))))
                  m)
              (==_ne got 0 z)
            ∙ run_then _ _ m tt m1 _ refl (
                run_then _ _ m1 tt m2 _ (set_next_run m1 got got live)
                  (run_then _ _ m2 tt m3 _ (set_prev_run m2 got got live) refl)),
        ((update_self m.next got got, update_self m.prev got got), (tt, tt), (live, tt)),
        λ q d. (
          update_ne m.alive got true q (λ e. d (sym e)),
          update_ne m.next got got q (λ e. d (sym e)),
          update_ne m.prev got got q (λ e. d (sym e)),
          refl,
        ),
      )

  pub llist_create_null : (m : Heap A) → llist_create 0 m ≡ some (0, m)
  unfolding llist_create
  llist_create_null m = refl
