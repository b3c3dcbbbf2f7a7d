-- ===== src/Llist/Ring/Steps.antt =====
-- What linking a node in and taking one out do to the heap of a ring.
use mycode_c.Base.{true, false, ap, ◌∙◌, Option, none, some, ◌≡◌, ◌≢◌, sym, refl, if◌then◌else◌}
use mycode_c.Base.Int.{pos}
use mycode_c.Llist.{
  Ptr, Heap, Cmd, ◌>>=◌, get_data, set_data, free, take_block, update, link, unlink, get_next,
  get_prev, set_next, set_prev,
}
use mycode_c.Llist.Links.{update_self, update_ne}
use mycode_c.Llist.Ring.{Live}

-- The heap with `new` linked in after `p`, and with `cur` taken out.
abbrev pub linked : {A : Type 0} → Heap A → Ptr → Ptr → Heap A
linked m new p = record m {
  next = update (update m.next new (m.next p)) p new;
  prev = update (update m.prev new p) (m.next p) new;
}

abbrev pub unlinked : {A : Type 0} → Heap A → Ptr → Heap A
unlinked m cur = record m {
  next = update m.next (m.prev cur) (m.next cur);
  prev = update m.prev (m.next cur) (m.prev cur);
}

-- A command that is known to run, and what follows it.
pub run_then :
    {A B C : Type 0} (c : Cmd A B) (k : B → Cmd A C) (m : Heap A) (b : B) (m' : Heap A)
    (r : Option (C × Heap A))
    → c m ≡ some (b, m')
    → k b m' ≡ r
    → (c >>= k) m ≡ r
unfolding ◌>>=◌
run_then c k m b m' r e f = ap (λ o. elim o [ none ↦ none | some (b, m') ↦ k b m' ]) e ∙ f

pub Live-run :
    {A B : Type 0} (m : Heap A) (p : Ptr) (r : Option (B × Heap A))
    → Live m p
    → (if m.alive p then r else none) ≡ r
Live-run m p r l = ap (λ b. if b then r else none) l

pub get_next_run :
    {A : Type 0} (m : Heap A) (p q : Ptr) → Live m p → m.next p ≡ q → get_next p m ≡ some (q, m)
unfolding get_next
get_next_run m p q l e = Live-run m p _ l ∙ ap (λ x. some (x, m)) e

pub get_prev_run :
    {A : Type 0} (m : Heap A) (p q : Ptr) → Live m p → m.prev p ≡ q → get_prev p m ≡ some (q, m)
unfolding get_prev
get_prev_run m p q l e = Live-run m p _ l ∙ ap (λ x. some (x, m)) e

pub get_data_run :
    {A : Type 0} (m : Heap A) (p : Ptr) → Live m p → get_data p m ≡ some (m.data' p, m)
unfolding get_data
get_data_run m p = Live-run m p _

pub set_next_run :
    {A : Type 0} (m : Heap A) (p q : Ptr)
    → Live m p
    → set_next p q m ≡ some (tt, record m { next = update m.next p q })
unfolding set_next
set_next_run m p q = Live-run m p _

pub set_prev_run :
    {A : Type 0} (m : Heap A) (p q : Ptr)
    → Live m p
    → set_prev p q m ≡ some (tt, record m { prev = update m.prev p q })
unfolding set_prev
set_prev_run m p q = Live-run m p _

pub set_data_run :
    {A : Type 0} (m : Heap A) (p : Ptr) (x : A)
    → Live m p
    → set_data p x m ≡ some (tt, record m { data' = update m.data' p x })
unfolding set_data
set_data_run m p x = Live-run m p _

pub take_block_run :
    {A : Type 0} (m : Heap A) (p : Ptr)
    → take_block p m ≡ some (tt, record m { alive = update m.alive p true })
unfolding take_block
take_block_run m p = refl

pub free_run :
    {A : Type 0} (m : Heap A) (p : Ptr)
    → Live m p
    → free p m ≡ some (tt, record m { alive = update m.alive p false })
unfolding free
free_run m p = Live-run m p _

pub link_run :
    {A : Type 0} (m : Heap A) (new p : Ptr)
    → new ≢ p
    → Live m new
    → Live m p
    → Live m (m.next p)
    → link new p m ≡ some (pos 0, linked m new p)
unfolding link
link_run m new p d ln lp lf =
    let kept =
      update_ne (update m.next new (m.next p)) p new new (λ e. d (sym e))
      ∙ update_self m.next new (m.next p) in
    let m1 = record m { next = update m.next new (m.next p) } in
    let m2 = record m1 { prev = update m.prev new p } in
    let m3 = record m2 { next = update m1.next p new } in
    run_then _ _ m _ _ _ (get_next_run m p _ lp refl) (
      run_then _ _ m _ m1 _ (set_next_run m new (m.next p) ln) (
        run_then _ _ m1 _ m2 _ (set_prev_run m1 new p ln) (
          run_then _ _ m2 _ m2 _ (get_prev_run m2 new p ln (update_self m.prev new p)) (
            run_then _ _ m2 _ m3 _ (set_next_run m2 p new lp) (
              run_then _ _ m3 _ m3 _ (get_next_run m3 new (m.next p) ln kept)
                (run_then _ _ m3 _ _ _ (set_prev_run m3 (m.next p) new lf) refl))))))

pub unlink_run :
    {A : Type 0} (m : Heap A) (cur : Ptr)
    → m.next cur ≢ cur
    → Live m cur
    → Live m (m.next cur)
    → Live m (m.prev cur)
    → unlink cur m ≡ some (tt, unlinked m cur)
unfolding unlink
unlink_run m cur d lc ln lp =
    let m1 = record m { prev = update m.prev (m.next cur) (m.prev cur) } in
    run_then _ _ m _ _ _ (get_next_run m cur _ lc refl) (
      run_then _ _ m _ _ _ (get_prev_run m cur _ lc refl) (
        run_then _ _ m _ m1 _ (set_prev_run m (m.next cur) (m.prev cur) ln) (
          run_then _ _ m1 _ m1 _
            (get_prev_run m1 cur (m.prev cur) lc (update_ne m.prev (m.next cur) (m.prev cur) cur d))
            (run_then _ _ m1 _ m1 _ (get_next_run m1 cur _ lc refl)
              (set_next_run m1 (m.prev cur) (m.next cur) lp)))))
