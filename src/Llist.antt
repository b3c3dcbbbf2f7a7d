-- ===== src/Llist.antt =====
-- The doubly linked ring of hash_table/01hash/llist.c, on a heap. An address is a number, 0 is NULL; each
-- field of the nodes is a function of the address. The `size` bytes of data are one value, and the head's
-- `struct node` and its `size` are one object at the handle's address. The address that `malloc`
-- returns is an argument. `none` is an access to memory that is not allocated, or fuel that ran out.
pub mod Links
pub mod Ring
pub mod Create
pub mod Insert
pub mod Find
pub mod Remove
pub mod Delete
pub mod Destroy
mod Tests
use mycode_c.Base.{
  ℕ, zero, suc, Bool, true, false, Option, none, some, List, [], ◌∷◌, ◌==◌, if◌then◌else◌,
}
use mycode_c.Base.Int.{ℤ, pos, negsuc}

abbrev pub Ptr : Type 0
Ptr = ℕ

pub record Heap (A : Type 0) : Type 0 where
  pub alive : Ptr → Bool
  pub prev : Ptr → Ptr
  pub next : Ptr → Ptr
  pub data' : Ptr → A

abbrev pub update {ℓ} : {B : Type ℓ} → (Ptr → B) → Ptr → B → Ptr → B
update f p v q = if q == p then v else f q

-- HEADINSERT, TAILINSERT, and any other number
pub data Mode : Type 0 where
  head_insert tail_insert other : Mode

abbrev pub Cmd : (A B : Type 0) → Type 0
Cmd A B = Heap A → Option (B × Heap A)

abbrev pub pure : {A B : Type 0} → B → Cmd A B
pure b m = some (b, m)

infixl 5 ◌>>=◌ ◌>>◌
unfoldable pub ◌>>=◌ : {A B C : Type 0} → Cmd A B → (B → Cmd A C) → Cmd A C
c >>= k = λ m. elim (c m) [ none ↦ none | some (b, m') ↦ k b m' ]

abbrev pub ◌>>◌ : {A B C : Type 0} → Cmd A B → Cmd A C → Cmd A C
c >> d = c >>= λ _. d

module _ {A : Type 0} where
  -- Reads and writes of a field, and `free`.
  pub get_next : Ptr → Cmd A Ptr
  get_next p m = if m.alive p then some (m.next p, m) else none

  pub get_prev : Ptr → Cmd A Ptr
  get_prev p m = if m.alive p then some (m.prev p, m) else none

  pub get_data : Ptr → Cmd A A
  get_data p m = if m.alive p then some (m.data' p, m) else none

  pub set_next : Ptr → Ptr → Cmd A (Unit {0})
  set_next p q m = if m.alive p then some (tt, record m { next = update m.next p q }) else none

  pub set_prev : Ptr → Ptr → Cmd A (Unit {0})
  set_prev p q m = if m.alive p then some (tt, record m { prev = update m.prev p q }) else none

  pub set_data : Ptr → A → Cmd A (Unit {0})
  set_data p x m = if m.alive p then some (tt, record m { data' = update m.data' p x }) else none

  pub free : Ptr → Cmd A (Unit {0})
  free p m = if m.alive p then some (tt, record m { alive = update m.alive p false }) else none

  -- What a successful `malloc` does; the fields of the block hold what was there.
  pub take_block : Ptr → Cmd A (Unit {0})
  take_block p m = some (tt, record m { alive = update m.alive p true })

  pub llist_create : (got : Ptr) → Cmd A Ptr
  unfolding take_block set_next set_prev
  llist_create got =
      if got == 0 then pure 0 else (do take_block got; set_next got got; set_prev got got; pure got)

  -- The four assignments at the end of `llist_insert`.
  pub link : (newnode p : Ptr) → Cmd A ℤ
  unfolding get_next get_prev set_next set_prev
  link newnode p = do
    after ← get_next p
    set_next newnode after
    set_prev newnode p
    before ← get_prev newnode
    set_next before newnode
    after' ← get_next newnode
    set_prev after' newnode
    pure (pos 0)

  pub place : (newnode h : Ptr) → Mode → Cmd A ℤ
  unfolding link get_prev free
  place newnode h head_insert = link newnode h
  place newnode h tail_insert = do p ← get_prev h; link newnode p
  place newnode h other = do free newnode; pure (negsuc 1)

  pub llist_insert : (got : Ptr) → (h : Ptr) → A → Mode → Cmd A ℤ
  unfolding take_block set_data place
  llist_insert got h x mode =
      if got == 0 then pure (negsuc 0) else (do take_block got; set_data got x; place got h mode)

  -- `llist_display`, with the data that it hands to `op`.
  pub display_from : (fuel : ℕ) → (h cur : Ptr) → Cmd A (List A)
  unfolding get_data get_next
  display_from zero h cur = λ m. none
  display_from (suc fuel) h cur = if cur == h then pure [] else (do
    x ← get_data cur
    after ← get_next cur
    xs ← display_from fuel h after
    pure (x ∷ xs))

  pub llist_display : (fuel : ℕ) → (h : Ptr) → Cmd A (List A)
  unfolding display_from
  llist_display fuel h = do first ← get_next h; display_from fuel h first

  -- `none` is NULL.
  pub find_from : (fuel : ℕ) → (h cur : Ptr) → (cmp : A → Bool) → Cmd A (Option Ptr)
  unfolding get_data get_next
  find_from zero h cur cmp = λ m. none
  find_from (suc fuel) h cur cmp = if cur == h then pure none else (do
    x ← get_data cur
    if cmp x then pure (some cur) else (do after ← get_next cur; find_from fuel h after cmp))

  pub find_node : (fuel : ℕ) → (h : Ptr) → (cmp : A → Bool) → Cmd A (Option Ptr)
  unfolding find_from
  find_node fuel h cmp = do first ← get_next h; find_from fuel h first cmp

  pub found_data : Option Ptr → Cmd A (Option A)
  unfolding get_data
  found_data none = pure none
  found_data (some p) = do x ← get_data p; pure (some x)

  pub llist_find : (fuel : ℕ) → (h : Ptr) → (cmp : A → Bool) → Cmd A (Option A)
  unfolding find_node found_data
  llist_find fuel h cmp = do r ← find_node fuel h cmp; found_data r

  pub unlink : Ptr → Cmd A (Unit {0})
  unfolding get_next get_prev set_next set_prev
  unlink cur = do
    after ← get_next cur
    before ← get_prev cur
    set_prev after before
    before' ← get_prev cur
    after' ← get_next cur
    set_next before' after'

  pub delete_node : Option Ptr → Cmd A ℤ
  unfolding unlink free
  delete_node none = pure (negsuc 0)
  delete_node (some cur) = do unlink cur; free cur; pure (pos 0)

  pub llist_delete : (fuel : ℕ) → (h : Ptr) → (cmp : A → Bool) → Cmd A ℤ
  unfolding find_node delete_node
  llist_delete fuel h cmp = do r ← find_node fuel h cmp; delete_node r

  -- The status, with what was copied to `*save`.
  pub fetch_node : Option Ptr → Cmd A (ℤ × Option A)
  unfolding unlink free get_data
  fetch_node none = pure (negsuc 0, none)
  fetch_node (some cur) = do unlink cur; x ← get_data cur; free cur; pure (pos 0, some x)

  pub llist_fetch : (fuel : ℕ) → (h : Ptr) → (cmp : A → Bool) → Cmd A (ℤ × Option A)
  unfolding find_node fetch_node
  llist_fetch fuel h cmp = do r ← find_node fuel h cmp; fetch_node r

  pub destroy_from : (fuel : ℕ) → (h cur : Ptr) → Cmd A (Unit {0})
  unfolding unlink free get_next
  destroy_from zero h cur = λ m. none
  destroy_from (suc fuel) h cur =
      if cur == h
      then free h
      else (do unlink cur; free cur; first ← get_next h; destroy_from fuel h first)

  pub llist_destroy : (fuel : ℕ) → (h : Ptr) → Cmd A (Unit {0})
  unfolding destroy_from get_next
  llist_destroy fuel h = do first ← get_next h; destroy_from fuel h first
