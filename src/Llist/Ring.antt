-- ===== src/Llist/Ring.antt =====
-- The ring of a handle: what the list of its nodes' addresses says of the heap.
pub mod Steps
pub mod Change
use mycode_c.Base.{
  ℕ, Bool, true, Option, some, List, [], ◌∷◌, ◌++◌, map, ◌≡◌, ◌≢◌, sym, All, All-append, All-left,
  All-right, append_assoc,
}
use mycode_c.Llist.{Ptr, Heap}
use mycode_c.Llist.Links.{Links, Links-split, Links-join, Fresh, Distinct, All-both}

abbrev pub Live : {A : Type 0} → Heap A → Ptr → Type 0
Live m p = m.alive p ≡ true

-- From the handle `h` the nodes `ps` are linked both ways and back to it; no two of these addresses are
-- equal, and all are allocated.
abbrev pub Ring : {A : Type 0} → Heap A → Ptr → List Ptr → Type 0
Ring m h ps = Links m.next m.prev h ps h × Distinct (h ∷ ps) × All (Live m) (h ∷ ps)

abbrev pub contents : {A : Type 0} → Heap A → List Ptr → List A
contents m ps = map m.data' ps

abbrev pub Apart : List Ptr → List Ptr → Type 0
Apart xs ys = All (λ x. Fresh x ys) xs

Apart-cons : (x : Ptr) (ys xs : List Ptr) → Fresh x ys → Apart ys xs → Apart ys (x ∷ xs)
Apart-cons x ys xs f k = All-both ys f k (λ y d g. ((λ e. d (sym e)), g))

Apart-nil : (ys : List Ptr) → Apart ys []
Apart-nil [] = tt
Apart-nil (y ∷ ys) = (tt, Apart-nil ys)

pub Apart-swap : (xs ys : List Ptr) → Apart xs ys → Apart ys xs
Apart-swap [] ys a = Apart-nil ys
Apart-swap (x ∷ xs) ys a = Apart-cons x ys xs a.0 (Apart-swap xs ys a.1)

pub Distinct-split :
    (xs ys : List Ptr) → Distinct (xs ++ ys) → Distinct xs × Distinct ys × Apart xs ys
Distinct-split [] ys d = (tt, d, tt)
Distinct-split (x ∷ xs) ys d =
    let rest = Distinct-split xs ys d.1 in
    ((All-left (λ y. x ≢ y) xs ys d.0, rest.0), rest.1, (All-right (λ y. x ≢ y) xs ys d.0, rest.2))

pub Distinct-join :
    (xs ys : List Ptr) → Distinct xs → Distinct ys → Apart xs ys → Distinct (xs ++ ys)
Distinct-join [] ys d e a = e
Distinct-join (x ∷ xs) ys d e a =
    (All-append (λ y. x ≢ y) xs ys d.0 a.0, Distinct-join xs ys d.1 e a.1)

pub Distinct-swap : (xs ys : List Ptr) → Distinct (xs ++ ys) → Distinct (ys ++ xs)
Distinct-swap xs ys d =
    let parts = Distinct-split xs ys d in
    Distinct-join ys xs parts.1 parts.0 (Apart-swap xs ys parts.2)

-- The first of the addresses to come is new.
pub first_new :
    (made : List Ptr) (g : Ptr) (gs : List Ptr) → Distinct (made ++ g ∷ gs) → Fresh g made
first_new made g gs d = (Apart-swap made (g ∷ gs) (Distinct-split made (g ∷ gs) d).2).0

pub All-rotate :
    (P : Ptr → Type 0) (h : Ptr) (before : List Ptr) (p : Ptr) (after : List Ptr)
    → All P (h ∷ before ++ p ∷ after)
    → All P (p ∷ after ++ h ∷ before)
All-rotate P h before p after k =
    All-append P (p ∷ after) (h ∷ before) (All-right P (h ∷ before) (p ∷ after) k)
      (All-left P (h ∷ before) (p ∷ after) k)

-- A ring entered at another of its nodes.
pub Ring-rotate :
    {A : Type 0} (m : Heap A) (h : Ptr) (before : List Ptr) (p : Ptr) (after : List Ptr)
    → Ring m h (before ++ p ∷ after)
    → Ring m p (after ++ h ∷ before)
Ring-rotate m h before p after r =
    let parts = Links-split m.next m.prev h before p after h r.0 in
    (
      Links-join m.next m.prev p after h before p parts.1 parts.0,
      Distinct-swap (h ∷ before) (p ∷ after) r.1,
      All-rotate (Live m) h before p after r.2,
    )

-- What a heap holds at an address is the same as before.
abbrev pub Same : {A : Type 0} → Heap A → Heap A → Ptr → Type 0
Same m m' q =
    (m'.alive q ≡ m.alive q)
    × (m'.next q ≡ m.next q)
    × (m'.prev q ≡ m.prev q)
    × (m'.data' q ≡ m.data' q)
