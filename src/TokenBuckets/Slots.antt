-- ===== src/TokenBuckets/Slots.antt =====
-- apue/pthread/11tbf_thread/tbf.c: the table of buckets.
use mycode_c.Base.{
  ℕ, zero, suc, ◌+◌, ◌≤◌, ◌<◌, ◌≡◌, ◌≢◌, refl, sym, ap, ◌∙◌, arith, Bool, true, false, ◌||◌, inl,
  inr, Bool-cases, subst, Option, none, some, List, [], ◌∷◌, get_elem?, length, length-set,
  get_elem?-set_self, get_elem?-set_ne, ◌==◌, ==_iff, Option-cases,
}
use mycode_c.Base.Int.{ℤ, pos, negsuc, pos_part, leb_ℤ}
use mycode_c.TokenBuckets.{
  Bucket, tbfmax, Library, free_from, get_tbf_pos, slot_of, slot, put_slot, out_of_range,
  new_bucket, tbf_fill, tbf_init, free_slot, tbf_destroy, destroy_rounds, tbf_destroy_all,
}

abbrev pub at : List (Option Bucket) → ℕ → Option Bucket
at slots i = slot_of (get_elem? slots i)

-- Every slot before `i` is taken.
abbrev pub TakenBelow : List (Option Bucket) → ℕ → Type 0
TakenBelow slots i = (j : ℕ) → j < i → at slots j ≢ none

none_ne_some : {b : Bucket} → some b ≢ none
none_ne_some e = ground arith

-- `free_from` answers with the first slot that is free.
pub data First (slots : List (Option Bucket)) (start : ℕ) : ℤ → Type 0 where
  at_slot :
      (k : ℕ)
      → k < length slots
      → at slots k ≡ none
      → TakenBelow slots k
      → First slots start (pos (start + k))
  all_taken : TakenBelow slots (length slots) → First slots start (negsuc 0)

pub free_from-First :
    (start : ℕ) (slots : List (Option Bucket)) → First slots start (free_from start slots)
unfolding free_from
free_from-First start [] = all_taken (λ j h. absurd (omega arith))
free_from-First start (none ∷ slots) =
    subst (λ z. First (none ∷ slots) start (pos z)) (omega arith)
      (at_slot 0 (omega arith) refl (λ j h. absurd (omega arith)))
free_from-First start (some b ∷ slots) = later (free_from-First (start + 1) slots)
  where
    below : (k : ℕ) → TakenBelow slots k → TakenBelow (some b ∷ slots) (suc k)
    below k h zero lt = none_ne_some
    below k h (suc j) lt = h j (omega arith)

    later : {z : ℤ} → First slots (start + 1) z → First (some b ∷ slots) start z
    later (at_slot k lt e h) =
        subst (λ z. First (some b ∷ slots) start (pos z)) (omega arith)
          (at_slot (suc k) (omega arith) e (below k h))
    later (all_taken h) = all_taken (below (length slots) h)

abbrev pub IsFull : Library → Type 0
IsFull lib = length lib.tbf_libs ≡ tbfmax

pub slot-put_self :
    (lib : Library) (i : ℕ) (o : Option Bucket)
    → i < length lib.tbf_libs
    → slot (put_slot lib i o) i ≡ o
slot-put_self lib i o h = ap slot_of (get_elem?-set_self lib.tbf_libs i o h)

pub slot-put_ne :
    (lib : Library) (i j : ℕ) (o : Option Bucket) → i ≢ j → slot (put_slot lib i o) j ≡ slot lib j
slot-put_ne lib i j o h = ap slot_of (get_elem?-set_ne lib.tbf_libs i j o h)

-- The slots other than `i` are as they were.
abbrev pub SameBut : ℕ → Library → Library → Type 0
SameBut i lib lib' = (j : ℕ) → i ≢ j → slot lib' j ≡ slot lib j

-- What `tbf_init` did, by its result.
pub data Opened (got : Bool) (cps burst : ℤ) (lib : Library) : ℤ × Library → Type 0 where
  rejected :
      leb_ℤ cps (pos 0) || leb_ℤ burst (pos 0) ≡ true → Opened got cps burst lib (negsuc 0, lib)
  opened :
      (i : ℕ) (lib' : Library)
      → leb_ℤ cps (pos 0) || leb_ℤ burst (pos 0) ≡ false
      → got ≡ true
      → i < tbfmax
      → slot lib i ≡ none
      → TakenBelow lib.tbf_libs i
      → slot lib' i ≡ new_bucket cps burst
      → SameBut i lib lib'
      → Opened got cps burst lib (pos i, lib')
  full :
      (lib' : Library)
      → leb_ℤ cps (pos 0) || leb_ℤ burst (pos 0) ≡ false
      → TakenBelow lib.tbf_libs tbfmax
      → lib'.tbf_libs ≡ lib.tbf_libs
      → Opened got cps burst lib (negsuc 1, lib')
  no_memory :
      (lib' : Library)
      → leb_ℤ cps (pos 0) || leb_ℤ burst (pos 0) ≡ false
      → got ≡ false
      → ((j : ℕ) → slot lib' j ≡ slot lib j)
      → Opened got cps burst lib (negsuc 2, lib')

module _ (got : Bool) (cps burst : ℤ) (lib : Library) (e : IsFull lib) where
  abbrev on : Library
  on = record lib { initd = true }

  cleared :
      (i : ℕ)
      → i < length lib.tbf_libs
      → slot lib i ≡ none
      → (j : ℕ) → slot (put_slot on i none) j ≡ slot lib j
  cleared i lt free j = elim (Bool-cases (i == j)) [
    | inl same ↦
        subst (λ k. slot (put_slot on i none) k ≡ slot lib k) ((==_iff i j).0 same)
          (slot-put_self on i none lt ∙ sym free)
    | inr other ↦ slot-put_ne on i j none (λ same. absurd (ground arith))
  ]

  zero_add : (k : ℕ) → 0 + k ≡ k
  zero_add k = omega arith

  fill-Opened :
      {z : ℤ}
      → leb_ℤ cps (pos 0) || leb_ℤ burst (pos 0) ≡ false
      → First lib.tbf_libs 0 z
      → Opened got cps burst lib (tbf_fill got cps burst on z)
  unfolding tbf_fill
  fill-Opened good (all_taken h) = full on good (subst (TakenBelow lib.tbf_libs) e h) refl
  fill-Opened good (at_slot k lt free h) = elim (Bool-cases got) [
    | inl ok ↦
        rw (zero_add k, ok, tbf_fill)
          (opened k (put_slot on k (new_bucket cps burst)) good refl (omega arith) free h
            (slot-put_self on k _ lt) (λ j. slot-put_ne on k j _))
    | inr fails ↦
        rw (zero_add k, fails, tbf_fill)
          (no_memory (put_slot on k none) good refl (cleared k lt free))
  ]

  -- `tbf_init` returns -1 exactly on a rate or a capacity that is not positive; otherwise the least free slot, holding
  -- a new empty bucket and no other slot changed, or -2 with all slots taken, or -3 where `malloc`
  -- fails, with no slot changed.
  pub tbf_init-Opened : Opened got cps burst lib (tbf_init got cps burst lib)
  unfolding tbf_init get_tbf_pos
  tbf_init-Opened = elim (Bool-cases (leb_ℤ cps (pos 0) || leb_ℤ burst (pos 0))) [
    | inl bad ↦ rw (bad, tbf_init) (rejected bad)
    | inr good ↦ rw (good, tbf_init) (fill-Opened good (free_from-First 0 lib.tbf_libs))
  ]

length-free_slot :
    (lib : Library) (i : ℕ) (o : Option Bucket)
    → length (free_slot lib i o).1.tbf_libs ≡ length lib.tbf_libs
unfolding free_slot
length-free_slot lib i none = refl
length-free_slot lib i (some b) = length-set lib.tbf_libs i none

pub length-tbf_destroy :
    (td : ℤ) (lib : Library) → length (tbf_destroy td lib).1.tbf_libs ≡ length lib.tbf_libs
unfolding tbf_destroy
length-tbf_destroy td lib = elim (Bool-cases (out_of_range td)) [
  | inl bad ↦ rw (bad, tbf_destroy) refl
  | inr good ↦ rw (good, tbf_destroy) (length-free_slot lib (pos_part td) (slot lib (pos_part td)))
]

-- A valid descriptor's bucket goes, and no other.
pub tbf_destroy_lem :
    (k : ℕ) (b : Bucket) (lib : Library)
    → k < tbfmax
    → slot lib k ≡ some b
    → tbf_destroy (pos k) lib ≡ (pos 0, put_slot lib k none)
unfolding tbf_destroy free_slot
tbf_destroy_lem k b lib lt e =
    let inside : out_of_range (pos k) ≡ false = ground arith in
    rw (inside, e, tbf_destroy, free_slot) refl

module _ (lib : Library) (e : IsFull lib) where
  length-destroy_rounds : (k : ℕ) → length (destroy_rounds k lib).tbf_libs ≡ tbfmax
  unfolding destroy_rounds
  length-destroy_rounds zero = e
  length-destroy_rounds (suc k) = elim (Option-cases (slot (destroy_rounds k lib) k)) [
    | inl free ↦ rw (free, destroy_rounds) (length-destroy_rounds k)
    | inr (b, taken) ↦
        rw (taken, destroy_rounds)
          (length-tbf_destroy (pos k) (destroy_rounds k lib) ∙ length-destroy_rounds k)
  ]

  -- What the next round does to the table.
  round_lem :
      (k : ℕ)
      → k < tbfmax
      → (slot (destroy_rounds (suc k) lib) k ≡ none)
        × SameBut k (destroy_rounds k lib) (destroy_rounds (suc k) lib)
  unfolding destroy_rounds
  round_lem k h = elim (Option-cases (slot (destroy_rounds k lib) k)) [
    | inl free ↦ rw (free, destroy_rounds) (free, λ j ne. refl)
    | inr (b, taken) ↦
        let done =
          ap (λ (p : ℤ × Library). p.1) (tbf_destroy_lem k b (destroy_rounds k lib) h taken) in
        rw (taken, done, destroy_rounds)
          (
            slot-put_self (destroy_rounds k lib) k none (omega (arith, length-destroy_rounds k)),
            λ j. slot-put_ne (destroy_rounds k lib) k j none,
          )
  ]

  rounds_free : (k : ℕ) → k ≤ tbfmax → (j : ℕ) → j < k → slot (destroy_rounds k lib) j ≡ none
  rounds_free zero h j lt = absurd (omega arith)
  rounds_free (suc k) h j lt = elim (Bool-cases (k == j)) [
    | inl same ↦
        subst (λ i. slot (destroy_rounds (suc k) lib) i ≡ none) ((==_iff k j).0 same)
          (round_lem k h).0
    | inr other ↦
        (round_lem k h).1 j (λ same. absurd (ground arith))
        ∙ rounds_free k (omega arith) j (ground arith)
  ]

  -- After `tbf_destroy_all` no slot of the table is taken, whatever was taken before.
  pub tbf_destroy_all-none : (j : ℕ) → j < tbfmax → slot (tbf_destroy_all lib) j ≡ none
  unfolding tbf_destroy_all
  tbf_destroy_all-none = rounds_free tbfmax (omega arith)
