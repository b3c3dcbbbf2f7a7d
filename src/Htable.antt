-- ===== src/Htable.antt =====
-- The hash table of hash_table/01hash/hashtable.c, over the lists of Llist and on their heap, and the
-- hashes of hash_table/01hash/main.c. The handle's own block and the array of buckets are values: whether
-- `malloc` gives them is an argument, and so are the addresses it gives to lists and nodes (0 is NULL).
pub mod Frame
pub mod Bucket
pub mod Table
pub mod Create
pub mod Make
pub mod Handle
pub mod Hash
mod Tests
use mycode_c.Base.{
  ℕ, zero, suc, ◌+◌, ◌-◌, ◌*◌, ◌%◌, ◌^◌, Bool, true, false, Option, none, some, List, [], ◌∷◌, ◌++◌,
  ◌==◌, if◌then◌else◌, ltb, get_elem?,
}
use mycode_c.Base.Int.{ℤ, pos, negsuc, pos_part, leb_ℤ, eqb_ℤ, ◌-ℤ◌}
use mycode_c.Llist.{
  Ptr, Cmd, pure, ◌>>=◌, ◌>>◌, tail_insert, llist_create, llist_insert, llist_destroy,
  llist_display, llist_find, llist_delete,
}

pub record Htable : Type 0 where
  pub capacity : ℕ
  pub bucket : List Ptr

-- HTABLE_DEFAULT_CAPACITY
abbrev pub default_capacity : ℕ
default_capacity = 10

-- HTABLE_INSERT_REPLACE, HTABLE_INSERT_NOSAME, HTABLE_INSERT_SAME, and any other number
pub data Insertion : Type 0 where
  replace_it no_same same bad_mode : Insertion

abbrev pub real_capacity : ℤ → ℕ
real_capacity capacity = if leb_ℤ capacity (pos 0) then default_capacity else pos_part capacity

module _ {A : Type 0} where
  -- `llist_destroy` of one bucket after another; the array has `capacity` places, or those made so far.
  pub destroy_all : (fuel : ℕ) → List Ptr → Cmd A (Unit {0})
  destroy_all fuel [] = pure tt
  destroy_all fuel (b ∷ bs) = do llist_destroy fuel b; destroy_all fuel bs

  -- The loop that makes the buckets, with those that are made; `none` when one of them is NULL.
  pub make_buckets : (fuel n : ℕ) → (made gots : List Ptr) → Cmd A (Option (List Ptr))
  unfolding destroy_all
  make_buckets fuel zero made gots = pure (some made)
  make_buckets fuel (suc n) made [] = do destroy_all fuel made; pure none
  make_buckets fuel (suc n) made (got ∷ gots) = do
    p ← llist_create got
    (if p == 0
        then (do destroy_all fuel made; pure none)
        else make_buckets fuel n (made ++ p ∷ []) gots)

  pub with_buckets : ℕ → Option (List Ptr) → Cmd A (Option Htable)
  with_buckets capacity none = pure none
  with_buckets capacity (some bs) = pure (some (record { capacity = capacity; bucket = bs }))

  pub htable_create :
      (fuel : ℕ)
      → (size capacity : ℤ) → (handler_got bucket_got : Bool) → (gots : List Ptr)
      → Cmd A (Option Htable)
  unfolding make_buckets with_buckets
  htable_create fuel size capacity handler_got bucket_got gots =
      if leb_ℤ size (pos 0)
      then pure none
      else (if handler_got
          then (if bucket_got
              then (do
                bs ← make_buckets fuel (real_capacity capacity) [] gots
                with_buckets (real_capacity capacity) bs)
              else pure none)
          else pure none)

  -- What follows `llist_find` when the mode is HTABLE_INSERT_NOSAME.
  pub unless_found : (got b : Ptr) → A → Option A → Cmd A ℤ
  unless_found got b x none = llist_insert got b x tail_insert
  unless_found got b x (some y) = pure (negsuc 1)

  -- The `switch` and what follows it, on the bucket.
  pub insert_in : (fuel : ℕ) → (got : Ptr) → (cmp : A → A → Bool) → A → Insertion → Ptr → Cmd A ℤ
  unfolding unless_found
  insert_in fuel got cmp x replace_it b = do
    llist_delete fuel b (λ y. cmp y x)
    llist_insert got b x tail_insert
  insert_in fuel got cmp x no_same b = do
    found ← llist_find fuel b (λ y. cmp y x)
    unless_found got b x found
  insert_in fuel got cmp x same b = llist_insert got b x tail_insert
  insert_in fuel got cmp x bad_mode b = pure (negsuc 2)

  -- `h->bucket[idx]`; `none` past the end of the array.
  pub at_bucket : Option Ptr → (Ptr → Cmd A ℤ) → Cmd A ℤ
  at_bucket none k = λ m. none
  at_bucket (some b) k = k b

  -- With no null argument.
  pub insert_by :
      (fuel : ℕ)
      → (got : Ptr) → Htable
      → A
      → (hash : A → ℕ → ℕ) → (cmp : A → A → Bool) → Insertion
      → Cmd A ℤ
  unfolding at_bucket insert_in
  insert_by fuel got h x hash cmp bad_mode = pure (negsuc 2)
  insert_by fuel got h x hash cmp mode =
      at_bucket (get_elem? h.bucket (hash x h.capacity)) (insert_in fuel got cmp x mode)

  -- `none` among the arguments is NULL.
  pub htable_insert :
      (fuel : ℕ)
      → (got : Ptr) → Option Htable
      → Option A
      → (hash : Option (A → ℕ → ℕ)) → (cmp : Option (A → A → Bool)) → Insertion
      → Cmd A ℤ
  unfolding insert_by
  htable_insert fuel got (some h) (some x) (some hash) (some cmp) mode =
      insert_by fuel got h x hash cmp mode
  htable_insert fuel got h x hash cmp mode = pure (negsuc 0)

  -- The data of each bucket, as they are handed to `op`.
  pub display_all : (fuel : ℕ) → List Ptr → Cmd A (List (List A))
  display_all fuel [] = pure []
  display_all fuel (b ∷ bs) = do
    xs ← llist_display fuel b
    rest ← display_all fuel bs
    pure (xs ∷ rest)

  pub htable_display : (fuel : ℕ) → Option Htable → Cmd A (List (List A))
  unfolding display_all
  htable_display fuel none = pure []
  htable_display fuel (some h) = display_all fuel h.bucket

  pub htable_destroy : (fuel : ℕ) → Option Htable → Cmd A (Unit {0})
  unfolding destroy_all
  htable_destroy fuel none = pure tt
  htable_destroy fuel (some h) = destroy_all fuel h.bucket

-- The remainder of C's `int` as an `unsigned int`, for a capacity that is not negative.
abbrev pub remainder : ℤ → ℕ → ℕ
remainder (pos n) capacity = n % capacity
remainder (negsuc n) capacity = (2 ^ 32 - suc n % capacity) % 2 ^ 32

pub record Student : Type 0 where
  pub id : ℤ
  pub name : List ℕ
  pub math : ℤ
  pub tel : ℤ

pub id_hash : Student → ℕ → ℕ
id_hash p capacity = remainder p.id capacity

pub tel_hash : Student → ℕ → ℕ
tel_hash p capacity = remainder p.tel capacity

-- A byte as a signed `char`, converted to an `unsigned int`.
abbrev pub char_value : ℕ → ℕ
char_value c = if ltb c 128 then c else 2 ^ 32 - 256 + c

-- The loop over the characters.
pub name_loop : (hash : ℕ) → List ℕ → ℕ
name_loop hash [] = hash
name_loop hash (c ∷ cs) = name_loop ((hash * 31 + char_value c) % 2 ^ 32) cs

pub name_hash : Student → ℕ → ℕ
unfolding name_loop
name_hash p capacity = name_loop 0 p.name % capacity

-- `!strcmp`
pub same_string : List ℕ → List ℕ → Bool
same_string [] [] = true
same_string [] (d ∷ ds) = false
same_string (c ∷ cs) [] = false
same_string (c ∷ cs) (d ∷ ds) = let rest = same_string cs ds in if c == d then rest else false

-- The comparisons; the key is an `int`, and for a name a string.
pub id_cmp : Student → ℤ → Bool
id_cmp p k = eqb_ℤ (p.id -ℤ k) (pos 0)

pub tel_cmp : Student → ℤ → Bool
tel_cmp p k = eqb_ℤ (p.tel -ℤ k) (pos 0)

pub name_cmp : Student → List ℕ → Bool
unfolding same_string
name_cmp p k = same_string p.name k
