-- ===== src/TokenBuckets.antt =====
-- The library of token buckets of apue/pthread/11tbf_thread/tbf.c, as built with PTHREAD. A call is one
-- step, also `tbf_init` and `tbf_destroy`, which take no lock in the source: calls that overlap are
-- not modelled. `none` as a reply of a fetch means that it still waits in its loop for another step to
-- come first. Whether `malloc` succeeds is an argument. The sum `token + cps` or `token + ntoken`
-- is an `int` that wraps around (in C an overflow is undefined).
pub mod Slots
pub mod Purse
pub mod Step
pub mod Rate
mod Tests
use mycode_c.Base.{
  ℕ, zero, suc, ◌+◌, Bool, true, false, ◌||◌, Option, none, some, List, [], ◌∷◌, map, get_elem?,
  set, replicate, if◌then◌else◌,
}
use mycode_c.Base.Int.{ℤ, pos, negsuc, pos_part, ltb_ℤ, leb_ℤ, int_of, ◌+ℤ◌, ◌-ℤ◌}

-- `tbf_t`, without its lock
pub record Bucket : Type 0 where
  pub token : ℤ
  pub cps : ℤ
  pub burst : ℤ

abbrev pub tbfmax : ℕ
tbfmax = 1024

-- The static variables; `none` is a slot that is NULL.
pub record Library : Type 0 where
  pub tbf_libs : List (Option Bucket)
  pub initd : Bool

abbrev pub start : Library
start = record { tbf_libs = replicate tbfmax none; initd = false }

-- The first free slot at or after `i`, or -1.
pub free_from : ℕ → List (Option Bucket) → ℤ
free_from i [] = negsuc 0
free_from i (none ∷ slots) = pos i
free_from i (some b ∷ slots) = free_from (i + 1) slots

pub get_tbf_pos : Library → ℤ
get_tbf_pos lib = free_from 0 lib.tbf_libs

-- `token += amount` on an `int`, cut at the burst.
pub add_tokens : Bucket → ℤ → Bucket
unfolding int_of
add_tokens b amount =
    let t = int_of (b.token +ℤ amount) in
    if ltb_ℤ b.burst t then record b { token = b.burst } else record b { token = t }

-- One round of `thr_fun` at a slot, and at all of them.
pub accumulate : Option Bucket → Option Bucket
unfolding add_tokens
accumulate none = none
accumulate (some b) = some (add_tokens b b.cps)

pub thr_fun : Library → Library
thr_fun lib = record lib { tbf_libs = map accumulate lib.tbf_libs }

abbrev pub slot_of : Option (Option Bucket) → Option Bucket
slot_of none = none
slot_of (some o) = o

abbrev pub slot : Library → ℕ → Option Bucket
slot lib i = slot_of (get_elem? lib.tbf_libs i)

abbrev pub put_slot : Library → ℕ → Option Bucket → Library
put_slot lib i o = record lib { tbf_libs = set lib.tbf_libs i o }

-- `td < 0 || td >= TBFMAX`
abbrev pub out_of_range : ℤ → Bool
out_of_range td = ltb_ℤ td (pos 0) || leb_ℤ (pos tbfmax) td

abbrev pub new_bucket : ℤ → ℤ → Option Bucket
new_bucket cps burst = some (record { token = pos 0; cps = cps; burst = burst })

-- The part of `tbf_init` after `get_tbf_pos`.
pub tbf_fill : (got : Bool) → ℤ → ℤ → Library → ℤ → ℤ × Library
tbf_fill got cps burst lib (negsuc n) = (negsuc 1, lib)
tbf_fill got cps burst lib (pos i) =
    if got then (pos i, put_slot lib i (new_bucket cps burst)) else (negsuc 2, put_slot lib i none)

pub tbf_init : (got : Bool) → (cps burst : ℤ) → Library → ℤ × Library
unfolding tbf_fill get_tbf_pos
tbf_init got cps burst lib =
    if leb_ℤ cps (pos 0) || leb_ℤ burst (pos 0)
    then (negsuc 0, lib)
    else (let on = record lib { initd = true } in tbf_fill got cps burst on (get_tbf_pos on))

pub getmin : ℤ → ℤ → ℤ
getmin m n = if ltb_ℤ n m then n else m

-- The critical section of `tbf_fetch_token`.
pub fetch_from : Library → ℕ → Option Bucket → ℤ → Option ℤ × Library
unfolding getmin
fetch_from lib i none n = (some (negsuc 1), lib)
fetch_from lib i (some b) n =
    if leb_ℤ b.token (pos 0)
    then (none, lib)
    else (let k = getmin b.token n in
        (some k, put_slot lib i (some (record b { token = b.token -ℤ k }))))

pub tbf_fetch_token : (td n : ℤ) → Library → Option ℤ × Library
unfolding fetch_from
tbf_fetch_token td n lib =
    if out_of_range td || leb_ℤ n (pos 0)
    then (some (negsuc 0), lib)
    else fetch_from lib (pos_part td) (slot lib (pos_part td)) n

pub return_to : Library → ℕ → Option Bucket → ℤ → ℤ × Library
unfolding add_tokens
return_to lib i none n = (negsuc 1, lib)
return_to lib i (some b) n = (pos 0, put_slot lib i (some (add_tokens b n)))

pub tbf_return_token : (td ntoken : ℤ) → Library → ℤ × Library
unfolding return_to
tbf_return_token td ntoken lib =
    if out_of_range td || leb_ℤ ntoken (pos 0)
    then (negsuc 0, lib)
    else return_to lib (pos_part td) (slot lib (pos_part td)) ntoken

pub free_slot : Library → ℕ → Option Bucket → ℤ × Library
free_slot lib i none = (negsuc 1, lib)
free_slot lib i (some b) = (pos 0, put_slot lib i none)

pub tbf_destroy : (td : ℤ) → Library → ℤ × Library
unfolding free_slot
tbf_destroy td lib =
    if out_of_range td
    then (negsuc 0, lib)
    else free_slot lib (pos_part td) (slot lib (pos_part td))

-- The first `k` rounds of the loop of `tbf_destroy_all`.
pub destroy_rounds : (k : ℕ) → Library → Library
destroy_rounds zero lib = lib
destroy_rounds (suc k) lib =
    let lib' = destroy_rounds k lib in
    elim (slot lib' k) [ none ↦ lib' | some b ↦ (tbf_destroy (pos k) lib').1 ]

pub tbf_destroy_all : Library → Library
unfolding destroy_rounds
tbf_destroy_all lib = destroy_rounds tbfmax lib

-- What the threads of a program do, one step after the other.
pub data Op : Type 0 where
  init_op : (got : Bool) (cps burst : ℤ) → Op
  fetch_op : (td n : ℤ) → Op
  return_op : (td ntoken : ℤ) → Op
  destroy_op : (td : ℤ) → Op
  tick_op : Op

abbrev replied : ℤ × Library → Option ℤ × Library
replied (r, lib) = (some r, lib)

pub step : Library → Op → Option ℤ × Library
step lib (init_op got cps burst) = replied (tbf_init got cps burst lib)
step lib (fetch_op td n) = tbf_fetch_token td n lib
step lib (return_op td n) = replied (tbf_return_token td n lib)
step lib (destroy_op td) = replied (tbf_destroy td lib)
step lib tick_op = (none, thr_fun lib)
