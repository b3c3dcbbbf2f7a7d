-- ===== src/TokenBuckets/Purse.antt =====
-- apue/pthread/11tbf_thread/tbf.c: one bucket and what a step may do to its tokens.
use mycode_c.Base.{
  ℕ, zero, suc, ◌+◌, ◌≤◌, ◌≡◌, ◌≢◌, refl, sym, ap, subst, arith, inl, inr, Bool-cases, Option, none,
  some, List, [], ◌∷◌, map, get_elem?, if◌then◌else◌,
}
use mycode_c.Base.Int.{
  ℤ, pos, negsuc, pos_part, neg_part, ◌≤ℤ◌, ltb_ℤ, eqb_ℤ, int_max, int_of, IsInt, int_of-id, ◌+ℤ◌,
  ◌-ℤ◌,
}
use mycode_c.TokenBuckets.{
  Bucket, Library, accumulate, add_tokens, slot_of, slot, getmin, Op, fetch_op, return_op,
  destroy_op, tick_op,
}

-- A bucket that `tbf_init` made and the other calls kept, whose capacity and rate add up to an `int`.
pub record IsValid (b : Bucket) : Type 0 where
  pub low : pos 0 ≤ℤ b.token
  pub high : b.token ≤ℤ b.burst
  pub rate : pos 1 ≤ℤ b.cps
  pub size : pos 1 ≤ℤ b.burst
  pub roomy : pos_part b.burst + pos_part b.cps ≤ int_max

IsInt-parts : (z : ℤ) → neg_part z ≡ 0 → pos_part z ≤ int_max → IsInt z
IsInt-parts (pos n) e h = h
IsInt-parts (negsuc n) e h = omega (arith, e)

pub none_ne_some : {b : Bucket} → none ≢ some b
none_ne_some e = ground arith

-- Sums and differences of integers that are not negative.
pub add_parts :
    (a b : ℤ)
    → pos 0 ≤ℤ a
    → pos 0 ≤ℤ b
    → (pos_part (a +ℤ b) ≡ pos_part a + pos_part b) × (neg_part (a +ℤ b) ≡ 0)
unfolding ◌+ℤ◌
add_parts a b h k = ground arith

sub_parts :
    (a b : ℤ)
    → pos 0 ≤ℤ b
    → b ≤ℤ a
    → (pos_part (a -ℤ b) + pos_part b ≡ pos_part a) × (neg_part (a -ℤ b) ≡ 0)
unfolding ◌-ℤ◌
sub_parts a b h k = ground arith

-- An amount that can be added to the full bucket without an overflow.
abbrev pub Fits : ℤ → ℤ → Type 0
Fits burst n = pos_part burst + pos_part n ≤ int_max

exact_sum :
    (b : Bucket) (n : ℤ)
    → pos 0 ≤ℤ n
    → IsValid b
    → Fits b.burst n
    → int_of (b.token +ℤ n) ≡ b.token +ℤ n
exact_sum b n h v f =
    let (p, z) = add_parts b.token n v.low h in
    int_of-id (b.token +ℤ n) (IsInt-parts _ z (grind (arith, p, v.high, v.low, f)))

abbrev pub cut : Bucket → ℤ → Bucket
cut b t = if ltb_ℤ b.burst t then record b { token = b.burst } else record b { token = t }

-- `add_tokens` without the wrap-around
pub add_tokens-exact :
    (b : Bucket) (n : ℤ)
    → pos 0 ≤ℤ n
    → IsValid b
    → Fits b.burst n
    → add_tokens b n ≡ cut b (b.token +ℤ n)
unfolding add_tokens
add_tokens-exact b n h v f = ap (cut b) (exact_sum b n h v f)

cut-IsValid : (b : Bucket) (n : ℤ) → pos 0 ≤ℤ n → IsValid b → IsValid (cut b (b.token +ℤ n))
cut-IsValid b n h v = elim (Bool-cases (ltb_ℤ b.burst (b.token +ℤ n))) [
  | inl over ↦ rw (over) (record {
    low = ground arith;
    high = ground arith;
    rate = v.rate;
    size = v.size;
    roomy = v.roomy;
  })
  | inr within ↦ rw (within) (record {
    roomy = v.roomy;
    low = ground (arith, add_parts b.token n v.low h);
    high = ground arith;
    rate = v.rate;
    size = v.size;
  })
]

pub add_tokens-IsValid :
    (b : Bucket) (n : ℤ) → pos 0 ≤ℤ n → IsValid b → Fits b.burst n → IsValid (add_tokens b n)
add_tokens-IsValid b n h v f =
    subst IsValid (sym (add_tokens-exact b n h v f)) (cut-IsValid b n h v)

-- What one step pays out of the slot `i`, and what it pays in.
abbrev pub paid : ℕ → Op → Option ℤ → ℕ
paid i (fetch_op td n) (some k) = if eqb_ℤ (pos i) td then pos_part k else 0
paid i op r = 0

abbrev pub earned : ℕ → ℤ → Op → ℕ
earned i cps (return_op td n) = if eqb_ℤ (pos i) td then pos_part n else 0
earned i cps tick_op = pos_part cps
earned i cps op = 0

-- No step destroys the bucket of slot `i`, and none returns so much to it that the sum is no `int`.
abbrev pub Keeps : ℕ → ℤ → Op → Type 0
Keeps i burst (destroy_op td) = td ≢ pos i
Keeps i burst (return_op td n) = td ≡ pos i → Fits burst n
Keeps i burst op = Unit {0}

-- The bucket of slot `i` after a step, against the one before.
pub record Moved (i : ℕ) (b : Bucket) (out into : ℕ) (lib : Library) : Type 0 where
  pub after : Bucket
  pub there : slot lib i ≡ some after
  pub valid : IsValid after
  pub same_cps : after.cps ≡ b.cps
  pub same_burst : after.burst ≡ b.burst
  pub balance : out + pos_part after.token ≤ pos_part b.token + into

module _ (b : Bucket) (n : ℤ) where
  cut-token :
      pos 0 ≤ℤ n → IsValid b → pos_part (cut b (b.token +ℤ n)).token ≤ pos_part b.token + pos_part n
  cut-token h v = ground (arith, add_parts b.token n v.low h)

  add_tokens-token :
      pos 0 ≤ℤ n
      → IsValid b
      → Fits b.burst n
      → pos_part (add_tokens b n).token ≤ pos_part b.token + pos_part n
  add_tokens-token h v f =
      subst (λ (c : Bucket). pos_part c.token ≤ pos_part b.token + pos_part n)
        (sym (add_tokens-exact b n h v f)) (cut-token h v)

  add_tokens-cps : (add_tokens b n).cps ≡ b.cps
  unfolding add_tokens
  add_tokens-cps = ground arith

  add_tokens-burst : (add_tokens b n).burst ≡ b.burst
  unfolding add_tokens
  add_tokens-burst = ground arith

module _ (i : ℕ) (b : Bucket) (v : IsValid b) where
  pub stay : (lib : Library) → slot lib i ≡ some b → Moved i b 0 0 lib
  stay lib e = record {
    after = b;
    there = e;
    valid = v;
    same_cps = refl;
    same_burst = refl;
    balance = omega arith;
  }

  pub gain :
      (lib : Library) (n : ℤ)
      → pos 0 ≤ℤ n
      → Fits b.burst n
      → slot lib i ≡ some (add_tokens b n)
      → Moved i b 0 (pos_part n) lib
  gain lib n h f e = record {
    after = add_tokens b n;
    there = e;
    valid = add_tokens-IsValid b n h v f;
    same_cps = add_tokens-cps b n;
    same_burst = add_tokens-burst b n;
    balance = omega (arith, add_tokens-token b n h v f);
  }

  pub pay :
      (lib : Library) (k : ℤ)
      → pos 1 ≤ℤ k
      → k ≤ℤ b.token
      → slot lib i ≡ some (record b { token = b.token -ℤ k })
      → Moved i b (pos_part k) 0 lib
  pay lib k h le e = record {
    after = record b { token = b.token -ℤ k };
    there = e;
    valid = record {
      low = ground (arith, sub_parts b.token k);
      high = ground (arith, sub_parts b.token k, v.high);
      rate = v.rate;
      size = v.size;
      roomy = v.roomy;
    };
    same_cps = refl;
    same_burst = refl;
    balance = ground (arith, sub_parts b.token k);
  }

pub at_map :
    (slots : List (Option Bucket)) (i : ℕ) (b : Bucket)
    → slot_of (get_elem? slots i) ≡ some b
    → slot_of (get_elem? (map accumulate slots) i) ≡ some (add_tokens b b.cps)
unfolding accumulate
at_map [] i b e = ground arith
at_map (none ∷ slots) zero b e = ground arith
at_map (some c ∷ slots) zero b e = ap accumulate e
at_map (o ∷ slots) (suc i) b e = at_map slots i b e

pub getmin-le :
    (m n : ℤ)
    → pos 1 ≤ℤ m
    → pos 1 ≤ℤ n
    → (pos 1 ≤ℤ getmin m n) × (getmin m n ≤ℤ m) × (getmin m n ≤ℤ n)
unfolding getmin
getmin-le m n h k = ground arith
