-- ===== src/TokenBuckets/Rate.antt =====
-- apue/pthread/11tbf_thread/tbf.c: how many tokens a bucket hands out over a run of steps.
use mycode_c.Base.{
  ℕ, suc, ◌+◌, ◌<◌, ◌≡◌, refl, ap, subst, sym, ◌∙◌, arith, Bool, true, false, ◌||◌, inl, inr,
  Bool-cases, Option, none, some, List, [], ◌∷◌, map, length, length-set, All,
}
use mycode_c.Base.Int.{ℤ, pos, negsuc, pos_part, ◌≤ℤ◌, leb_ℤ, ◌+ℤ◌}
use mycode_c.TokenBuckets.{
  Bucket, tbfmax, Library, accumulate, add_tokens, thr_fun, slot, out_of_range, new_bucket, getmin,
  tbf_fill, tbf_init, get_tbf_pos, fetch_from, tbf_fetch_token, return_to, tbf_return_token, Op,
  init_op, fetch_op, return_op, destroy_op, tick_op, step,
}
use mycode_c.TokenBuckets.Slots.{IsFull, length-tbf_destroy}
use mycode_c.TokenBuckets.Purse.{
  IsValid, paid, earned, Keeps, Moved, at_map, Fits, cut, add_tokens-exact, getmin-le, add_parts,
}
use mycode_c.TokenBuckets.Step.{step-Moved}

length-map : (slots : List (Option Bucket)) → length (map accumulate slots) ≡ length slots
length-map [] = refl
length-map (o ∷ slots) = ap suc (length-map slots)

length-tbf_fill :
    (got : Bool) (cps burst : ℤ) (lib : Library) (z : ℤ)
    → length (tbf_fill got cps burst lib z).1.tbf_libs ≡ length lib.tbf_libs
unfolding tbf_fill
length-tbf_fill got cps burst lib (negsuc n) = refl
length-tbf_fill false cps burst lib (pos i) = length-set lib.tbf_libs i none
length-tbf_fill true cps burst lib (pos i) = length-set lib.tbf_libs i (new_bucket cps burst)

length-fetch_from :
    (lib : Library) (i : ℕ) (o : Option Bucket) (n : ℤ)
    → length (fetch_from lib i o n).1.tbf_libs ≡ length lib.tbf_libs
unfolding fetch_from
length-fetch_from lib i none n = refl
length-fetch_from lib i (some b) n = elim (Bool-cases (leb_ℤ b.token (pos 0))) [
  | inl dry ↦ rw (dry, fetch_from) refl
  | inr wet ↦ rw (wet, fetch_from) (length-set lib.tbf_libs i _)
]

length-return_to :
    (lib : Library) (i : ℕ) (o : Option Bucket) (n : ℤ)
    → length (return_to lib i o n).1.tbf_libs ≡ length lib.tbf_libs
unfolding return_to
length-return_to lib i none n = refl
length-return_to lib i (some b) n = length-set lib.tbf_libs i (some (add_tokens b n))

-- The table keeps its size.
pub length-step : (lib : Library) (op : Op) → length (step lib op).1.tbf_libs ≡ length lib.tbf_libs
unfolding step tbf_init tbf_fetch_token tbf_return_token thr_fun
length-step lib (init_op got cps burst) =
    elim (Bool-cases (leb_ℤ cps (pos 0) || leb_ℤ burst (pos 0))) [
      | inl bad ↦ rw (bad, tbf_init) refl
      | inr good ↦
          rw (good, tbf_init)
            (length-tbf_fill got cps burst (record lib { initd = true })
              (get_tbf_pos (record lib { initd = true })))
    ]
length-step lib (fetch_op td n) = elim (Bool-cases (out_of_range td || leb_ℤ n (pos 0))) [
  | inl bad ↦ rw (bad, tbf_fetch_token) refl
  | inr good ↦
      rw (good, tbf_fetch_token) (length-fetch_from lib (pos_part td) (slot lib (pos_part td)) n)
]
length-step lib (return_op td n) = elim (Bool-cases (out_of_range td || leb_ℤ n (pos 0))) [
  | inl bad ↦ rw (bad, tbf_return_token) refl
  | inr good ↦
      rw (good, tbf_return_token) (length-return_to lib (pos_part td) (slot lib (pos_part td)) n)
]
length-step lib (destroy_op td) = length-tbf_destroy td lib
length-step lib tick_op = length-map lib.tbf_libs

-- A run of steps, and what it pays out of slot `i` and into it.
unfoldable pub steps : Library → List Op → Library
steps lib [] = lib
steps lib (op ∷ ops) = steps (step lib op).1 ops

unfoldable pub paid_all : ℕ → Library → List Op → ℕ
paid_all i lib [] = 0
paid_all i lib (op ∷ ops) = paid i op (step lib op).0 + paid_all i (step lib op).1 ops

unfoldable pub earned_all : ℕ → ℤ → List Op → ℕ
earned_all i cps [] = 0
earned_all i cps (op ∷ ops) = earned i cps op + earned_all i cps ops

module _ (i : ℕ) (lt : i < tbfmax) where
  join-Moved :
      (b : Bucket) (out out' into into' : ℕ) (lib lib' : Library)
      → (m : Moved i b out into lib) → Moved i m.after out' into' lib'
      → Moved i b (out + out') (into + into') lib'
  join-Moved b out out' into into' lib lib' m m' = record {
    after = m'.after;
    there = m'.there;
    valid = m'.valid;
    same_cps = m'.same_cps ∙ m.same_cps;
    same_burst = m'.same_burst ∙ m.same_burst;
    balance = omega (arith, m.balance, m'.balance);
  }

  -- Over any run of calls and ticks that do not destroy the bucket of slot `i` and return no more to it than can be
  -- added to its capacity without an overflow, from a bucket on that holds between 0 tokens and its capacity and
  -- whose rate and capacity are positive and add up to an `int`: that bucket stays, with its rate and capacity, holds between 0 tokens and its capacity, and hands out no more
  -- than the tokens it held, its rate for each tick, and what was returned to it.
  pub steps-Moved :
      (b : Bucket) (lib : Library) (ops : List Op)
      → IsFull lib
      → slot lib i ≡ some b
      → IsValid b
      → All (Keeps i b.burst) ops
      → Moved i b (paid_all i lib ops) (earned_all i b.cps ops) (steps lib ops)
  unfolding steps paid_all earned_all
  steps-Moved b lib [] h e v k = record {
    after = b;
    there = e;
    valid = v;
    same_cps = refl;
    same_burst = refl;
    balance = omega arith;
  }
  steps-Moved b lib (op ∷ ops) h e v k =
      let m = step-Moved i b v lib (omega (arith, h)) e op h k.0 in
      let rest =
        steps-Moved m.after (step lib op).1 ops (length-step lib op ∙ h) m.there m.valid
          (subst (λ z. All (Keeps i z) ops) (sym m.same_burst) k.1) in
      join-Moved b _ _ _ _ _ _ m (
        subst
          (λ cps.
            Moved i m.after (paid_all i (step lib op).1 ops) (earned_all i cps ops)
              (steps (step lib op).1 ops))
          m.same_cps rest)

  cut-pos : (b : Bucket) (n : ℤ) → pos 1 ≤ℤ n → IsValid b → pos 1 ≤ℤ (cut b (b.token +ℤ n)).token
  cut-pos b n h v = ground (arith, add_parts b.token n v.low (omega (arith, h)), v.size)

  add_tokens-pos :
      (b : Bucket) (n : ℤ)
      → pos 1 ≤ℤ n
      → IsValid b
      → Fits b.burst n
      → pos 1 ≤ℤ (add_tokens b n).token
  add_tokens-pos b n h v f =
      subst (λ (c : Bucket). pos 1 ≤ℤ c.token) (sym (add_tokens-exact b n (omega (arith, h)) v f))
        (cut-pos b n h v)

  -- Once the thread has made a round, a fetch of at least one token from the bucket no longer waits: it
  -- returns at least one token and no more than asked for. The bucket held between 0 tokens and its capacity,
  -- and its rate and capacity are positive and add up to an `int`.
  pub fetch-thr_fun :
      (b : Bucket) (lib : Library) (n : ℤ)
      → slot lib i ≡ some b
      → IsValid b
      → pos 1 ≤ℤ n
      → (k : ℤ) × ((tbf_fetch_token (pos i) n (thr_fun lib)).0 ≡ some k) × (pos 1 ≤ℤ k) × (k ≤ℤ n)
  unfolding tbf_fetch_token thr_fun fetch_from
  fetch-thr_fun b lib n e v h =
      let full = add_tokens b b.cps in
      let one = add_tokens-pos b b.cps v.rate v v.roomy in
      let there : slot (thr_fun lib) i ≡ some full = at_map lib.tbf_libs i b e in
      let good : out_of_range (pos i) || leb_ℤ n (pos 0) ≡ false = ground arith in
      let wet : leb_ℤ full.token (pos 0) ≡ false = ground arith in
      let (low, _, high) = getmin-le full.token n one h in
      (getmin full.token n, rw (good, there, wet, tbf_fetch_token, fetch_from) refl, low, high)
