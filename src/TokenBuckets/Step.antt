-- ===== src/TokenBuckets/Step.antt =====
-- apue/pthread/11tbf_thread/tbf.c: what one step does to a bucket.
use mycode_c.Base.{
  ℕ, ◌<◌, ◌≡◌, ◌≢◌, refl, sym, ap, ◌∙◌, arith, subst, Bool, true, false, ◌||◌, inl, inr, Bool-cases,
  Option, none, some, get_elem?, length,
}
use mycode_c.Base.Int.{ℤ, pos, negsuc, pos_part, ◌≤ℤ◌, leb_ℤ, eqb_ℤ, eqb_ℤ→eq}
use mycode_c.TokenBuckets.{
  Bucket, Library, thr_fun, slot_of, slot, out_of_range, getmin, fetch_from, tbf_fetch_token,
  return_to, tbf_return_token, tbf_destroy, free_slot, Op, init_op, fetch_op, return_op, destroy_op,
  tick_op, step,
}
use mycode_c.TokenBuckets.Slots.{
  IsFull, slot-put_self, slot-put_ne, Opened, rejected, opened, full, no_memory, tbf_init-Opened,
}
use mycode_c.TokenBuckets.Purse.{
  IsValid, none_ne_some, paid, earned, Fits, Keeps, Moved, stay, gain, pay, at_map, getmin-le,
}

-- A call on another slot leaves slot `i` as it was.
fetch_elsewhere :
    (i k : ℕ) (lib : Library) (o : Option Bucket) (n : ℤ)
    → k ≢ i
    → slot (fetch_from lib k o n).1 i ≡ slot lib i
unfolding fetch_from
fetch_elsewhere i k lib none n ne = refl
fetch_elsewhere i k lib (some b) n ne = elim (Bool-cases (leb_ℤ b.token (pos 0))) [
  | inl dry ↦ rw (dry, fetch_from) refl
  | inr wet ↦ rw (wet, fetch_from) (slot-put_ne lib k i _ ne)
]

return_elsewhere :
    (i k : ℕ) (lib : Library) (o : Option Bucket) (n : ℤ)
    → k ≢ i
    → slot (return_to lib k o n).1 i ≡ slot lib i
unfolding return_to
return_elsewhere i k lib none n ne = refl
return_elsewhere i k lib (some b) n ne = slot-put_ne lib k i _ ne

destroy_elsewhere :
    (i k : ℕ) (lib : Library) (o : Option Bucket)
    → k ≢ i
    → slot (free_slot lib k o).1 i ≡ slot lib i
unfolding free_slot
destroy_elsewhere i k lib none ne = refl
destroy_elsewhere i k lib (some b) ne = slot-put_ne lib k i _ ne

no_pay : (i : ℕ) (td n : ℤ) (z : ℕ) → paid i (fetch_op td n) (some (negsuc z)) ≡ 0
no_pay i td n z = ground arith

paid_elsewhere :
    (i : ℕ) (td n : ℤ) (r : Option ℤ) → eqb_ℤ (pos i) td ≡ false → paid i (fetch_op td n) r ≡ 0
paid_elsewhere i td n none h = refl
paid_elsewhere i td n (some k) h = rw h refl

part_ne : (i : ℕ) (td : ℤ) → out_of_range td ≡ false → eqb_ℤ (pos i) td ≡ false → pos_part td ≢ i
part_ne i td h ne e = ground arith

module _ (i : ℕ) (b : Bucket) (v : IsValid b) (lib : Library) (lt : i < length lib.tbf_libs)
    (e : slot lib i ≡ some b) where
  fetch_here :
      (n : ℤ)
      → pos 1 ≤ℤ n
      → let out = fetch_from lib i (some b) n in
        Moved i b (paid i (fetch_op (pos i) n) out.0) 0 out.1
  unfolding fetch_from
  fetch_here n h = elim (Bool-cases (leb_ℤ b.token (pos 0))) [
    | inl dry ↦ rw (dry, fetch_from) (stay i b v lib e)
    | inr wet ↦
        let self : eqb_ℤ (pos i) (pos i) ≡ true = ground arith in
        let (one, le, _) = getmin-le b.token n (ground arith) h in
        rw (wet, fetch_from, self)
          (pay i b v _ (getmin b.token n) one le (slot-put_self lib i _ lt))
  ]

  fetch_same :
      (n : ℤ)
      → out_of_range (pos i) || leb_ℤ n (pos 0) ≡ false
      → let out = tbf_fetch_token (pos i) n lib in
        Moved i b (paid i (fetch_op (pos i) n) out.0) 0 out.1
  unfolding tbf_fetch_token
  fetch_same n good = rw (good, e, tbf_fetch_token) (fetch_here n (ground arith))

  fetch_other :
      (td n : ℤ)
      → out_of_range td || leb_ℤ n (pos 0) ≡ false
      → eqb_ℤ (pos i) td ≡ false
      → let out = tbf_fetch_token td n lib in Moved i b (paid i (fetch_op td n) out.0) 0 out.1
  unfolding tbf_fetch_token
  fetch_other td n good other =
      rw
        (
          good,
          paid_elsewhere i td n (fetch_from lib (pos_part td) (slot lib (pos_part td)) n).0 other,
          tbf_fetch_token,
        )
        (stay i b v _ (
          fetch_elsewhere i (pos_part td) lib (slot lib (pos_part td)) n
            (part_ne i td (ground arith) other)
          ∙ e))

  fetch-Moved :
      (td n : ℤ)
      → let out = tbf_fetch_token td n lib in Moved i b (paid i (fetch_op td n) out.0) 0 out.1
  unfolding tbf_fetch_token
  fetch-Moved td n = elim (Bool-cases (out_of_range td || leb_ℤ n (pos 0))) [
    | inl bad ↦ rw (bad, tbf_fetch_token, no_pay i td n 0) (stay i b v lib e)
    | inr good ↦ elim (Bool-cases (eqb_ℤ (pos i) td)) [
      | inl same ↦
          let P = λ (z : ℤ).
            out_of_range z || leb_ℤ n (pos 0) ≡ false
            → Moved i b (paid i (fetch_op z n) (tbf_fetch_token z n lib).0) 0
                (tbf_fetch_token z n lib).1 in
          subst P (eqb_ℤ→eq (pos i) td same) (fetch_same n) good
      | inr other ↦ fetch_other td n good other
    ]
  ]

  return_same :
      (n : ℤ)
      → Fits b.burst n
      → out_of_range (pos i) || leb_ℤ n (pos 0) ≡ false
      → Moved i b 0 (earned i b.cps (return_op (pos i) n)) (tbf_return_token (pos i) n lib).1
  unfolding tbf_return_token return_to
  return_same n f good =
      let self : eqb_ℤ (pos i) (pos i) ≡ true = ground arith in
      rw (good, e, tbf_return_token, return_to, self)
        (gain i b v _ n (ground arith) f (slot-put_self lib i _ lt))

  -- More than was paid in may be allowed for.
  no_return : (into : ℕ) (lib' : Library) → slot lib' i ≡ some b → Moved i b 0 into lib'
  no_return into lib' e' = record {
    after = b;
    there = e';
    valid = v;
    same_cps = refl;
    same_burst = refl;
    balance = omega arith;
  }

  return-Moved :
      (td n : ℤ)
      → (td ≡ pos i → Fits b.burst n)
      → Moved i b 0 (earned i b.cps (return_op td n)) (tbf_return_token td n lib).1
  unfolding tbf_return_token
  return-Moved td n f = elim (Bool-cases (out_of_range td || leb_ℤ n (pos 0))) [
    | inl bad ↦ rw (bad, tbf_return_token) (no_return _ lib e)
    | inr good ↦ elim (Bool-cases (eqb_ℤ (pos i) td)) [
      | inl same ↦
          let P = λ (z : ℤ).
            out_of_range z || leb_ℤ n (pos 0) ≡ false
            → Moved i b 0 (earned i b.cps (return_op z n)) (tbf_return_token z n lib).1 in
          subst P (eqb_ℤ→eq (pos i) td same) (return_same n (f (sym (eqb_ℤ→eq (pos i) td same))))
            good
      | inr other ↦
          rw (good, tbf_return_token)
            (no_return _ _ (
              return_elsewhere i (pos_part td) lib (slot lib (pos_part td)) n
                (part_ne i td (ground arith) other)
              ∙ e))
    ]
  ]

  Opened-Moved :
      {got : Bool} {cps burst : ℤ} {out : ℤ × Library}
      → Opened got cps burst lib out
      → Moved i b 0 0 out.1
  Opened-Moved (rejected _) = stay i b v lib e
  Opened-Moved (opened k lib' _ _ _ free _ _ same) =
      stay i b v lib'
        (same i (λ k≡i. none_ne_some (sym (subst (λ z. slot lib z ≡ none) k≡i free) ∙ e)) ∙ e)
  Opened-Moved (full lib' _ _ same) =
      stay i b v lib' (ap (λ slots. slot_of (get_elem? slots i)) same ∙ e)
  Opened-Moved (no_memory lib' _ _ same) = stay i b v lib' (same i ∙ e)

  destroy-Moved : (td : ℤ) → td ≢ pos i → Moved i b 0 0 (tbf_destroy td lib).1
  unfolding tbf_destroy
  destroy-Moved td ne = elim (Bool-cases (out_of_range td)) [
    | inl bad ↦ rw (bad, tbf_destroy) (stay i b v lib e)
    | inr good ↦
        rw (good, tbf_destroy)
          (stay i b v _ (
            destroy_elsewhere i (pos_part td) lib (slot lib (pos_part td))
              (λ same. ne (ground arith))
            ∙ e))
  ]

  tick-Moved : Moved i b 0 (pos_part b.cps) (thr_fun lib)
  unfolding thr_fun
  tick-Moved =
      gain i b v (thr_fun lib) b.cps (ground (arith, v.rate)) v.roomy (at_map lib.tbf_libs i b e)

  pub step-Moved :
      (op : Op)
      → IsFull lib
      → Keeps i b.burst op
      → let out = step lib op in Moved i b (paid i op out.0) (earned i b.cps op) out.1
  unfolding step
  step-Moved (init_op got cps burst) h k = Opened-Moved (tbf_init-Opened got cps burst lib h)
  step-Moved (fetch_op td n) h k = fetch-Moved td n
  step-Moved (return_op td n) h k = return-Moved td n k
  step-Moved (destroy_op td) h k = destroy-Moved td k
  step-Moved tick_op h k = tick-Moved
