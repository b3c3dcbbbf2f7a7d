-- ===== src/Alarms/Period.antt =====
-- 高编项目/alarm_scheduler.c: how often a task is handed out.
use mycode_c.Base.{
  ℕ, zero, suc, ◌+◌, ◌*◌, ◌≤◌, ◌≡◌, ◌≢◌, refl, ap, ap₂, sym, subst, ◌∙◌, arith, true, false, Option,
  List, [], ◌∷◌, if◌then◌else◌, if_elim, Bool, Bool-cases, inl, inr, All,
}
use mycode_c.Base.Int.{pos, ◌-ℤ◌}
use mycode_c.Alarms.{AlarmTask, due, tick, handle_sigalrm}

true-ne-false : true ≢ false
true-ne-false e = ground arith

one_less : (l : ℕ) → pos (suc l) -ℤ pos 1 ≡ pos l
unfolding ◌-ℤ◌
one_less l = ground arith

zero_plus : (n : ℕ) → 0 + n ≡ n
zero_plus n = omega arith

next_mul : (c k : ℕ) → (1 + c) * k ≡ k + c * k
next_mul c k = omega arith

module _ {J : Type 0} where
  -- A task that is on, every `k` ticks, with `l` ticks to go.
  pub record Runs (k l : ℕ) (t : AlarmTask J) : Type 0 where
    pub on : t.in_use ≡ true
    pub period : t.interval ≡ pos k
    pub left : t.ticks_left ≡ pos l
    pub low : 1 ≤ l
    pub high : l ≤ k

  -- How often the task is due in `n` ticks, and the task after them.
  unfoldable pub times_due : ℕ → AlarmTask J → ℕ
  times_due zero t = 0
  times_due (suc n) t = (if due t then 1 else 0) + times_due n (tick t)

  unfoldable pub ticks : ℕ → AlarmTask J → AlarmTask J
  ticks zero t = t
  ticks (suc n) t = ticks n (tick t)

  pub record Counted (k l n c : ℕ) (t : AlarmTask J) : Type 0 where
    pub l' : ℕ
    pub runs : Runs k l' t
    pub total : c * k + l ≡ n + l'

  due_last : (k : ℕ) (t : AlarmTask J) → Runs k 1 t → due t ≡ true
  unfolding due
  due_last k t r = rw (r.on, r.left, one_less 0, due) refl

  due_later : (k l : ℕ) (t : AlarmTask J) → Runs k (suc (suc l)) t → due t ≡ false
  unfolding due
  due_later k l t r = rw (r.on, r.left, one_less (suc l), due) (ground arith)

  tick_last : (k : ℕ) (t : AlarmTask J) → Runs k 1 t → Runs k k (tick t)
  unfolding tick
  tick_last k t r =
      rw (due_last k t r, tick)
        (record { on = r.on; period = r.period; left = r.period; low = r.high; high = omega arith })

  tick_later : (k l : ℕ) (t : AlarmTask J) → Runs k (suc (suc l)) t → Runs k (suc l) (tick t)
  unfolding tick
  tick_later k l t r =
      if_elim (Runs k (suc l)) (due t) _ _ (λ d. absurd (true-ne-false (sym d ∙ due_later k l t r)))
        (λ d.
          if_elim (Runs k (suc l)) t.in_use _ _
            (λ u. record {
              on = r.on;
              period = r.period;
              left = ap (λ z. z -ℤ pos 1) r.left ∙ one_less (suc l);
              low = omega arith;
              high = omega (arith, r.high);
            })
            (λ u. absurd (true-ne-false (sym r.on ∙ u))))

  times_due-Counted :
      (k n l : ℕ) (t : AlarmTask J) → Runs k l t → Counted k l n (times_due n t) (ticks n t)
  unfolding times_due ticks
  times_due-Counted k zero l t r = record { l' = l; runs = r; total = omega arith }
  times_due-Counted k (suc n) zero t r = absurd (omega (arith, r.low))
  times_due-Counted k (suc n) (suc zero) t r =
      let rest = times_due-Counted k n k (tick t) (tick_last k t r) in
      rw (due_last k t r) (record {
        l' = rest.l';
        runs = rest.runs;
        total = omega (arith, rest.total, next_mul (times_due n (tick t)) k);
      })
  times_due-Counted k (suc n) (suc (suc l)) t r =
      let rest = times_due-Counted k n (suc l) (tick t) (tick_later k l t r) in
      rw (due_later k l t r)
        (record { l' = rest.l'; runs = rest.runs; total = omega (arith, rest.total) })

  -- The table after `n` signals, and how often in them a job that passes `f` is handed to the pool.
  unfoldable pub signals : Bool → ℕ → List (AlarmTask J) → List (AlarmTask J)
  signals pool zero tasks = tasks
  signals pool (suc n) tasks = signals pool n (handle_sigalrm pool tasks).1

  unfoldable pub passing : (Option J → Bool) → List (Option J) → ℕ
  passing f [] = 0
  passing f (j ∷ js) = (if f j then 1 else 0) + passing f js

  unfoldable pub signals_handed : (Option J → Bool) → (pool : Bool) → ℕ → List (AlarmTask J) → ℕ
  unfolding passing
  signals_handed f pool zero tasks = 0
  signals_handed f pool (suc n) tasks =
      passing f (handle_sigalrm pool tasks).0
      + signals_handed f pool n (handle_sigalrm pool tasks).1

  abbrev Fails : (Option J → Bool) → AlarmTask J → Type 0
  Fails f t = f t.job ≡ false

  -- The slot `i` holds `t`, and no other slot a job that passes `f`.
  unfoldable pub Only : (Option J → Bool) → ℕ → AlarmTask J → List (AlarmTask J) → Type 0
  Only f i t [] = ⊥
  Only f zero t (u ∷ tasks) = (u ≡ t) × All (Fails f) tasks
  Only f (suc i) t (u ∷ tasks) = Fails f u × Only f i t tasks

  job-tick : (t : AlarmTask J) → (tick t).job ≡ t.job
  unfolding tick
  job-tick t = ground arith

  Fails-one :
      (f : Option J → Bool) (pool : Bool) (t : AlarmTask J) (js : List (Option J)) {c : ℕ}
      → Fails f t
      → passing f js ≡ c
      → passing f (if due t then (if pool then t.job ∷ js else js) else js) ≡ c
  unfolding passing
  Fails-one f pool t js {c = c} d e =
      if_elim (λ xs. passing f xs ≡ c) (due t) _ _
        (λ x.
          if_elim (λ xs. passing f xs ≡ c) pool _ _
            (λ y. ap (λ b. (if b then 1 else 0) + passing f js) d ∙ zero_plus (passing f js) ∙ e)
            (λ y. e))
        (λ x. e)

  passes_one :
      (f : Option J → Bool) (t u : AlarmTask J) (js : List (Option J))
      → f t.job ≡ true
      → u ≡ t
      → passing f js ≡ 0
      → passing f (if due u then u.job ∷ js else js) ≡ (if due t then 1 else 0)
  unfolding passing
  passes_one f t u js y e z =
      subst
        (λ (x : AlarmTask J).
          passing f (if due x then x.job ∷ js else js) ≡ (if due t then 1 else 0))
        (sym e)
        (elim (Bool-cases (due t)) [ inl d ↦ rw (d, y) (omega (arith, z)) | inr d ↦ rw d z ])

  Fails-All :
      (f : Option J → Bool) (pool : Bool) (tasks : List (AlarmTask J))
      → All (Fails f) tasks
      → (passing f (handle_sigalrm pool tasks).0 ≡ 0) × All (Fails f) (handle_sigalrm pool tasks).1
  unfolding handle_sigalrm passing
  Fails-All f pool [] a = (refl, tt)
  Fails-All f pool (t ∷ tasks) a =
      let rest = Fails-All f pool tasks a.1 in
      (Fails-one f pool t _ a.0 rest.0, (ap f (job-tick t) ∙ a.0, rest.1))

  -- What the handler does with slot `i`.
  handle_at :
      (f : Option J → Bool) (i : ℕ) (t : AlarmTask J) (tasks : List (AlarmTask J))
      → f t.job ≡ true
      → Only f i t tasks
      → (passing f (handle_sigalrm true tasks).0 ≡ (if due t then 1 else 0))
        × Only f i (tick t) (handle_sigalrm true tasks).1
  unfolding handle_sigalrm passing Only
  handle_at f i t [] y o = absurd o
  handle_at f zero t (u ∷ tasks) y (e, a) =
      let rest = Fails-All f true tasks a in (passes_one f t u _ y e rest.0, (ap tick e, rest.1))
  handle_at f (suc i) t (u ∷ tasks) y (d, o) =
      let rest = handle_at f i t tasks y o in
      (Fails-one f true u _ d refl ∙ rest.0, (ap f (job-tick u) ∙ d, rest.1))

  no_pool : (f : Option J → Bool) (tasks : List (AlarmTask J)) → (handle_sigalrm false tasks).0 ≡ []
  unfolding handle_sigalrm
  no_pool f [] = refl
  no_pool f (t ∷ tasks) =
      if_elim (λ xs. xs ≡ []) (due t) _ _ (λ x. no_pool f tasks) (λ x. no_pool f tasks)

  unhanded :
      (f : Option J → Bool) (n : ℕ) (tasks : List (AlarmTask J))
      → signals_handed f false n tasks ≡ 0
  unfolding signals_handed passing
  unhanded f zero tasks = refl
  unhanded f (suc n) tasks =
      ap₂ (λ js k. passing f js + k) (no_pool f tasks) (unhanded f n (handle_sigalrm false tasks).1)

  signals_at :
      (f : Option J → Bool) (n i : ℕ) (tasks : List (AlarmTask J)) (t : AlarmTask J)
      → f t.job ≡ true
      → Only f i t tasks
      → Only f i (ticks n t) (signals true n tasks)
        × (signals_handed f true n tasks ≡ times_due n t)
  unfolding signals signals_handed times_due ticks
  signals_at f zero i tasks t y o = (o, refl)
  signals_at f (suc n) i tasks t y o =
      let one = handle_at f i t tasks y o in
      let (there, same) =
        signals_at f n i (handle_sigalrm true tasks).1 (tick t) (ap f (job-tick t) ∙ y) one.1 in
      (there, ap₂ (λ a b. a + b) one.0 same)

  -- A task in slot `i` has `l` of its `k` ticks to go, its job passes the test `f`, and that of no other slot
  -- does. Then with a pool the handler hands that job to it `c` times in the next `n` signals, where `c * k +
  -- l` is `n` plus what the task then has to go, between 1 and `k`: so at the `l`-th signal and at every
  -- `k`-th after it, and at no other. Without a pool it hands out none.
  pub signals_handed-Counted :
      (f : Option J → Bool) (k n l i : ℕ) (tasks : List (AlarmTask J)) (t : AlarmTask J)
      → f t.job ≡ true
      → Only f i t tasks
      → Runs k l t
      → Counted k l n (signals_handed f true n tasks) (ticks n t)
        × Only f i (ticks n t) (signals true n tasks)
        × (signals_handed f false n tasks ≡ 0)
  signals_handed-Counted f k n l i tasks t y o r =
      let (there, same) = signals_at f n i tasks t y o in
      (
        subst (λ c. Counted k l n c (ticks n t)) (sym same) (times_due-Counted k n l t r),
        there,
        unhanded f n tasks,
      )
