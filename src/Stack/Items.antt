-- ===== src/Stack/Items.antt =====
-- stack/02arr/stack.c against a bounded last-in first-out list.
use mycode_c.Base.{
  ℕ, zero, suc, ◌+◌, ◌-◌, ◌≤◌, ◌<◌, ◌≡◌, refl, ap, ap₂, sym, ◌∙◌, arith, true, false, Bool-cases,
  inl, inr, Option, none, some, List, [], ◌∷◌, get_or, set, length, length-set, get_or-set_self,
  get_or-set_ne, get_elem?-eq-get_or, ◌==◌, if◌then◌else◌,
}
use mycode_c.Base.Int.{ℤ, pos, negsuc}
use mycode_c.Stack.{
  Stack, stacksize, stack_create, is_full, is_empty, stack_push, stack_pop, Op, push, pop, run,
}

-- A stack of at most `stacksize` items, the newest first.
unfoldable pub serve : List ℤ → List Op → List (ℤ × Option ℤ)
serve xs [] = []
serve xs (push x ∷ ops) =
    if length xs == stacksize
    then (negsuc 0, none) ∷ serve xs ops
    else (pos 0, none) ∷ serve (x ∷ xs) ops
serve [] (pop ∷ ops) = (negsuc 0, none) ∷ serve [] ops
serve (x ∷ xs) (pop ∷ ops) = (pos 0, some x) ∷ serve xs ops

-- What lies below index `i`, from the top down.
unfoldable pub below : ℕ → List ℤ → List ℤ
below zero arr = []
below (suc i) arr = get_or arr i (pos 0) ∷ below i arr

pub length-below : (i : ℕ) (arr : List ℤ) → length (below i arr) ≡ i
unfolding below
length-below zero arr = refl
length-below (suc i) arr = ap suc (length-below i arr)

below-set : (i j : ℕ) (arr : List ℤ) (x : ℤ) → i ≤ j → below i (set arr j x) ≡ below i arr
unfolding below
below-set zero j arr x h = refl
below-set (suc i) j arr x h =
    ap₂ (λ a b. a ∷ b) (get_or-set_ne arr j i x (pos 0) (λ e. absurd (omega arith)))
      (below-set i j arr x (omega arith))

pub pushed :
    (i : ℕ) (arr : List ℤ) (x : ℤ) → i < length arr → below (suc i) (set arr i x) ≡ x ∷ below i arr
unfolding below
pushed i arr x h =
    ap₂ (λ a b. a ∷ b) (get_or-set_self arr i x (pos 0) h) (below-set i i arr x (omega arith))

serve_full :
    (xs : List ℤ) (x : ℤ) (ops : List Op)
    → (length xs == stacksize) ≡ true
    → serve xs (push x ∷ ops) ≡ (negsuc 0, none) ∷ serve xs ops
unfolding serve
serve_full xs x ops f = rw (f, serve) refl

serve_room :
    (xs : List ℤ) (x : ℤ) (ops : List Op)
    → (length xs == stacksize) ≡ false
    → serve xs (push x ∷ ops) ≡ (pos 0, none) ∷ serve (x ∷ xs) ops
unfolding serve
serve_room xs x ops f = rw (f, serve) refl

abbrev pub at : ℕ → List ℤ → Stack
at i arr = record { stack_arr = arr; stack_top = i }

pub push_full :
    (i : ℕ) (arr : List ℤ) (x : ℤ)
    → (i == stacksize) ≡ true
    → stack_push (at i arr) x ≡ (negsuc 0, at i arr)
unfolding stack_push is_full
push_full i arr x f = rw (f, stack_push) refl

pub push_room :
    (i : ℕ) (arr : List ℤ) (x : ℤ)
    → (i == stacksize) ≡ false
    → stack_push (at i arr) x ≡ (pos 0, at (suc i) (set arr i x))
unfolding stack_push is_full
push_room i arr x f = let next : i + 1 ≡ suc i = omega arith in rw (f, next, stack_push) refl

pub pop_some :
    (i : ℕ) (arr : List ℤ)
    → i < length arr
    → stack_pop (at (suc i) arr) ≡ (pos 0, some (get_or arr i (pos 0)), at i arr)
unfolding stack_pop is_empty
pop_some i arr h =
    let more : (suc i == 0) ≡ false = ground arith in
    let prev : suc i - 1 ≡ i = omega arith in
    rw (more, prev, stack_pop)
      (ap (λ o. (pos 0, o, at i arr)) (get_elem?-eq-get_or arr i (pos 0) h))

abbrev reply : ℤ × Option ℤ → List (ℤ × Option ℤ) → List (ℤ × Option ℤ)
reply r rs = r ∷ rs

run_at :
    (i : ℕ) (arr : List ℤ) (ops : List Op)
    → length arr ≡ stacksize
    → i ≤ stacksize
    → run (at i arr) ops ≡ serve (below i arr) ops
unfolding run serve below
run_at i arr [] h k = refl
run_at i arr (push x ∷ ops) h k = elim (Bool-cases (i == stacksize)) [
  | inl f ↦
      ap (λ (r : ℤ × Stack). reply (r.0, none) (run r.1 ops)) (push_full i arr x f)
      ∙ ap (reply (negsuc 0, none)) (run_at i arr ops h k)
      ∙ sym (serve_full (below i arr) x ops (ap (λ n. n == stacksize) (length-below i arr) ∙ f))
  | inr f ↦
      let room : i < stacksize = ground arith in
      ap (λ (r : ℤ × Stack). reply (r.0, none) (run r.1 ops)) (push_room i arr x f)
      ∙ ap (reply (pos 0, none))
          (run_at (suc i) (set arr i x) ops (length-set arr i x ∙ h) (omega arith))
      ∙ ap (λ xs. reply (pos 0, none) (serve xs ops)) (pushed i arr x (omega (arith, h)))
      ∙ sym (serve_room (below i arr) x ops (ap (λ n. n == stacksize) (length-below i arr) ∙ f))
]
run_at zero arr (pop ∷ ops) h k = ap (reply (negsuc 0, none)) (run_at zero arr ops h k)
run_at (suc i) arr (pop ∷ ops) h k =
    ap (λ (r : ℤ × Option ℤ × Stack). reply (r.0, r.1) (run r.2 ops))
      (pop_some i arr (omega (arith, h)))
    ∙ ap (reply (pos 0, some (get_or arr i (pos 0)))) (run_at i arr ops h (omega arith))

-- From `stack_create` on, whatever the six ints that `malloc` left, the calls of `stack_push` and
-- `stack_pop` return the statuses and items of a last-in first-out stack of at most six items: a push
-- fails on six items only, a pop on none only.
pub run-serve :
    (garbage : List ℤ) (ops : List Op)
    → length garbage ≡ stacksize
    → run (stack_create garbage) ops ≡ serve [] ops
unfolding stack_create below
run-serve garbage ops h = run_at 0 garbage ops h (omega arith)
