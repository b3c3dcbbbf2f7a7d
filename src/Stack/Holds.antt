-- ===== src/Stack/Holds.antt =====
-- What a client of stack/02arr/stack.c relies on: the stack holds a list of items.
use mycode_c.Base.{
  ℕ, zero, suc, ◌≤◌, ◌<◌, ◌≡◌, refl, ap, sym, subst, ◌∙◌, arith, true, false, none, some, List, [],
  ◌∷◌, length, length-set, set,
}
use mycode_c.Base.Int.{ℤ, pos, negsuc}
use mycode_c.Stack.{Stack, stacksize, stack_create, is_empty, stack_push, stack_pop}
use mycode_c.Stack.Items.{below, at, push_room, pop_some, pushed}

-- `xs` are the items, the newest first.
pub data Holds : Stack → List ℤ → Type 0 where
  holds :
      (i : ℕ) (arr xs : List ℤ)
      → length arr ≡ stacksize
      → i ≡ length xs
      → i ≤ stacksize
      → below i arr ≡ xs
      → Holds (at i arr) xs

pub Holds-stack_create :
    (garbage : List ℤ) → length garbage ≡ stacksize → Holds (stack_create garbage) []
unfolding stack_create below
Holds-stack_create garbage h = holds 0 garbage [] h refl (omega arith) refl

pub stack_top-Holds : {s : Stack} {xs : List ℤ} → Holds s xs → s.stack_top ≡ length xs
stack_top-Holds (holds i arr xs _ e _ _) = e

pub is_empty-nil : {s : Stack} → Holds s [] → is_empty s ≡ true
unfolding is_empty
is_empty-nil (holds i arr xs _ e _ _) = rw (e, is_empty) refl

pub is_empty-cons : {s : Stack} {x : ℤ} {xs : List ℤ} → Holds s (x ∷ xs) → is_empty s ≡ false
unfolding is_empty
is_empty-cons (holds i arr xs _ e _ _) = rw (e, is_empty) (ground arith)

-- A push on fewer than six items.
pub push-Holds :
    {s : Stack} {xs : List ℤ} (x : ℤ)
    → Holds s xs
    → length xs < stacksize
    → Holds (stack_push s x).1 (x ∷ xs)
push-Holds x (holds i arr xs size e h items) room =
    let s' = at (suc i) (set arr i x) in
    let done : (stack_push (at i arr) x).1 ≡ s' =
      ap (λ (r : ℤ × Stack). r.1) (push_room i arr x (ground arith)) in
    subst (λ t. Holds t (x ∷ xs)) (sym done)
      (holds (suc i) (set arr i x) (x ∷ xs) (length-set arr i x ∙ size) (ap suc e) (omega arith)
        (pushed i arr x (omega arith) ∙ ap (λ ys. x ∷ ys) items))

-- What a pop does to a stack that holds something.
pub record Popped (s : Stack) (x : ℤ) (xs : List ℤ) : Type 0 where
  pub after : Stack
  pub result : stack_pop s ≡ (pos 0, some x, after)
  pub rest : Holds after xs

pub pop-Popped : {s : Stack} {x : ℤ} {xs : List ℤ} → Holds s (x ∷ xs) → Popped s x xs
unfolding below
pop-Popped (holds zero arr (x ∷ xs) size e h items) = absurd (omega (arith, e))
pop-Popped (holds (suc i) arr (x ∷ xs) size e h items) = record {
  after = at i arr;
  result = pop_some i arr (omega arith) ∙ ap (λ y. (pos 0, some y, at i arr)) (ap head_of items);
  rest = holds i arr xs size (omega (arith, e)) (omega arith) (ap tail_of items);
}
  where
    head_of : List ℤ → ℤ
    head_of [] = x
    head_of (y ∷ ys) = y

    tail_of : List ℤ → List ℤ
    tail_of [] = []
    tail_of (y ∷ ys) = ys

pub pop-nil : {s : Stack} → Holds s [] → stack_pop s ≡ (negsuc 0, none, s)
unfolding stack_pop is_empty
pop-nil (holds i arr xs _ e _ _) = rw (e, stack_pop) refl

pub length-Holds : {s : Stack} {xs : List ℤ} → Holds s xs → length xs ≤ stacksize
length-Holds (holds i arr xs _ e h _) = omega (arith, e)
