-- ===== src/Calc/Operators.antt =====
-- stack/04repolish/main.c: the three loops of `infix_to_postfix` that pop operators.
use mycode_c.Base.{
  ℕ, zero, suc, ◌≤◌, ◌<◌, ◌≡◌, refl, ap, sym, subst, ◌∙◌, arith, true, false, List, [], ◌∷◌, ◌++◌,
  map, length, All, if◌then◌else◌,
}
use mycode_c.Base.Int.{ℤ, pos, eqb_ℤ, ltb_ℤ, ◌<ℤ◌}
use mycode_c.Stack.{Stack, stack_push}
use mycode_c.Stack.Holds.{
  Holds, push-Holds, Popped, pop-Popped, is_empty-nil, is_empty-cons, length-Holds,
}
use mycode_c.Calc.{space, get_priority, written, close, reduce, flush}
use mycode_c.Calc.Expr.{Oper, plus, minus, times, over, char_of, rank}

abbrev pub item : Oper → ℤ
item o = pos (char_of o)

-- Pending operators as they are written.
unfoldable pub ops_text : List Oper → List ℕ
ops_text [] = []
ops_text (o ∷ ops) = char_of o ∷ space ∷ ops_text ops

pub get_priority-item : (o : Oper) → get_priority (item o) ≡ pos (rank o)
unfolding get_priority
get_priority-item plus = refl
get_priority-item minus = refl
get_priority-item times = refl
get_priority-item over = refl

pub get_priority_bracket : get_priority (pos 40) ≡ pos 0
unfolding get_priority
get_priority_bracket = refl

item_no_bracket : (o : Oper) → eqb_ℤ (item o) (pos 40) ≡ false
item_no_bracket plus = refl
item_no_bracket minus = refl
item_no_bracket times = refl
item_no_bracket over = refl

-- The newest operator, if any, binds less tightly than `n`.
abbrev pub Under : List ℤ → ℕ → Type 0
Under [] n = Unit
Under (x ∷ xs) n = get_priority x <ℤ pos n

-- What was written, and what the stack then holds.
abbrev pub Left : List ℕ × Stack → List ℕ → List ℤ → Type 0
Left r out xs = (r.0 ≡ out) × Holds r.1 xs

-- One round of each loop, at what the stack holds.
module _ (s : Stack) (x : ℤ) (xs : List ℤ) (h : Holds s (x ∷ xs)) where
  abbrev pub top : Popped s x xs
  top = pop-Popped h

  close_at :
      (fuel : ℕ)
      → close (suc fuel) s ≡ (
          let (out, s'') = close fuel top.after in
          if eqb_ℤ x (pos 40) then ([], top.after) else (written x ++ out, s''))
  unfolding close
  close_at fuel = rw (is_empty-cons h, top.result, close) refl

  flush_at : (fuel : ℕ) → flush (suc fuel) s ≡ written x ++ flush fuel top.after
  unfolding flush
  flush_at fuel = rw (is_empty-cons h, top.result, flush) refl

  reduce_at :
      (cur : ℤ) (fuel : ℕ)
      → reduce cur (suc fuel) s ≡ (
          let (out, s'') = reduce cur fuel top.after in
          if ltb_ℤ (get_priority x) (get_priority cur)
          then ([], (stack_push top.after x).1)
          else (written x ++ out, s''))
  unfolding reduce
  reduce_at cur fuel = rw (is_empty-cons h, top.result, reduce) refl

pub flush_lem :
    (fuel : ℕ) (s : Stack) (ops : List Oper)
    → Holds s (map item ops)
    → length ops ≤ fuel
    → flush fuel s ≡ ops_text ops
unfolding flush ops_text
flush_lem zero s [] h k = refl
flush_lem zero s (o ∷ ops) h k = absurd (omega arith)
flush_lem (suc fuel) s [] h k = rw (is_empty-nil h, flush) refl
flush_lem (suc fuel) s (o ∷ ops) h k =
    flush_at s (item o) (map item ops) h fuel
    ∙ ap (λ t. written (item o) ++ t)
        (flush_lem fuel (top s (item o) (map item ops) h).after ops
          (top s (item o) (map item ops) h).rest (omega arith))

-- A closing bracket takes the operators down to the opening one.
pub close-Left :
    (fuel : ℕ) (s : Stack) (ops : List Oper) (xs : List ℤ)
    → Holds s (map item ops ++ (pos 40 ∷ xs))
    → length ops < fuel
    → Left (close fuel s) (ops_text ops) xs
unfolding ops_text
close-Left zero s ops xs h k = absurd (omega arith)
close-Left (suc fuel) s [] xs h k =
    subst (λ r. Left r [] xs) (sym (close_at s (pos 40) xs h fuel))
      (refl, (top s (pos 40) xs h).rest)
close-Left (suc fuel) s (o ∷ ops) xs h k =
    let t = top s (item o) (map item ops ++ (pos 40 ∷ xs)) h in
    let (out, more) = close-Left fuel t.after ops xs t.rest (omega arith) in
    subst (λ r. Left r (ops_text (o ∷ ops)) xs)
      (sym (close_at s (item o) (map item ops ++ (pos 40 ∷ xs)) h fuel))
      (rw (item_no_bracket o) (ap (λ t. written (item o) ++ t) out, more))

reduce_stop :
    (fuel : ℕ) (o : Oper) (s : Stack) (xs : List ℤ)
    → Holds s xs
    → Under xs (rank o)
    → Left (reduce (item o) fuel s) [] xs
unfolding reduce
reduce_stop zero o s xs h u = (refl, h)
reduce_stop (suc fuel) o s [] h u = rw (is_empty-nil h, reduce) (refl, h)
reduce_stop (suc fuel) o s (x ∷ xs) h u =
    let t = top s x xs h in
    let less : ltb_ℤ (get_priority x) (get_priority (item o)) ≡ true =
      rw (get_priority-item o) (ground arith) in
    subst (λ r. Left r [] (x ∷ xs)) (sym (reduce_at s x xs h (item o) fuel))
      (rw less (refl, push-Holds x t.rest (length-Holds h)))

-- An operator takes those that bind at least as tightly.
pub reduce-Left :
    (fuel : ℕ) (o : Oper) (s : Stack) (ops : List Oper) (xs : List ℤ)
    → Holds s (map item ops ++ xs)
    → All (λ p. rank o ≤ rank p) ops
    → Under xs (rank o)
    → length ops ≤ fuel
    → Left (reduce (item o) fuel s) (ops_text ops) xs
unfolding ops_text
reduce-Left fuel o s [] xs h a u k = reduce_stop fuel o s xs h u
reduce-Left zero o s (p ∷ ops) xs h a u k = absurd (omega arith)
reduce-Left (suc fuel) o s (p ∷ ops) xs h a u k =
    let t = top s (item p) (map item ops ++ xs) h in
    let (out, more) = reduce-Left fuel o t.after ops xs t.rest a.1 u (omega arith) in
    let tight : ltb_ℤ (get_priority (item p)) (get_priority (item o)) ≡ false =
      rw (get_priority-item o, get_priority-item p) (ground (arith, a.0)) in
    subst (λ r. Left r (ops_text (p ∷ ops)) xs)
      (sym (reduce_at s (item p) (map item ops ++ xs) h (item o) fuel))
      (rw tight (ap (λ t. written (item p) ++ t) out, more))
