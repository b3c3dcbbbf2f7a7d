-- ===== src/Anytimer/Pass.antt =====
-- One run of the handler, when the callbacks leave the table alone.
use mycode_c.Base.{
  ℕ, suc, Bool, true, false, some, List, [], ◌∷◌, ◌++◌, map, append_assoc, ◌≡◌, sym, refl, ap, ◌∙◌,
  subst, inl, inr, if◌then◌else◌, length, length-append, get_elem?, set, Bool-cases, Option-cases,
  arith,
}
use mycode_c.Base.Int.{pos, ◌-ℤ◌, leb_ℤ}
use mycode_c.Anytimer.{
  Timer, Library, anytimermax, called, affected, retire_at, retire, count_down, visit_at, visit,
  rounds, alarm_handler,
}

get_elem?-middle :
    {B : Type 0} (xs : List B) (y : B) (ys : List B) → get_elem? (xs ++ y ∷ ys) (length xs) ≡ some y
get_elem?-middle [] y ys = refl
get_elem?-middle (x ∷ xs) y ys = get_elem?-middle xs y ys

set-middle :
    {B : Type 0} (xs : List B) (y z : B) (ys : List B)
    → set (xs ++ y ∷ ys) (length xs) z ≡ xs ++ z ∷ ys
set-middle [] y z ys = refl
set-middle (x ∷ xs) y z ys = ap (λ t. x ∷ t) (set-middle xs y z ys)

module _ {C : Type 0} where
  -- The callbacks that leave the table alone.
  abbrev pub quiet : C → ℕ → List (Timer C) → List (Timer C)
  quiet c arg ts = ts

  abbrev pub down : Timer C → Timer C
  down t = record t { remain = t.remain -ℤ pos 1 }

  -- A timer a second later, and what it calls then.
  unfoldable pub after : Timer C → Timer C
  after t =
      if t.is_used
      then (if leb_ℤ (t.remain -ℤ pos 1) (pos 0)
          then record (down t) { is_used = false }
          else down t)
      else t

  unfoldable pub calls_of : ℕ → Timer C → List (ℕ × C × ℕ)
  unfolding called
  calls_of i t =
      if t.is_used
      then (if leb_ℤ (t.remain -ℤ pos 1) (pos 0) then called i (down t) else [])
      else []

  unfoldable pub calls_from : ℕ → List (Timer C) → List (ℕ × C × ℕ)
  calls_from i [] = []
  calls_from i (t ∷ ts) = calls_of i t ++ calls_from (suc i) ts

  retire-middle :
      (before : List (Timer C)) (t : Timer C) (rest : List (Timer C))
      → retire (length before) (before ++ t ∷ rest) ≡ before ++ record t { is_used = false } ∷ rest
  unfolding retire retire_at
  retire-middle before t rest =
      ap (λ o. retire_at (length before) o (before ++ t ∷ rest)) (get_elem?-middle before t rest)
      ∙ set-middle before t (record t { is_used = false }) rest

  affected-quiet : (t : Timer C) (ts : List (Timer C)) → affected quiet t ts ≡ ts
  unfolding affected
  affected-quiet t ts = elim (Option-cases t.callback) [
    | inl e ↦ rw (e) refl
    | inr (c, e) ↦ rw (e) refl
  ]

  -- Both branches of the test of a timer that is in use.
  either_way :
      (rung : Bool) (calls : List (ℕ × C × ℕ)) (before : List (Timer C)) (freed kept : Timer C)
      (rest : List (Timer C))
      → ◌≡◌ {A = List (ℕ × C × ℕ) × List (Timer C)}
          (if rung then (calls, before ++ freed ∷ rest) else ([], before ++ kept ∷ rest))
          (if rung then calls else [], before ++ (if rung then freed else kept) ∷ rest)
  either_way true calls before freed kept rest = refl
  either_way false calls before freed kept rest = refl

  count_down-quiet :
      (before : List (Timer C)) (t : Timer C) (rest : List (Timer C))
      → t.is_used ≡ true
      → count_down quiet (length before) t (before ++ t ∷ rest)
        ≡ (calls_of (length before) t, before ++ after t ∷ rest)
  unfolding count_down calls_of after
  count_down-quiet before t rest u =
      let i = length before in
      let d = down t in
      let rung = leb_ℤ d.remain (pos 0) in
      ap (λ z. if rung then (called i d, retire i (affected quiet d z)) else ([], z))
        (set-middle before t d rest)
      ∙ ap (λ z. if rung then (called i d, z) else ([], before ++ d ∷ rest))
          (ap (retire i) (affected-quiet d (before ++ d ∷ rest)) ∙ retire-middle before d rest)
      ∙ either_way rung (called i d) before (record d { is_used = false }) d rest
      ∙ ap
          (λ b. (
            if b then (if rung then called i d else []) else [],
            before ++ (if b then (if rung then record d { is_used = false } else d) else t) ∷ rest,
          ))
          (sym u)

  unused_stays :
      (i : ℕ) (before : List (Timer C)) (t : Timer C) (rest : List (Timer C))
      → t.is_used ≡ false
      → ◌≡◌ {A = List (ℕ × C × ℕ) × List (Timer C)}
          ([], before ++ t ∷ rest)
          (calls_of i t, before ++ after t ∷ rest)
  unfolding calls_of after
  unused_stays i before t rest u =
      let d = down t in
      let rung = leb_ℤ d.remain (pos 0) in
      ap
        (λ b. (
          if b then (if rung then called i d else []) else [],
          before ++ (if b then (if rung then record d { is_used = false } else d) else t) ∷ rest,
        ))
        (sym u)

  visit-quiet :
      (before : List (Timer C)) (t : Timer C) (rest : List (Timer C))
      → visit quiet (length before) (before ++ t ∷ rest)
        ≡ (calls_of (length before) t, before ++ after t ∷ rest)
  unfolding visit visit_at
  visit-quiet before t rest =
      let i = length before in
      let ts = before ++ t ∷ rest in
      ap (λ o. visit_at quiet i o ts) (get_elem?-middle before t rest)
      ∙ elim (Bool-cases t.is_used) [
        | inl e ↦
            ap (λ b. if b then count_down quiet i t ts else ([], ts)) e
            ∙ count_down-quiet before t rest e
        | inr e ↦
            ap (λ b. if b then count_down quiet i t ts else ([], ts)) e
            ∙ unused_stays i before t rest e
      ]

  rounds-quiet :
      (i : ℕ) (before ts : List (Timer C))
      → length before ≡ i
      → rounds quiet (length ts) i (before ++ ts) ≡ (calls_from i ts, before ++ map after ts)
  unfolding rounds calls_from
  rounds-quiet i before [] n = refl
  rounds-quiet i before (t ∷ ts) n =
      let first : visit quiet i (before ++ t ∷ ts) ≡ (calls_of i t, before ++ after t ∷ ts) =
        subst (λ k. visit quiet k (before ++ t ∷ ts) ≡ (calls_of k t, before ++ after t ∷ ts)) n
          (visit-quiet before t ts) in
      let later : rounds quiet (length ts) (suc i) (before ++ after t ∷ ts)
          ≡ (calls_from (suc i) ts, before ++ after t ∷ map after ts) =
        ap (rounds quiet (length ts) (suc i)) (sym (append_assoc before (after t ∷ []) ts))
        ∙ rounds-quiet (suc i) (before ++ after t ∷ []) ts
            (length-append before (after t ∷ []) ∙ omega (arith, n))
        ∙ ap (λ z. (calls_from (suc i) ts, z))
            (append_assoc before (after t ∷ []) (map after ts)) in
      rw (first, later) refl

  -- When the callbacks leave the table alone, a run of the handler counts down every timer in use, calls those that come
  -- to 0 in the order of their slots, each once, and frees their slots.
  pub alarm_handler-after :
      (l : Library C)
      → length l.timer_libs ≡ anytimermax
      → alarm_handler quiet l
        ≡ (calls_from 0 l.timer_libs, record l { timer_libs = map after l.timer_libs })
  unfolding alarm_handler
  alarm_handler-after l n =
      ap (λ r. (r.0, record l { timer_libs = r.1 }))
        (ap (λ k. rounds quiet k 0 l.timer_libs) (sym n) ∙ rounds-quiet 0 [] l.timer_libs refl)
