-- ===== src/Scan.antt =====
-- Loops that read a string from the left, `while(i < len)`, as the two of stack/04repolish/main.c do:
-- a round reads at least one character. The fuel bounds the rounds.
use mycode_c.Base.{
  ℕ, zero, suc, ◌≤◌, ◌≡◌, refl, ap, subst, ◌∙◌, arith, Option, none, some, List, [], ◌∷◌, length,
}

-- What a round does: it leaves the rest of the string and a new state, or returns.
pub data Round (S R : Type 0) : Type 0 where
  next : List ℕ → S → Round S R
  stop : R → Round S R

-- At most `n` characters are left.
abbrev pub Shrinks : {S R : Type 0} → ℕ → Round S R → Type 0
Shrinks n (next rest s) = length rest ≤ n
Shrinks n (stop r) = Unit

module _ {S R : Type 0} (round : ℕ → List ℕ → S → Round S R) (end : S → R) where
  unfoldable pub scan : ℕ → List ℕ → S → Option R
  scan fuel [] s = some (end s)
  scan zero (c ∷ cs) s = none
  scan (suc fuel) (c ∷ cs) s = elim (round c cs s) [
    | next rest s' ↦ scan fuel rest s'
    | stop r ↦ some r
  ]

  -- With one unit of fuel for each character.
  unfoldable pub scan_all : List ℕ → S → Option R
  unfolding scan
  scan_all cs s = scan (length cs) cs s

  module _ (shrinks : (c : ℕ) (cs : List ℕ) (s : S) → Shrinks (length cs) (round c cs s)) where
    -- What follows a round.
    abbrev pub then_scan : ℕ → Round S R → Option R
    then_scan fuel r = elim r [ next rest s ↦ scan fuel rest s | stop r ↦ some r ]

    agree :
        (f g n : ℕ) (r : Round S R)
        → Shrinks n r
        → ((rest : List ℕ) (s : S) → length rest ≤ n → scan f rest s ≡ scan g rest s)
        → then_scan f r ≡ then_scan g r
    agree f g n (next rest s) h same = same rest s h
    agree f g n (stop r) h same = refl

    scan-fuel :
        (f g : ℕ) (cs : List ℕ) (s : S) → length cs ≤ f → length cs ≤ g → scan f cs s ≡ scan g cs s
    unfolding scan
    scan-fuel f g [] s hf hg = refl
    scan-fuel zero g (c ∷ cs) s hf hg = absurd (omega arith)
    scan-fuel (suc f) zero (c ∷ cs) s hf hg = absurd (omega arith)
    scan-fuel (suc f) (suc g) (c ∷ cs) s hf hg =
        agree f g (length cs) (round c cs s) (shrinks c cs s)
          λ rest s' h. scan-fuel f g rest s' (omega arith) (omega arith)

    ends :
        (f n : ℕ) (r : Round S R)
        → Shrinks n r
        → ((rest : List ℕ) (s : S) → length rest ≤ n → (q : R) × (scan f rest s ≡ some q))
        → (q : R) × (then_scan f r ≡ some q)
    ends f n (next rest s) h more = more rest s h
    ends f n (stop q) h more = (q, refl)

    -- With fuel for each character the loop comes to an end.
    scan-some : (f : ℕ) (cs : List ℕ) (s : S) → length cs ≤ f → (r : R) × (scan f cs s ≡ some r)
    unfolding scan
    scan-some f [] s h = (end s, refl)
    scan-some zero (c ∷ cs) s h = absurd (omega arith)
    scan-some (suc f) (c ∷ cs) s h =
        ends f (length cs) (round c cs s) (shrinks c cs s)
          λ rest s' k. scan-some f rest s' (omega arith)

    pub scan_all-some : (cs : List ℕ) (s : S) → (r : R) × (scan_all cs s ≡ some r)
    unfolding scan_all
    scan_all-some cs s = scan-some (length cs) cs s (omega arith)

    pub scan_all-next :
        (c : ℕ) (cs rest : List ℕ) (s s' : S)
        → round c cs s ≡ next rest s'
        → scan_all (c ∷ cs) s ≡ scan_all rest s'
    unfolding scan scan_all
    scan_all-next c cs rest s s' e =
        let small : length rest ≤ length cs = subst (Shrinks (length cs)) e (shrinks c cs s) in
        ap (then_scan (length cs)) e
        ∙ scan-fuel (length cs) (length rest) rest s' small (omega arith)

    pub scan_all-stop :
        (c : ℕ) (cs : List ℕ) (s : S) (r : R) → round c cs s ≡ stop r → scan_all (c ∷ cs) s ≡ some r
    unfolding scan scan_all
    scan_all-stop c cs s r e = ap (then_scan (length cs)) e
