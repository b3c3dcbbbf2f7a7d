-- ===== src/Hanoi/Play.antt =====
-- stack/06hanoi/hanoi.c: what `play` does.
use mathlib.Core.List.{append_assoc}
use mycode_c.Base.{
  ℕ, zero, suc, ◌+◌, ◌-◌, ◌^◌, ◌<◌, ◌≤◌, Option, some, none, List, [], ◌∷◌, ◌++◌, ◌≡◌, ◌≢◌, refl,
  sym, ap, ◌∙◌, subst, arith, length, length-append, All, All-append, All-map,
}
use mycode_c.Hanoi.{Pegs, swap, move, and_then, play}
use mycode_c.Hanoi.Towers.{Holds, IsOrdered, IsOrdered-left, IsOrdered-without, swap-Holds}

-- The three towers hold `a`, `b` and `c`.
abbrev pub Stands : Pegs → (src dest tmp : ℕ) → (a b c : List ℕ) → Type 0
Stands h src dest tmp a b c = Holds (h src) a × Holds (h dest) b × Holds (h tmp) c

-- No disc lies on a smaller one.
abbrev pub IsLegal : (src dest tmp : ℕ) → Pegs → Type 0
IsLegal src dest tmp h =
    (a : List ℕ) × (b : List ℕ) × (c : List ℕ) × Stands h src dest tmp a b c
    × IsOrdered a
    × IsOrdered b
    × IsOrdered c

-- What a run of moves from `h` on does.
abbrev pub Does :
    Option (List Pegs × Pegs) → (moves : ℕ) → (src dest tmp : ℕ) → (a b c : List ℕ) → Type 0
Does r moves src dest tmp a b c =
    (hs : List Pegs) × (h' : Pegs) × (r ≡ some (hs, h'))
    × Stands h' src dest tmp a b c
    × (length hs + 1 ≡ moves)
    × All (IsLegal src dest tmp) hs

move-Does :
    (h : Pegs) (src dest tmp : ℕ) (a b c : List ℕ) (d : ℕ)
    → src ≢ dest
    → tmp ≢ src
    → tmp ≢ dest
    → Stands h src dest tmp (a ++ d ∷ []) b c
    → length b < 5
    → IsOrdered a
    → IsOrdered (b ++ d ∷ [])
    → IsOrdered c
    → Does (move src dest h) 2 src dest tmp a (b ++ d ∷ []) c
unfolding move
move-Does h src dest tmp a b c d n1 n2 n3 s room oa ob oc =
    let m = swap-Holds h src dest a b d n1 s.0 s.1 room in
    let st : Stands (swap src dest h) src dest tmp a (b ++ d ∷ []) c =
      (m.0, m.1, subst (λ t. Holds t c) (sym (m.2 tmp n2 n3)) s.2) in
    (
      swap src dest h ∷ [],
      swap src dest h,
      refl,
      st,
      refl,
      ((a, b ++ d ∷ [], c, st, oa, ob, oc), tt),
    )

then-Does :
    (r : Option (List Pegs × Pegs)) (f : Pegs → Option (List Pegs × Pegs)) (k l : ℕ)
    (src dest tmp : ℕ) (a b c a' b' c' : List ℕ)
    → Does r k src dest tmp a b c
    → ((h : Pegs) → Stands h src dest tmp a b c → Does (f h) l src dest tmp a' b' c')
    → Does (and_then r f) (k + l - 1) src dest tmp a' b' c'
then-Does r f k l src dest tmp a b c a' b' c' (hs, h, e, s, n, ok) next =
    let (hs', h', e', s', n', ok') = next h s in
    (
      hs ++ hs',
      h',
      ap (λ x. and_then x f) e
          ∙ ap
              (λ x. elim x as (λ y. Option (List Pegs × Pegs)) [
                | none ↦ none
                | some z ↦ some (hs ++ z.0, z.1)
              ])
              e',
      s',
      omega (arith, n, n', length-append hs hs'),
      All-append (IsLegal src dest tmp) hs hs' ok ok',
    )

-- The same run, the towers named in another order.
abbrev exchanged : {P Q R : Type 0} → P × Q × R → P × R × Q
exchanged (p, q, r) = (p, r, q)

swapped-Does :
    (r : Option (List Pegs × Pegs)) (k : ℕ) (src dest tmp : ℕ) (a b c : List ℕ)
    → Does r k src tmp dest a c b
    → Does r k src dest tmp a b c
swapped-Does r k src dest tmp a b c (hs, h, e, s, n, ok) = (
  hs,
  h,
  e,
  exchanged s,
  n,
  All-map (IsLegal src tmp dest) (IsLegal src dest tmp) hs
      (λ h' l. (l.0, l.2, l.1, (l.3.0, l.3.2, l.3.1), l.4, l.6, l.5)) ok,
)

rolled-Does :
    (r : Option (List Pegs × Pegs)) (k : ℕ) (src dest tmp : ℕ) (a b c : List ℕ)
    → Does r k tmp dest src c b a
    → Does r k src dest tmp a b c
rolled-Does r k src dest tmp a b c (hs, h, e, s, n, ok) = (
  hs,
  h,
  e,
  (s.2, s.1, s.0),
  n,
  All-map (IsLegal tmp dest src) (IsLegal src dest tmp) hs
      (λ h' l. (l.2, l.1, l.0, (l.3.2, l.3.1, l.3.0), l.6, l.5, l.4)) ok,
)

-- With the `n + 1` discs `ds` on top of `a`, room for them on the other two towers and every disc of these larger than
-- they are, `play` ends after `2 ^ (n + 1) - 1` moves with the discs on `dest` in the same order and the rest as before,
-- and after each move no disc lies on a smaller one.
pub play-Does :
    (n : ℕ) (src dest tmp : ℕ) (h : Pegs) (a b c ds : List ℕ)
    → src ≢ dest
    → src ≢ tmp
    → dest ≢ tmp
    → length ds ≡ suc n
    → Stands h src dest tmp (a ++ ds) b c
    → length b + suc n ≤ 5
    → length c + n ≤ 5
    → length a + suc n ≤ 5
    → IsOrdered (a ++ ds)
    → IsOrdered (b ++ ds)
    → IsOrdered (c ++ ds)
    → Does (play (suc n) src dest tmp h) (2 ^ suc n) src dest tmp a (b ++ ds) c
unfolding play
play-Does n src dest tmp h a b c [] d1 d2 d3 l s rb rc ra oa ob oc = absurd (omega (arith, l))
play-Does zero src dest tmp h a b c (d ∷ e ∷ ds) d1 d2 d3 l s rb rc ra oa ob oc =
    absurd (omega (arith, l))
play-Does zero src dest tmp h a b c (d ∷ []) d1 d2 d3 l s rb rc ra oa ob oc =
    move-Does h src dest tmp a b c d d1 (λ e. d2 (sym e)) (λ e. d3 (sym e)) s (omega (arith, rb))
      (IsOrdered-left a (d ∷ []) oa) ob (IsOrdered-left c (d ∷ []) oc)
play-Does (suc n) src dest tmp h a b c (d ∷ es) d1 d2 d3 l s rb rc ra oa ob oc =
    let size : length es ≡ suc n = omega (arith, l) in
    let split : a ++ d ∷ es ≡ (a ++ d ∷ []) ++ es = sym (append_assoc a (d ∷ []) es) in
    let joined : (b ++ d ∷ []) ++ es ≡ b ++ d ∷ es = append_assoc b (d ∷ []) es in
    let tall : length (a ++ d ∷ []) ≡ length a + 1 = length-append a (d ∷ []) in
    let tall' : length (b ++ d ∷ []) ≡ length b + 1 = length-append b (d ∷ []) in
    let low_a = subst IsOrdered split oa in
    let low_b = subst IsOrdered (sym joined) ob in
    let ob' = IsOrdered-without b d es ob in
    let oc' = IsOrdered-without c d es oc in
    let first = swapped-Does _ (2 ^ suc n) src dest tmp (a ++ d ∷ []) b (c ++ es) (
      play-Does n src tmp dest h (a ++ d ∷ []) c b es d2 d1 (λ e. d3 (sym e)) size
        (subst (λ x. Holds (h src) x) split s.0, s.2, s.1) (omega (arith, rc)) (omega (arith, rb))
        (omega (arith, ra, tall)) low_a oc' ob') in
    let second =
      then-Does _ (move src dest) (2 ^ suc n) 2 src dest tmp (a ++ d ∷ []) b (c ++ es) a
        (b ++ d ∷ []) (c ++ es) first
        (λ h' s'.
          move-Does h' src dest tmp a b (c ++ es) d d1 (λ e. d2 (sym e)) (λ e. d3 (sym e)) s'
            (omega (arith, rb)) (IsOrdered-left a (d ∷ es) oa)
            (IsOrdered-left (b ++ d ∷ []) es low_b) oc') in
    let third =
      then-Does _ (play (suc n) tmp dest src) (2 ^ suc n + 2 - 1) (2 ^ suc n) src dest tmp a
        (b ++ d ∷ []) (c ++ es) a ((b ++ d ∷ []) ++ es) c second
        (λ h' s'. rolled-Does _ (2 ^ suc n) src dest tmp a ((b ++ d ∷ []) ++ es) c (
          play-Does n tmp dest src h' c (b ++ d ∷ []) a es (λ e. d3 (sym e)) (λ e. d2 (sym e))
            (λ e. d1 (sym e)) size (s'.2, s'.1, s'.0) (omega (arith, rb, tall')) (omega (arith, ra))
            (omega (arith, rc)) oc' low_b (IsOrdered-without a d es oa))) in
    let count : 2 ^ suc n + 2 - 1 + 2 ^ suc n - 1 ≡ 2 ^ suc (suc n) = omega arith in
    subst (λ k. Does (play (suc (suc n)) src dest tmp h) k src dest tmp a (b ++ d ∷ es) c) count
      (subst
        (λ xs.
          Does (play (suc (suc n)) src dest tmp h) (2 ^ suc n + 2 - 1 + 2 ^ suc n - 1) src dest tmp
            a xs c)
        joined third)
