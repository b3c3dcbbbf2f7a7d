-- ===== src/Hanoi/Towers.antt =====
-- stack/06hanoi/hanoi.c: the discs of a tower, lowest first, and one move.
use mycode_c.Base.{
  ℕ, suc, ◌+◌, ◌-◌, ◌<◌, List, [], ◌∷◌, ◌++◌, ◌≡◌, ◌≢◌, refl, sym, ap, ap₂, ◌∙◌, subst, arith,
  get_or, set, take, take-set, drop, length, length-set, length-append, All, All-left, All-right,
  All-append,
}
use mycode_c.Llist.{update}
use mycode_c.Llist.Links.{update_self, update_ne}
use mycode_c.Hanoi.{Tower, Pegs, swap}

-- The tower holds these discs.
abbrev pub Holds : Tower → List ℕ → Type 0
Holds t ds =
    (take t.hanoi_top t.hanoi_arr ≡ ds) × (t.hanoi_top ≡ length ds) × (length t.hanoi_arr ≡ 5)

-- Every disc is larger than those above it.
abbrev pub IsOrdered : List ℕ → Type 0
IsOrdered [] = Unit
IsOrdered (d ∷ ds) = All (λ e. e < d) ds × IsOrdered ds

pub IsOrdered-left : (xs ys : List ℕ) → IsOrdered (xs ++ ys) → IsOrdered xs
IsOrdered-left [] ys o = tt
IsOrdered-left (x ∷ xs) ys o = (All-left (λ e. e < x) xs ys o.0, IsOrdered-left xs ys o.1)

pub IsOrdered-without :
    (xs : List ℕ) (d : ℕ) (ys : List ℕ) → IsOrdered (xs ++ d ∷ ys) → IsOrdered (xs ++ ys)
IsOrdered-without [] d ys o = o.1
IsOrdered-without (x ∷ xs) d ys o = (
  All-append (λ e. e < x) xs ys (All-left (λ e. e < x) xs (d ∷ ys) o.0)
      (All-right (λ e. e < x) xs (d ∷ ys) o.0).1,
  IsOrdered-without xs d ys o.1,
)

take_last :
    (xs arr : List ℕ) (d : ℕ)
    → take (suc (length xs)) arr ≡ xs ++ d ∷ []
    → (take (length xs) arr ≡ xs) × (get_or arr (length xs) 0 ≡ d)
take_last [] [] d e = absurd (ground (arith, e))
take_last [] (x ∷ arr) d e = (refl, ap (λ l. get_or l 0 0) e)
take_last (y ∷ xs) [] d e = absurd (ground (arith, e))
take_last (y ∷ xs) (x ∷ arr) d e =
    let more = take_last xs arr d (ap (drop 1) e) in
    (ap₂ ◌∷◌ (ap (λ l. get_or l 0 0) e) more.0, more.1)

pub swap-Holds :
    (h : Pegs) (src dest : ℕ) (a b : List ℕ) (d : ℕ)
    → src ≢ dest
    → Holds (h src) (a ++ d ∷ [])
    → Holds (h dest) b
    → length b < 5
    → Holds (swap src dest h src) a
      × Holds (swap src dest h dest) (b ++ d ∷ [])
      × ((q : ℕ) → q ≢ src → q ≢ dest → swap src dest h q ≡ h q)
unfolding swap
swap-Holds h src dest a b d apart s t room =
    let from = h src in
    let from' : Tower = record from { hanoi_top = from.hanoi_top - 1 } in
    let h1 : Pegs = update h src from' in
    let disc = get_or (h1 src).hanoi_arr (h1 src).hanoi_top 0 in
    let landed : Tower = record (h1 dest) {
      hanoi_arr = set (h1 dest).hanoi_arr (h1 dest).hanoi_top disc;
    } in
    let h2 : Pegs = update h1 dest landed in
    let last : Tower = record (h2 dest) { hanoi_top = (h2 dest).hanoi_top + 1 } in
    let tall : from.hanoi_top ≡ suc (length a) = omega (arith, s.1, length-append a (d ∷ [])) in
    let low : from.hanoi_top - 1 ≡ length a = omega (arith, tall) in
    let cut = take_last a from.hanoi_arr d (ap (λ n. take n from.hanoi_arr) (sym tall) ∙ s.0) in
    let taken = get_or from.hanoi_arr (from.hanoi_top - 1) 0 in
    let one : (h dest).hanoi_top + 1 ≡ suc (h dest).hanoi_top = omega arith in
    let lifted : h1 src ≡ from' = update_self h src from' in
    let at_dest : h2 dest ≡ record (h dest) {
      hanoi_arr =
          set (h dest).hanoi_arr (h dest).hanoi_top (get_or from.hanoi_arr (from.hanoi_top - 1) 0);
    } =
      update_self h1 dest landed
      ∙ ap₂
          (λ (x y : Tower). record y {
            hanoi_arr = set y.hanoi_arr y.hanoi_top (get_or x.hanoi_arr x.hanoi_top 0);
          })
          lifted (update_ne h src from' dest apart) in
    let d_is : get_or from.hanoi_arr (from.hanoi_top - 1) 0 ≡ d =
      ap (λ n. get_or from.hanoi_arr n 0) low ∙ cut.1 in
    (
      subst (λ x. Holds x a)
          (sym (
            update_ne h2 dest last src (λ e. apart (sym e))
            ∙ update_ne h1 dest landed src (λ e. apart (sym e))
            ∙ lifted))
          (ap (λ n. take n from.hanoi_arr) low ∙ cut.0, low, s.2),
      subst (λ x. Holds x (b ++ d ∷ [])) (sym (update_self h2 dest last))
          (subst (λ (x : Tower). Holds (record x { hanoi_top = x.hanoi_top + 1 }) (b ++ d ∷ []))
            (sym at_dest)
            (
              ap (λ n. take n (set (h dest).hanoi_arr (h dest).hanoi_top taken)) one
                  ∙ take-set (h dest).hanoi_arr (h dest).hanoi_top taken
                      (omega (arith, t.1, t.2, room))
                  ∙ ap₂ (λ xs x. xs ++ x ∷ []) t.0 d_is,
              omega (arith, t.1, length-append b (d ∷ [])),
              length-set (h dest).hanoi_arr (h dest).hanoi_top _ ∙ t.2,
            )),
      λ q n1 n2.
          update_ne h2 dest last q (λ e. n2 (sym e))
          ∙ update_ne h1 dest landed q (λ e. n2 (sym e))
          ∙ update_ne h src from' q (λ e. n1 (sym e)),
    )
