-- ===== src/Recipes/Menu/Entries.antt =====
-- The loops of c+ds/main.c that read entries and add them to a recipe.
use mathlib.Core.Path.{fun_ext}
use mycode_c.Base.{
  ℕ, zero, suc, ◌-◌, ◌<◌, Bool, true, Option, none, some, List, [], ◌∷◌, ◌≡◌, ◌≢◌, refl, sym, ap,
  subst, ◌∙◌, arith, ◌==◌, if◌then◌else◌, Bool-cases, inl, inr, ==_ne, ==_iff,
}
use mycode_c.Llist.{Ptr, Heap, Cmd, pure, ◌>>=◌, ◌>>◌, update, get_data}
use mycode_c.Llist.Links.{update_self}
use mycode_c.Llist.Ring.{Live}
use mycode_c.Llist.Ring.Steps.{run_then, get_data_run}
use mycode_c.Recipes.{Recipe}
use mycode_c.Recipes.Delete.{when_false}
use mycode_c.Recipes.Menu.{enter, has_line, line_read, read_line}

when_true :
    {A B : Type 0} (c d : Cmd A B) (m : Heap A) (b : Bool) → b ≡ true → (if b then c else d) m ≡ c m
when_true c d m b e = ap (λ x. (if x then c else d) m) e

-- Before the end of the input `fgets` gives a line.
pub read_line_run :
    (room : ℕ) (input : List ℕ) (m : Heap Recipe)
    → has_line input ≡ true
    → read_line room input m ≡ some (line_read room input, m)
unfolding read_line
read_line_run room input m h = when_true _ _ m _ h

module _ {E : Type 0} where
  -- What is typed, until an entry that ends the loop or until there is no room, and the input after it.
  unfoldable pub entries :
      (read : List ℕ → Option E × List ℕ) → (room : ℕ) → List ℕ → List E × List ℕ
  entries read zero input = ([], input)
  entries read (suc room) input =
      let got = read input in
      elim got.0 [
        | none ↦ ([], got.1)
        | some e ↦ (e ∷ (entries read room got.1).0, (entries read room got.1).1)
      ]

  -- The input does not end before the last of these entries is read.
  unfoldable pub Lasts :
      (read : List ℕ → Option E × List ℕ) → (there : List ℕ → Bool) → (room : ℕ) → List ℕ → Type 0
  Lasts read there zero input = Unit
  Lasts read there (suc room) input =
      let got = read input in
      (there input ≡ true)
      × elim got.0 as (λ o. Type 0) [ none ↦ Unit {0} | some e ↦ Lasts read there room got.1 ]

  unfoldable pub with_all : (put : E → Recipe → Recipe) → List E → Recipe → Recipe
  with_all put [] r = r
  with_all put (e ∷ es) r = with_all put es (put e r)

-- The heap with other data at a node.
abbrev pub filled : Heap Recipe → Ptr → Recipe → Heap Recipe
filled m p r = record m { data' = update m.data' p r }

update_same : (f : Ptr → Recipe) (p : Ptr) → update f p (f p) ≡ f
update_same f p = fun_ext λ q. elim (Bool-cases (q == p)) [
  | inl e ↦ rw e (ap f (sym ((==_iff q p).0 e)))
  | inr n ↦ rw n refl
]

update_twice :
    (f : Ptr → Recipe) (p : Ptr) (x y : Recipe) → update (update f p x) p y ≡ update f p y
update_twice f p x y =
    fun_ext λ q. elim (Bool-cases (q == p)) [ inl e ↦ rw e refl | inr n ↦ rw n refl ]

filled_same : (m : Heap Recipe) (p : Ptr) → filled m p (m.data' p) ≡ m
filled_same m p = ap (λ f. record m { data' = f }) (update_same m.data' p)

filled_twice : (m : Heap Recipe) (p : Ptr) (x y : Recipe) → filled (filled m p x) p y ≡ filled m p y
filled_twice m p x y = ap (λ f. record m { data' = f }) (update_twice m.data' p x y)

module _ {E : Type 0} (read : List ℕ → Option E × List ℕ) (there : List ℕ → Bool)
    (add : Ptr → E → Cmd Recipe (Unit {0})) (full : Recipe → Bool) (put : E → Recipe → Recipe)
    (room : Recipe → ℕ)
    (add_run : (m : Heap Recipe) (p : Ptr) (e : E)
      → p ≢ 0
      → Live m p
      → add p e m ≡ some (tt, filled m p (put e (m.data' p))))
    (full_iff : (r : Recipe) → full r ≡ (room r == 0))
    (room_put : (e : E) (r : Recipe) → 0 < room r → room (put e r) ≡ room r - 1) where
  -- What the loop does after an entry was added, `r` the recipe then, if its next rounds are as they should be.
  after_entry :
      (fuel k : ℕ) (m : Heap Recipe) (p : Ptr) (r : Recipe) (rest : List ℕ)
      → Live m p
      → room r ≡ k
      → ((k' : ℕ)
          → room ((filled m p r).data' p) ≡ suc k'
          → k ≡ suc k'
          → enter read there add full fuel p rest (filled m p r)
            ≡ some (
              (entries read (suc k') rest).1,
              filled
                  (filled m p r)
                  p
                  (with_all put (entries read (suc k') rest).0 ((filled m p r).data' p)),
            ))
      → (get_data p >>= (λ x. if full x then pure rest else enter read there add full fuel p rest))
          (filled m p r)
        ≡ some ((entries read k rest).1, filled m p (with_all put (entries read k rest).0 r))
  unfolding entries with_all
  after_entry fuel k m p r rest l n next =
      let m1 = filled m p r in
      let same : m1.data' p ≡ r = update_self m.data' p r in
      let step =
        λ (x : Recipe). if full x then pure rest else enter read there add full fuel p rest in
      run_then _ _ m1 (m1.data' p) m1 _ (get_data_run m1 p l) (
        ap (λ x. (if full x then pure rest else enter read there add full fuel p rest) m1) same
        ∙ ap (λ b. (if b then pure rest else enter read there add full fuel p rest) m1)
            (full_iff r ∙ ap (λ j. j == 0) n)
        ∙ by_room k same n next)
    where
      by_room :
          (j : ℕ)
          → (filled m p r).data' p ≡ r
          → room r ≡ j
          → ((k' : ℕ)
              → room ((filled m p r).data' p) ≡ suc k'
              → j ≡ suc k'
              → enter read there add full fuel p rest (filled m p r)
                ≡ some (
                  (entries read (suc k') rest).1,
                  filled
                      (filled m p r)
                      p
                      (with_all put (entries read (suc k') rest).0 ((filled m p r).data' p)),
                ))
          → (if j == 0 then pure rest else enter read there add full fuel p rest) (filled m p r)
            ≡ some ((entries read j rest).1, filled m p (with_all put (entries read j rest).0 r))
      by_room zero same n ih = refl
      by_room (suc j) same n ih =
          when_false _ _ (filled m p r) _ (==_ne (suc j) 0 (λ e. absurd (omega (arith, e))))
          ∙ ih j (ap room same ∙ n) refl
          ∙ ap (λ x. some ((entries read (suc j) rest).1, x))
              (filled_twice m p r
                  (with_all put (entries read (suc j) rest).0 ((filled m p r).data' p))
                ∙ ap (λ y. filled m p (with_all put (entries read (suc j) rest).0 y)) same)

  by_entry :
      (fuel k : ℕ) (m : Heap Recipe) (p : Ptr) (o : Option E) (rest : List ℕ)
      → p ≢ 0
      → Live m p
      → elim o as (λ x. Type 0) [ none ↦ Unit {0} | some e ↦ Lasts read there k rest ]
      → ((e : E)
          → Lasts read there k rest
          → (get_data p
                >>= (λ x. if full x then pure rest else enter read there add full fuel p rest))
              (filled m p (put e (m.data' p)))
            ≡ some (
              (entries read k rest).1,
              filled m p (with_all put (entries read k rest).0 (put e (m.data' p))),
            ))
      → (elim o as (λ x. Cmd Recipe (List ℕ)) [
        | none ↦ pure rest
        | some e ↦
            add p e
            >> (get_data p
                >>= (λ x. if full x then pure rest else enter read there add full fuel p rest))
      ])
          m
        ≡ some (
          (elim o as (λ x. List E × List ℕ) [
            | none ↦ ([], rest)
            | some e ↦ (e ∷ (entries read k rest).0, (entries read k rest).1)
          ]).1,
          filled m p (
              with_all put
                (elim o as (λ x. List E × List ℕ) [
                  | none ↦ ([], rest)
                  | some e ↦ (e ∷ (entries read k rest).0, (entries read k rest).1)
                ]).0
                (m.data' p)),
        )
  unfolding with_all
  by_entry fuel k m p none rest z l here f = ap (λ x. some (rest, x)) (sym (filled_same m p))
  by_entry fuel k m p (some e) rest z l here f =
      run_then _ _ m tt (filled m p (put e (m.data' p))) _ (add_run m p e z l) (f e here)

  -- With room for `k + 1` entries and input enough, the loop ends and has added those that were typed.
  pub enter-entries :
      (fuel k : ℕ) (m : Heap Recipe) (p : Ptr) (input : List ℕ)
      → p ≢ 0
      → Live m p
      → room (m.data' p) ≡ suc k
      → k < fuel
      → Lasts read there (suc k) input
      → enter read there add full fuel p input m
        ≡ some (
          (entries read (suc k) input).1,
          filled m p (with_all put (entries read (suc k) input).0 (m.data' p)),
        )
  unfolding enter entries Lasts
  enter-entries zero k m p input z l n h here = absurd (omega (arith, h))
  enter-entries (suc fuel) k m p input z l n h here =
      when_true _ _ m _ here.0
      ∙ by_entry fuel k m p (read input).0 (read input).1 z l here.1 (λ e more.
        after_entry fuel k m p (put e (m.data' p)) (read input).1 l
          (omega (arith, n, room_put e (m.data' p) (omega (arith, n))))
          (λ k' n' kk.
            enter-entries fuel k' (filled m p (put e (m.data' p))) p (read input).1 z l n'
              (omega (arith, h, kk)) (subst (λ j. Lasts read there j (read input).1) kk more)))
