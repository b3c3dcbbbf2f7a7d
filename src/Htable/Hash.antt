-- ===== src/Htable/Hash.antt =====
-- The hashes of hash_table/01hash/main.c.
use mycode_c.Base.{
  refl, true, ap, ap₂, subst, if_elim, ==_iff, ◌==◌, List, [], ◌∷◌, ℕ, suc, ◌%◌, ◌^◌, ◌≡◌, ◌<◌, ◌↔◌,
  arith,
}
use native.Mathlib.Nat.{mod-lt}
use mycode_c.Base.Int.{ℤ, pos, negsuc, eqb_ℤ, ◌-ℤ◌, -ℤ_parts, eq_of_parts, pos_part, neg_part}
use mycode_c.Htable.{
  same_string, id_cmp, tel_cmp, name_cmp, Student, remainder, id_hash, tel_hash, name_loop,
  name_hash,
}

-- When a number is a multiple of the capacity or not negative.
abbrev pub Fits : ℤ → ℕ → Type 0
Fits (pos n) capacity = Unit {0}
Fits (negsuc n) capacity = suc n % capacity ≡ 0

remainder-Fits :
    (i : ℤ) (capacity : ℕ)
    → 0 < capacity
    → capacity < 2 ^ 31
    → (remainder i capacity < capacity) ↔ Fits i capacity
remainder-Fits (pos n) capacity c b = (λ h. tt, λ h. mod-lt n c)
remainder-Fits (negsuc n) capacity c b =
    let l = mod-lt (suc n) c in ((λ h. omega (arith, l, h)), λ h. omega (arith, l, h))

-- For a capacity that an `int` holds, the hash of an id and that of a number are the index of a bucket exactly
-- when the id or the number is not negative or is a multiple of the capacity; that of a name always is.
pub id_hash-Fits :
    (p : Student) (capacity : ℕ)
    → 0 < capacity
    → capacity < 2 ^ 31
    → ((id_hash p capacity < capacity) ↔ Fits p.id capacity)
      × ((tel_hash p capacity < capacity) ↔ Fits p.tel capacity)
      × (name_hash p capacity < capacity)
unfolding id_hash tel_hash name_hash
id_hash-Fits p capacity c b = (
  remainder-Fits p.id capacity c b,
  remainder-Fits p.tel capacity c b,
  mod-lt (name_loop 0 p.name) c,
)

-- A difference is 0 when the numbers are equal, and only then.
equal_test : (a b : ℤ) → (eqb_ℤ (a -ℤ b) (pos 0) ≡ true) ↔ (a ≡ b)
equal_test a b = (
  (λ h. eq_of_parts a b (ground (arith, -ℤ_parts a b, h))),
  λ e. ground (arith, -ℤ_parts a b, ap pos_part e, ap neg_part e),
)

same_string-eq : (xs ys : List ℕ) → same_string xs ys ≡ true → xs ≡ ys
unfolding same_string
same_string-eq [] [] h = refl
same_string-eq [] (y ∷ ys) h = absurd (ground arith)
same_string-eq (x ∷ xs) [] h = absurd (ground arith)
same_string-eq (x ∷ xs) (y ∷ ys) h =
    if_elim (λ b. b ≡ true → x ∷ xs ≡ y ∷ ys) (x == y) _ _
      (λ e k. ap₂ (λ z zs. z ∷ zs) ((==_iff x y).0 e) (same_string-eq xs ys k))
      (λ e k. absurd (ground arith)) h

same_string_refl : (xs : List ℕ) → same_string xs xs ≡ true
unfolding same_string
same_string_refl [] = refl
same_string_refl (x ∷ xs) = rw ((==_iff x x).1 refl) (same_string_refl xs)

-- Each comparison accepts exactly the students with the id, the number or the name of the key.
id_cmp_iff :
    (p : Student) (id tel : ℤ) (name : List ℕ)
    → ((id_cmp p id ≡ true) ↔ (p.id ≡ id))
      × ((tel_cmp p tel ≡ true) ↔ (p.tel ≡ tel))
      × ((name_cmp p name ≡ true) ↔ (p.name ≡ name))
unfolding id_cmp tel_cmp name_cmp
id_cmp_iff p id tel name = (
  equal_test p.id id,
  equal_test p.tel tel,
  (
    same_string-eq p.name name,
    λ e. subst (λ z. same_string p.name z ≡ true) e (same_string_refl p.name),
  ),
)
