-- ===== src/Recipes/Strings.antt =====
-- What can be read back of a string that was copied into an array.
use mycode_c.Base.{
  ℕ, zero, suc, ◌<◌, ◌≤◌, [], ◌∷◌, ◌++◌, length, replicate, take, drop, ◌≡◌, ◌≢◌, refl, sym, ap,
  ◌∙◌, arith, inl, inr, if◌then◌else◌, ltb, ==_ne, Bool-cases, All,
}
use mycode_c.Recipes.{Text, strncpy, c_string}

-- A C string: no byte of it is zero.
abbrev pub IsString : Text → Type 0
IsString = All (λ c. c ≢ 0)

-- What is read back: the string when it is shorter than what is copied, else its first `n` bytes and what the rest of
-- the array held.
abbrev pub copied : Text → Text → ℕ → Text
copied dest src n = if ltb (length src) n then src else take n src ++ c_string (drop n dest)

c_string-cons : (c : ℕ) (cs : Text) → c ≢ 0 → c_string (c ∷ cs) ≡ c ∷ c_string cs
unfolding c_string
c_string-cons c cs d = ap (λ b. if b then [] else c ∷ c_string cs) (==_ne c 0 d)

c_string-short :
    (src more : Text) (n k : ℕ)
    → IsString src
    → length src < n
    → 0 < k
    → c_string (take n (src ++ replicate k 0) ++ more) ≡ src
unfolding c_string
c_string-short src more zero k s l z = absurd (omega (arith, l))
c_string-short src more (suc n) zero s l z = absurd (omega (arith, z))
c_string-short [] more (suc n) (suc k) s l z = refl
c_string-short (c ∷ cs) more (suc n) (suc k) s l z =
    c_string-cons c (take n (cs ++ replicate (suc k) 0) ++ more) s.0
    ∙ ap (λ t. c ∷ t) (c_string-short cs more n (suc k) s.1 (omega (arith, l)) z)

c_string-long :
    (src zeros more : Text) (n : ℕ)
    → IsString src
    → n ≤ length src
    → c_string (take n (src ++ zeros) ++ more) ≡ take n src ++ c_string more
c_string-long src zeros more zero s l = refl
c_string-long [] zeros more (suc n) s l = absurd (omega (arith, l))
c_string-long (c ∷ cs) zeros more (suc n) s l =
    c_string-cons c (take n (cs ++ zeros) ++ more) s.0
    ∙ ap (λ t. c ∷ t) (c_string-long cs zeros more n s.1 (omega (arith, l)))

pub c_string-strncpy :
    (dest src : Text) (n : ℕ)
    → 0 < n
    → IsString src
    → c_string (strncpy dest src n) ≡ copied dest src n
unfolding strncpy
c_string-strncpy dest src n z s = elim (Bool-cases (ltb (length src) n)) [
  | inl short ↦
      c_string-short src (drop n dest) n n s (ground arith) z
      ∙ ap (λ b. if b then src else take n src ++ c_string (drop n dest)) (sym short)
  | inr long ↦
      c_string-long src (replicate n 0) (drop n dest) n s (ground arith)
      ∙ ap (λ b. if b then src else take n src ++ c_string (drop n dest)) (sym long)
]
