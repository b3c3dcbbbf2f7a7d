-- ===== src/Base64/RoundTrip.antt =====
-- 高编项目/base64.c: decoding what was encoded.
use mycode_c.Base.{
  ℕ, ◌<◌, ◌≡◌, ◌≢◌, refl, ap, ap₂, ◌∙◌, arith, All, List, [], ◌∷◌, ◌++◌, some, ◌==◌, true, false,
  length, take-append, Bool, not,
}
use mycode_c.Base.Table.{passes, passes_at, table}
use mycode_c.Base64.{
  end_char, scan, mystrlen, mystrchr, strchr_of_num, digit, ind_0, ind_1, ind_1_last, ind_2,
  ind_2_last, ind_3, encode_loop, base64_encode, trans, byte_0, byte_1, byte_2, quad, round,
  base64_decode,
}
use mycode_c.Base64.Bits.{
  ind_1_lem, ind_1_last_lem, ind_2_lem, ind_2_last_lem, ind_0_lt, ind_1_lt, ind_1_last_lt, ind_2_lt,
  ind_2_last_lt, ind_3_lt, back_0, back_1, back_2,
}

-- a byte of a C string
abbrev pub IsChar : ℕ → Type 0
IsChar c = (0 < c) × (c < 256)

trans-digit : (i : ℕ) → i < 64 → trans (digit i) ≡ i
trans-digit i =
    table 64 (λ k. trans (digit k)) (λ k. k) i
      (unfold passes trans digit strchr_of_num mystrchr in refl)

not-true : {b : Bool} → not b ≡ true → b ≡ false
not-true e = ground arith

digit-ne-zero : (i : ℕ) → i < 64 → (digit i == 0) ≡ false
digit-ne-zero i h =
    not-true (passes_at (λ k. not (digit k == 0)) 64 i h (unfold passes digit in refl))

digit-ne-end_char : (i : ℕ) → i < 64 → (digit i == end_char) ≡ false
digit-ne-end_char i h =
    not-true (passes_at (λ k. not (digit k == end_char)) 64 i h (unfold passes digit in refl))

scan-zero : (s rest : List ℕ) → All IsChar s → scan (s ++ (0 ∷ rest)) ≡ some (length s)
unfolding scan
scan-zero [] rest h = refl
scan-zero (c ∷ s) rest h = ground (arith, scan-zero s rest h.1)

-- Four characters give back the three bytes, two or one that the indices were cut from.
module _ (i j : ℕ) (hi : i < 64) (hj : j < 64) where
  quad_one : quad (digit i) (digit j) end_char end_char ≡ byte_0 i j ∷ []
  unfolding quad
  quad_one = ap₂ (λ x y. byte_0 x y ∷ []) (trans-digit i hi) (trans-digit j hj)

  quad_two :
      (k : ℕ) → k < 64 → quad (digit i) (digit j) (digit k) end_char ≡ byte_0 i j ∷ byte_1 j k ∷ []
  unfolding quad
  quad_two k hk = rw (digit-ne-end_char k hk, trans-digit i hi, trans-digit j hj, trans-digit k hk)

  quad_three :
      (k l : ℕ)
      → k < 64
      → l < 64
      → quad (digit i) (digit j) (digit k) (digit l) ≡ byte_0 i j ∷ byte_1 j k ∷ byte_2 k l ∷ []
  unfolding quad
  quad_three k l hk hl = rw (
    digit-ne-end_char k hk,
    digit-ne-end_char l hl,
    trans-digit i hi,
    trans-digit j hj,
    trans-digit k hk,
    trans-digit l hl,
  )

decode_round :
    (i b c d : ℕ) (src out : List ℕ)
    → i < 64
    → base64_decode src ≡ some out
    → base64_decode (digit i ∷ b ∷ c ∷ d ∷ src) ≡ some (quad (digit i) b c d ++ out)
unfolding base64_decode
decode_round i b c d src out h e =
    ap (round (digit i) (quad (digit i) b c d)) e ∙ goes_on (digit-ne-zero i h)
  where
    goes_on :
        (digit i == 0) ≡ false
        → round (digit i) (quad (digit i) b c d) (some out) ≡ some (quad (digit i) b c d ++ out)
    goes_on ne = rw (ne, round)

decode_end : base64_decode (0 ∷ []) ≡ some (0 ∷ [])
unfolding base64_decode
decode_end = refl

three_bytes :
    (a b c : ℕ)
    → a < 256
    → b < 256
    → c < 256
    → byte_0 (ind_0 a) (ind_1 a b)
        ∷ byte_1 (ind_1 a b) (ind_2 b c)
        ∷ byte_2 (ind_2 b c) (ind_3 c)
        ∷ []
      ≡ a ∷ b ∷ c ∷ []
three_bytes a b c ha hb hc =
    let e0 : byte_0 (ind_0 a) (ind_1 a b) ≡ a =
      back_0 a ha (ind_1 a b) (ind_1_lt a b ha hb) (omega (arith, ind_1_lem a b ha hb)) in
    let e1 : byte_1 (ind_1 a b) (ind_2 b c) ≡ b =
      back_1 b hb (ind_1 a b) (ind_2 b c) (ind_1_lt a b ha hb) (ind_2_lt b c hb hc)
        (omega (arith, ind_1_lem a b ha hb)) (omega (arith, ind_2_lem b c hb hc)) in
    let e2 : byte_2 (ind_2 b c) (ind_3 c) ≡ c =
      back_2 c hc (ind_2 b c) (ind_2_lt b c hb hc) (omega (arith, ind_2_lem b c hb hc)) in
    rw (e0, e1, e2)

loop_back :
    (s : List ℕ) → All IsChar s → base64_decode (encode_loop s ++ (0 ∷ [])) ≡ some (s ++ (0 ∷ []))
unfolding encode_loop
loop_back [] h = decode_end
loop_back (a ∷ []) ((_, ha), _) =
    decode_round (ind_0 a) (digit (ind_1_last a)) end_char end_char (0 ∷ []) (0 ∷ [])
      (ind_0_lt a ha) decode_end
    ∙ ap (λ xs. some (xs ++ (0 ∷ [])))
        (quad_one (ind_0 a) (ind_1_last a) (ind_0_lt a ha) (ind_1_last_lt a ha)
          ∙ ap (λ x. x ∷ [])
              (back_0 a ha (ind_1_last a) (ind_1_last_lt a ha)
                (omega (arith, ind_1_last_lem a ha))))
loop_back (a ∷ b ∷ []) ((_, ha), ((_, hb), _)) =
    decode_round (ind_0 a) (digit (ind_1 a b)) (digit (ind_2_last b)) end_char (0 ∷ []) (0 ∷ [])
      (ind_0_lt a ha) decode_end
    ∙ ap (λ xs. some (xs ++ (0 ∷ [])))
        (quad_two (ind_0 a) (ind_1 a b) (ind_0_lt a ha) (ind_1_lt a b ha hb) (ind_2_last b)
            (ind_2_last_lt b hb)
          ∙ ap₂ (λ x y. x ∷ y ∷ [])
              (back_0 a ha (ind_1 a b) (ind_1_lt a b ha hb) (omega (arith, ind_1_lem a b ha hb)))
              (back_1 b hb (ind_1 a b) (ind_2_last b) (ind_1_lt a b ha hb) (ind_2_last_lt b hb)
                (omega (arith, ind_1_lem a b ha hb)) (omega (arith, ind_2_last_lem b hb))))
loop_back (a ∷ b ∷ c ∷ s) ((_, ha), ((_, hb), ((_, hc), h))) =
    decode_round (ind_0 a) (digit (ind_1 a b)) (digit (ind_2 b c)) (digit (ind_3 c))
      (encode_loop s ++ (0 ∷ [])) (s ++ (0 ∷ [])) (ind_0_lt a ha) (loop_back s h)
    ∙ ap (λ xs. some (xs ++ (s ++ (0 ∷ []))))
        (quad_three (ind_0 a) (ind_1 a b) (ind_0_lt a ha) (ind_1_lt a b ha hb) (ind_2 b c) (ind_3 c)
            (ind_2_lt b c hb hc) (ind_3_lt c hc)
          ∙ three_bytes a b c ha hb hc)

mystrlen-length :
    (c : ℕ) (s rest : List ℕ)
    → All IsChar (c ∷ s)
    → mystrlen ((c ∷ s) ++ (0 ∷ rest)) ≡ some (length (c ∷ s))
unfolding mystrlen
mystrlen-length c s rest h = rw (scan-zero s rest h.1, mystrlen)

-- What `base64_encode` writes for a string that is not empty, `base64_decode` turns back into that
-- string and its NUL; neither reads past the NUL of its input.
pub decode-encode :
    (c : ℕ) (s rest : List ℕ)
    → All IsChar (c ∷ s)
    → (e : List ℕ) × (base64_encode ((c ∷ s) ++ (0 ∷ rest)) ≡ some e)
      × (base64_decode e ≡ some ((c ∷ s) ++ (0 ∷ [])))
unfolding base64_encode
decode-encode c s rest h = (
  encode_loop (c ∷ s) ++ (0 ∷ []),
  rw (mystrlen-length c s rest h, base64_encode)
      (ap (λ xs. some (encode_loop xs ++ (0 ∷ []))) (take-append (c ∷ s) (0 ∷ rest))),
  loop_back (c ∷ s) h,
)

-- On the empty string `mystrlen` never returns 0: it passes the NUL and counts up to the next one.
pub mystrlen-empty : (rest : List ℕ) → mystrlen (0 ∷ rest) ≢ some 0
unfolding mystrlen
mystrlen-empty rest h = ground arith
