-- ===== src/Base64/Bits.antt =====
-- The shifts and masks of 高编项目/base64.c as arithmetic.
use Prim.Native.Nat.{bit_and, bit_or}
use mycode_c.Base.{ℕ, ◌+◌, ◌*◌, ◌/◌, ◌%◌, ◌<◌, ◌≡◌, refl, ap₂, ◌∙◌, arith}
use mycode_c.Base.Table.{passes, table}
use mycode_c.Base64.{ind_0, ind_1, ind_1_last, ind_2, ind_2_last, ind_3, byte_0, byte_1, byte_2}

-- Bits that do not overlap add up, at each of the three cuts of a byte.
bit_or-4 : (z : ℕ) → z < 256 → bit_or (z / 4 * 4) (z % 4) ≡ z
bit_or-4 z = table 256 (λ k. bit_or (k / 4 * 4) (k % 4)) (λ k. k) z (unfold passes in refl)

bit_or-16 : (z : ℕ) → z < 256 → bit_or (z / 16 * 16) (z % 16) ≡ z
bit_or-16 z = table 256 (λ k. bit_or (k / 16 * 16) (k % 16)) (λ k. k) z (unfold passes in refl)

bit_or-64 : (z : ℕ) → z < 256 → bit_or (z / 64 * 64) (z % 64) ≡ z
bit_or-64 z = table 256 (λ k. bit_or (k / 64 * 64) (k % 64)) (λ k. k) z (unfold passes in refl)

or_4 : (x y : ℕ) → x < 64 → y < 4 → bit_or (x * 4) y ≡ x * 4 + y
or_4 x y hx hy =
    let high : x * 4 ≡ (x * 4 + y) / 4 * 4 = omega arith in
    let low : y ≡ (x * 4 + y) % 4 = omega arith in
    ap₂ bit_or high low ∙ bit_or-4 (x * 4 + y) (omega arith)

or_16 : (x y : ℕ) → x < 16 → y < 16 → bit_or (x * 16) y ≡ x * 16 + y
or_16 x y hx hy =
    let high : x * 16 ≡ (x * 16 + y) / 16 * 16 = omega arith in
    let low : y ≡ (x * 16 + y) % 16 = omega arith in
    ap₂ bit_or high low ∙ bit_or-16 (x * 16 + y) (omega arith)

or_64 : (x y : ℕ) → x < 4 → y < 64 → bit_or (x * 64) y ≡ x * 64 + y
or_64 x y hx hy =
    let high : x * 64 ≡ (x * 64 + y) / 64 * 64 = omega arith in
    let low : y ≡ (x * 64 + y) % 64 = omega arith in
    ap₂ bit_or high low ∙ bit_or-64 (x * 64 + y) (omega arith)

module _ (a : ℕ) (ha : a < 256) where
  mask_a4 : bit_and (a / 4) 0x3f ≡ a / 4
  mask_a4 = table 256 (λ k. bit_and (k / 4) 0x3f) (λ k. k / 4) a (unfold passes in refl) ha

  mask_s4 : bit_and (a * 16) 0x30 ≡ a % 4 * 16
  mask_s4 = table 256 (λ k. bit_and (k * 16) 0x30) (λ k. k % 4 * 16) a (unfold passes in refl) ha

  mask_a16 : bit_and (a / 16) 0x0f ≡ a / 16
  mask_a16 = table 256 (λ k. bit_and (k / 16) 0x0f) (λ k. k / 16) a (unfold passes in refl) ha

  mask_s16 : bit_and (a * 4) 0x3c ≡ a % 16 * 4
  mask_s16 = table 256 (λ k. bit_and (k * 4) 0x3c) (λ k. k % 16 * 4) a (unfold passes in refl) ha

  mask_a64 : bit_and (a / 64) 0x03 ≡ a / 64
  mask_a64 = table 256 (λ k. bit_and (k / 64) 0x03) (λ k. k / 64) a (unfold passes in refl) ha

  mask_s64 : bit_and a 0x3f ≡ a % 64
  mask_s64 = table 256 (λ k. bit_and k 0x3f) (λ k. k % 64) a (unfold passes in refl) ha

  pub ind_0_lem : ind_0 a ≡ a / 4
  unfolding ind_0
  ind_0_lem = mask_a4

  pub ind_1_last_lem : ind_1_last a ≡ a % 4 * 16
  unfolding ind_1_last
  ind_1_last_lem = mask_s4

  pub ind_2_last_lem : ind_2_last a ≡ a % 16 * 4
  unfolding ind_2_last
  ind_2_last_lem = mask_s16

  pub ind_3_lem : ind_3 a ≡ a % 64
  unfolding ind_3
  ind_3_lem = mask_s64

module _ (a b : ℕ) (ha : a < 256) (hb : b < 256) where
  pub ind_1_lem : ind_1 a b ≡ a % 4 * 16 + b / 16
  unfolding ind_1
  ind_1_lem =
      ap₂ bit_or (mask_s4 a ha) (mask_a16 b hb) ∙ or_16 (a % 4) (b / 16) (omega arith) (omega arith)

  pub ind_2_lem : ind_2 a b ≡ a % 16 * 4 + b / 64
  unfolding ind_2
  ind_2_lem =
      ap₂ bit_or (mask_s16 a ha) (mask_a64 b hb)
      ∙ or_4 (a % 16) (b / 64) (omega arith) (omega arith)

module _ (s t : ℕ) (hs : s < 64) (ht : t < 64) where
  pub byte_0_lem : byte_0 s t ≡ s * 4 + t / 16
  unfolding byte_0
  byte_0_lem =
      ap₂ bit_or (table 64 (λ k. bit_and (k * 4) 0xfc) (λ k. k * 4) s (unfold passes in refl) hs)
        (table 64 (λ k. bit_and (k / 16) 0x03) (λ k. k / 16) t (unfold passes in refl) ht)
      ∙ or_4 s (t / 16) hs (omega arith)

  pub byte_1_lem : byte_1 s t ≡ s % 16 * 16 + t / 4
  unfolding byte_1
  byte_1_lem =
      ap₂ bit_or
        (table 64 (λ k. bit_and (k * 16) 0xf0) (λ k. k % 16 * 16) s (unfold passes in refl) hs)
        (table 64 (λ k. bit_and (k / 4) 0x0f) (λ k. k / 4) t (unfold passes in refl) ht)
      ∙ or_16 (s % 16) (t / 4) (omega arith) (omega arith)

  pub byte_2_lem : byte_2 s t ≡ s % 4 * 64 + t
  unfolding byte_2
  byte_2_lem =
      ap₂ bit_or
        (table 64 (λ k. bit_and (k * 64) 0xc0) (λ k. k % 4 * 64) s (unfold passes in refl) hs)
        (table 64 (λ k. bit_and k 0x3f) (λ k. k) t (unfold passes in refl) ht)
      ∙ or_64 (s % 4) t (omega arith) ht

module _ (a : ℕ) (ha : a < 256) where
  pub ind_0_lt : ind_0 a < 64
  ind_0_lt = omega (arith, ind_0_lem a ha)

  pub ind_1_last_lt : ind_1_last a < 64
  ind_1_last_lt = omega (arith, ind_1_last_lem a ha)

  pub ind_2_last_lt : ind_2_last a < 64
  ind_2_last_lt = omega (arith, ind_2_last_lem a ha)

  pub ind_3_lt : ind_3 a < 64
  ind_3_lt = omega (arith, ind_3_lem a ha)

  -- The byte that two indices were cut from comes back.
  pub back_0 : (j : ℕ) → j < 64 → j / 16 ≡ a % 4 → byte_0 (ind_0 a) j ≡ a
  back_0 j hj e = omega (arith, ind_0_lem a ha, byte_0_lem (ind_0 a) j ind_0_lt hj)

  pub back_1 : (i j : ℕ) → i < 64 → j < 64 → i % 16 ≡ a / 16 → j / 4 ≡ a % 16 → byte_1 i j ≡ a
  back_1 i j hi hj e f = omega (arith, byte_1_lem i j hi hj)

  pub back_2 : (i : ℕ) → i < 64 → i % 4 ≡ a / 64 → byte_2 i (ind_3 a) ≡ a
  back_2 i hi e = omega (arith, ind_3_lem a ha, byte_2_lem i (ind_3 a) hi ind_3_lt)

module _ (a b : ℕ) (ha : a < 256) (hb : b < 256) where
  pub ind_1_lt : ind_1 a b < 64
  ind_1_lt = omega (arith, ind_1_lem a b ha hb)

  pub ind_2_lt : ind_2 a b < 64
  ind_2_lt = omega (arith, ind_2_lem a b ha hb)
