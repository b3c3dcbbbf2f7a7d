-- ===== src/Base64.antt =====
-- 高编项目/base64.c. A C string is the list of the bytes in memory from its start on, with its NUL; a
-- read past the end of that list is `none`. A function that fills `dest` returns what it writes.
pub mod Bits
pub mod RoundTrip
mod Tests
use Prim.Native.Nat.{bit_and, bit_or}
use mycode_c.Base.{
  ℕ, suc, ◌+◌, ◌-◌, ◌*◌, ◌/◌, ◌^◌, Option, none, some, List, [], ◌∷◌, ◌++◌, ◌==◌, if◌then◌else◌,
  get_or, take,
}
use mycode_c.Base.Int.{ℤ, pos, negsuc}

-- the bytes of "ABC...Zabc...z0123456789+/", with the NUL
abbrev pub base64char : List ℕ
base64char =
    65 ∷ 66 ∷ 67 ∷ 68 ∷ 69 ∷ 70 ∷ 71 ∷ 72 ∷ 73 ∷ 74 ∷ 75 ∷ 76 ∷ 77 ∷ 78 ∷ 79 ∷ 80 ∷ 81 ∷ 82 ∷ 83
    ∷ 84 ∷ 85 ∷ 86 ∷ 87 ∷ 88 ∷ 89 ∷ 90 ∷ 97 ∷ 98 ∷ 99 ∷ 100 ∷ 101 ∷ 102 ∷ 103 ∷ 104 ∷ 105 ∷ 106
    ∷ 107 ∷ 108 ∷ 109 ∷ 110 ∷ 111 ∷ 112 ∷ 113 ∷ 114 ∷ 115 ∷ 116 ∷ 117 ∷ 118 ∷ 119 ∷ 120 ∷ 121 ∷ 122
    ∷ 48 ∷ 49 ∷ 50 ∷ 51 ∷ 52 ∷ 53 ∷ 54 ∷ 55 ∷ 56 ∷ 57 ∷ 43 ∷ 47 ∷ 0 ∷ []

abbrev pub end_char : ℕ
end_char = b'='

-- How far the first NUL lies from the start.
pub scan : List ℕ → Option ℕ
scan [] = none
scan (c ∷ s) = if c == 0 then some 0 else elim (scan s) [ none ↦ none | some n ↦ some (suc n) ]

-- `while(*++s);` looks at the bytes behind the first one only.
pub mystrlen : List ℕ → Option ℕ
unfolding scan
mystrlen [] = none
mystrlen (c ∷ s) = elim (scan s) [ none ↦ none | some n ↦ some (suc n) ]

-- The offset of the pointer that the C function returns, `none` for NULL. The list ends with the NUL
-- of the string, which is found too if it is looked for.
pub mystrchr : List ℕ → ℕ → Option ℕ
mystrchr [] c = none
mystrchr (x ∷ s) c =
    if x == c
    then some 0
    else (if x == 0 then none else elim (mystrchr s c) [ none ↦ none | some n ↦ some (suc n) ])

pub strchr_of_num : List ℕ → ℕ → ℤ
unfolding mystrchr
strchr_of_num str c = elim (mystrchr str c) [ none ↦ negsuc 0 | some n ↦ pos n ]

-- the character for an index of six bits
pub digit : ℕ → ℕ
digit ind = get_or base64char ind 0

pub ind_0 : ℕ → ℕ
ind_0 a = bit_and (a / 4) 0x3f

pub ind_1 : ℕ → ℕ → ℕ
ind_1 a b = bit_or (bit_and (a * 16) 0x30) (bit_and (b / 16) 0x0f)

pub ind_1_last : ℕ → ℕ
ind_1_last a = bit_and (a * 16) 0x30

pub ind_2 : ℕ → ℕ → ℕ
ind_2 b c = bit_or (bit_and (b * 4) 0x3c) (bit_and (c / 64) 0x03)

pub ind_2_last : ℕ → ℕ
ind_2_last b = bit_and (b * 4) 0x3c

pub ind_3 : ℕ → ℕ
ind_3 c = bit_and c 0x3f

-- The loop over `src[0..datalength)`, three bytes a round.
pub encode_loop : List ℕ → List ℕ
unfolding digit ind_0 ind_1 ind_1_last ind_2 ind_2_last ind_3
encode_loop [] = []
encode_loop (a ∷ []) = digit (ind_0 a) ∷ digit (ind_1_last a) ∷ end_char ∷ end_char ∷ []
encode_loop (a ∷ b ∷ []) =
    digit (ind_0 a) ∷ digit (ind_1 a b) ∷ digit (ind_2_last b) ∷ end_char ∷ []
encode_loop (a ∷ b ∷ c ∷ rest) =
    digit (ind_0 a) ∷ digit (ind_1 a b) ∷ digit (ind_2 b c) ∷ digit (ind_3 c) ∷ encode_loop rest

pub base64_encode : List ℕ → Option (List ℕ)
unfolding mystrlen encode_loop
base64_encode src = elim (mystrlen src) [
  | none ↦ none
  | some n ↦ some (encode_loop (take n src) ++ (0 ∷ []))
]

-- The bits of an `int`.
abbrev pub word : ℤ → ℕ
word (pos n) = n
word (negsuc n) = 2 ^ 32 - 1 - n

-- `trans[k]` for a character
pub trans : ℕ → ℕ
unfolding strchr_of_num
trans c = word (strchr_of_num base64char c)

pub byte_0 : ℕ → ℕ → ℕ
byte_0 s t = bit_or (bit_and (s * 4) 0xfc) (bit_and (t / 16) 0x03)

pub byte_1 : ℕ → ℕ → ℕ
byte_1 s t = bit_or (bit_and (s * 16) 0xf0) (bit_and (t / 4) 0x0f)

pub byte_2 : ℕ → ℕ → ℕ
byte_2 s t = bit_or (bit_and (s * 64) 0xc0) (bit_and t 0x3f)

-- The bytes that four characters add to `dest`.
pub quad : ℕ → ℕ → ℕ → ℕ → List ℕ
unfolding trans byte_0 byte_1 byte_2
quad a b c d =
    byte_0 (trans a) (trans b)
    ∷ (if c == end_char
        then []
        else byte_1 (trans b) (trans c)
          ∷ (if d == end_char then [] else byte_2 (trans c) (trans d) ∷ []))

-- `src[i] != '\0'` fails at once, or a later read of the round is out of range.
pub stop : ℕ → Option (List ℕ)
stop a = if a == 0 then some (0 ∷ []) else none

-- A round of the loop, before the bytes of the rounds that follow.
pub round : ℕ → List ℕ → Option (List ℕ) → Option (List ℕ)
round a bytes none = if a == 0 then some (0 ∷ []) else none
round a bytes (some out) = if a == 0 then some (0 ∷ []) else some (bytes ++ out)

pub base64_decode : List ℕ → Option (List ℕ)
unfolding quad stop round
base64_decode [] = none
base64_decode (a ∷ []) = stop a
base64_decode (a ∷ b ∷ []) = stop a
base64_decode (a ∷ b ∷ c ∷ []) = stop a
base64_decode (a ∷ b ∷ c ∷ d ∷ src) = round a (quad a b c d) (base64_decode src)
