-- ===== src/Libc.antt =====
-- libraries/libc/string.c and stdlib.c, the C library of the user programs: the functions on strings
-- and the integers written to and read from them. The memory functions are in Memory. The loops are
-- on fuel; `none` is a loop that goes on after it. A `char` is its byte and an `int` its bit pattern.
pub mod Digits
pub mod Atoi
pub mod Compare
mod Tests
use dbos.Base.{
  ℕ, zero, suc, ◌+◌, ◌-◌, ◌*◌, ◌/◌, ◌%◌, ◌^◌, Bool, true, false, not, ◌&&◌, ◌||◌, Option, none,
  some, ltb, leb, ◌==◌, if◌then◌else◌,
}
use dbos.Base.Maybe.{◌>>=◌}
use dbos.Base.Word.{u32_mod, add32, sub32, slt32}
use dbos.Memory.{put}
use dbos.Strings.{Bytes, strlen_loop, is_digit}
use dbos.Strings.Copy.{strcpy_loop, end_of, strcat_loop}

-- `strlen`
abbrev pub strlen : ℕ → Bytes → ℕ → Option ℕ
strlen fuel m str = strlen_loop fuel m str 0

-- `strchr`; the address 0 is NULL.
strchr : ℕ → Bytes → ℕ → ℕ → Option ℕ
strchr zero m string c = none
strchr (suc fuel) m string c = elim (m string == c) [
  | true ↦ some string
  | false ↦ elim (m string == 0) [ true ↦ some 0 | false ↦ strchr fuel m (add32 string 1) c ]
]

-- `strcpy`, which returns its destination.
strcpy : ℕ → Bytes → ℕ → ℕ → Option (ℕ × Bytes)
strcpy fuel m destination source = do
  m' ← strcpy_loop fuel m destination source 0
  some (destination, m')

-- The loop of `strncpy`, for the characters that are left, from the index `i`.
strncpy_loop : ℕ → Bytes → ℕ → ℕ → ℕ → Bytes
strncpy_loop zero m destination source i = m
strncpy_loop (suc left) m destination source i = elim (m (add32 source i) == 0) [
  | true ↦ m
  | false ↦
      strncpy_loop left (put m (add32 destination i) (m (add32 source i))) destination source
        (add32 i 1)
]

-- `strncpy`, which returns its destination.
strncpy : Bytes → ℕ → ℕ → ℕ → ℕ × Bytes
unfolding strncpy_loop
strncpy m destination source n = (destination, strncpy_loop n m destination source 0)

-- `strcmp`
pub strcmp : ℕ → Bytes → ℕ → ℕ → Option ℕ
strcmp zero m str1 str2 = none
strcmp (suc fuel) m str1 str2 = elim (m str1 == m str2) [
  | true ↦ elim (m str1 == 0) [
    | true ↦ some 0
    | false ↦ strcmp fuel m (add32 str1 1) (add32 str2 1)
  ]
  | false ↦ some (sub32 (m str1) (m str2))
]

-- `a > b` on two `char`s, which are signed.
abbrev char_gt : ℕ → ℕ → Bool
char_gt a b = ltb ((b + 128) % 256) ((a + 128) % 256)

-- `strncmp`, with the characters that are left; `i`, an `int`, is compared as a `size_t`.
pub strncmp : Bytes → ℕ → ℕ → ℕ → ℕ
strncmp m str1 str2 zero = 0
strncmp m str1 str2 (suc n) =
    let rest = strncmp m (add32 str1 1) (add32 str2 1) n in
    if not (m str1 == 0) && not (m str2 == 0)
    then (if char_gt (m str1) (m str2)
        then 1
        else if char_gt (m str2) (m str1)
        then u32_mod - 1
        else rest)
    else 0

-- `strcat`, which returns its destination.
strcat : ℕ → Bytes → ℕ → ℕ → Option (ℕ × Bytes)
strcat fuel m dest src = do
  end ← end_of fuel m dest
  (last, m') ← strcat_loop fuel m end src
  some (dest, m')

-- `sappend`
sappend : ℕ → Bytes → ℕ → ℕ → Option (ℕ × Bytes)
sappend fuel m str c = do
  len ← strlen fuel m str
  some (str, put (put m (add32 str len) c) (add32 str (add32 len 1)) 0)

-- The loop of `strrev`, on fuel.
strrev_loop : ℕ → Bytes → ℕ → ℕ → ℕ → Option Bytes
strrev_loop zero m s i j = none
strrev_loop (suc fuel) m s i j = elim (slt32 i j) [
  | false ↦ some m
  | true ↦
      let c = m (add32 s i) in
      let m' = put m (add32 s i) (m (add32 s j)) in
      strrev_loop fuel (put m' (add32 s j) c) s (add32 i 1) (sub32 j 1)
]

-- `strrev`; its second argument is a number in a pointer's place.
strrev : ℕ → Bytes → ℕ → ℕ → Option Bytes
unfolding strrev_loop
strrev fuel m s l = strrev_loop fuel m s 0 (sub32 l 1)

-- The character of a hexadecimal digit.
abbrev hex_digit : ℕ → ℕ
hex_digit temp = if leb 10 temp then temp - 10 + 65 else temp + 48

-- The loop of `sputhex`, with the digits that are left but the last; `no_ze` says that only zeros
-- came so far, and the result is the last index that was stored at.
sputhex_loop : ℕ → Bytes → ℕ → ℕ → Bool → ℕ → ℕ × Bytes
sputhex_loop zero m str uinteg no_ze str_i = (str_i, m)
sputhex_loop (suc left) m str uinteg no_ze str_i =
    let temp = uinteg / 16 ^ (left + 1) % 16 in
    let here = put m (add32 str (str_i + 1)) (hex_digit temp) in
    elim ((temp == 0) && no_ze) [
      | true ↦ sputhex_loop left m str uinteg no_ze str_i
      | false ↦ sputhex_loop left here str uinteg false (str_i + 1)
    ]

-- `sputhex`: the number of the characters, and the memory.
sputhex : Bytes → ℕ → ℕ → ℕ × Bytes
unfolding sputhex_loop
sputhex m str uinteg =
    let start = put (put m str 48) (add32 str 1) 120 in
    let (str_i, m') = sputhex_loop 7 start str uinteg true 1 in
    (str_i + 2, put m' (add32 str (str_i + 1)) (hex_digit (uinteg % 16)))

-- The first loop of `sputuint`, which looks for the first digit's divisor.
pub first_divisor : ℕ → ℕ → ℕ → Option ℕ
first_divisor zero uinteg divisor = none
first_divisor (suc fuel) uinteg divisor = elim ((uinteg / divisor == 0) && leb 10 divisor) [
  | true ↦ first_divisor fuel uinteg (divisor / 10)
  | false ↦ some divisor
]

-- The second loop of `sputuint`, and the stores behind it: the index and the memory.
pub put_digits : ℕ → Bytes → ℕ → ℕ → ℕ → ℕ → Option (ℕ × Bytes)
put_digits zero m str index num divisor = none
put_digits (suc fuel) m str index num divisor = elim (leb 10 divisor) [
  | true ↦
      put_digits fuel (put m (add32 str index) ((48 + num / divisor) % 256)) str (add32 index 1)
        (num % divisor) (divisor / 10)
  | false ↦
      let m' = put m (add32 str index) ((48 + num) % 256) in
      some (add32 index 1, put m' (add32 str (add32 index 1)) 0)
]

-- `sputuint`; ten rounds are enough for each loop.
pub sputuint : Bytes → ℕ → ℕ → Option (ℕ × Bytes)
sputuint m str uinteg = do
  divisor ← first_divisor 10 uinteg 1000000000
  put_digits 10 m str 0 uinteg divisor

-- `sputint`
pub sputint : Bytes → ℕ → ℕ → Option (ℕ × Bytes)
sputint m str num = if not (slt32 num 0) then sputuint m str num else do
  (written, m') ← sputuint (put m str 45) (add32 str 1) (sub32 0 num)
  some (add32 written 1, m')

-- The loop of `strcspn`.
strcspn_loop : ℕ → Bytes → ℕ → ℕ → ℕ → Option ℕ
unfolding strchr
strcspn_loop zero m string1 string2 len = none
strcspn_loop (suc fuel) m string1 string2 len = elim (m string1 == 0) [
  | true ↦ some len
  | false ↦ elim (strchr (suc fuel) m string2 (m string1)) [
    | none ↦ none
    | some temp ↦ elim (temp == 0) [
      | true ↦ strcspn_loop fuel m (add32 string1 1) string2 (add32 len 1)
      | false ↦ some len
    ]
  ]
]

-- `strcspn`
strcspn : ℕ → Bytes → ℕ → ℕ → Option ℕ
unfolding strcspn_loop
strcspn fuel m string1 string2 = strcspn_loop fuel m string1 string2 0

-- The loop of `atoi`: the number and the count of its digits.
pub atoi_loop : ℕ → Bytes → ℕ → ℕ → ℕ → Option (ℕ × ℕ)
atoi_loop zero m str acum cur_len = none
atoi_loop (suc fuel) m str acum cur_len = elim (is_digit (m str)) [
  | false ↦ some (acum, cur_len)
  | true ↦
      atoi_loop fuel m (add32 str 1) (add32 (acum * 10 % u32_mod) (m str - 48)) (add32 cur_len 1)
]

-- `atoi`
pub atoi : ℕ → Bytes → ℕ → Option ℕ
atoi fuel m str = do
  len ← strlen fuel m str
  (acum, cur_len) ← atoi_loop fuel m (if m str == 45 then add32 str 1 else str) 0 0
  some (if not (cur_len == len) then u32_mod - 1 else if m str == 45 then sub32 0 acum else acum)
