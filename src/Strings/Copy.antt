-- ===== src/Strings/Copy.antt =====
-- kernel/util/string.c: strcpy, strncpy, strdup, strcat and strncmp. The loops are on fuel; `none` is
-- a loop that goes on after it.
use dbos.Base.{
  ℕ, zero, suc, ◌-◌, true, false, not, ◌||◌, Option, none, some, ltb, ◌==◌, if◌then◌else◌,
}
use dbos.Base.Maybe.{◌>>=◌}
use dbos.Base.Word.{u32_mod, add32, slt32}
use dbos.Memory.{put, memcpy_8}
use dbos.Strings.{Bytes, strlen}

-- The loop of `strcpy`, from the index `i`.
unfoldable pub strcpy_loop : ℕ → Bytes → ℕ → ℕ → ℕ → Option Bytes
strcpy_loop zero m destination source i = none
strcpy_loop (suc fuel) m destination source i =
    let c = m (add32 source i) in
    let m' = put m (add32 destination i) c in
    elim (c == 0) [ true ↦ some m' | false ↦ strcpy_loop fuel m' destination source (add32 i 1) ]

-- `strcpy`
unfoldable pub strcpy : ℕ → Bytes → ℕ → ℕ → Option Bytes
unfolding strcpy_loop
strcpy fuel m destination source = strcpy_loop fuel m destination source 0

-- The loop of `strncpy`, from the index `i`.
unfoldable pub strncpy_loop : ℕ → Bytes → ℕ → ℕ → ℕ → ℕ → Option Bytes
strncpy_loop zero m destination source len i = none
strncpy_loop (suc fuel) m destination source len i =
    let c = m (add32 source i) in
    let m' = put m (add32 destination i) c in
    elim ((c == 0) || not (slt32 i len)) [
      | true ↦ some m'
      | false ↦ strncpy_loop fuel m' destination source len (add32 i 1)
    ]

-- `strncpy`
unfoldable pub strncpy : ℕ → Bytes → ℕ → ℕ → ℕ → Option Bytes
unfolding strncpy_loop
strncpy fuel m destination source len = strncpy_loop fuel m destination source len 0

-- `strdup`; `tmp` is what `kern_malloc` returns for the length of the string and one.
unfoldable pub strdup : ℕ → Bytes → ℕ → ℕ → Option (ℕ × Bytes)
strdup fuel m tmp string = do
  len ← strlen fuel m string
  let string_length = add32 len 1
  some (tmp, put (memcpy_8 m tmp string string_length) (add32 tmp string_length) 0)

-- The first loop of `strcat`: the address of the zero byte.
unfoldable pub end_of : ℕ → Bytes → ℕ → Option ℕ
end_of zero m dest = none
end_of (suc fuel) m dest = elim (m dest == 0) [
  | true ↦ some dest
  | false ↦ end_of fuel m (add32 dest 1)
]

-- The second loop of `strcat`: the address behind the last byte that it stores, and the memory.
unfoldable pub strcat_loop : ℕ → Bytes → ℕ → ℕ → Option (ℕ × Bytes)
strcat_loop zero m dest string = none
strcat_loop (suc fuel) m dest string =
    let c = m string in
    let m' = put m dest c in
    elim (c == 0) [
      | true ↦ some (add32 dest 1, m')
      | false ↦ strcat_loop fuel m' (add32 dest 1) (add32 string 1)
    ]

-- `strcat`
unfoldable pub strcat : ℕ → Bytes → ℕ → ℕ → Option (ℕ × Bytes)
unfolding end_of strcat_loop
strcat fuel m dest string = do dest ← end_of fuel m dest; strcat_loop fuel m dest string

-- The loop of `strncmp`, with the characters that are left; a result is an `int`, given as its bit
-- pattern.
unfoldable pub strncmp_loop : ℕ → Bytes → ℕ → ℕ → ℕ
strncmp_loop zero m string1 string2 = 0
strncmp_loop (suc left) m string1 string2 =
    let rest = strncmp_loop left m (add32 string1 1) (add32 string2 1) in
    if ltb (m string1) (m string2)
    then u32_mod - 1
    else if ltb (m string2) (m string1)
    then 1
    else if m string1 == 0
    then 0
    else rest

-- `strncmp`; a negative length compares nothing.
unfoldable pub strncmp : Bytes → ℕ → ℕ → ℕ → ℕ
unfolding strncmp_loop
strncmp m str1 str2 length = strncmp_loop (if slt32 length 0 then 0 else length) m str1 str2
