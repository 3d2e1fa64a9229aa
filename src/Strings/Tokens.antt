-- ===== src/Strings/Tokens.antt =====
-- kernel/util/string.c: strcspn, strspn, strtok and strstr. The loops are on fuel, also where they
-- call `strchr`; `none` is a loop that goes on after it. The address 0 is NULL.
use dbos.Base.{
  ℕ, zero, suc, Bool, true, false, ◌&&◌, ◌||◌, not, Option, none, some, ◌==◌, if◌then◌else◌,
}
use dbos.Base.Maybe.{◌>>=◌}
use dbos.Base.Word.{add32}
use dbos.Memory.{put}
use dbos.Strings.{Bytes, strchr}

-- The loop of `strcspn`.
unfoldable pub strcspn_loop : ℕ → Bytes → ℕ → ℕ → ℕ → Option ℕ
strcspn_loop zero m string1 string2 len = none
strcspn_loop (suc fuel) m string1 string2 len = elim (m string1 == 0) [
  | true ↦ some len
  | false ↦ elim (strchr (suc fuel) m string2 (m string1)) [
    | none ↦ none
    | some temp ↦ elim (temp == 0) [
      | true ↦ strcspn_loop fuel m (add32 string1 1) string2 (add32 len 1)
      | false ↦ some len
    ]
  ]
]

-- `strcspn`
unfoldable pub strcspn : ℕ → Bytes → ℕ → ℕ → Option ℕ
unfolding strcspn_loop
strcspn fuel m string1 string2 = strcspn_loop fuel m string1 string2 0

-- The loop of `strspn`.
unfoldable pub strspn_loop : ℕ → Bytes → ℕ → ℕ → ℕ → Option ℕ
strspn_loop zero m string1 string2 len = none
strspn_loop (suc fuel) m string1 string2 len = elim (m string1 == 0) [
  | true ↦ some len
  | false ↦ elim (strchr (suc fuel) m string2 (m string1)) [
    | none ↦ none
    | some temp ↦ elim (temp == 0) [
      | true ↦ some len
      | false ↦ strspn_loop fuel m (add32 string1 1) string2 (add32 len 1)
    ]
  ]
]

-- `strspn`
unfoldable pub strspn : ℕ → Bytes → ℕ → ℕ → Option ℕ
unfolding strspn_loop
strspn fuel m string1 string2 = strspn_loop fuel m string1 string2 0

-- The first loop of `strtok`: the address of the first character that is no delimiter, 0 where there
-- is none.
unfoldable pub skip_delimiters : ℕ → Bytes → ℕ → ℕ → Option ℕ
skip_delimiters zero m string delimiters = none
skip_delimiters (suc fuel) m string delimiters = elim (m string == 0) [
  | true ↦ some 0
  | false ↦ elim (strchr (suc fuel) m delimiters (m string)) [
    | none ↦ none
    | some at_delimiter ↦ elim (at_delimiter == 0) [
      | true ↦ some string
      | false ↦ skip_delimiters fuel m (add32 string 1) delimiters
    ]
  ]
]

-- `strtok` with its static `stored_string`: the token, 0 for none, what is stored and the memory.
unfoldable pub strtok : ℕ → Bytes → ℕ → ℕ → ℕ → Option (ℕ × ℕ × Bytes)
unfolding skip_delimiters strcspn
strtok fuel m stored_string string delimiters = do
  string ← skip_delimiters fuel m (if string == 0 then stored_string else string) delimiters
  if string == 0 then some (0, stored_string, m) else do
    len ← strcspn fuel m string delimiters
    let stored = add32 string len
    some (if m stored == 0 then (string, stored, m) else (string, add32 stored 1, put m stored 0))

-- The loop of `strstr` that moves `adv` by the length of the needle less one.
unfoldable pub advance : ℕ → Bytes → ℕ → ℕ → Option ℕ
advance zero m oper2 adv = none
advance (suc fuel) m oper2 adv = elim (m (add32 oper2 1) == 0) [
  | true ↦ some adv
  | false ↦ advance fuel m (add32 oper2 1) (add32 adv 1)
]

-- The inner loop of `strstr`: whether it comes to the end of the needle.
unfoldable pub matches : ℕ → Bytes → ℕ → ℕ → Option Bool
matches zero m oper1 oper2 = none
matches (suc fuel) m oper1 oper2 =
    elim (not (m oper1 == 0) && (not (m oper2 == 0) && (m oper1 == m oper2))) [
      | true ↦ matches fuel m (add32 oper1 1) (add32 oper2 1)
      | false ↦ some (m oper2 == 0)
    ]

-- The outer loop of `strstr`.
unfoldable pub strstr_loop : ℕ → Bytes → ℕ → ℕ → ℕ → Option ℕ
unfolding matches
strstr_loop zero m oper1 needle adv = none
strstr_loop (suc fuel) m oper1 needle adv = elim (m adv == 0) [
  | true ↦ some 0
  | false ↦ elim (matches (suc fuel) m oper1 needle) [
    | none ↦ none
    | some true ↦ some oper1
    | some false ↦ strstr_loop fuel m (add32 oper1 1) needle (add32 adv 1)
  ]
]

-- `strstr`
unfoldable pub strstr : ℕ → Bytes → ℕ → ℕ → Option ℕ
unfolding advance strstr_loop
strstr fuel m haystack needle =
    if (haystack == 0) || ((needle == 0) || ((m haystack == 0) || (m needle == 0)))
    then some 0
    else (do adv ← advance fuel m needle haystack; strstr_loop fuel m haystack needle adv)
