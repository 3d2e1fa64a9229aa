-- ===== src/Strings.antt =====
-- kernel/util/string.c: strlen, strcmp, strchr, strrchr and atoi on the bytes of the memory. The
-- loops are on fuel; `none` is a loop that goes on after it. A `char` is its byte.
pub mod Spec
pub mod Scan
pub mod Copy
pub mod Tokens
pub mod Copying
pub mod Spans
pub mod Token
mod Tests
use dbos.Base.{
  ℕ, zero, suc, ◌+◌, ◌-◌, ◌*◌, ◌%◌, ◌^◌, Bool, true, false, not, ◌&&◌, ◌||◌, Option, none, some,
  leb, ◌==◌, if◌then◌else◌,
}
use dbos.Base.Maybe.{◌>>=◌}
use dbos.Base.Word.{u32_mod, add32, sub32}

abbrev pub Bytes : Type 0
Bytes = ℕ → ℕ

-- The loop of `strlen` at the index `i`.
pub strlen_loop : ℕ → Bytes → ℕ → ℕ → Option ℕ
strlen_loop zero m string i = none
strlen_loop (suc fuel) m string i = elim (m (add32 string i) == 0) [
  | true ↦ some i
  | false ↦ strlen_loop fuel m string (add32 i 1)
]

-- `strlen`
pub strlen : ℕ → Bytes → ℕ → Option ℕ
strlen fuel m string = strlen_loop fuel m string 0

-- `strcmp`; of two bytes one is greater exactly when they differ.
pub strcmp : ℕ → Bytes → ℕ → ℕ → Option ℕ
strcmp zero m str1 str2 = none
strcmp (suc fuel) m str1 str2 = elim ((m str1 == 0) && (m str2 == 0)) [
  | true ↦ some 0
  | false ↦ elim (m str1 == m str2) [
    | true ↦ strcmp fuel m (add32 str1 1) (add32 str2 1)
    | false ↦ some 1
  ]
]

-- `strchr`; the address 0 is NULL.
pub strchr : ℕ → Bytes → ℕ → ℕ → Option ℕ
strchr zero m string character = none
strchr (suc fuel) m string character = elim (m string == character) [
  | true ↦ some string
  | false ↦ elim (m string == 0) [
    | true ↦ some 0
    | false ↦ strchr fuel m (add32 string 1) character
  ]
]

-- The loop of `strrchr` with the last address that was found.
pub strrchr_loop : ℕ → Bytes → ℕ → ℕ → ℕ → Option ℕ
strrchr_loop zero m string character ret = none
strrchr_loop (suc fuel) m string character ret =
    let ret' = if m string == character then string else ret in
    elim (m string == 0) [
      | true ↦ some ret'
      | false ↦ strrchr_loop fuel m (add32 string 1) character ret'
    ]

-- `strrchr`
pub strrchr : ℕ → Bytes → ℕ → ℕ → Option ℕ
strrchr fuel m string character = strrchr_loop fuel m string character 0

-- The test for a digit.
abbrev pub is_digit : ℕ → Bool
is_digit character = leb 48 character && leb character 57

-- The loop of `atoi`.
pub atoi_loop : ℕ → Bytes → ℕ → ℕ → Option ℕ
atoi_loop zero m str acum = none
atoi_loop (suc fuel) m str acum = elim (is_digit (m str)) [
  | false ↦ some acum
  | true ↦ atoi_loop fuel m (add32 str 1) (add32 (acum * 10 % u32_mod) (m str - 48))
]

-- `atoi`; the result is an `int`, given as its bit pattern.
pub atoi : ℕ → Bytes → ℕ → Option ℕ
atoi fuel m str =
    if m str == 45
    then (do acum ← atoi_loop fuel m (add32 str 1) 0; some (sub32 0 acum))
    else atoi_loop fuel m str 0
