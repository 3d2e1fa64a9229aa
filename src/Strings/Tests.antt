-- ===== src/Strings/Tests.antt =====
-- Runs of the string functions, and their theorems on strings in memory.
use dbos.Base.{
  ℕ, ◌≡◌, ◌≢◌, ◌⊎◌, inr, get_or, refl, none, some, List, [], ◌∷◌, arith, ◌==◌, if◌then◌else◌,
}
use dbos.Strings.{Bytes, strlen, strcmp, atoi, strlen_loop, atoi_loop}
use dbos.Strings.Spec.{IsString}
use dbos.Strings.Copy.{strcpy}
use dbos.Strings.Copying.{strcpy-copies}
use dbos.Strings.Token.{strtok-token}
use dbos.Strings.Tokens.{strtok, strstr, advance, strstr_loop, matches}
use dbos.Memory.Loops.{Outside}
use dbos.Strings.Scan.{strcmp-equal}

-- "-42" at 100 and "424" at 200.
abbrev memory : Bytes
memory a =
    if a == 100
    then 45
    else if a == 101
    then 52
    else if a == 102
    then 50
    else if a == 200
    then 52
    else if a == 201
    then 50
    else if a == 202
    then 52
    else 0

abbrev minus_42 : List ℕ
minus_42 = 45 ∷ 52 ∷ 50 ∷ []

abbrev four_two_four : List ℕ
four_two_four = 52 ∷ 50 ∷ 52 ∷ []

minus_42-IsString : IsString memory 100 minus_42
minus_42-IsString = (omega arith, refl, (omega arith, refl, (omega arith, refl, refl)))

four_two_four-IsString : IsString memory 200 four_two_four
four_two_four-IsString = (omega arith, refl, (omega arith, refl, (omega arith, refl, refl)))

-- Without enough fuel the loop does not end.
cut_short : strlen 3 memory 100 ≡ none
unfolding strlen strlen_loop
cut_short = refl

-- The number ends before a character that is no digit.
read_number : atoi 5 memory 201 ≡ some 24
unfolding atoi atoi_loop
read_number = refl

strcmp-equal_example :
    ((minus_42 ≡ four_two_four) × (strcmp 4 memory 100 200 ≡ some 0))
    ⊎ ((minus_42 ≢ four_two_four) × (strcmp 4 memory 100 200 ≡ some 1))
strcmp-equal_example =
    strcmp-equal 4 memory 100 200 minus_42 four_two_four minus_42-IsString four_two_four-IsString
      (omega arith) (omega arith) (omega arith)

-- "ab" and behind it "abc", which is also the string to look for.
abbrev neighbours : Bytes
neighbours a = get_or (0 ∷ 97 ∷ 98 ∷ 0 ∷ 97 ∷ 98 ∷ 99 ∷ 0 ∷ []) a 0

-- `strstr` runs over the end of a string that is shorter than what it looks for.
strstr_overrun : strstr 20 neighbours 1 4 ≡ some 0
unfolding strstr advance strstr_loop matches
strstr_overrun = refl

strcpy-copies_example :
    (m' : Bytes) × (strcpy 9 memory 300 100 ≡ some m')
    × IsString m' 300 minus_42
    × ((p : ℕ) → Outside 300 4 p → m' p ≡ memory p)
strcpy-copies_example =
    strcpy-copies 9 memory 300 100 minus_42 minus_42-IsString (inr (omega arith)) (omega arith)
      (omega arith) (omega arith)

-- " ab c" at 1 and the delimiters " " at 7.
abbrev sentence : Bytes
sentence a = get_or (0 ∷ 32 ∷ 97 ∷ 98 ∷ 32 ∷ 99 ∷ 0 ∷ 32 ∷ 0 ∷ []) a 0

strtok-token_example :
    (m' : Bytes) × (strtok 9 sentence 0 1 7 ≡ some (2, 5, m'))
    × IsString m' 2 (97 ∷ 98 ∷ [])
    × ((p : ℕ) → p ≢ 4 → m' p ≡ sentence p)
strtok-token_example =
    strtok-token 9 sentence 0 1 1 7 97 32 (32 ∷ []) (98 ∷ []) (99 ∷ []) (32 ∷ []) refl (omega arith)
      (omega arith)
      (
        omega arith,
        refl,
        (omega arith, refl, (omega arith, refl, (omega arith, refl, (omega arith, refl, refl)))),
      )
      (omega arith, refl, refl) (refl, tt) (refl, (refl, tt)) refl (omega arith) (omega arith)
      (omega arith)
