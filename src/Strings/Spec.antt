-- ===== src/Strings/Spec.antt =====
-- What the string functions are about: characters in memory that a zero byte ends.
use dbos.Base.{
  Bool, true, false, ℕ, zero, suc, ◌+◌, ◌-◌, ◌*◌, ◌≤◌, ◌≡◌, ◌≢◌, List, [], ◌∷◌, ◌==◌, if◌then◌else◌,
}
use dbos.Strings.{Bytes}

-- The characters of `s` stand at `a` and after, behind them a zero byte.
abbrev pub IsString : Bytes → ℕ → List ℕ → Type 0
IsString m a [] = m a ≡ 0
IsString m a (x ∷ s) = (x ≢ 0) × (m a ≡ x) × IsString m (a + 1) s

-- The address of the first place that holds the character, the zero byte included, or 0.
abbrev pub first_at : ℕ → List ℕ → ℕ → ℕ
first_at a [] character = if 0 == character then a else 0
first_at a (x ∷ s) character = if x == character then a else first_at (a + 1) s character

-- The address of the last place that holds the character, the zero byte included, or `ret`.
abbrev pub last_at : ℕ → List ℕ → ℕ → ℕ → ℕ
last_at a [] character ret = if 0 == character then a else ret
last_at a (x ∷ s) character ret = last_at (a + 1) s character (if x == character then a else ret)

-- The characters are decimal digits.
abbrev pub Digits : List ℕ → Type 0
Digits [] = Unit {0}
Digits (x ∷ s) = (48 ≤ x) × (x ≤ 57) × Digits s

-- The number that decimal digits write, with `acc` in front.
abbrev pub decimal : ℕ → List ℕ → ℕ
decimal acc [] = acc
decimal acc (x ∷ s) = decimal (acc * 10 + (x - 48)) s

-- The first `n` characters.
abbrev pub prefix : ℕ → List ℕ → List ℕ
prefix zero s = []
prefix (suc n) [] = []
prefix (suc n) (x ∷ s) = x ∷ prefix n s

-- Whether a character is in a string.
abbrev pub member : ℕ → List ℕ → Bool
member x [] = false
member x (y ∷ t) = if y == x then true else member x t

-- How many characters stand before the first that is in `t`.
abbrev pub span_without : List ℕ → List ℕ → ℕ
span_without [] t = 0
span_without (x ∷ s) t = if member x t then 0 else suc (span_without s t)

-- How many characters stand before the first that is not in `t`.
abbrev pub span_within : List ℕ → List ℕ → ℕ
span_within [] t = 0
span_within (x ∷ s) t = if member x t then suc (span_within s t) else 0
