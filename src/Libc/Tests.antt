-- ===== src/Libc/Tests.antt =====
-- Runs of the C library's functions, and their theorems at short strings.
use dbos.Base.{ℕ, ◌≤◌, ◌<◌, ◌≡◌, refl, some, List, [], ◌∷◌, arith, length, get_or}
use dbos.Strings.{Bytes}
use dbos.Strings.Spec.{IsString, Digits, decimal}
use dbos.Libc.{sputuint, sputhex, sputhex_loop, atoi}
use dbos.Libc.Digits.{NoLeadingZero, sputuint-decimal}
use dbos.Libc.Atoi.{atoi-sputuint}

-- "-42" at 0 and "-4" at 4, each with its zero byte.
abbrev texts : Bytes
texts a = get_or (45 ∷ 52 ∷ 50 ∷ 0 ∷ 45 ∷ 52 ∷ 0 ∷ []) a 0

hex_two : (sputhex texts 100 0x2f).0 ≡ 4
unfolding sputhex sputhex_loop
hex_two = refl

sputuint-decimal_example :
    (n : ℕ) × (m' : Bytes) × (s : List ℕ) × (sputuint texts 100 4096 ≡ some (n, m'))
    × IsString m' 100 s
    × Digits s
    × NoLeadingZero s
    × (decimal 0 s ≡ 4096)
    × (length s ≡ n)
    × (0 < n)
    × (n ≤ 10)
    × ((p : ℕ) → p < 100 → m' p ≡ texts p)
sputuint-decimal_example = sputuint-decimal texts 100 4096 (omega arith) (omega arith)

atoi-sputuint_example :
    (n : ℕ) × (m' : Bytes) × (sputuint texts 100 4096 ≡ some (n, m')) × (atoi 11 m' 100 ≡ some 4096)
atoi-sputuint_example = atoi-sputuint texts 100 4096 (omega arith) (omega arith)
