-- ===== src/Tarfs/Size.antt =====
-- `get_file_size_tarfs` of drivers/tarfs/tarfs.c reads octal numbers.
use dbos.Base.{
  ℕ, zero, suc, ◌+◌, ◌-◌, ◌*◌, ◌/◌, ◌%◌, ◌^◌, ◌≤◌, ◌<◌, ◌≡◌, refl, sym, ap, ◌∙◌, List, [], ◌∷◌,
  ◌++◌, arith, length, length-append, ==_ne, lt→ltb, ap₂, ◌⊎◌, inl, inr,
}
use Prim.Native.Nat.add
use native.Mathlib.Nat.{add-zero, pow-suc}
use dbos.Base.Word.{u32_mod, add32, sub32}
use dbos.Strings.{Bytes}
use dbos.Tarfs.{char_value, size_loop, get_file_size}

-- The `k` octal digits of a number, as characters.
abbrev pub octal_digits : ℕ → ℕ → List ℕ
octal_digits zero n = []
octal_digits (suc k) n = octal_digits k (n / 8) ++ ((48 + n % 8) ∷ [])

-- The characters stand at the address and behind it.
abbrev pub Holds : Bytes → ℕ → List ℕ → Type 0
Holds m a [] = Unit {0}
Holds m a (c ∷ s) = (m a ≡ c) × Holds m (a + 1) s

-- What the loop does for one digit after the other.
abbrev octal_from : ℕ → List ℕ → ℕ
octal_from acc [] = acc
octal_from acc (c ∷ s) = octal_from ((acc * 8 + (c - 48)) % u32_mod) s

abbrev AreOctal : List ℕ → Type 0
AreOctal [] = Unit {0}
AreOctal (c ∷ s) = (48 ≤ c) × (c ≤ 55) × AreOctal s

digit_value :
    (acc c : ℕ)
    → 48 ≤ c
    → c ≤ 55
    → add32 (acc * 8 % u32_mod) (sub32 (char_value c) 48) ≡ (acc * 8 + (c - 48)) % u32_mod
digit_value acc c l h = rw (lt→ltb c 128 (omega arith)) (omega arith)

size_loop-digit :
    (left : ℕ) (m : Bytes) (a c acc : ℕ)
    → m a ≡ c
    → 48 ≤ c
    → c ≤ 55
    → a + 1 < u32_mod
    → size_loop (suc left) m a acc ≡ size_loop left m (a + 1) ((acc * 8 + (c - 48)) % u32_mod)
unfolding size_loop
size_loop-digit left m a c acc e l h room =
    let next : add32 a 1 ≡ a + 1 = omega arith in
    rw (e, ==_ne c 0 (omega arith), ==_ne c 32 (omega arith), next, digit_value acc c l h) refl

size_loop-blank :
    (m : Bytes) (a c acc : ℕ) → m a ≡ c → ((c ≡ 0) ⊎ (c ≡ 32)) → size_loop 1 m a acc ≡ acc
unfolding size_loop
size_loop-blank m a c acc e (inl z) = rw (e, z) refl
size_loop-blank m a c acc e (inr z) = rw (e, z) refl

size_loop-octal :
    (s : List ℕ) (left : ℕ) (m : Bytes) (a acc : ℕ)
    → Holds m a s
    → AreOctal s
    → a + length s < u32_mod
    → size_loop (length s + left) m a acc ≡ size_loop left m (a + length s) (octal_from acc s)
size_loop-octal [] left m a acc v o room =
    ap₂ (λ k b. size_loop k m b acc) (add.zero left) (sym (add-zero a))
size_loop-octal (c ∷ s) left m a acc v o room =
    let acc' = (acc * 8 + (c - 48)) % u32_mod in
    ap (λ k. size_loop k m a acc) (add.suc (length s) left)
    ∙ size_loop-digit (length s + left) m a c acc v.0 o.0 o.1 (omega arith)
    ∙ size_loop-octal s left m (a + 1) acc' v.1 o.2 (omega arith)
    ∙ ap (λ b. size_loop left m b (octal_from acc' s)) (omega arith)

octal_from-append :
    (acc : ℕ) (s : List ℕ) (c : ℕ)
    → octal_from acc (s ++ (c ∷ [])) ≡ (octal_from acc s * 8 + (c - 48)) % u32_mod
octal_from-append acc [] c = refl
octal_from-append acc (d ∷ s) c = octal_from-append ((acc * 8 + (d - 48)) % u32_mod) s c

octal_from-octal_digits : (k n : ℕ) → n < 8 ^ k → n < u32_mod → octal_from 0 (octal_digits k n) ≡ n
octal_from-octal_digits zero n h w = omega arith
octal_from-octal_digits (suc k) n h w =
    let p : 8 ^ suc k ≡ 8 ^ k * 8 = pow-suc 8 k in
    let ih = octal_from-octal_digits k (n / 8) (omega arith) (omega arith) in
    octal_from-append 0 (octal_digits k (n / 8)) (48 + n % 8) ∙ rw ih (omega arith)

length-octal_digits : (k n : ℕ) → length (octal_digits k n) ≡ k
length-octal_digits zero n = refl
length-octal_digits (suc k) n =
    length-append (octal_digits k (n / 8)) ((48 + n % 8) ∷ [])
    ∙ omega (arith, length-octal_digits k (n / 8))

AreOctal-append : (s : List ℕ) (c : ℕ) → AreOctal s → 48 ≤ c → c ≤ 55 → AreOctal (s ++ (c ∷ []))
AreOctal-append [] c o l h = (l, h, tt)
AreOctal-append (d ∷ s) c o l h = (o.0, o.1, AreOctal-append s c o.2 l h)

octal_digits-AreOctal : (k n : ℕ) → AreOctal (octal_digits k n)
octal_digits-AreOctal zero n = tt
octal_digits-AreOctal (suc k) n =
    AreOctal-append (octal_digits k (n / 8)) (48 + n % 8) (octal_digits-AreOctal k (n / 8))
      (omega arith) (omega arith)

-- `get_file_size_tarfs` returns the number whose eleven octal digits stand in the field, with a zero
-- byte or a space behind them: every number below 2 ^ 32, when the field does not run over the end of
-- the memory.
pub get_file_size-octal :
    (m : Bytes) (a n c : ℕ)
    → Holds m a (octal_digits 11 n)
    → m (a + 11) ≡ c
    → ((c ≡ 0) ⊎ (c ≡ 32))
    → n < u32_mod
    → a + 12 ≤ u32_mod
    → get_file_size m a ≡ n
unfolding get_file_size
get_file_size-octal m a n c digits last blank w room =
    let s = octal_digits 11 n in
    size_loop-octal s 1 m a 0 digits (octal_digits-AreOctal 11 n) (omega arith)
    ∙ size_loop-blank m (a + 11) c (octal_from 0 s) last blank
    ∙ octal_from-octal_digits 11 n (omega arith) w
