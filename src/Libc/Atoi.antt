-- ===== src/Libc/Atoi.antt =====
-- `atoi` of the C library reads what `sputuint` writes, and no negative number.
use dbos.Base.{
  ℕ, zero, suc, ◌+◌, ◌-◌, ◌*◌, ◌%◌, ◌^◌, ◌<◌, ◌≡◌, refl, ap, ◌∙◌, some, true, false, List, [], ◌∷◌,
  arith, ◌==◌, ==_refl, length,
}
use dbos.Base.Word.{u32_mod, add32}
use dbos.Strings.{Bytes, is_digit}
use dbos.Strings.Spec.{IsString, Digits, decimal}
use dbos.Strings.Scan.{strlen_loop-length, decimal-ge, not_minus}
use dbos.Libc.{atoi_loop, atoi, sputuint}
use dbos.Libc.Digits.{sputuint-decimal}

atoi_loop-decimal :
    (fuel : ℕ) (m : Bytes) (a acc n : ℕ) (s : List ℕ)
    → IsString m a s
    → Digits s
    → a + length s < u32_mod
    → n + length s < u32_mod
    → length s < fuel
    → decimal acc s < u32_mod
    → atoi_loop fuel m a acc n ≡ some (decimal acc s, n + length s)
unfolding atoi_loop
atoi_loop-decimal zero m a acc n s v d room r h small = absurd (omega arith)
atoi_loop-decimal (suc f) m a acc n [] v d room r h small =
    let same : n + 0 ≡ n = omega arith in rw (v, same, atoi_loop) refl
atoi_loop-decimal (suc f) m a acc n (x ∷ s) v d room r h small =
    let next : add32 a 1 ≡ a + 1 = omega arith in
    let more : add32 n 1 ≡ n + 1 = omega arith in
    let count : n + suc (length s) ≡ n + 1 + length s = omega arith in
    let digit : is_digit x ≡ true = ground arith in
    let below = decimal-ge (acc * 10 + (x - 48)) s in
    let acc' : add32 (acc * 10 % u32_mod) (x - 48) ≡ acc * 10 + (x - 48) =
      omega (arith, below, small) in
    rw (v.1, digit, next, v.1, acc', more, count, atoi_loop)
      (atoi_loop-decimal f m (a + 1) (acc * 10 + (x - 48)) (n + 1) s v.2 d.2 (omega arith)
        (omega arith) (omega arith) small)

-- `atoi` of decimal digits that write a number below 2 ^ 31 is that number.
atoi-decimal :
    (fuel : ℕ) (m : Bytes) (a : ℕ) (s : List ℕ)
    → IsString m a s
    → Digits s
    → a + length s < u32_mod
    → length s < fuel
    → decimal 0 s < 2 ^ 31
    → atoi fuel m a ≡ some (decimal 0 s)
unfolding atoi
atoi-decimal fuel m a s v d room h small =
    let here : a + 0 ≡ a = omega arith in
    let len = strlen_loop-length fuel m a 0 s (rw here v) (omega arith) h in
    let run = atoi_loop-decimal fuel m a 0 0 s v d room (omega arith) h (omega arith) in
    rw (not_minus m a s v d, len, run, ==_refl (0 + length s), atoi) refl

-- What `sputuint` writes for a number below 2 ^ 31 is read back by `atoi`, when the place has twelve
-- bytes before the end of the memory.
pub atoi-sputuint :
    (m : Bytes) (str u : ℕ)
    → u < 2 ^ 31
    → str + 12 < u32_mod
    → (n : ℕ) × (m' : Bytes) × (sputuint m str u ≡ some (n, m')) × (atoi 11 m' str ≡ some u)
atoi-sputuint m str u h room =
    let (n, m', s, run, v, d, first, value, count, pos, short, below) =
      sputuint-decimal m str u (omega arith) room in
    (
      n,
      m',
      run,
      atoi-decimal 11 m' str s v d (omega arith) (omega arith) (omega arith) ∙ ap some value,
    )

-- `atoi` of a minus sign and decimal digits that write a number below 2 ^ 31 is -1, whatever the
-- digits are.
pub atoi_minus_lem :
    (fuel : ℕ) (m : Bytes) (a : ℕ) (s : List ℕ)
    → IsString m a (45 ∷ s)
    → Digits s
    → a + length s + 1 < u32_mod
    → length s + 1 < fuel
    → decimal 0 s < 2 ^ 31
    → atoi fuel m a ≡ some (u32_mod - 1)
unfolding atoi
atoi_minus_lem fuel m a s v d room h small =
    let here : a + 0 ≡ a = omega arith in
    let len = strlen_loop-length fuel m a 0 (45 ∷ s) (rw here v) (omega arith) (omega arith) in
    let next : add32 a 1 ≡ a + 1 = omega arith in
    let run =
      atoi_loop-decimal fuel m (a + 1) 0 0 s v.2 d (omega arith) (omega arith) (omega arith)
        (omega arith) in
    let differ : ((0 + length s) == (0 + suc (length s))) ≡ false = ground arith in
    rw (v.1, len, next, run, differ, atoi) refl
