-- ===== src/Libc/Digits.antt =====
-- `sputuint` writes decimal numbers.
use dbos.Base.{
  ℕ, zero, suc, ◌+◌, ◌-◌, ◌*◌, ◌/◌, ◌%◌, ◌≤◌, ◌<◌, ◌≡◌, refl, ap, ◌∙◌, some, true, List, [], ◌∷◌,
  arith, and_false, leb, ◌==◌, length, Bool-cases, inl, inr, get_or, ◌≢◌, ltb,
}
use mathlib.Core.Path.{subst}
use native.Mathlib.Nat.{mod-lt, div-add-mod', div-lt_iff_lt-mul}
use dbos.Base.Word.{u32_mod, add32}
use dbos.Memory.{put}
use dbos.Strings.{Bytes}
use dbos.Strings.Spec.{IsString, Digits, decimal}
use dbos.Libc.{first_divisor, put_digits, sputuint}

abbrev power : ℕ → ℕ
power zero = 1
power (suc k) = 10 * power k

-- A number of several digits does not begin with the character 0.
abbrev pub NoLeadingZero : List ℕ → Type 0
NoLeadingZero s = 1 < length s → get_or s 0 0 ≢ 48

power_pos : (k : ℕ) → 0 < power k
power_pos zero = omega arith
power_pos (suc k) = omega (arith, power_pos k)

put_there : (m : Bytes) (a b : ℕ) → put m a b a ≡ b
put_there m a b = ground arith

put-less : (m : Bytes) (a b p : ℕ) → p < a → put m a b p ≡ m p
put-less m a b p h = ground arith

-- The memory `m'` holds at the index `i` of `str` the digits that write `acc` and, behind it, `num`
-- with `k` and one more digits; what is below them is as in `m`.
record IsWritten (m m' : Bytes) (str i j k num : ℕ) : Type 0 where
  digits : List ℕ
  string : IsString m' (str + i) digits
  decimals : Digits digits
  value : (acc : ℕ) → decimal acc digits ≡ acc * power (suc k) + num
  count : j ≡ i + length digits
  size : length digits ≡ suc k
  leading : (0 < k → power k ≤ num) → NoLeadingZero digits
  below : (p : ℕ) → p < str + i → m' p ≡ m p

-- One more digit in front.
IsWritten-digits :
    (k : ℕ) (m m' : Bytes) (str i j num q r : ℕ)
    → q < 10
    → q * power (suc k) + r ≡ num
    → (power (suc k) ≤ num → 0 < q)
    → IsWritten (put m (str + i) (48 + q)) m' str (i + 1) j k r
    → IsWritten m m' str i j (suc k) num
IsWritten-digits k m m' str i j num q r digit split first w = record {
  digits = (48 + q) ∷ w.digits;
  string = (
    omega arith,
    w.below (str + i) (omega arith) ∙ put_there m (str + i) (48 + q),
    subst (λ a. IsString m' a w.digits) (omega arith) w.string,
  );
  decimals = (omega arith, omega arith, w.decimals);
  value = λ acc. w.value (acc * 10 + (48 + q - 48)) ∙ grind (arith, split);
  count = omega (arith, w.count);
  size = ap suc w.size;
  leading = λ h l e. omega (arith, first (h (omega arith)), e);
  below = λ p h. w.below p (omega arith) ∙ put-less m (str + i) (48 + q) p h;
}

put_digits-IsWritten :
    (fuel k : ℕ) (m : Bytes) (str i num : ℕ)
    → k < fuel
    → num < power (suc k)
    → str + i + k + 1 < u32_mod
    → (j : ℕ) × (m' : Bytes) × (put_digits fuel m str i num (power k) ≡ some (j, m'))
      × IsWritten m m' str i j k num
unfolding put_digits
put_digits-IsWritten zero k m str i num f h room = absurd (omega arith)
put_digits-IsWritten (suc fuel) zero m str i num f h room =
    let here : add32 str i ≡ str + i = omega arith in
    let next : add32 i 1 ≡ i + 1 = omega arith in
    let there : add32 str (i + 1) ≡ str + i + 1 = omega arith in
    let byte : (48 + num) % 256 ≡ 48 + num = omega arith in
    let m₁ = put m (str + i) (48 + num) in
    (
      i + 1,
      put m₁ (str + i + 1) 0,
      rw (here, next, there, byte, put_digits) refl,
      record {
        digits = (48 + num) ∷ [];
        string = (omega arith, ground arith, ground arith);
        decimals = (omega arith, omega arith, tt);
        value = λ acc. omega arith;
        count = omega arith;
        size = omega arith;
        leading = λ h l. absurd (omega arith);
        below = λ p h. ground arith;
      },
    )
put_digits-IsWritten (suc fuel) (suc k) m str i num f h room =
    let P = power (suc k) in
    let pos = power_pos k in
    let q = num / P in
    let r = num % P in
    let small : r < P = mod-lt num (power_pos (suc k)) in
    let split : q * P + r ≡ num = div-add-mod' num P in
    let digit : q < 10 = (div-lt_iff_lt-mul (power_pos (suc k))).1 (omega arith) in
    let some_digit : P ≤ num → 0 < q = λ le.
      let e = div-lt_iff_lt-mul {k = P} {x = num} {y = 1} (power_pos (suc k)) in
      elim (Bool-cases (ltb 0 q)) [
        | inl yes_digit ↦ ground arith
        | inr no_digit ↦ absurd (omega (arith, le, e.0 (ground arith)))
      ] in
    let more : leb 10 P ≡ true = ground arith in
    let next : add32 i 1 ≡ i + 1 = omega arith in
    let here : add32 str i ≡ str + i = omega arith in
    let byte : (48 + q) % 256 ≡ 48 + q = omega arith in
    let divisor : P / 10 ≡ power k = omega arith in
    let m₁ = put m (str + i) (48 + q) in
    let step : put_digits (suc fuel) m str i num P ≡ put_digits fuel m₁ str (i + 1) r (power k) =
      rw (more, here, byte, next, divisor, put_digits) refl in
    let (j, m', run, w) =
      put_digits-IsWritten fuel k m₁ str (i + 1) r (omega arith) small (omega arith) in
    (j, m', step ∙ run, IsWritten-digits k m m' str i j num q r digit split some_digit w)

-- The first loop finds the greatest power of ten that is not above the number, or 1.
first_divisor-power :
    (fuel k u : ℕ)
    → k < fuel
    → u < power (suc k)
    → (n : ℕ) × (n ≤ k)
      × (first_divisor fuel u (power k) ≡ some (power n))
      × (u < power (suc n))
      × (0 < n → power n ≤ u)
unfolding first_divisor
first_divisor-power zero k u f h = absurd (omega arith)
first_divisor-power (suc fuel) zero u f h =
    (0, omega arith, rw (and_false (u / 1 == 0), first_divisor) refl, h, λ z. absurd (omega arith))
first_divisor-power (suc fuel) (suc k) u f h =
    let P = power (suc k) in
    let pos = power_pos k in
    let more : leb 10 P ≡ true = ground arith in
    elim (Bool-cases (u / P == 0)) [
      | inl none_here ↦
          let less : u < P =
            let e = div-lt_iff_lt-mul {k = P} {x = u} {y = 1} (power_pos (suc k)) in
            omega (arith, e.0 (ground arith)) in
          let divisor : P / 10 ≡ power k = omega arith in
          let (n, le, run, small, large) = first_divisor-power fuel k u (omega arith) less in
          let step : first_divisor (suc fuel) u P ≡ first_divisor fuel u (power k) =
            rw (none_here, more, divisor, first_divisor) refl in
          (n, omega arith, step ∙ run, small, large)
      | inr here ↦
          let large : P ≤ u =
            let e = div-lt_iff_lt-mul {k = P} {x = u} {y = 1} (power_pos (suc k)) in
            elim (Bool-cases (ltb u P)) [
              | inl less ↦
                  let q : u / P < 1 = e.1 (ground arith) in absurd (ground (arith, q, here))
              | inr more ↦ ground arith
            ] in
          (suc k, omega arith, rw (here, first_divisor) refl, h, λ z. large)
    ]

-- `sputuint` ends and writes, with a zero byte behind them, the decimal digits of the number, with no
-- zero in front of a number of several digits; it returns how many they are, one to ten, and changes
-- no byte below its place, when the place has twelve bytes before the end of the memory.
pub sputuint-decimal :
    (m : Bytes) (str u : ℕ)
    → u < u32_mod
    → str + 12 < u32_mod
    → (n : ℕ) × (m' : Bytes) × (s : List ℕ) × (sputuint m str u ≡ some (n, m'))
      × IsString m' str s
      × Digits s
      × NoLeadingZero s
      × (decimal 0 s ≡ u)
      × (length s ≡ n)
      × (0 < n)
      × (n ≤ 10)
      × ((p : ℕ) → p < str → m' p ≡ m p)
unfolding sputuint
sputuint-decimal m str u h room =
    let (k, le, found, small, large) = first_divisor-power 10 9 u (omega arith) (omega arith) in
    let (n, m', run, w) = put_digits-IsWritten 10 k m str 0 u (omega arith) small (omega arith) in
    let all : sputuint m str u ≡ put_digits 10 m str 0 u (power k) = rw (found, sputuint) refl in
    (
      n,
      m',
      w.digits,
      all ∙ run,
      subst (λ a. IsString m' a w.digits) (omega arith) w.string,
      w.decimals,
      w.leading large,
      w.value 0 ∙ omega arith,
      omega (arith, w.count),
      omega (arith, w.count, w.size),
      omega (arith, w.count, w.size),
      λ p x. w.below p (omega arith),
    )
