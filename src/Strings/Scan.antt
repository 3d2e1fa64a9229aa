-- ===== src/Strings/Scan.antt =====
-- Theorems on the string functions of kernel/util/string.c.
use dbos.Base.{
  ℕ, zero, suc, ◌+◌, ◌-◌, ◌*◌, ◌%◌, ◌^◌, ◌≤◌, ◌<◌, ◌≡◌, refl, sym, ◌∙◌, ap, ◌≢◌, ◌⊎◌, inl, inr,
  true, false, some, List, [], ◌∷◌, arith, ◌==◌, ==_ne, ==_iff, if◌then◌else◌, length, Bool-cases,
}
use dbos.Base.Word.{u32_mod, add32}
use dbos.Strings.{
  Bytes, strlen_loop, strlen, strcmp, strchr, strrchr_loop, strrchr, is_digit, atoi_loop, atoi,
}
use dbos.Strings.Spec.{IsString, first_at, last_at, Digits, decimal}

add32-small : (a b : ℕ) → a + b < u32_mod → add32 a b ≡ a + b
add32-small a b h = omega arith

pub strlen_loop-length :
    (fuel : ℕ) (m : Bytes) (a i : ℕ) (s : List ℕ)
    → IsString m (a + i) s
    → a + i + length s < u32_mod
    → length s < fuel
    → strlen_loop fuel m a i ≡ some (i + length s)
unfolding strlen_loop
strlen_loop-length zero m a i s v room h = absurd (omega arith)
strlen_loop-length (suc f) m a i [] v room h =
    let here : m (add32 a i) ≡ 0 = rw (add32-small a i (omega arith)) v in
    rw (here, strlen_loop) (ap some (omega arith))
strlen_loop-length (suc f) m a i (x ∷ s) v room h =
    let here : m (add32 a i) ≡ x = rw (add32-small a i (omega arith)) v.1 in
    let next : add32 i 1 ≡ i + 1 = add32-small i 1 (omega arith) in
    let place : a + 1 + i ≡ a + (i + 1) = omega arith in
    let place' : a + i + 1 ≡ a + (i + 1) = omega arith in
    rw (here, ==_ne x 0 v.0, next, strlen_loop)
      (strlen_loop-length f m a (i + 1) s (rw (← place') v.2) (omega arith) (omega arith)
        ∙ ap some (omega arith))

-- `strlen` ends at the zero byte and returns the number of the characters.
pub strlen-length :
    (fuel : ℕ) (m : Bytes) (a : ℕ) (s : List ℕ)
    → IsString m a s
    → a + length s < u32_mod
    → length s < fuel
    → strlen fuel m a ≡ some (length s)
unfolding strlen
strlen-length fuel m a s v room h =
    let here : a + 0 ≡ a = omega arith in
    strlen_loop-length fuel m a 0 s (rw here v) (omega arith) h ∙ ap some (omega arith)

-- `strcmp` of two strings ends with 0 when they are the same characters, and with 1 when not.
pub strcmp-equal :
    (fuel : ℕ) (m : Bytes) (a b : ℕ) (s t : List ℕ)
    → IsString m a s
    → IsString m b t
    → a + length s < u32_mod
    → b + length t < u32_mod
    → length s < fuel
    → ((s ≡ t) × (strcmp fuel m a b ≡ some 0)) ⊎ ((s ≢ t) × (strcmp fuel m a b ≡ some 1))
unfolding strcmp
strcmp-equal zero m a b s t v w ra rb h = absurd (omega arith)
strcmp-equal (suc f) m a b [] [] v w ra rb h = inl (refl, rw (v, w, strcmp) refl)
strcmp-equal (suc f) m a b [] (y ∷ t) v w ra rb h =
    inr (grind arith, rw (v, w.1, ==_ne y 0 w.0, v, w.1, ==_ne 0 y (λ e. w.0 (sym e)), strcmp) refl)
strcmp-equal (suc f) m a b (x ∷ s) [] v w ra rb h =
    inr (grind arith, rw (v.1, ==_ne x 0 v.0, v.1, w, ==_ne x 0 v.0, strcmp) refl)
strcmp-equal (suc f) m a b (x ∷ s) (y ∷ t) v w ra rb h =
    let na : add32 a 1 ≡ a + 1 = add32-small a 1 (omega arith) in
    let nb : add32 b 1 ≡ b + 1 = add32-small b 1 (omega arith) in
    elim (Bool-cases (x == y)) [
      | inl same ↦
          elim (strcmp-equal f m (a + 1) (b + 1) s t v.2 w.2 (omega arith) (omega arith)
            (omega arith)) [
              | inl (e, run) ↦
                  let xy : x ≡ y = (==_iff x y).0 same in
                  inl (grind arith, rw (v.1, ==_ne x 0 v.0, v.1, w.1, same, na, nb, strcmp) run)
              | inr (ne, run) ↦
                  inr (grind arith, rw (v.1, ==_ne x 0 v.0, v.1, w.1, same, na, nb, strcmp) run)
            ]
      | inr other ↦
          let xy : x ≢ y = ground arith in
          inr (grind arith, rw (v.1, ==_ne x 0 v.0, v.1, w.1, other, strcmp) refl)
    ]

-- `strchr` ends with the address of the first place that holds the character, or with NULL where
-- neither a character nor the zero byte is it.
pub strchr-first :
    (fuel : ℕ) (m : Bytes) (a character : ℕ) (s : List ℕ)
    → IsString m a s
    → a + length s < u32_mod
    → length s < fuel
    → strchr fuel m a character ≡ some (first_at a s character)
unfolding strchr
strchr-first zero m a k s v room h = absurd (omega arith)
strchr-first (suc f) m a k [] v room h = elim (Bool-cases (0 == k)) [
  | inl hit ↦ rw (v, hit, strchr) refl
  | inr miss ↦ rw (v, miss, v, strchr) refl
]
strchr-first (suc f) m a k (x ∷ s) v room h =
    let next : add32 a 1 ≡ a + 1 = add32-small a 1 (omega arith) in
    elim (Bool-cases (x == k)) [
      | inl hit ↦ rw (v.1, hit, strchr) refl
      | inr miss ↦
          rw (v.1, miss, v.1, ==_ne x 0 v.0, next, strchr)
            (strchr-first f m (a + 1) k s v.2 (omega arith) (omega arith))
    ]

strrchr_loop-last :
    (fuel : ℕ) (m : Bytes) (a character ret : ℕ) (s : List ℕ)
    → IsString m a s
    → a + length s < u32_mod
    → length s < fuel
    → strrchr_loop fuel m a character ret ≡ some (last_at a s character ret)
unfolding strrchr_loop
strrchr_loop-last zero m a k ret s v room h = absurd (omega arith)
strrchr_loop-last (suc f) m a k ret [] v room h = rw (v, v, strrchr_loop) refl
strrchr_loop-last (suc f) m a k ret (x ∷ s) v room h =
    let next : add32 a 1 ≡ a + 1 = add32-small a 1 (omega arith) in
    rw (v.1, ==_ne x 0 v.0, next, v.1, strrchr_loop)
      (strrchr_loop-last f m (a + 1) k (if x == k then a else ret) s v.2 (omega arith)
        (omega arith))

-- `strrchr` ends with the address of the last place that holds the character, or with NULL.
pub strrchr-last :
    (fuel : ℕ) (m : Bytes) (a character : ℕ) (s : List ℕ)
    → IsString m a s
    → a + length s < u32_mod
    → length s < fuel
    → strrchr fuel m a character ≡ some (last_at a s character 0)
unfolding strrchr
strrchr-last fuel m a k s v room h = strrchr_loop-last fuel m a k 0 s v room h

pub decimal-ge : (acc : ℕ) (s : List ℕ) → acc ≤ decimal acc s
decimal-ge acc [] = omega arith
decimal-ge acc (x ∷ s) = let more = decimal-ge (acc * 10 + (x - 48)) s in omega arith

atoi_loop-decimal :
    (fuel : ℕ) (m : Bytes) (a acc : ℕ) (s : List ℕ)
    → IsString m a s
    → Digits s
    → a + length s < u32_mod
    → length s < fuel
    → decimal acc s < u32_mod
    → atoi_loop fuel m a acc ≡ some (decimal acc s)
unfolding atoi_loop
atoi_loop-decimal zero m a acc s v d room h small = absurd (omega arith)
atoi_loop-decimal (suc f) m a acc [] v d room h small = rw (v, atoi_loop) refl
atoi_loop-decimal (suc f) m a acc (x ∷ s) v d room h small =
    let next : add32 a 1 ≡ a + 1 = add32-small a 1 (omega arith) in
    let digit : is_digit x ≡ true = ground arith in
    let below = decimal-ge (acc * 10 + (x - 48)) s in
    let acc' : add32 (acc * 10 % u32_mod) (x - 48) ≡ acc * 10 + (x - 48) =
      omega (arith, below, small) in
    rw (v.1, digit, next, v.1, acc', atoi_loop)
      (atoi_loop-decimal f m (a + 1) (acc * 10 + (x - 48)) s v.2 d.2 (omega arith) (omega arith)
        small)

pub not_minus : (m : Bytes) (a : ℕ) (s : List ℕ) → IsString m a s → Digits s → (m a == 45) ≡ false
not_minus m a [] v d = rw v refl
not_minus m a (x ∷ s) v d = rw v.1 (==_ne x 45 (omega (arith, d.0)))

-- `atoi` of decimal digits that write a number below 2 ^ 31 is that number.
pub atoi-decimal :
    (fuel : ℕ) (m : Bytes) (a : ℕ) (s : List ℕ)
    → IsString m a s
    → Digits s
    → a + length s < u32_mod
    → length s < fuel
    → decimal 0 s < 2 ^ 31
    → atoi fuel m a ≡ some (decimal 0 s)
unfolding atoi
atoi-decimal fuel m a s v d room h small =
    rw (not_minus m a s v d, atoi) (atoi_loop-decimal fuel m a 0 s v d room h (omega arith))

-- `atoi` of a minus sign and decimal digits that write a number below 2 ^ 31 is its negative, as the
-- bit pattern of an `int`.
pub atoi_minus :
    (fuel : ℕ) (m : Bytes) (a : ℕ) (s : List ℕ)
    → IsString m a (45 ∷ s)
    → Digits s
    → a + length s + 1 < u32_mod
    → length s < fuel
    → decimal 0 s < 2 ^ 31
    → atoi fuel m a ≡ some ((u32_mod - decimal 0 s) % u32_mod)
unfolding atoi
atoi_minus fuel m a s v d room h small =
    let next : add32 a 1 ≡ a + 1 = add32-small a 1 (omega arith) in
    let run = atoi_loop-decimal fuel m (a + 1) 0 s v.2 d (omega arith) h (omega arith) in
    rw (v.1, next, run, atoi) (ap some (omega arith))
