-- ===== src/Strings/Spans.antt =====
-- strcspn and strspn of kernel/util/string.c count characters.
use dbos.Base.{
  ℕ, zero, suc, ◌+◌, ◌<◌, ◌≡◌, ◌≢◌, ap, ◌∙◌, not, some, List, [], ◌∷◌, arith, ◌==◌, ==_ne, length,
  Bool-cases, inl, inr,
}
use dbos.Base.Word.{u32_mod, add32}
use dbos.Strings.{Bytes}
use dbos.Strings.Spec.{IsString, first_at, member, span_without, span_within}
use dbos.Strings.Tokens.{strcspn_loop, strcspn, strspn_loop, strspn}
use dbos.Strings.Scan.{strchr-first}

-- `strchr` finds a character that is not the zero byte exactly among the characters.
pub first_at-member :
    (b x : ℕ) (t : List ℕ) → b ≢ 0 → x ≢ 0 → (first_at b t x == 0) ≡ not (member x t)
first_at-member b x [] hb hx = ground arith
first_at-member b x (y ∷ t) hb hx = elim (Bool-cases (y == x)) [
  | inl here ↦ rw (here) (==_ne b 0 hb)
  | inr there ↦ rw (there) (first_at-member (b + 1) x t (omega arith) hx)
]

strcspn_loop-span :
    (fuel : ℕ) (m : Bytes) (a b n : ℕ) (s t : List ℕ)
    → IsString m a s
    → IsString m b t
    → b ≢ 0
    → a + length s < u32_mod
    → b + length t < u32_mod
    → n + length s < u32_mod
    → length s + length t < fuel
    → strcspn_loop fuel m a b n ≡ some (n + span_without s t)
unfolding strcspn_loop
strcspn_loop-span zero m a b n s t v w hb ra rb rn h = absurd (omega arith)
strcspn_loop-span (suc f) m a b n [] t v w hb ra rb rn h =
    rw (v, strcspn_loop) (ap some (omega arith))
strcspn_loop-span (suc f) m a b n (x ∷ s) t v w hb ra rb rn h =
    let na : add32 a 1 ≡ a + 1 = omega arith in
    let nn : add32 n 1 ≡ n + 1 = omega arith in
    let found = strchr-first (suc f) m b x t w rb (omega arith) in
    let test = first_at-member b x t hb v.0 in
    elim (Bool-cases (member x t)) [
      | inl inside ↦
          rw (v.1, ==_ne x 0 v.0, strcspn_loop, v.1, found, test, inside) (ap some (omega arith))
      | inr outside ↦
          rw (v.1, ==_ne x 0 v.0, strcspn_loop, v.1, found, test, outside, na, nn)
            (strcspn_loop-span f m (a + 1) b (n + 1) s t v.2 w hb (omega arith) rb (omega arith)
                (omega arith)
              ∙ ap some (omega arith))
    ]

-- `strcspn` ends with the number of the characters in front of the first one that the second string
-- holds, when neither string runs over the end of the memory.
pub strcspn-span :
    (fuel : ℕ) (m : Bytes) (a b : ℕ) (s t : List ℕ)
    → IsString m a s
    → IsString m b t
    → b ≢ 0
    → a + length s < u32_mod
    → b + length t < u32_mod
    → length s + length t < fuel
    → strcspn fuel m a b ≡ some (span_without s t)
unfolding strcspn
strcspn-span fuel m a b s t v w hb ra rb h =
    strcspn_loop-span fuel m a b 0 s t v w hb ra rb (omega arith) h ∙ ap some (omega arith)

strspn_loop-span :
    (fuel : ℕ) (m : Bytes) (a b n : ℕ) (s t : List ℕ)
    → IsString m a s
    → IsString m b t
    → b ≢ 0
    → a + length s < u32_mod
    → b + length t < u32_mod
    → n + length s < u32_mod
    → length s + length t < fuel
    → strspn_loop fuel m a b n ≡ some (n + span_within s t)
unfolding strspn_loop
strspn_loop-span zero m a b n s t v w hb ra rb rn h = absurd (omega arith)
strspn_loop-span (suc f) m a b n [] t v w hb ra rb rn h =
    rw (v, strspn_loop) (ap some (omega arith))
strspn_loop-span (suc f) m a b n (x ∷ s) t v w hb ra rb rn h =
    let na : add32 a 1 ≡ a + 1 = omega arith in
    let nn : add32 n 1 ≡ n + 1 = omega arith in
    let found = strchr-first (suc f) m b x t w rb (omega arith) in
    let test = first_at-member b x t hb v.0 in
    elim (Bool-cases (member x t)) [
      | inr outside ↦
          rw (v.1, ==_ne x 0 v.0, strspn_loop, v.1, found, test, outside) (ap some (omega arith))
      | inl inside ↦
          rw (v.1, ==_ne x 0 v.0, strspn_loop, v.1, found, test, inside, na, nn)
            (strspn_loop-span f m (a + 1) b (n + 1) s t v.2 w hb (omega arith) rb (omega arith)
                (omega arith)
              ∙ ap some (omega arith))
    ]

-- `strspn` ends with the number of the characters in front of the first one that the second string
-- does not hold, when neither string runs over the end of the memory.
pub strspn-span :
    (fuel : ℕ) (m : Bytes) (a b : ℕ) (s t : List ℕ)
    → IsString m a s
    → IsString m b t
    → b ≢ 0
    → a + length s < u32_mod
    → b + length t < u32_mod
    → length s + length t < fuel
    → strspn fuel m a b ≡ some (span_within s t)
unfolding strspn
strspn-span fuel m a b s t v w hb ra rb h =
    strspn_loop-span fuel m a b 0 s t v w hb ra rb (omega arith) h ∙ ap some (omega arith)
