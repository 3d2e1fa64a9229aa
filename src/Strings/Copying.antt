-- ===== src/Strings/Copying.antt =====
-- What strcpy and strdup of kernel/util/string.c leave in the memory, and when strncmp is 0.
use dbos.Base.{
  ℕ, zero, suc, ◌+◌, ◌-◌, ◌*◌, ◌%◌, ◌^◌, ◌≤◌, ◌<◌, ◌≡◌, ◌≢◌, refl, sym, ap, ap₂, ◌∙◌, ◌⊎◌, ◌↔◌, inl,
  inr, some, true, false, List, [], ◌∷◌, arith, ltb, ==_ne, length, Bool-cases,
}
use dbos.Base.Word.{u32_mod, add32, slt32}
use dbos.Memory.{put, copy_up, copy_values, put_value}
use dbos.Memory.Loops.{put-other, Outside, Upwards}
use dbos.Memory.Move.{copy_up-IsCopy}
use dbos.Strings.{Bytes}
use dbos.Strings.Spec.{IsString, prefix}
use dbos.Strings.Copy.{strcpy_loop, strcpy, strdup, strncmp_loop, strncmp}
use dbos.Strings.Scan.{strlen-length}

IsString-put :
    (m : Bytes) (a b p : ℕ) (t : List ℕ)
    → IsString m p t
    → (a < p) ⊎ (p + length t < a)
    → IsString (put m a b) p t
IsString-put m a b p [] v o = let ne : p ≢ a = ground arith in rw (==_ne p a ne) v
IsString-put m a b p (x ∷ t) v o =
    let ne : p ≢ a = ground arith in
    (v.0, rw (==_ne p a ne) v.1, IsString-put m a b (p + 1) t v.2 (ground arith))

IsString-same :
    (m m' : Bytes) (dst src : ℕ) (t : List ℕ)
    → ((k : ℕ) → k < suc (length t) → m' (dst + k) ≡ m (src + k))
    → IsString m src t
    → IsString m' dst t
IsString-same m m' dst src [] same v =
    ap m' (omega arith) ∙ same 0 (omega arith) ∙ ap m (omega arith) ∙ v
IsString-same m m' dst src (x ∷ t) same v = (
  v.0,
  ap m' (omega arith) ∙ same 0 (omega arith) ∙ ap m (omega arith) ∙ v.1,
  IsString-same m m' (dst + 1) (src + 1) t
      (λ k h. ap m' (omega arith) ∙ same (suc k) (omega arith) ∙ ap m (omega arith)) v.2,
)

strcpy_loop-copy_up :
    (fuel : ℕ) (m : Bytes) (dst src i : ℕ) (t : List ℕ)
    → IsString m (src + i) t
    → Upwards dst src (i + suc (length t))
    → dst + i + suc (length t) < u32_mod
    → src + i + suc (length t) < u32_mod
    → length t < fuel
    → strcpy_loop fuel m dst src i ≡ some (copy_up (suc (length t)) m dst src i)
unfolding strcpy_loop copy_up
strcpy_loop-copy_up zero m dst src i t v o hd hs h = absurd (omega arith)
strcpy_loop-copy_up (suc fuel) m dst src i [] v o hd hs h =
    let here : m (add32 src i) ≡ 0 = ap m (omega arith) ∙ v in
    rw (here, strcpy_loop) (ap (λ c. some (put m (add32 dst i) c)) here)
strcpy_loop-copy_up (suc fuel) m dst src i (x ∷ t) v o hd hs h =
    let here : m (add32 src i) ≡ x = ap m (omega arith) ∙ v.1 in
    let next : add32 i 1 ≡ i + 1 = omega arith in
    let place : src + i + 1 ≡ src + (i + 1) = omega arith in
    let n = suc (length t) in
    let m' = put m (add32 dst i) (m (add32 src i)) in
    let rest = IsString-put m (add32 dst i) (m (add32 src i)) (src + i + 1) t v.2 (ground arith) in
    rw (here, ==_ne x 0 v.0, next, strcpy_loop)
      (strcpy_loop-copy_up fuel m' dst src (i + 1) t (rw (← place) rest) (ground arith)
          (omega arith) (omega arith) (omega arith)
        ∙ ap (λ j. some (copy_up n m' dst src j)) (sym next))

-- `strcpy` ends, the string then stands at the destination, and no byte behind its zero byte or below
-- the destination changes, when the destination does not stand above a part of the string and neither
-- reaches the end of the memory.
pub strcpy-copies :
    (fuel : ℕ) (m : Bytes) (dst src : ℕ) (t : List ℕ)
    → IsString m src t
    → Upwards dst src (suc (length t))
    → dst + suc (length t) < u32_mod
    → src + suc (length t) < u32_mod
    → length t < fuel
    → (m' : Bytes) × (strcpy fuel m dst src ≡ some m')
      × IsString m' dst t
      × ((p : ℕ) → Outside dst (suc (length t)) p → m' p ≡ m p)
unfolding strcpy
strcpy-copies fuel m dst src t v o hd hs h =
    let n = suc (length t) in
    let place : src + 0 ≡ src = omega arith in
    let here : IsString m (src + 0) t = rw place v in
    let copy = copy_up-IsCopy m dst src n o (omega arith) (omega arith) (omega arith) in
    (
      copy_up n m dst src 0,
      strcpy_loop-copy_up fuel m dst src 0 t here (ground arith) (omega arith) (omega arith) h,
      IsString-same m (copy_up n m dst src 0) dst src t copy.0 v,
      copy.1,
    )

copy_values-copy_up :
    (left : ℕ) (m : Bytes) (dst src i : ℕ)
    → copy_values 1 left m dst src i ≡ copy_up left m dst src i
unfolding copy_values copy_up put_value
copy_values-copy_up zero m dst src i = refl
copy_values-copy_up (suc left) m dst src i =
    let a : add32 ((dst + 1 * i) % u32_mod) 0 ≡ add32 dst i = omega arith in
    let b : add32 ((src + 1 * i) % u32_mod) 0 ≡ add32 src i = omega arith in
    rw (a, b) (copy_values-copy_up left (put m (add32 dst i) (m (add32 src i))) dst src (add32 i 1))

-- `strdup` ends with the string at the new place, but it also stores a zero in the byte behind the
-- block that it asked for, which has the length of the string and one bytes; no other byte changes.
-- The new block does not overlap the string, and neither reaches the end of the memory.
pub strdup-copies :
    (fuel : ℕ) (m : Bytes) (tmp src : ℕ) (t : List ℕ)
    → IsString m src t
    → (tmp + suc (length t) < src) ⊎ (src + suc (length t) ≤ tmp)
    → tmp + suc (length t) < u32_mod
    → src + suc (length t) < u32_mod
    → length t < fuel
    → (m' : Bytes) × (strdup fuel m tmp src ≡ some (tmp, m'))
      × IsString m' tmp t
      × (m' (tmp + suc (length t)) ≡ 0)
      × ((p : ℕ) → Outside tmp (suc (suc (length t))) p → m' p ≡ m p)
unfolding strdup
strdup-copies fuel m tmp src t v o hd hs h =
    let n = suc (length t) in
    let len : add32 (length t) 1 ≡ n = omega arith in
    let last : add32 tmp n ≡ tmp + n = omega arith in
    let m₁ = copy_up n m tmp src 0 in
    let up : Upwards tmp src n = ground arith in
    let copy = copy_up-IsCopy m tmp src n up (omega arith) (omega arith) (omega arith) in
    let there = IsString-same m m₁ tmp src t copy.0 v in
    (
      put m₁ (tmp + n) 0,
      rw
          (
            strlen-length fuel m src t v (omega arith) h,
            len,
            copy_values-copy_up n m tmp src 0,
            last,
            strdup,
          )
          refl,
      IsString-put m₁ (tmp + n) 0 tmp t there (inr (omega arith)),
      ground arith,
      λ p x. put-other m₁ (tmp + n) 0 p (ground arith) ∙ copy.1 p (ground arith),
    )

-- The prefixes differ where the first characters do.
prefix_head : (n x y : ℕ) (s t : List ℕ) → prefix (suc n) (x ∷ s) ≡ prefix (suc n) (y ∷ t) → x ≡ y
prefix_head n x y s t e = grind (arith, e)

prefix_tail :
    (n x y : ℕ) (s t : List ℕ)
    → prefix (suc n) (x ∷ s) ≡ prefix (suc n) (y ∷ t)
    → prefix n s ≡ prefix n t
prefix_tail n x y s t e = grind (arith, e)

strncmp_loop-prefix :
    (n : ℕ) (m : Bytes) (a b : ℕ) (s t : List ℕ)
    → IsString m a s
    → IsString m b t
    → a + length s < u32_mod
    → b + length t < u32_mod
    → (strncmp_loop n m a b ≡ 0) ↔ (prefix n s ≡ prefix n t)
unfolding strncmp_loop
strncmp_loop-prefix zero m a b s t v w ra rb = (λ e. refl, λ e. refl)
strncmp_loop-prefix (suc n) m a b [] [] v w ra rb = (λ e. refl, λ e. rw (v, w, strncmp_loop) refl)
strncmp_loop-prefix (suc n) m a b [] (y ∷ t) v w ra rb =
    let less : ltb 0 y ≡ true = ground (arith, w.0) in
    let run : strncmp_loop (suc n) m a b ≡ u32_mod - 1 = rw (v, w.1, less, strncmp_loop) refl in
    (λ e. absurd (omega arith), λ e. absurd (grind (arith, e)))
strncmp_loop-prefix (suc n) m a b (x ∷ s) [] v w ra rb =
    let more : ltb 0 x ≡ true = ground (arith, v.0) in
    let not_less : ltb x 0 ≡ false = ground arith in
    let run : strncmp_loop (suc n) m a b ≡ 1 = rw (v.1, w, not_less, more, strncmp_loop) refl in
    (λ e. absurd (omega arith), λ e. absurd (grind (arith, e)))
strncmp_loop-prefix (suc n) m a b (x ∷ s) (y ∷ t) v w ra rb = elim (Bool-cases (ltb x y)) [
  | inl less ↦
      let run : strncmp_loop (suc n) m a b ≡ u32_mod - 1 = rw (v.1, w.1, less, strncmp_loop) refl in
      (λ e. absurd (omega arith), λ e. absurd (ground (arith, prefix_head n x y s t e)))
  | inr not_less ↦ elim (Bool-cases (ltb y x)) [
    | inl more ↦
        let run : strncmp_loop (suc n) m a b ≡ 1 =
          rw (v.1, w.1, not_less, more, strncmp_loop) refl in
        (λ e. absurd (omega arith), λ e. absurd (ground (arith, prefix_head n x y s t e)))
    | inr not_more ↦
        let na : add32 a 1 ≡ a + 1 = omega arith in
        let nb : add32 b 1 ≡ b + 1 = omega arith in
        let same : x ≡ y = ground arith in
        let run : strncmp_loop (suc n) m a b ≡ strncmp_loop n m (a + 1) (b + 1) =
          rw (v.1, w.1, not_less, not_more, ==_ne x 0 v.0, na, nb, strncmp_loop) refl in
        let ih = strncmp_loop-prefix n m (a + 1) (b + 1) s t v.2 w.2 (omega arith) (omega arith) in
        (
          λ e. ap₂ (λ c u. c ∷ u) same (ih.0 (sym run ∙ e)),
          λ e. run ∙ ih.1 (prefix_tail n x y s t e),
        )
  ]
]

-- `strncmp` of two strings is 0 exactly when they have the same first `length` characters, where the
-- length is not negative and the strings do not run over the end of the memory.
pub strncmp-prefix :
    (m : Bytes) (a b n : ℕ) (s t : List ℕ)
    → IsString m a s
    → IsString m b t
    → a + length s < u32_mod
    → b + length t < u32_mod
    → n < 2 ^ 31
    → (strncmp m a b n ≡ 0) ↔ (prefix n s ≡ prefix n t)
unfolding strncmp
strncmp-prefix m a b n s t v w ra rb h =
    let whole : slt32 n 0 ≡ false = ground arith in
    rw (whole, strncmp) (strncmp_loop-prefix n m a b s t v w ra rb)
