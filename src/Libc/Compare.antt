-- ===== src/Libc/Compare.antt =====
-- What strcmp and strncmp of the C library say about two strings.
use dbos.Base.{
  ℕ, zero, suc, ◌+◌, ◌%◌, ◌<◌, ◌≡◌, ◌≢◌, refl, sym, ap₂, ◌∙◌, ◌⊎◌, inl, inr, some, false, List, [],
  ◌∷◌, ◌++◌, arith, ltb, ◌==◌, ==_ne, ==_iff, length, Bool-cases,
}
use dbos.Base.Word.{u32_mod, add32, sub32}
use dbos.Strings.{Bytes}
use dbos.Strings.Spec.{IsString}
use dbos.Libc.{strcmp, strncmp}

-- `strncmp` is 0 for a string and any longer one that begins with it, whatever the number of
-- characters to compare, as long as neither runs over the end of the memory.
pub strncmp-extension :
    (n : ℕ) (m : Bytes) (a b : ℕ) (s u : List ℕ)
    → IsString m a s
    → IsString m b (s ++ u)
    → a + length s < u32_mod
    → b + length (s ++ u) < u32_mod
    → strncmp m a b n ≡ 0
unfolding strncmp
strncmp-extension zero m a b s u v w ra rb = refl
strncmp-extension (suc n) m a b [] u v w ra rb = rw (v, strncmp) refl
strncmp-extension (suc n) m a b (x ∷ s) u v w ra rb =
    let na : add32 a 1 ≡ a + 1 = omega arith in
    let nb : add32 b 1 ≡ b + 1 = omega arith in
    let same : ltb ((x + 128) % 256) ((x + 128) % 256) ≡ false = ground arith in
    rw (v.1, w.1, ==_ne x 0 v.0, same, na, nb, strncmp)
      (strncmp-extension n m (a + 1) (b + 1) s u v.2 w.2 (omega arith) (omega arith))

-- The characters are bytes.
abbrev pub AreBytes : List ℕ → Type 0
AreBytes [] = Unit {0}
AreBytes (x ∷ s) = (x < 256) × AreBytes s

-- `strcmp` of two strings ends, with 0 exactly when they are the same characters, as long as neither
-- runs over the end of the memory.
pub strcmp-same :
    (fuel : ℕ) (m : Bytes) (a b : ℕ) (s t : List ℕ)
    → IsString m a s
    → IsString m b t
    → AreBytes s
    → AreBytes t
    → a + length s < u32_mod
    → b + length t < u32_mod
    → length s < fuel
    → ((s ≡ t) × (strcmp fuel m a b ≡ some 0))
      ⊎ ((s ≢ t) × ((r : ℕ) × (r ≢ 0) × (strcmp fuel m a b ≡ some r)))
unfolding strcmp
strcmp-same zero m a b s t v w bs bt ra rb h = absurd (omega arith)
strcmp-same (suc f) m a b [] [] v w bs bt ra rb h = inl (refl, rw (v, w, v, strcmp) refl)
strcmp-same (suc f) m a b [] (y ∷ t) v w bs bt ra rb h = inr (
  grind arith,
  (sub32 0 y, grind arith, rw (v, w.1, ==_ne 0 y (λ e. w.0 (sym e)), strcmp, v, w.1) refl),
)
strcmp-same (suc f) m a b (x ∷ s) [] v w bs bt ra rb h =
    inr (grind arith, (sub32 x 0, grind arith, rw (v.1, w, ==_ne x 0 v.0, strcmp, v.1, w) refl))
strcmp-same (suc f) m a b (x ∷ s) (y ∷ t) v w bs bt ra rb h =
    let na : add32 a 1 ≡ a + 1 = omega arith in
    let nb : add32 b 1 ≡ b + 1 = omega arith in
    elim (Bool-cases (x == y)) [
      | inl same ↦
          let xy : x ≡ y = (==_iff x y).0 same in
          let step : strcmp (suc f) m a b ≡ strcmp f m (a + 1) (b + 1) =
            rw (v.1, w.1, same, v.1, ==_ne x 0 v.0, na, nb, strcmp) refl in
          elim (strcmp-same f m (a + 1) (b + 1) s t v.2 w.2 bs.1 bt.1 (omega arith) (omega arith)
            (omega arith)) [
              | inl (e, run) ↦ inl (ap₂ (λ c k. c ∷ k) xy e, step ∙ run)
              | inr (ne, (r, pos, run)) ↦ inr (grind arith, (r, pos, step ∙ run))
            ]
      | inr other ↦
          let xy : x ≢ y = ground arith in
          inr (grind arith, (sub32 x y, grind arith, rw (v.1, w.1, other, strcmp, v.1, w.1) refl))
    ]
