-- ===== src/Memory/Compare.antt =====
-- `memcmp` decides whether two ranges of memory hold the same bytes.
use dbos.Base.{
  ℕ, zero, suc, ◌+◌, ◌<◌, ◌≡◌, ◌≢◌, ◌↔◌, inl, inr, ap, ◌∙◌, arith, ◌==◌, Bool-cases, refl, sym,
  ==_iff,
}
use dbos.Base.Word.{u32_mod, add32, sub32}
use dbos.Strings.{Bytes}
use dbos.Memory.{memcmp}

-- The `n` bytes from `a` and from `b` on are the same.
abbrev pub SameBytes : Bytes → ℕ → ℕ → ℕ → Type 0
SameBytes m a b n = (k : ℕ) → k < n → m (a + k) ≡ m (b + k)

same_cons :
    (m : Bytes) (a b n : ℕ) → m a ≡ m b → SameBytes m (a + 1) (b + 1) n → SameBytes m a b (suc n)
same_cons m a b n e es zero h = ap m (omega arith) ∙ e ∙ ap m (omega arith)
same_cons m a b n e es (suc k) h = ap m (omega arith) ∙ es k (omega arith) ∙ ap m (omega arith)

same_tail : (m : Bytes) (a b n : ℕ) → SameBytes m a b (suc n) → SameBytes m (a + 1) (b + 1) n
same_tail m a b n e k h = ap m (omega arith) ∙ e (suc k) (omega arith) ∙ ap m (omega arith)

same_head : (m : Bytes) (a b n : ℕ) → SameBytes m a b (suc n) → m a ≡ m b
same_head m a b n e = ap m (omega arith) ∙ e 0 (omega arith) ∙ ap m (omega arith)

-- `memcmp` is 0 exactly when the two ranges hold the same bytes, where neither reaches the end of
-- the memory and the memory holds bytes.
pub memcmp-SameBytes :
    (m : Bytes) (a b n : ℕ)
    → ((p : ℕ) → m p < 256)
    → a + n < u32_mod
    → b + n < u32_mod
    → (memcmp m a b n ≡ 0) ↔ SameBytes m a b n
unfolding memcmp
memcmp-SameBytes m a b zero bytes ha hb = (λ e k h. absurd (omega arith), λ e. refl)
memcmp-SameBytes m a b (suc n) bytes ha hb = elim (Bool-cases (m a == m b)) [
  | inl same ↦
      let ih = memcmp-SameBytes m (a + 1) (b + 1) n bytes (omega arith) (omega arith) in
      let na : add32 a 1 ≡ a + 1 = omega arith in
      let nb : add32 b 1 ≡ b + 1 = omega arith in
      (
        λ e.
            same_cons m a b n ((==_iff (m a) (m b)).0 same)
              (ih.0 (sym (rw (same, na, nb, memcmp) refl) ∙ e)),
        λ e. rw (same, na, nb, memcmp) (ih.1 (same_tail m a b n e)),
      )
  | inr other ↦
      let differ : sub32 (m a) (m b) ≢ 0 = grind (arith, bytes a, bytes b) in
      (
        λ e. absurd (differ (sym (rw (other, memcmp) refl) ∙ e)),
        λ e. absurd (grind (arith, same_head m a b n e)),
      )
]
