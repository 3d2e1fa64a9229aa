-- ===== src/Memory/Single.antt =====
-- memcpy_8 and memset_8 of kernel/util/kstdio.c, byte by byte.
use dbos.Base.{
  ℕ, zero, suc, ◌+◌, ◌-◌, ◌*◌, ◌%◌, ◌≤◌, ◌<◌, ◌≡◌, ◌⊎◌, inl, inr, refl, ap, ◌∙◌, Bool, true, false,
  ◌&&◌, arith, ◌==◌, ==_refl, ==_ne, leb, ltb, if◌then◌else◌, Bool-cases,
}
use native.Mathlib.Nat.{add-zero}
use dbos.Base.Word.{u32_mod, add32}
use dbos.Memory.{put, put_value, copy_values, fill_values, memcpy_8, memset_8}
use dbos.Strings.{Bytes}

copy_values_step :
    (left : ℕ) (m : Bytes) (dest src i : ℕ)
    → dest + i < u32_mod
    → src + i < u32_mod
    → i + 1 < u32_mod
    → copy_values 1 (suc left) m dest src i
      ≡ copy_values 1 left (put m (dest + i) (m (src + i))) dest src (i + 1)
unfolding copy_values put_value
copy_values_step left m dest src i d s r =
    let to : add32 ((dest + 1 * i) % u32_mod) 0 ≡ dest + i = omega arith in
    let from : add32 ((src + 1 * i) % u32_mod) 0 ≡ src + i = omega arith in
    let next : add32 i 1 ≡ i + 1 = omega arith in rw (to, from, next)

-- Whether `p` is one of the `left` addresses from `a` on.
abbrev pub in_range : ℕ → ℕ → ℕ → Bool
in_range a left p = leb a p && ltb p (a + left)

pub in_range-bounds : (a left p : ℕ) → in_range a left p ≡ true → (a ≤ p) × (p < a + left)
in_range-bounds a left p h = ground arith

-- A range without its first address.
pub range_step :
    {A : Type 0} (a left p : ℕ) (x y z : A)
    → (p ≡ a → y ≡ x)
    → ((p == a) ≡ false → in_range (a + 1) left p ≡ true → z ≡ x)
    → (w : A) → ((p == a) ≡ false → in_range (a + 1) left p ≡ false → y ≡ w)
    → (if in_range (a + 1) left p then z else y) ≡ (if in_range a (suc left) p then x else w)
range_step a left p x y z first inside w outside = elim (Bool-cases (p == a)) [
  | inl here ↦
      let gone : in_range (a + 1) left p ≡ false = ground arith in
      let there : in_range a (suc left) p ≡ true = ground arith in
      rw (gone, there) (first (ground arith))
  | inr other ↦
      let same_range : in_range a (suc left) p ≡ in_range (a + 1) left p = ground arith in
      elim (Bool-cases (in_range (a + 1) left p)) [
        | inl within ↦ rw (same_range, within) (inside other within)
        | inr without ↦ rw (same_range, without) (outside other without)
      ]
]

-- The bytes between `dest + i` and `dest + i + left` come from the source, which lies apart.
copy_values_lem :
    (left : ℕ) (m : Bytes) (dest src i p : ℕ)
    → dest + i + left ≤ u32_mod
    → src + i + left ≤ u32_mod
    → i + left < u32_mod
    → ((dest + i + left ≤ src) ⊎ (src + i + left ≤ dest))
    → copy_values 1 left m dest src i p
      ≡ (if in_range (dest + i) left p then m (src + (p - dest)) else m p)
unfolding copy_values
copy_values_lem zero m dest src i p d s r apart = ground arith
copy_values_lem (suc left) m dest src i p d s r apart =
    let m' = put m (dest + i) (m (src + i)) in
    ap (λ (f : Bytes). f p)
      (copy_values_step left m dest src i (omega arith) (omega arith) (omega arith))
    ∙ copy_values_lem left m' dest src (i + 1) p (omega arith) (omega arith) (omega arith)
        (omega arith)
    ∙ ap (λ a. if in_range a left p then m' (src + (p - dest)) else m' p) (omega arith)
    ∙ range_step (dest + i) left p (m (src + (p - dest))) (m' p) (m' (src + (p - dest)))
        (λ e. rw (e, ==_refl (dest + i)) (ap m (omega arith)))
        (λ other within.
          let (le, lt) = in_range-bounds (dest + i + 1) left p within in
          rw (==_ne (src + (p - dest)) (dest + i) (omega arith)))
        (m p) (λ other without. rw other)

-- The bytes between `dest + i` and `dest + i + left` become 0.
fill_values_lem :
    (left : ℕ) (m : Bytes) (dest i p : ℕ)
    → dest + i + left ≤ u32_mod
    → i + left < u32_mod
    → fill_values 1 left m dest 0 i p ≡ (if in_range (dest + i) left p then 0 else m p)
unfolding fill_values put_value
fill_values_lem zero m dest i p d r = ground arith
fill_values_lem (suc left) m dest i p d r =
    let m' = put m (dest + i) 0 in
    let to : add32 ((dest + 1 * i) % u32_mod) 0 ≡ dest + i = omega arith in
    let next : add32 i 1 ≡ i + 1 = omega arith in
    rw (to, next)
      (fill_values_lem left m' dest (i + 1) p (omega arith) (omega arith)
        ∙ ap (λ a. if in_range a left p then 0 else m' p) (omega arith)
        ∙ range_step (dest + i) left p 0 (m' p) 0 (λ e. rw (e, ==_refl (dest + i)))
            (λ other within. refl) (m p) (λ other without. rw other))

-- `memcpy_8` to a place apart from the source, neither over the end of the memory.
pub memcpy_8-at :
    (m : Bytes) (dest src len p : ℕ)
    → dest + len ≤ u32_mod
    → src + len ≤ u32_mod
    → len < u32_mod
    → ((dest + len ≤ src) ⊎ (src + len ≤ dest))
    → memcpy_8 m dest src len p ≡ (if in_range dest len p then m (src + (p - dest)) else m p)
memcpy_8-at m dest src len p d s r apart =
    copy_values_lem len m dest src 0 p (omega arith) (omega arith) (omega arith) (omega arith)
    ∙ ap (λ a. if in_range a len p then m (src + (p - dest)) else m p) (add-zero dest)

-- `memset_8` with 0 that does not run over the end of the memory.
pub memset_8-at :
    (m : Bytes) (dest len p : ℕ)
    → dest + len ≤ u32_mod
    → len < u32_mod
    → memset_8 m dest 0 len p ≡ (if in_range dest len p then 0 else m p)
memset_8-at m dest len p d r =
    fill_values_lem len m dest 0 p (omega arith) (omega arith)
    ∙ ap (λ a. if in_range a len p then 0 else m p) (add-zero dest)
