-- ===== src/Memory/Loops.antt =====
-- What the loops of the byte functions leave, byte for byte.
use dbos.Base.{
  ℕ, zero, suc, ◌+◌, ◌-◌, ◌*◌, ◌%◌, ◌≤◌, ◌<◌, ◌≡◌, ◌⊎◌, inl, inr, ◌≢◌, ap, ◌∙◌, arith, ltb, ◌==◌,
  Bool-cases, refl, ==_ne, ==_iff,
}
use dbos.Base.Word.{u32_mod, add32}
use dbos.Strings.{Bytes}
use dbos.Memory.{put, put_value, copy_up, copy_down, copy_longs, fill}

-- The address `p` is none of the `len` bytes from `a` on.
abbrev pub Outside : ℕ → ℕ → ℕ → Type 0
Outside a len p = (p < a) ⊎ (a + len ≤ p)

-- Copying upwards is right when the target does not stand above a part of the source.
abbrev pub Upwards : ℕ → ℕ → ℕ → Type 0
Upwards dst src len = (dst ≤ src) ⊎ (src + len ≤ dst)

pub put-other : (m : Bytes) (a b p : ℕ) → p ≢ a → put m a b p ≡ m p
put-other m a b p h = rw (==_ne p a h) refl

pub put_here : (m : Bytes) (a b p : ℕ) → p ≡ a → put m a b p ≡ b
put_here m a b p h = rw ((==_iff p a).1 h) refl

pub copy_up-Outside :
    (left : ℕ) (m : Bytes) (dst src i p : ℕ)
    → i + left < u32_mod
    → dst + i + left ≤ u32_mod
    → Outside (dst + i) left p
    → copy_up left m dst src i p ≡ m p
unfolding copy_up
copy_up-Outside zero m dst src i p r hd o = refl
copy_up-Outside (suc left) m dst src i p r hd o =
    let next : add32 i 1 ≡ i + 1 = omega arith in
    rw (next) (
      copy_up-Outside left (put m (add32 dst i) (m (add32 src i))) dst src (i + 1) p (omega arith)
        (omega arith) (ground arith)
      ∙ put-other m (add32 dst i) (m (add32 src i)) p (ground arith))

pub copy_up-inside :
    (left : ℕ) (m : Bytes) (dst src i k : ℕ)
    → Upwards dst src (i + left)
    → i + left < u32_mod
    → dst + i + left ≤ u32_mod
    → src + i + left ≤ u32_mod
    → k < left
    → copy_up left m dst src i (dst + i + k) ≡ m (src + i + k)
unfolding copy_up
copy_up-inside zero m dst src i k o r hd hs h = absurd (omega arith)
copy_up-inside (suc left) m dst src i zero o r hd hs h =
    let next : add32 i 1 ≡ i + 1 = omega arith in
    rw (next) (
      copy_up-Outside left (put m (add32 dst i) (m (add32 src i))) dst src (i + 1) (dst + i + 0)
        (omega arith) (omega arith) (inl (omega arith))
      ∙ put_here m (add32 dst i) (m (add32 src i)) (dst + i + 0) (omega arith)
      ∙ ap m (omega arith))
copy_up-inside (suc left) m dst src i (suc k) o r hd hs h =
    let next : add32 i 1 ≡ i + 1 = omega arith in
    let place : dst + i + suc k ≡ dst + (i + 1) + k = omega arith in
    rw (next, place)
      (copy_up-inside left (put m (add32 dst i) (m (add32 src i))) dst src (i + 1) k (ground arith)
          (omega arith) (omega arith) (omega arith) (omega arith)
        ∙ put-other m (add32 dst i) (m (add32 src i)) (src + (i + 1) + k) (ground arith)
        ∙ ap m (omega arith))

pub copy_down-Outside :
    (len : ℕ) (m : Bytes) (dst src p : ℕ)
    → dst + len ≤ u32_mod
    → Outside dst len p
    → copy_down len m dst src p ≡ m p
unfolding copy_down
copy_down-Outside zero m dst src p hd o = refl
copy_down-Outside (suc i) m dst src p hd o =
    copy_down-Outside i (put m (add32 dst i) (m (add32 src i))) dst src p (omega arith)
      (ground arith)
    ∙ put-other m (add32 dst i) (m (add32 src i)) p (ground arith)

pub copy_down-inside :
    (len : ℕ) (m : Bytes) (dst src k : ℕ)
    → src ≤ dst
    → dst + len ≤ u32_mod
    → k < len
    → copy_down len m dst src (dst + k) ≡ m (src + k)
unfolding copy_down
copy_down-inside zero m dst src k o hd h = absurd (omega arith)
copy_down-inside (suc i) m dst src k o hd h = elim (Bool-cases (k == i)) [
  | inl last ↦
      copy_down-Outside i (put m (add32 dst i) (m (add32 src i))) dst src (dst + k) (omega arith)
        (ground arith)
      ∙ put_here m (add32 dst i) (m (add32 src i)) (dst + k) (ground arith)
      ∙ ap m (ground arith)
  | inr below ↦
      copy_down-inside i (put m (add32 dst i) (m (add32 src i))) dst src k o (omega arith)
        (ground arith)
      ∙ put-other m (add32 dst i) (m (add32 src i)) (src + k) (ground arith)
]

pub put_value-Outside :
    (size : ℕ) (old m : Bytes) (a b p : ℕ)
    → a + size ≤ u32_mod
    → Outside a size p
    → put_value size old m a b p ≡ m p
unfolding put_value
put_value-Outside zero old m a b p h o = refl
put_value-Outside (suc size) old m a b p h o =
    put_value-Outside size old (put m (add32 a size) (old (add32 b size))) a b p (omega arith)
      (ground arith)
    ∙ put-other m (add32 a size) (old (add32 b size)) p (ground arith)

pub put_value-inside :
    (size : ℕ) (old m : Bytes) (a b k : ℕ)
    → a + size ≤ u32_mod
    → b + size ≤ u32_mod
    → k < size
    → put_value size old m a b (a + k) ≡ old (b + k)
unfolding put_value
put_value-inside zero old m a b k ha hb h = absurd (omega arith)
put_value-inside (suc size) old m a b k ha hb h = elim (Bool-cases (k == size)) [
  | inl last ↦
      put_value-Outside size old (put m (add32 a size) (old (add32 b size))) a b (a + k)
        (omega arith) (ground arith)
      ∙ put_here m (add32 a size) (old (add32 b size)) (a + k) (ground arith)
      ∙ ap old (ground arith)
  | inr below ↦
      put_value-inside size old (put m (add32 a size) (old (add32 b size))) a b k (omega arith)
        (omega arith) (ground arith)
]

pub copy_longs-Outside :
    (n : ℕ) (m : Bytes) (dst src p : ℕ)
    → dst + 4 * n ≤ u32_mod
    → Outside dst (4 * n) p
    → copy_longs n m dst src p ≡ m p
unfolding copy_longs
copy_longs-Outside zero m dst src p hd o = refl
copy_longs-Outside (suc i) m dst src p hd o =
    let m' = put_value 4 m m (add32 dst (4 * i)) (add32 src (4 * i)) in
    copy_longs-Outside i m' dst src p (omega arith) (ground arith)
    ∙ put_value-Outside 4 m m (add32 dst (4 * i)) (add32 src (4 * i)) p (omega arith) (ground arith)

pub copy_longs-inside :
    (n : ℕ) (m : Bytes) (dst src k : ℕ)
    → src ≤ dst
    → dst + 4 * n ≤ u32_mod
    → k < 4 * n
    → copy_longs n m dst src (dst + k) ≡ m (src + k)
unfolding copy_longs
copy_longs-inside zero m dst src k o hd h = absurd (omega arith)
copy_longs-inside (suc i) m dst src k o hd h =
    let m' = put_value 4 m m (add32 dst (4 * i)) (add32 src (4 * i)) in
    elim (Bool-cases (ltb k (4 * i))) [
      | inl below ↦
          copy_longs-inside i m' dst src k o (omega arith) (ground arith)
          ∙ put_value-Outside 4 m m (add32 dst (4 * i)) (add32 src (4 * i)) (src + k) (omega arith)
              (ground arith)
      | inr last ↦
          let place : dst + k ≡ add32 dst (4 * i) + (k - 4 * i) = ground arith in
          copy_longs-Outside i m' dst src (dst + k) (omega arith) (ground arith)
          ∙ ap m' place
          ∙ put_value-inside 4 m m (add32 dst (4 * i)) (add32 src (4 * i)) (k - 4 * i) (omega arith)
              (omega arith) (ground arith)
          ∙ ap m (ground arith)
    ]

pub fill-Outside :
    (left : ℕ) (m : Bytes) (ptr value i p : ℕ)
    → i + left < u32_mod
    → ptr + i + left ≤ u32_mod
    → Outside (ptr + i) left p
    → fill left m ptr value i p ≡ m p
unfolding fill
fill-Outside zero m ptr value i p r h o = refl
fill-Outside (suc left) m ptr value i p r h o =
    let next : add32 i 1 ≡ i + 1 = omega arith in
    rw (next) (
      fill-Outside left (put m (add32 ptr i) (value % 256)) ptr value (i + 1) p (omega arith)
        (omega arith) (ground arith)
      ∙ put-other m (add32 ptr i) (value % 256) p (ground arith))

pub fill-inside :
    (left : ℕ) (m : Bytes) (ptr value i k : ℕ)
    → i + left < u32_mod
    → ptr + i + left ≤ u32_mod
    → k < left
    → fill left m ptr value i (ptr + i + k) ≡ value % 256
unfolding fill
fill-inside zero m ptr value i k r h x = absurd (omega arith)
fill-inside (suc left) m ptr value i zero r h x =
    let next : add32 i 1 ≡ i + 1 = omega arith in
    rw (next) (
      fill-Outside left (put m (add32 ptr i) (value % 256)) ptr value (i + 1) (ptr + i + 0)
        (omega arith) (omega arith) (inl (omega arith))
      ∙ put_here m (add32 ptr i) (value % 256) (ptr + i + 0) (omega arith))
fill-inside (suc left) m ptr value i (suc k) r h x =
    let next : add32 i 1 ≡ i + 1 = omega arith in
    let place : ptr + i + suc k ≡ ptr + (i + 1) + k = omega arith in
    rw (next, place)
      (fill-inside left (put m (add32 ptr i) (value % 256)) ptr value (i + 1) k (omega arith)
        (omega arith) (omega arith))
