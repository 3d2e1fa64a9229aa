-- ===== src/Memory/Move.antt =====
-- What `memcpy`, `memmove` and `memset` leave in the memory.
use dbos.Base.{
  ℕ, ◌+◌, ◌/◌, ◌%◌, ◌≤◌, ◌<◌, ◌≡◌, inl, inr, ap, ◌∙◌, ◌&&◌, arith, ltb, ◌==◌, Bool-cases, refl,
}
use dbos.Base.Word.{u32_mod}
use dbos.Strings.{Bytes}
use dbos.Memory.{copy_up, memcpy, copy_down, copy_longs, memmove, fill, memset}
use dbos.Memory.Loops.{
  Outside, Upwards, copy_up-Outside, copy_up-inside, copy_down-Outside, copy_down-inside,
  copy_longs-Outside, copy_longs-inside, fill-Outside, fill-inside,
}

-- What a function that copies leaves: the bytes that the source had before, and nothing else changed.
abbrev pub IsCopy : Bytes → ℕ → ℕ → ℕ → Bytes → Type 0
IsCopy m dst src len m' =
    ((k : ℕ) → k < len → m' (dst + k) ≡ m (src + k)) × ((p : ℕ) → Outside dst len p → m' p ≡ m p)

pub copy_up-IsCopy :
    (m : Bytes) (dst src len : ℕ)
    → Upwards dst src len
    → len < u32_mod
    → dst + len ≤ u32_mod
    → src + len ≤ u32_mod
    → IsCopy m dst src len (copy_up len m dst src 0)
copy_up-IsCopy m dst src len o r hd hs = (
  λ k h.
      ap (copy_up len m dst src 0) (omega arith)
      ∙ copy_up-inside len m dst src 0 k (ground arith) (omega arith) (omega arith) (omega arith) h
      ∙ ap m (omega arith),
  λ p x. copy_up-Outside len m dst src 0 p (omega arith) (omega arith) (ground arith),
)

-- `memcpy` copies the source and changes no other byte, when the target does not stand above a part
-- of the source and neither runs over the end of the memory; it returns the target.
pub memcpy-IsCopy :
    (m : Bytes) (dst src len : ℕ)
    → Upwards dst src len
    → len < u32_mod
    → dst + len ≤ u32_mod
    → src + len ≤ u32_mod
    → ((memcpy m dst src len).0 ≡ dst) × IsCopy m dst src len ((memcpy m dst src len).1)
unfolding memcpy
memcpy-IsCopy m dst src len o r hd hs = (refl, copy_up-IsCopy m dst src len o r hd hs)

copy_down-IsCopy :
    (m : Bytes) (dst src len : ℕ)
    → src ≤ dst
    → dst + len ≤ u32_mod
    → IsCopy m dst src len (copy_down len m dst src)
copy_down-IsCopy m dst src len o hd =
    (λ k h. copy_down-inside len m dst src k o hd h, λ p x. copy_down-Outside len m dst src p hd x)

copy_longs-IsCopy :
    (m : Bytes) (dst src len : ℕ)
    → src ≤ dst
    → dst + len ≤ u32_mod
    → len % 4 ≡ 0
    → IsCopy m dst src len (copy_longs (len / 4) m dst src)
copy_longs-IsCopy m dst src len o hd e = (
  λ k h. copy_longs-inside (len / 4) m dst src k o (omega arith) (omega arith),
  λ p x. copy_longs-Outside (len / 4) m dst src p (omega arith) (ground arith),
)

-- `memmove` copies the bytes that the source had before, also where the source and the target
-- overlap and in each of its three loops, and changes no other byte, when neither of them runs over
-- the end of the memory; it returns the target.
pub memmove-IsCopy :
    (m : Bytes) (dst src len : ℕ)
    → len < u32_mod
    → dst + len ≤ u32_mod
    → src + len ≤ u32_mod
    → ((memmove m dst src len).0 ≡ dst) × IsCopy m dst src len ((memmove m dst src len).1)
unfolding memmove
memmove-IsCopy m dst src len r hd hs = elim (Bool-cases (ltb dst src)) [
  | inl up ↦ rw (up, memmove) (memcpy-IsCopy m dst src len (inl (ground arith)) r hd hs)
  | inr above ↦
      let down : src ≤ dst = ground arith in
      elim (Bool-cases ((dst % 4 == 0) && ((src % 4 == 0) && (len % 4 == 0)))) [
        | inl longs ↦
            rw (above, longs, memmove)
              (refl, copy_longs-IsCopy m dst src len down hd (ground arith))
        | inr bytes ↦ rw (above, bytes, memmove) (refl, copy_down-IsCopy m dst src len down hd)
      ]
]

-- `memset` gives the bytes the value's low byte and changes no other byte, when they do not run over
-- the end of the memory; it returns the place.
pub memset-fills :
    (m : Bytes) (ptr value num : ℕ)
    → num < u32_mod
    → ptr + num ≤ u32_mod
    → ((memset m ptr value num).0 ≡ ptr)
      × ((k : ℕ) → k < num → (memset m ptr value num).1 (ptr + k) ≡ value % 256)
      × ((p : ℕ) → Outside ptr num p → (memset m ptr value num).1 p ≡ m p)
unfolding memset
memset-fills m ptr value num r h = (
  refl,
  λ k x.
      ap (fill num m ptr value 0) (omega arith)
      ∙ fill-inside num m ptr value 0 k (omega arith) (omega arith) x,
  λ p x. fill-Outside num m ptr value 0 p (omega arith) (omega arith) (ground arith),
)
