-- ===== src/Memory.antt =====
-- The byte functions of libraries/libc/string.c (memcmp, memmove, memcpy, memset) and those of
-- kernel/util/kstdio.c (memset_8 to memset_32, memcpy_8 to memcpy_32). Memory is what each address
-- holds; an address is a 32-bit number, and a `long` has four bytes. A function that returns its
-- destination gives it first.
pub mod Loops
pub mod Move
pub mod Compare
pub mod Single
mod Tests
use dbos.Base.{
  ℕ, zero, suc, ◌+◌, ◌-◌, ◌*◌, ◌/◌, ◌%◌, ◌^◌, Bool, true, false, ◌&&◌, ltb, ◌==◌, if◌then◌else◌,
}
use dbos.Base.Word.{u32_mod, add32, sub32}
use dbos.Strings.{Bytes}

-- The store of the byte `b` at the address `a`.
abbrev pub put : Bytes → ℕ → ℕ → Bytes
put m a b = λ p. if p == a then b else m p

-- The store of the `size` bytes at `b` as one value at `a`: all are read before one is written.
unfoldable pub put_value : ℕ → Bytes → Bytes → ℕ → ℕ → Bytes
put_value zero old m a b = m
put_value (suc size) old m a b = put_value size old (put m (add32 a size) (old (add32 b size))) a b

-- The loop that copies upwards, from the index `i`.
unfoldable pub copy_up : ℕ → Bytes → ℕ → ℕ → ℕ → Bytes
copy_up zero m dst src i = m
copy_up (suc left) m dst src i =
    copy_up left (put m (add32 dst i) (m (add32 src i))) dst src (add32 i 1)

-- `memcpy`
pub memcpy : Bytes → ℕ → ℕ → ℕ → ℕ × Bytes
memcpy m destination source num = (destination, copy_up num m destination source 0)

-- The loop of `memmove` that copies bytes downwards.
pub copy_down : ℕ → Bytes → ℕ → ℕ → Bytes
copy_down zero m dst src = m
copy_down (suc i) m dst src = copy_down i (put m (add32 dst i) (m (add32 src i))) dst src

-- The loop of `memmove` that copies `long`s downwards.
pub copy_longs : ℕ → Bytes → ℕ → ℕ → Bytes
unfolding put_value
copy_longs zero m dst src = m
copy_longs (suc i) m dst src =
    copy_longs i (put_value 4 m m (add32 dst (4 * i)) (add32 src (4 * i))) dst src

-- `memmove`
pub memmove : Bytes → ℕ → ℕ → ℕ → ℕ × Bytes
memmove m dst src len =
    if ltb dst src
    then memcpy m dst src len
    else if (dst % 4 == 0) && ((src % 4 == 0) && (len % 4 == 0))
    then (dst, copy_longs (len / 4) m dst src)
    else (dst, copy_down len m dst src)

-- The loop of `memset`; a value is cut to its low byte.
pub fill : ℕ → Bytes → ℕ → ℕ → ℕ → Bytes
fill zero m ptr value i = m
fill (suc left) m ptr value i = fill left (put m (add32 ptr i) (value % 256)) ptr value (add32 i 1)

-- `memset`
pub memset : Bytes → ℕ → ℕ → ℕ → ℕ × Bytes
memset m ptr value num = (ptr, fill num m ptr value 0)

-- `memcmp`; the result is an `int`, given as its bit pattern.
pub memcmp : Bytes → ℕ → ℕ → ℕ → ℕ
memcmp m s1 s2 zero = 0
memcmp m s1 s2 (suc n) =
    let rest = memcmp m (add32 s1 1) (add32 s2 1) n in
    if m s1 == m s2 then rest else sub32 (m s1) (m s2)

-- The loop of `memset_8`, `memset_16` and `memset_32`, for `size` bytes at a time; the low byte of
-- the value comes first.
unfoldable pub fill_values : ℕ → ℕ → Bytes → ℕ → ℕ → ℕ → Bytes
unfolding put_value
fill_values size zero m dest val i = m
fill_values size (suc left) m dest val i =
    let value : Bytes = λ k. val / 256 ^ k % 256 in
    fill_values size left (put_value size value m ((dest + size * i) % u32_mod) 0) dest val
      (add32 i 1)

abbrev pub memset_8 : Bytes → ℕ → ℕ → ℕ → Bytes
memset_8 m dest val len = fill_values 1 len m dest val 0

abbrev pub memset_16 : Bytes → ℕ → ℕ → ℕ → Bytes
memset_16 m dest val len = fill_values 2 len m dest val 0

abbrev pub memset_32 : Bytes → ℕ → ℕ → ℕ → Bytes
memset_32 m dest val len = fill_values 4 len m dest val 0

-- The loop of `memcpy_8`, `memcpy_16` and `memcpy_32`, for `size` bytes at a time.
unfoldable pub copy_values : ℕ → ℕ → Bytes → ℕ → ℕ → ℕ → Bytes
unfolding put_value
copy_values size zero m dest src i = m
copy_values size (suc left) m dest src i =
    let there = put_value size m m ((dest + size * i) % u32_mod) ((src + size * i) % u32_mod) in
    copy_values size left there dest src (add32 i 1)

abbrev pub memcpy_8 : Bytes → ℕ → ℕ → ℕ → Bytes
memcpy_8 m dest src len = copy_values 1 len m dest src 0

abbrev pub memcpy_16 : Bytes → ℕ → ℕ → ℕ → Bytes
memcpy_16 m dest src len = copy_values 2 len m dest src 0

abbrev pub memcpy_32 : Bytes → ℕ → ℕ → ℕ → Bytes
memcpy_32 m dest src len = copy_values 4 len m dest src 0
