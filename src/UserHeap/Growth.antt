-- ===== src/UserHeap/Growth.antt =====
-- Moving the end of a process's memory, and allocation over it.
use dbos.Base.{ℕ, ◌+◌, ◌*◌, ◌^◌, ◌<◌, ◌≡◌, ◌≢◌, refl, ◌∙◌, true, false, some, arith, ==_ne}
use dbos.Base.Maybe.{◌>>=◌}
use dbos.Base.Word.{u32_mod, slt32}
use dbos.Phys.{page_byte_len}
use dbos.Phys.Stock.{Stock}
use dbos.Paging.{Memory}
use dbos.KernelHeap.{grow_pages}
use dbos.KernelHeap.Growth.{grow_pages_total, pages_for}
use dbos.UserHeap.{break_pages, shrink_pages, sbrk, rounds}

-- A negative number of bytes counts no page.
no_rounds : (bytes : ℕ) → bytes < u32_mod → slt32 bytes 0 ≡ true → rounds (break_pages bytes) ≡ 0
unfolding break_pages
no_rounds bytes h neg = rw (neg, break_pages) (ground arith)

-- `sysc_sbrk` with a negative number of bytes, which should give pages back, changes nothing.
pub sbrk_negative :
    (directory bytes heap_end : ℕ) (m : Memory)
    → bytes < u32_mod
    → slt32 bytes 0 ≡ true
    → sbrk directory bytes heap_end m ≡ some (heap_end, m)
unfolding sbrk shrink_pages
sbrk_negative directory bytes heap_end m h neg =
    let nz : bytes ≢ 0 = ground arith in
    let np : slt32 0 bytes ≡ false = ground arith in
    rw (==_ne bytes 0 nz, np, no_rounds bytes h neg, sbrk) refl

rounds_up : (bytes : ℕ) → bytes < 2 ^ 31 → rounds (break_pages bytes) ≡ pages_for bytes
unfolding break_pages
rounds_up bytes h = ground arith

-- `sysc_sbrk` with a positive number of bytes returns where two frames are left for each page that the
-- bytes need: the end of the memory rises by these pages, where it stays below the end of the address
-- space.
pub sbrk_grows :
    (directory bytes heap_end : ℕ) (m : Memory)
    → Stock (pages_for bytes + pages_for bytes) m.phys
    → bytes ≢ 0
    → bytes < 2 ^ 31
    → heap_end + pages_for bytes * page_byte_len < u32_mod
    → (m' : Memory) × (sbrk directory bytes heap_end m
        ≡ some (heap_end + pages_for bytes * page_byte_len, m'))
unfolding sbrk
sbrk_grows directory bytes heap_end m r nz h room =
    let positive : slt32 0 bytes ≡ true = ground arith in
    let (more, m', run) =
      grow_pages_total (pages_for bytes) 1 directory heap_end 0
        (heap_end + pages_for bytes * page_byte_len) m r refl room in
    let step : sbrk directory bytes heap_end m ≡ (
        grow_pages (pages_for bytes) 1 directory heap_end 0 m >>= (λ (e, more, m). some (e, m))) =
      rw (==_ne bytes 0 nz, positive, rounds_up bytes h, sbrk) refl in
    (m', step ∙ rw run refl)
