-- ===== src/Memory/Tests.antt =====
-- Runs of the byte functions, and their theorems at overlapping places.
use dbos.Base.{◌↔◌, ◌%◌, ◌≡◌, refl, arith}
use dbos.Strings.{Bytes}
use dbos.Memory.{memcmp, memmove, copy_longs, put_value, memset_16, fill_values}
use dbos.Memory.Compare.{SameBytes, memcmp-SameBytes}
use dbos.Memory.Move.{IsCopy, memmove-IsCopy}

abbrev counting : Bytes
counting a = a % 251

moved_words : (memmove counting 8 4 8).1 12 ≡ 8
unfolding memmove copy_longs put_value
moved_words = refl

halves : memset_16 counting 100 0x1234 2 103 ≡ 0x12
unfolding fill_values put_value
halves = refl

-- Every byte is 7.
abbrev sevens : Bytes
sevens a = 7

memcmp-SameBytes_example : (memcmp sevens 10 20 5 ≡ 0) ↔ SameBytes sevens 10 20 5
memcmp-SameBytes_example =
    memcmp-SameBytes sevens 10 20 5 (λ p. omega arith) (omega arith) (omega arith)

memmove-IsCopy_example :
    ((memmove counting 8 4 8).0 ≡ 8) × IsCopy counting 8 4 8 ((memmove counting 8 4 8).1)
memmove-IsCopy_example = memmove-IsCopy counting 8 4 8 (omega arith) (omega arith) (omega arith)
