-- ===== src/UserHeap/Tests.antt =====
-- Runs of the user heap, and its theorems at a heap of one block.
use dbos.Base.{true, none, some, [], ◌∷◌, ◌==◌, if◌then◌else◌}
use dbos.Phys.Stock.{Stock}
use dbos.Paging.{Memory}
use dbos.Allocator.{Heap}
use dbos.UserHeap.{Break}

abbrev machine : Memory
machine = record {
  phys = record {
    lower = 0x2000;
    lower_pages = 2;
    upper = 0x3000;
    upper_pages = 3;
    usable_bytes = 0x5000;
    pages = 5;
    size = 5;
    table = 0x10_0000;
    refcounts = 1 ∷ 1 ∷ 1 ∷ 0 ∷ 0 ∷ [];
    free_list = [];
  };
  words = λ f i. 0;
}

abbrev one_block : Heap Break
one_block = record {
  allocated_size = 1024;
  start = 0x5000_0000;
  end = 0x5000_1000;
  head = 0x5000_0000;
  cells = λ a.
      if a == 0x5000_0000 then some (record { size = 4000; next = 0; present = true }) else none;
  bytes = λ a. 0;
  env = record { heap_end = 0x5000_1000; machine = machine };
}
