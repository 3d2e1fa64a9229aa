-- ===== src/Lib.antt =====
-- DBOS, a 32-bit x86 operating system in C: a model of parts of its kernel, and proofs about it.
--
-- The kernel keeps one reference count per physical frame (kernel/memory/memory_phys.c). On the
-- frames it builds page directories and page tables (kernel/memory/memory_paging.c), and on both
-- its own heap (kernel/memory/memory_heap.c), a first-fit allocator whose code the user programs
-- have a copy of (libraries/alloc.c), which grows by the system call sbrk. Queues and lists
-- (kernel/util/queue.c and kernel/util/linked_list.c) live on that heap. The scheduler
-- (kernel/process/scheduler.c) keeps the processes in such queues and moves them at timer ticks and
-- system calls. The virtual file system (kernel/vfs/vfs.c) is a tree of nodes whose operations belong
-- to a file system: drivers/tarfs/tarfs.c reads a tar archive, drivers/devfs/devfs.c passes requests to
-- devices. Of these the keyboard (drivers/devices/keyboard/keyboard.c) hands characters to the
-- terminal (drivers/devices/gtty/gtty.c), which keeps a line of input and writes to a display such as
-- drivers/devices/vga/vga.c.
--
-- Which file models which part:
--   Phys        kernel/memory/memory_phys.c. `Phys` is the file's state: the sizes, the reference
--               counts and the free list. `init_phys` is init_phys_memory, `alloc_page`
--               alloc_phys_page, `alloc_addr` alloc_phys_addr, `free` alloc_phys_free,
--               `increase_refcount` and `decrease_refcount` alloc_phys_increase_refcount and
--               alloc_phys_decrease_refcount. An access outside the table is `none`.
--   Paging      kernel/memory/memory_paging.c: get_mapped_address, set_page_table_entry and
--               unset_page_table_entry, under their names. `Memory` is the frame allocator and the
--               words of every frame. The window that temp_map_page opens is direct access.
--   Allocator   kern_malloc and kern_free of kernel/memory/memory_heap.c, alloc_allocate and
--               alloc_free of libraries/alloc.c, which are the same code: `allocate`, `free`. A
--               header is a cell at an address. How the heap grows is an argument.
--   KernelHeap  the rest of kernel/memory/memory_heap.c: initialise_heap, increase_heap, and
--               kern_malloc and kern_free as they stand over Phys and Paging.
--   Nodes       the nodes of doubly linked lists at addresses, and when they hold a list of items.
--   Queue       kernel/util/queue.c: create_queue, queue_enqueue, queue_dequeue, queue_force_remove
--               and queue_is_empty, without the prefix. The address that kern_malloc returns for a
--               node is an argument, and a node that was freed is an access failure.
--   LinkedList  kernel/util/linked_list.c, which libraries/liblist/liblist.c repeats, without the
--               prefix linked_list_: create, destroy, insert_at_index, append, find, get_at,
--               index_of, remove, remove_at_index, and the loop of linked_list_traverse.
--   UserList    libraries/liblist/liblist.c: list_create to list_remove_at_index, the same code.
--   Tree        kernel/util/generic_tree.c: generic_tree_create, generic_tree_traverse and
--               generic_tree_find_subtree, on trees as values.
--   Scheduler   kernel/process/scheduler.c: sched_make_ready, sched_make_dead,
--               sched_make_napping, sched_timekeeper, sched_get_next, sched_preempt_handler,
--               sched_wakeup, sched_wait_for and sched_purge_process, most without the prefix;
--               proc_find of kernel/process/process.c and proc_destroy on the waiters and on the tree
--               of processes (`destroy_process`, and `dissolve` in Tree); pit_interrupt_handler of
--               kernel/interrupts/pit.c with the two timer routines (`timer_interrupt`); the
--               system calls exit, wait, sleep, wakeup and kill of
--               kernel/process/syscall.c. `Sched` holds the queues as lists, which Queue shows
--               them to be, and the fields of every process.
--   UserHeap    libraries/alloc.c under its names, over Allocator, and sysc_sbrk of
--               kernel/process/syscall.c: `sbrk`. `Break` is the process's heap_end and Paging's
--               `Memory`.
--   Memory      memcmp, memmove, memcpy and memset of libraries/libc/string.c, memset_8 to
--               memset_32 and memcpy_8 to memcpy_32 of kernel/util/kstdio.c.
--   Strings     kernel/util/string.c: strlen, strcmp, strchr, strrchr and atoi; Strings/Copy has
--               strcpy, strncpy, strdup, strcat and strncmp, Strings/Tokens strcspn, strspn, strtok
--               and strstr. All work on the bytes of the memory.
--   Libc        the string functions and sputhex, sputuint and sputint of
--               libraries/libc/string.c, atoi of libraries/libc/stdlib.c.
--   Vfs         kernel/vfs/vfs.c and kernel/util/path.c. `Vfs` holds the variables, the nodes and the
--               trees at their addresses. `mount_in_vfs` and `parse_path` have their names, and
--               `mount_walk` and `mount_at` are the parts of mount_in_vfs; Vfs/Find has vfs_find_node
--               (`find_node`), the operations on stub directories and mount_filesystem_in_vfs,
--               Vfs/Dispatch read_from_vfs_node to list_directory_vfs. What a driver's function does
--               is an argument.
--   Tarfs       drivers/tarfs/tarfs.c: mount_tarfs, create_tarfs_filesystem, get_type_flags,
--               build_node_tarfs, get_file_size_tarfs and read_node_tarfs.
--   Devfs       drivers/devfs/devfs.c, without the suffix _devfs. `entries` is the list of devices.
--   Vga         drivers/devices/vga/vga.c, without the prefix vga_. `Vga` has the words of the video
--               memory, the colour and the location of the cursor.
--   Terminal    drivers/devices/gtty/gtty.c: `Gtty` has its variables, `keyboard_listener`, `dev_read`
--               and `write_vga` are gtty_keyboard_listener, gtty_dev_read and gtty_write_vga;
--               Terminal/Vesa has the text of a pixel display and gtty_dev_write, Terminal/Control
--               gtty_dev_control and gtty_dev_status. What it asks the display for are values of
--               `Command`, in their order. The font is an argument.
--   Keyboard    drivers/devices/keyboard/keyboard.c with the tables of its header:
--               `parse_scancode`, `serve_listeners`, kbd_dev_control and kbd_dev_status.
--   Base        numbers, words, lists and options that the others share.
--
-- Numbers are natural numbers, and a machine word carries its wrap-around in `% 2 ^ w` (Base.Word).
-- An `int` is its bit pattern, compared as a signed number by `slt32`.
--
-- Loops are recursive, on the list they walk or on fuel. The search of the allocator has the bytes
-- of the heap as fuel: each block has a header, so there are fewer blocks than bytes. The loop of
-- init_phys_memory has a round for each page of the table and two more. queue_force_remove has the
-- length of the queue and one round more, and so have the searches of the linked list. The string
-- functions take their fuel as an argument: one more than the characters is enough. sputuint has ten
-- rounds for each of its loops, as a 32-bit number has at most ten digits. The listing of a stub
-- directory takes one round more than there are nodes. The name in a tar header is looked for in the
-- 512 bytes of the header. Running out of fuel is `none`, and the theorems that say that an operation
-- returns exclude it.
--
-- Four places end where the model does not follow the code further. What temp_map_page leaves in the
-- entry of its own window, the page at 0xC0000000, is not kept. Where no frame is left, the growing
-- of a heap ends with `none`, while the code maps frame 0 for each page. An area that is handed out past the
-- mapped end of a heap is cleared, while the processor faults. The echo of the keyboard is a request,
-- which is not carried out on the terminal.
--
-- Not modelled: instructions of the processor (cr3, invlpg), whose effect is on caches only; the
-- accessed and dirty bits; logging and the printing of the kernel; copying an address space and page
-- faults; creating, cloning and loading processes, and the system calls on files; the search through
-- a tar archive; the set-up of the devices, the ports and the other drivers (vesa, serial, pci, ide,
-- initrd); the C library's input and output, its floating point, and strtoul and its kin, which use
-- macros that are not in the repository; getopt, which is a third party's; the user programs.
pub mod Allocator
pub mod Base
pub mod Devfs
pub mod KernelHeap
pub mod Keyboard
pub mod Libc
pub mod LinkedList
pub mod Memory
pub mod Nodes
pub mod Paging
pub mod Phys
pub mod Queue
pub mod Scheduler
pub mod Strings
pub mod Tarfs
pub mod Terminal
pub mod Tree
pub mod UserHeap
pub mod UserList
pub mod Vfs
pub mod Vga
