-- ===== src/Mm/Heap.antt =====
-- src/mm/heap.c, the kernel heap. A block's header is a value of `memory` at the block's address,
-- with its links as addresses; NULL is 0. The bytes that the blocks hold are a map of their own,
-- which the proof that blocks do not overlap allows. `mapped` are the calls of vmm_map, the newest
-- first. The loops over the list of blocks run on fuel, the heap's size, which is more than there
-- are blocks.
pub mod Chain
pub mod Layout
pub mod Split
pub mod Absorb
pub mod Coalesce
pub mod Link
pub mod Expand
pub mod Fit
pub mod Mark
pub mod Take
pub mod Malloc
pub mod Free
pub mod Realloc
pub mod Apart
mod Tests
use alcor2os.Base.{
  ℕ, zero, suc, ◌+◌, ◌-◌, ◌*◌, ◌/◌, ◌%◌, ◌^◌, Bool, true, false, not, ◌&&◌, List, ◌∷◌, ltb, leb,
  ◌==◌, if◌then◌else◌,
}
use alcor2os.Base.Word.{u64_mod, add64, sub64}
use alcor2os.Mm.Pmm.{Pmm, page_size, pmm_alloc_pages}

abbrev pub u32_mod : ℕ
u32_mod = 2 ^ 32

-- sizeof(heap_block_t), which is packed
abbrev pub heap_header_size : ℕ
heap_header_size = 32

abbrev pub heap_min_alloc : ℕ
heap_min_alloc = 32

abbrev pub heap_block_magic : ℕ
heap_block_magic = 0xDEADBEEF

abbrev pub heap_initial_pages : ℕ
heap_initial_pages = 16

abbrev pub kernel_heap_base : ℕ
kernel_heap_base = 0xFFFFFFFF90000000

-- A `heap_block_t`; `free` says whether the byte is not 0.
pub record Header : Type 0 where
  pub magic : ℕ
  pub size : ℕ
  pub free : Bool
  pub next : ℕ
  pub prev : ℕ

pub record Heap : Type 0 where
  pub memory : ℕ → Header
  pub bytes : ℕ → ℕ
  pub mapped : List (ℕ × ℕ)
  pub start : ℕ
  pub last : ℕ
  pub size : ℕ
  pub used : ℕ
  pub next_va : ℕ
  pub pmm : Pmm

abbrev pub put : (ℕ → Header) → ℕ → Header → ℕ → Header
put m a h x = if x == a then h else m x

-- `for(i = 0; i < pages; i++) vmm_map(virt + i * PAGE_SIZE, phys + i * PAGE_SIZE, ...)`
pub map_pages : ℕ → ℕ → ℕ → ℕ → List (ℕ × ℕ) → List (ℕ × ℕ)
map_pages zero virt phys i calls = calls
map_pages (suc r) virt phys i calls =
    map_pages r virt phys (i + 1) ((add64 virt (i * page_size), add64 phys (i * page_size)) ∷ calls)

-- The new block at `virt`, linked in behind the last one.
pub link_block : Heap → ℕ → ℕ → Heap
link_block s virt size =
    let block : Header = record {
      magic = heap_block_magic;
      size = sub64 size heap_header_size % u32_mod;
      free = true;
      next = 0;
      prev = s.last;
    } in
    let m = put s.memory virt block in
    record s {
      memory = if s.last == 0 then m else put m s.last (record (m s.last) { next = virt });
      start = if s.start == 0 then virt else s.start;
      last = virt;
      size = add64 s.size size;
    }

pub expand : Heap → ℕ → ℕ × Pmm → Bool × Heap
expand s pages (phys, pmm') = if phys == 0 then (false, record s { pmm = pmm' }) else (
  true,
  link_block
      (record s {
        pmm = pmm';
        mapped = map_pages pages s.next_va phys 0 s.mapped;
        next_va = add64 s.next_va (pages * page_size % u64_mod);
      })
      s.next_va (pages * page_size % u64_mod),
)

-- The result is whether the C function returns 0.
pub heap_expand : Heap → ℕ → Bool × Heap
unfolding expand
heap_expand s n =
    let pages = if n == 0 then 1 else n in expand s pages (pmm_alloc_pages s.pmm pages)

-- The loop from block `b` on; 0 is NULL.
pub find_free : ℕ → (ℕ → Header) → ℕ → ℕ → ℕ
find_free zero m b size = 0
find_free (suc k) m b size =
    let rest = find_free k m (m b).next size in
    if b == 0 then 0 else if (m b).free && leb size (m b).size then b else rest

pub find_free_block : Heap → ℕ → ℕ
find_free_block s size = find_free (suc s.size) s.memory s.start size

pub split_block : Heap → ℕ → ℕ → Heap
split_block s b size =
    let remaining = sub64 (s.memory b).size size in
    let fresh = add64 b (heap_header_size + size) in
    let block : Header = record {
      magic = heap_block_magic;
      size = sub64 remaining heap_header_size % u32_mod;
      free = true;
      next = (s.memory b).next;
      prev = b;
    } in
    let m = put s.memory fresh block in
    let next = (m b).next in
    let m' = if next == 0 then m else put m next (record (m next) { prev = fresh }) in
    if leb remaining (heap_header_size + heap_min_alloc) then s else record s {
      memory = put m' b (record (m' b) { size = size % u32_mod; next = fresh });
      last = if b == s.last then fresh else s.last;
    }

-- Block `n`, which follows `b`, becomes part of `b`: the body of the loop of `coalesce`, and its
-- last part with the block before for `b`.
pub absorb : Heap → ℕ → ℕ → Heap
absorb s b n =
    let m = put s.memory b (record (s.memory b) {
      size = ((s.memory b).size + heap_header_size + (s.memory n).size) % u32_mod;
      next = (s.memory n).next;
    }) in
    let next = (m n).next in
    record s {
      memory = if next == 0 then m else put m next (record (m next) { prev = b });
      last = if n == s.last then b else s.last;
    }

pub absorb_free : ℕ → Heap → ℕ → Heap
absorb_free zero s b = s
absorb_free (suc k) s b =
    let next = (s.memory b).next in
    let rest = absorb_free k (absorb s b next) b in
    if next == 0 then s else if (s.memory next).free then rest else s

pub coalesce : Heap → ℕ → Heap
coalesce s b =
    let s' = absorb_free s.size s b in
    let prev = (s'.memory b).prev in
    if prev == 0 then s' else if (s'.memory prev).free then absorb s' prev b else s'

pub heap_init : Heap → Heap
heap_init s = (heap_expand s heap_initial_pages).1

-- The size that is looked for: a multiple of 16, and at least the smallest.
pub request : ℕ → ℕ
request size =
    let aligned = add64 size 15 / 16 * 16 in
    if ltb aligned heap_min_alloc then heap_min_alloc else aligned

pub take_block : Heap → ℕ → ℕ → ℕ × Heap
take_block s b size =
    let s' = split_block s b size in
    (
      add64 b heap_header_size,
      record s' {
        memory = put s'.memory b (record (s'.memory b) { free = false });
        used = add64 s'.used (s'.memory b).size;
      },
    )

pub pages_for : ℕ → ℕ
pages_for size =
    let pages = add64 size (heap_header_size + page_size - 1) / page_size in
    if ltb pages 4 then 4 else pages

pub after_expand : ℕ → Bool × Heap → ℕ × Heap
after_expand size (false, s) = (0, s)
after_expand size (true, s) =
    let b = find_free_block s size in if b == 0 then (0, s) else take_block s b size

pub alloc : Heap → ℕ → ℕ × Heap
alloc s size =
    let b = find_free_block s size in
    if b == 0 then after_expand size (heap_expand s (pages_for size)) else take_block s b size

pub kmalloc : Heap → ℕ → ℕ × Heap
unfolding alloc take_block after_expand
kmalloc s size = if size == 0 then (0, s) else alloc s (request size)

-- `kzero` and `kmemcpy` on the bytes.
abbrev pub zero_bytes : (ℕ → ℕ) → ℕ → ℕ → ℕ → ℕ
zero_bytes m at n x = if leb at x && ltb x (at + n) then 0 else m x

abbrev pub copy_bytes : (ℕ → ℕ) → ℕ → ℕ → ℕ → ℕ → ℕ
copy_bytes m to from n x = if leb to x && ltb x (to + n) then m (from + (x - to)) else m x

pub kzalloc : Heap → ℕ → ℕ × Heap
kzalloc s size =
    let (ptr, s') = kmalloc s size in
    if ptr == 0 then (0, s') else (ptr, record s' { bytes = zero_bytes s'.bytes ptr size })

pub kfree : Heap → ℕ → Heap
kfree s ptr =
    let b = sub64 ptr heap_header_size in
    let freed =
      coalesce
        (record s {
          memory = put s.memory b (record (s.memory b) { free = true });
          used = sub64 s.used (s.memory b).size;
        })
        b in
    if ptr == 0
    then s
    else if not ((s.memory b).magic == heap_block_magic)
    then s
    else if (s.memory b).free
    then s
    else freed

pub move : ℕ → ℕ × Heap → ℕ × Heap
move ptr (to, s) =
    let size = (s.memory (sub64 ptr heap_header_size)).size in
    if to == 0
    then (0, s)
    else (to, kfree (record s { bytes = copy_bytes s.bytes to ptr size }) ptr)

pub krealloc : Heap → ℕ → ℕ → ℕ × Heap
unfolding move
krealloc s ptr new_size =
    let block = s.memory (sub64 ptr heap_header_size) in
    let moved = move ptr (kmalloc s new_size) in
    if ptr == 0
    then kmalloc s new_size
    else if new_size == 0
    then (0, kfree s ptr)
    else if not (block.magic == heap_block_magic)
    then (0, s)
    else if leb new_size block.size
    then (ptr, s)
    else moved
