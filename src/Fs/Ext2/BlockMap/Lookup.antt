-- ===== src/Fs/Ext2/BlockMap/Lookup.antt =====
-- `get_block_num` of src/fs/ext2.c against the tree of pointers that an inode is.
use alcor2os.Base.{
  ℕ, ◌+◌, ◌-◌, ◌*◌, ◌/◌, ◌%◌, ◌≤◌, ◌<◌, ◌≡◌, refl, ◌∙◌, subst, inl, inr, ◌==◌, if◌then◌else◌,
  Bool-cases, lt→ltb, le→ltb, arith,
}
use native.Mathlib.Nat.{
  mul-add-div_right, mul-add-mod_self_right, div-eq_of_lt, mod-eq_of_lt, mul-le-mul_right, mod-lt,
  div-add-mod', div-lt_iff_lt-mul,
}
use native.Mathlib.Decide.{dec_lt}
use alcor2os.Fs.Ext2.{Ext2, Faults, u32_mod, contents, vol_read_block}
use alcor2os.Fs.Ext2.Counted.{with_disk}
use alcor2os.Fs.Ext2.TakeBit.{Fails}
use alcor2os.Fs.Ext2.BlockMap.{
  Inode, u32_at, load, get_double, get_triple, get_block_num, ptrs_per_block,
}

-- A leaf of the tree, by the way to it.
pub data Place : Type 0 where
  direct : ℕ → Place
  single : ℕ → Place
  double : ℕ → ℕ → Place
  triple : ℕ → ℕ → ℕ → Place

-- Each step of the way is one of the `n` pointers of its block.
unfoldable pub InTree : ℕ → Place → Type 0
InTree n (direct i) = i < 12
InTree n (single i) = i < n
InTree n (double i j) = (i < n) × (j < n)
InTree n (triple i j k) = (i < n) × (j < n) × (k < n)

-- The number of the leaf in the file: the leaves in their order.
unfoldable pub index : ℕ → Place → ℕ
index n (direct i) = i
index n (single i) = 12 + i
index n (double i j) = 12 + n + (i * n + j)
index n (triple i j k) = 12 + n + n * n + (i * (n * n) + (j * n + k))

-- The pointer `k` of a block of pointers, of which 0 stands for none.
abbrev pub follow : Ext2 → ℕ → ℕ → ℕ
follow s b k = if b == 0 then 0 else u32_at (contents s b) k

unfoldable pub target : Ext2 → Inode → Place → ℕ
target s inode (direct i) = inode.i_block i
target s inode (single i) = follow s (inode.i_block 12) i
target s inode (double i j) = follow s (follow s (inode.i_block 13) i) j
target s inode (triple i j k) = follow s (follow s (follow s (inode.i_block 14) i) j) k

-- A lookup that answers `b`, or 0 since a call fails, and changes nothing.
pub data Answers (f : Faults) (s : Ext2) (b : ℕ) : ℕ × Ext2 → Type 0 where
  answer : (c : ℕ) → s.calls ≤ c → Answers f s b (b, with_disk s s.disk c)
  no_answer : (c : ℕ) → Fails f s.calls c → Answers f s b (0, with_disk s s.disk c)

load-Answers : (f : Faults) (s : Ext2) (b k : ℕ) → Answers f s (follow s b k) (load f s b k)
unfolding load vol_read_block contents
load-Answers f s b k = elim (Bool-cases (b == 0)) [
  | inl y ↦ rw y (answer s.calls (omega arith))
  | inr n ↦ rw n (elim (Bool-cases (f.no_memory s.calls)) [
    | inl y ↦ rw y (no_answer (s.calls + 1) (s.calls, omega arith, omega arith, inl y))
    | inr q ↦ rw q (elim (Bool-cases (f.read_fails (s.calls + 1))) [
      | inl y ↦
          rw y (no_answer (s.calls + 1 + 1) (s.calls + 1, omega arith, omega arith, inr (inl y)))
      | inr u ↦ rw u (answer (s.calls + 1 + 1) (omega arith))
    ])
  ])
]

later-Answers :
    (f : Faults) (s : Ext2) (c b : ℕ) {r : ℕ × Ext2}
    → s.calls ≤ c
    → Answers f (with_disk s s.disk c) b r
    → Answers f s b r
later-Answers f s c b l (answer c' m) = answer c' (omega arith)
later-Answers f s c b l (no_answer c' (k, m, h, x)) = no_answer c' (k, omega arith, h, x)

-- A step down behind a lookup.
then_load-Answers :
    (f : Faults) (s : Ext2) (b k : ℕ) {r : ℕ × Ext2}
    → Answers f s b r
    → Answers f s (follow s b k) (load f r.1 r.0 k)
unfolding load contents
then_load-Answers f s b k (answer c l) =
    later-Answers f s c (follow s b k) l (load-Answers f (with_disk s s.disk c) b k)
then_load-Answers f s b k (no_answer c x) = no_answer c x

digit : (n i j : ℕ) → j < n → ((i * n + j) / n ≡ i) × ((i * n + j) % n ≡ j)
digit n i j l = (
  mul-add-div_right (omega arith) i j ∙ omega (arith, div-eq_of_lt l),
  mul-add-mod_self_right i n j ∙ mod-eq_of_lt l,
)

pair-lt : (n m j k : ℕ) → j < m → k < n → j * n + k < m * n
pair-lt n m j k l h = let e : (j + 1) * n ≤ m * n = mul-le-mul_right n (omega arith) in omega arith

module _ (f : Faults) (s : Ext2) (inode : Inode) (n : ℕ) where
  get_double-Answers :
      (i j : ℕ)
      → j < n
      → Answers f s (target s inode (double i j)) (get_double f s inode n (i * n + j))
  unfolding get_double target
  get_double-Answers i j l =
      let d = digit n i j l in
      rw (d.0, d.1)
        (then_load-Answers f s (follow s (inode.i_block 13) i) j
          (load-Answers f s (inode.i_block 13) i))

  get_triple-Answers :
      (i j k : ℕ)
      → j < n
      → k < n
      → Answers f s
          (target s inode (triple i j k))
          (get_triple f s inode n (n * n) (i * (n * n) + (j * n + k)))
  unfolding get_triple target
  get_triple-Answers i j k l m =
      let d = digit (n * n) i (j * n + k) (pair-lt n n j k l m) in
      let e = digit n j k m in
      rw (d.0, d.1, e.0, e.1)
        (then_load-Answers f s (follow s (follow s (inode.i_block 14) i) j) k (
          then_load-Answers f s (follow s (inode.i_block 14) i) j
            (load-Answers f s (inode.i_block 14) i)))

pub get_block_num-Answers :
    (f : Faults) (s : Ext2) (inode : Inode) (p : Place)
    → ptrs_per_block s.vol * ptrs_per_block s.vol < u32_mod
    → InTree (ptrs_per_block s.vol) p
    → Answers f s (target s inode p) (get_block_num f s inode (index (ptrs_per_block s.vol) p))
unfolding get_block_num target index InTree
get_block_num-Answers f s inode (direct i) u l = rw (lt→ltb i 12 l) (answer s.calls (omega arith))
get_block_num-Answers f s inode (single i) u l =
    let e : 12 + i - 12 ≡ i = omega arith in
    rw (le→ltb (12 + i) 12 (omega arith), e, lt→ltb i (ptrs_per_block s.vol) l)
      (load-Answers f s (inode.i_block 12) i)
get_block_num-Answers f s inode (double i j) u l =
    let n = ptrs_per_block s.vol in
    let x = i * n + j in
    let e : 12 + n + x - 12 - n ≡ x = omega arith in
    let m : n * n % u32_mod ≡ n * n = mod-eq_of_lt u in
    rw
      (
        le→ltb (12 + n + x) 12 (omega arith),
        le→ltb (12 + n + x - 12) n (omega arith),
        e,
        m,
        lt→ltb x (n * n) (pair-lt n n i j l.0 l.1),
      )
      (get_double-Answers f s inode n i j l.1)
get_block_num-Answers f s inode (triple i j k) u l =
    let n = ptrs_per_block s.vol in
    let x = i * (n * n) + (j * n + k) in
    let e : 12 + n + n * n + x - 12 - n ≡ n * n + x = omega arith in
    let e' : n * n + x - n * n ≡ x = omega arith in
    let m : n * n % u32_mod ≡ n * n = mod-eq_of_lt u in
    rw
      (
        le→ltb (12 + n + n * n + x) 12 (omega arith),
        le→ltb (12 + n + n * n + x - 12) n (omega arith),
        e,
        m,
        le→ltb (n * n + x) (n * n) (omega arith),
        e',
      )
      (get_triple-Answers f s inode n i j k l.1 l.2)

-- The numbers of the places with the same number of steps are `base` on.
divide : (n x m : ℕ) → x < m * n → (i : ℕ) × (j : ℕ) × (i < m) × (j < n) × (i * n + j ≡ x)
divide n x m h = elim (dec_lt 0 n) [
  | yes p ↦ (x / n, x % n, (div-lt_iff_lt-mul p).1 h, mod-lt x p, div-add-mod' x n)
  | no z ↦
      let e : n ≡ 0 = omega arith in let k : m * n ≡ 0 = rw e (omega arith) in absurd (omega arith)
]

-- Each block of a file that is not too long has its place.
pub index_onto :
    (n x : ℕ) → x < 12 + n + n * n + n * (n * n) → (p : Place) × InTree n p × (index n p ≡ x)
unfolding index InTree
index_onto n x h = elim (dec_lt x 12) [
  | yes l ↦ (direct x, l, refl)
  | no a ↦ elim (dec_lt x (12 + n)) [
    | yes l ↦ (single (x - 12), omega arith, omega arith)
    | no b ↦ elim (dec_lt x (12 + n + n * n)) [
      | yes l ↦
          let q = divide n (x - 12 - n) n (omega arith) in
          (double q.0 q.1, (q.2, q.3), omega (arith, q.4))
      | no c ↦
          let q = divide (n * n) (x - 12 - n - n * n) n (omega arith) in
          let r = divide n q.1 n q.3 in
          (triple q.0 r.0 r.1, (q.2, r.2, r.3), omega (arith, q.4, r.4))
    ]
  ]
]

-- For a block of a file that is within the reach of three levels of pointers, where the square of
-- the pointers in a block is below 2^32, get_block_num answers the pointer at the place in the tree
-- of pointers whose number in the order of the places is that block, or 0 since a call failed, and
-- changes nothing.
pub get_block_num-Finds :
    (f : Faults) (s : Ext2) (inode : Inode) (file_block : ℕ)
    → ptrs_per_block s.vol * ptrs_per_block s.vol < u32_mod
    → file_block
      < 12
        + ptrs_per_block s.vol
        + ptrs_per_block s.vol * ptrs_per_block s.vol
        + ptrs_per_block s.vol * (ptrs_per_block s.vol * ptrs_per_block s.vol)
    → (p : Place) × InTree (ptrs_per_block s.vol) p
      × (index (ptrs_per_block s.vol) p ≡ file_block)
      × Answers f s (target s inode p) (get_block_num f s inode file_block)
get_block_num-Finds f s inode x u h =
    let q = index_onto (ptrs_per_block s.vol) x h in
    (
      q.0,
      q.1,
      q.2,
      subst (λ z. Answers f s (target s inode q.0) (get_block_num f s inode z)) q.2
          (get_block_num-Answers f s inode q.0 u q.1),
    )
