-- ===== src/Fs/Ext2/TakeBit.antt =====
-- The step on a bitmap of src/fs/ext2.c that its allocations share, and the one its releases share.
use alcor2os.Base.{
  ℕ, ◌+◌, ◌*◌, ◌/◌, ◌≤◌, ◌<◌, ◌≡◌, refl, sym, ◌∙◌, ◌≢◌, ◌⊎◌, inl, inr, Bool, true, false, Option,
  none, some, Bool-cases, arith,
}
use native.Mathlib.Decide.{ℕ_discrete}
use alcor2os.Base.Errno.{Result, ok, err, eio, enomem}
use alcor2os.Fs.Ext2.{
  Bytes, Ext2, Faults, u32_mod, sectors_per_block, contents, vol_read_block, vol_write_block, tick,
  bitmap_set, bitmap_clear, bitmap_test, write_taken, take_bit, drop_bit,
}
use alcor2os.Fs.Ext2.Bitmap.{
  Full, FirstClear, found, full, test-set_self, test-set_ne, test-clear_self, test-clear_ne,
  test_of_bytes, bitmap_find_clear-FirstClear,
}
use alcor2os.Fs.Ext2.Disk.{Reachable, contents-write_self, contents-write_torn, contents-write_ne}
use alcor2os.Fs.Ext2.Counted.{with_disk}

-- The bit `j` of the block `a` on the drive.
abbrev pub disk_bit : Ext2 → ℕ → ℕ → Bool
disk_bit s a j = bitmap_test (contents s a) j

abbrev pub bits_per_block : Ext2 → ℕ
bits_per_block s = sectors_per_block s.vol * 4096

-- Every bit but `i` of the block `at` is as it was.
abbrev pub OneBit : Ext2 → ℕ → ℕ → Ext2 → Type 0
OneBit s at i t =
    (a j : ℕ)
    → Reachable s.vol a
    → j < bits_per_block s
    → (a ≢ at) ⊎ (j ≢ i)
    → disk_bit t a j ≡ disk_bit s a j

-- Some call from the `a`th on and before the `b`th fails.
abbrev pub Fails : Faults → ℕ → ℕ → Type 0
Fails f a b =
    (n : ℕ) × (a ≤ n)
    × (n < b)
    × ((f.no_memory n ≡ true) ⊎ (f.read_fails n ≡ true) ⊎ (f.write_fails n ≡ true))

module _ (f : Faults) (s : Ext2) (at : ℕ) (m : Bytes) (i : ℕ) where
  -- A write of a bitmap that differs at `i` only changes no other bit, also where it fails.
  write-OneBit :
      Reachable s.vol at
      → ((j : ℕ) → j ≢ i → bitmap_test m j ≡ disk_bit s at j)
      → OneBit s at i (vol_write_block f s at m).1
  write-OneBit r same a j ra lj o = elim (ℕ_discrete a at) [
    | no ne ↦
        test_of_bytes (contents (vol_write_block f s at m).1 a) (contents s a) j
          (contents-write_ne f s at m a (j / 8) ne ra r (omega arith))
    | yes e ↦
        let nj : j ≢ i = elim o [ inl ne ↦ absurd (ne e) | inr ne ↦ ne ] in
        rw e (elim (contents-write_torn f s at m (j / 8) (omega arith)) [
          | inl n ↦ test_of_bytes (contents (vol_write_block f s at m).1 at) m j n ∙ same j nj
          | inr n ↦ test_of_bytes (contents (vol_write_block f s at m).1 at) (contents s at) j n
        ])
  ]

  write_bit :
      i < bits_per_block s
      → f.write_fails s.calls ≡ false
      → disk_bit (vol_write_block f s at m).1 at i ≡ bitmap_test m i
  write_bit l e =
      test_of_bytes (contents (vol_write_block f s at m).1 at) m i
        (contents-write_self f s at m (i / 8) (omega arith) e)

-- How an attempt to take a bit of the block `at` ends, whatever fails.
pub data TakesBit (f : Faults) (s : Ext2) (at size : ℕ) : Option ℕ × Ext2 → Type 0 where
  took :
      (i : ℕ) (d : ℕ → Bytes) (c : ℕ)
      → s.calls ≤ c
      → i < size
      → disk_bit s at i ≡ false
      → disk_bit (with_disk s d c) at i ≡ true
      → OneBit s at i (with_disk s d c)
      → TakesBit f s at size (some i, with_disk s d c)
  all_set :
      (c : ℕ)
      → s.calls ≤ c
      → Full (contents s at) 0 size
      → TakesBit f s at size (none, with_disk s s.disk c)
  not_read : (c : ℕ) → Fails f s.calls c → TakesBit f s at size (none, with_disk s s.disk c)
  not_written :
      (i : ℕ) (d : ℕ → Bytes) (c : ℕ)
      → Fails f s.calls c
      → disk_bit s at i ≡ false
      → OneBit s at i (with_disk s d c)
      → TakesBit f s at size (none, with_disk s d c)

write_taken-TakesBit :
    {o : Option ℕ} (f : Faults) (s : Ext2) (at size : ℕ)
    → Reachable s.vol at
    → size ≤ bits_per_block s
    → FirstClear (contents s at) 0 size o
    → TakesBit f s at size (write_taken f (tick (tick s)) at (contents s at) o)
unfolding write_taken contents vol_write_block
write_taken-TakesBit f s at size r h (full all) = all_set _ (omega arith) all
write_taken-TakesBit f s at size r h (found i lo l e before) =
    let w : Bool × Ext2 = vol_write_block f (tick (tick s)) at (bitmap_set (contents s at) i) in
    let one : OneBit s at i (with_disk s w.1.disk w.1.calls) =
      write-OneBit f (tick (tick s)) at (bitmap_set (contents s at) i) i r
        (λ j ne. test-set_ne (contents s at) i j (λ g. ne (sym g))) in
    elim (Bool-cases (f.write_fails (s.calls + 1 + 1))) [
      | inl y ↦ rw y (
          not_written i w.1.disk w.1.calls (s.calls + 1 + 1, omega arith, omega arith, inr (inr y))
            e one)
      | inr n ↦ rw n (
          took i w.1.disk w.1.calls (omega arith) l e
            (write_bit f (tick (tick s)) at (bitmap_set (contents s at) i) i (omega arith) n
              ∙ test-set_self (contents s at) i)
            one)
    ]

pub take_bit-TakesBit :
    (f : Faults) (s : Ext2) (at size : ℕ)
    → Reachable s.vol at
    → size ≤ bits_per_block s
    → size + 7 < u32_mod
    → TakesBit f s at size (take_bit f s at size)
unfolding take_bit vol_read_block contents
take_bit-TakesBit f s at size r h u = elim (Bool-cases (f.no_memory s.calls)) [
  | inl y ↦ rw y (not_read (s.calls + 1) (s.calls, omega arith, omega arith, inl y))
  | inr n ↦ rw n (elim (Bool-cases (f.read_fails (s.calls + 1))) [
    | inl y ↦ rw y (not_read (s.calls + 1 + 1) (s.calls + 1, omega arith, omega arith, inr (inl y)))
    | inr k ↦
        rw k (
          write_taken-TakesBit f s at size r h
            (bitmap_find_clear-FirstClear (contents s at) size u))
  ])
]

-- How an attempt to clear a bit of the block `at` ends.
pub data DropsBit (f : Faults) (s : Ext2) (at i : ℕ) : Result (Unit {0}) × Ext2 → Type 0 where
  dropped :
      (d : ℕ → Bytes) (c : ℕ)
      → s.calls ≤ c
      → disk_bit (with_disk s d c) at i ≡ false
      → OneBit s at i (with_disk s d c)
      → DropsBit f s at i (ok tt, with_disk s d c)
  no_buffer : (c : ℕ) → Fails f s.calls c → DropsBit f s at i (err enomem, with_disk s s.disk c)
  io_error :
      (d : ℕ → Bytes) (c : ℕ)
      → Fails f s.calls c
      → OneBit s at i (with_disk s d c)
      → DropsBit f s at i (err eio, with_disk s d c)

pub drop_bit-DropsBit :
    (f : Faults) (s : Ext2) (at i : ℕ)
    → Reachable s.vol at
    → i < bits_per_block s
    → DropsBit f s at i (drop_bit f s at i)
unfolding drop_bit vol_read_block contents vol_write_block
drop_bit-DropsBit f s at i r h =
    let w : Bool × Ext2 = vol_write_block f (tick (tick s)) at (bitmap_clear (contents s at) i) in
    let one : OneBit s at i (with_disk s w.1.disk w.1.calls) =
      write-OneBit f (tick (tick s)) at (bitmap_clear (contents s at) i) i r
        (λ j ne. test-clear_ne (contents s at) i j (λ g. ne (sym g))) in
    elim (Bool-cases (f.no_memory s.calls)) [
      | inl y ↦ rw y (no_buffer (s.calls + 1) (s.calls, omega arith, omega arith, inl y))
      | inr n ↦ rw n (elim (Bool-cases (f.read_fails (s.calls + 1))) [
        | inl y ↦ rw y (
            io_error s.disk (s.calls + 1 + 1) (s.calls + 1, omega arith, omega arith, inr (inl y))
              (λ a j ra lj o. refl))
        | inr k ↦ rw k (elim (Bool-cases (f.write_fails (s.calls + 1 + 1))) [
          | inl y ↦ rw y (
              io_error w.1.disk w.1.calls (s.calls + 1 + 1, omega arith, omega arith, inr (inr y))
                one)
          | inr q ↦ rw q (
              dropped w.1.disk w.1.calls (omega arith)
                (write_bit f (tick (tick s)) at (bitmap_clear (contents s at) i) i h q
                  ∙ test-clear_self (contents s at) i)
                one)
        ])
      ])
    ]
