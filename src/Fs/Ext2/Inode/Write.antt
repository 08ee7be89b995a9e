-- ===== src/Fs/Ext2/Inode/Write.antt =====
-- Reading and writing an inode in src/fs/ext2.c, on all branches.
use alcor2os.Base.{
  ℕ, ◌+◌, ◌-◌, ◌≤◌, ◌<◌, ◌≡◌, refl, ◌∙◌, ◌≢◌, ◌⊎◌, inl, inr, Bool, false, ltb, Bool-cases, lt→ltb,
  le→ltb, le→leb, ltb→lt, ltb→le, arith,
}
use native.Mathlib.Decide.{ℕ_discrete}
use alcor2os.Base.Errno.{Errno, Result, ok, err, einval, eio, enomem}
use alcor2os.Fs.Ext2.{Bytes, Ext2, Faults, contents, vol_read_block, vol_write_block, tick}
use alcor2os.Fs.Ext2.Disk.{contents-write_self, contents-write_torn, contents-write_ne, lt→leb}
use alcor2os.Fs.Ext2.Counted.{with_disk}
use alcor2os.Fs.Ext2.TakeBit.{Fails}
use alcor2os.Fs.Ext2.Allocate.{Works, Works-Fails, later-Works}
use alcor2os.Fs.Ext2.Inode.{
  inode_bytes, inode_block, inode_offset, copy_into, read_inode, write_inode,
}
use alcor2os.Fs.Ext2.Inode.Stored.{stored, Tables, IsInode, block-Reachable, offset-le, same_block}

-- The bytes of every other inode are as they were.
abbrev pub OtherInodes : Ext2 → ℕ → Ext2 → Type 0
OtherInodes s ino t =
    (n i : ℕ) → IsInode s.vol n → n ≢ ino → i < inode_bytes → stored t n i ≡ stored s n i

copy_into_at :
    (m : Bytes) (o : ℕ) (b : Bytes) (i : ℕ) → i < inode_bytes → copy_into m o b (o + i) ≡ b i
copy_into_at m o b i h =
    let e : o + i - o ≡ i = omega arith in
    rw (le→leb o (o + i) (omega arith), lt→ltb (o + i) (o + inode_bytes) (omega arith), e)

copy_into_out :
    (m : Bytes) (o : ℕ) (b : Bytes) (j : ℕ)
    → (j < o) ⊎ (o + inode_bytes ≤ j)
    → copy_into m o b j ≡ m j
copy_into_out m o b j (inl l) = rw (lt→leb o j l)
copy_into_out m o b j (inr g) = rw (le→leb o j (omega arith), le→ltb j (o + inode_bytes) g)

module _ (f : Faults) (s : Ext2) (t : Tables s.vol) (ino : ℕ) (h : IsInode s.vol ino)
    (b : Bytes) where
  abbrev buffer : Bytes
  buffer = copy_into (contents s (inode_block s.vol ino)) (inode_offset s.vol ino) b

  abbrev w : Bool × Ext2
  w = vol_write_block f (tick (tick s)) (inode_block s.vol ino) buffer

  write-stored :
      f.write_fails (s.calls + 1 + 1) ≡ false
      → (i : ℕ) → i < inode_bytes
      → stored (with_disk s w.1.disk w.1.calls) ino i ≡ b i
  unfolding contents vol_write_block
  write-stored e i l =
      contents-write_self f (tick (tick s)) (inode_block s.vol ino) buffer
        (inode_offset s.vol ino + i) (omega (arith, offset-le s.vol t ino, t.whole, l)) e
      ∙ copy_into_at (contents s (inode_block s.vol ino)) (inode_offset s.vol ino) b i l

  -- Also where the write fails.
  write-OtherInodes : OtherInodes s ino (with_disk s w.1.disk w.1.calls)
  unfolding contents vol_write_block
  write-OtherInodes n i hn ne l = elim (ℕ_discrete (inode_block s.vol n) (inode_block s.vol ino)) [
    | no nb ↦
        contents-write_ne f (tick (tick s)) (inode_block s.vol ino) buffer (inode_block s.vol n)
          (inode_offset s.vol n + i) nb (block-Reachable s.vol t n hn)
          (block-Reachable s.vol t ino h) (omega (arith, offset-le s.vol t n, t.whole, l))
    | yes e ↦
        rw e
          (elim (contents-write_torn f (tick (tick s)) (inode_block s.vol ino) buffer
            (inode_offset s.vol n + i) (omega (arith, offset-le s.vol t n, t.whole, l))) [
              | inl x ↦
                  x
                  ∙ copy_into_out (contents s (inode_block s.vol ino)) (inode_offset s.vol ino) b
                      (inode_offset s.vol n + i)
                      (elim (same_block s.vol t n ino hn h ne e) [
                        | inl y ↦ inl (omega arith)
                        | inr y ↦ inr (omega arith)
                      ])
              | inr x ↦ x
            ])
  ]

-- How a read of an inode ends: with its bytes, or an error, and nothing is changed.
pub data ReadsInode (f : Faults) (s : Ext2) (ino : ℕ) : Result Bytes × Ext2 → Type 0 where
  bytes :
      (c : ℕ)
      → s.calls ≤ c
      → IsInode s.vol ino
      → ReadsInode f s ino (ok (stored s ino), with_disk s s.disk c)
  bad_number : (ino < 1) ⊎ (s.vol.inodes_count < ino) → ReadsInode f s ino (err einval, s)
  read_fails :
      (e : Errno) (c : ℕ)
      → Fails f s.calls c
      → (e ≡ enomem) ⊎ (e ≡ eio)
      → ReadsInode f s ino (err e, with_disk s s.disk c)

pub read_inode-ReadsInode :
    (f : Faults) (s : Ext2) (ino : ℕ) → ReadsInode f s ino (read_inode f s ino)
unfolding read_inode vol_read_block contents
read_inode-ReadsInode f s ino = elim (Bool-cases (ltb ino 1)) [
  | inl y ↦ rw y (bad_number (inl (ltb→lt ino 1 y)))
  | inr n ↦ rw n (elim (Bool-cases (ltb s.vol.inodes_count ino)) [
    | inl y ↦ rw y (bad_number (inr (ltb→lt s.vol.inodes_count ino y)))
    | inr k ↦ rw k (elim (Bool-cases (f.no_memory s.calls)) [
      | inl y ↦
          rw y
            (read_fails enomem (s.calls + 1) (s.calls, omega arith, omega arith, inl y) (inl refl))
      | inr q ↦ rw q (elim (Bool-cases (f.read_fails (s.calls + 1))) [
        | inl y ↦ rw y (
            read_fails eio (s.calls + 1 + 1) (s.calls + 1, omega arith, omega arith, inr (inl y))
              (inr refl))
        | inr u ↦ rw u (
            bytes (s.calls + 1 + 1) (omega arith)
              (record { low = ltb→le ino 1 n; high = ltb→le s.vol.inodes_count ino k }))
      ])
    ])
  ])
]

-- How a write ends: the inode has the bytes, and every other is as it was; or an error, and every other
-- inode is as it was.
pub data WritesInode (f : Faults) (s : Ext2) (ino : ℕ) (b : Bytes)
    : Result (Unit {0}) × Ext2 → Type 0 where
  written :
      (d : ℕ → Bytes) (c : ℕ)
      → s.calls ≤ c
      → IsInode s.vol ino
      → ((i : ℕ) → i < inode_bytes → stored (with_disk s d c) ino i ≡ b i)
      → OtherInodes s ino (with_disk s d c)
      → WritesInode f s ino b (ok tt, with_disk s d c)
  no_inode : (ino < 1) ⊎ (s.vol.inodes_count < ino) → WritesInode f s ino b (err einval, s)
  write_fails :
      (e : Errno) (d : ℕ → Bytes) (c : ℕ)
      → Fails f s.calls c
      → (e ≡ enomem) ⊎ (e ≡ eio)
      → OtherInodes s ino (with_disk s d c)
      → WritesInode f s ino b (err e, with_disk s d c)

pub write_inode-WritesInode :
    (f : Faults) (s : Ext2) (ino : ℕ) (b : Bytes)
    → Tables s.vol
    → WritesInode f s ino b (write_inode f s ino b)
unfolding write_inode vol_read_block contents vol_write_block
write_inode-WritesInode f s ino b t = elim (Bool-cases (ltb ino 1)) [
  | inl y ↦ rw y (no_inode (inl (ltb→lt ino 1 y)))
  | inr n ↦ rw n (elim (Bool-cases (ltb s.vol.inodes_count ino)) [
    | inl y ↦ rw y (no_inode (inr (ltb→lt s.vol.inodes_count ino y)))
    | inr k ↦
        let h : IsInode s.vol ino = record {
          low = ltb→le ino 1 n;
          high = ltb→le s.vol.inodes_count ino k;
        } in
        let x : Bool × Ext2 = w f s t ino h b in
        rw k (elim (Bool-cases (f.no_memory s.calls)) [
          | inl y ↦ rw y (
              write_fails enomem s.disk (s.calls + 1) (s.calls, omega arith, omega arith, inl y)
                (inl refl) (λ m i hm ne l. refl))
          | inr q ↦ rw q (elim (Bool-cases (f.read_fails (s.calls + 1))) [
            | inl y ↦ rw y (
                write_fails eio s.disk (s.calls + 1 + 1)
                  (s.calls + 1, omega arith, omega arith, inr (inl y)) (inr refl)
                  (λ m i hm ne l. refl))
            | inr u ↦ rw u (elim (Bool-cases (f.write_fails (s.calls + 1 + 1))) [
              | inl y ↦ rw y (
                  write_fails eio x.1.disk x.1.calls
                    (s.calls + 1 + 1, omega arith, omega arith, inr (inr y)) (inr refl)
                    (write-OtherInodes f s t ino h b))
              | inr z ↦ rw z (
                  written x.1.disk x.1.calls (omega arith) h (write-stored f s t ino h b z)
                    (write-OtherInodes f s t ino h b))
            ])
          ])
        ])
  ])
]

-- The inode was written, and a read behind it finds its bytes, and those of the others as they were.
pub record ReadsBack (f : Faults) (s : Ext2) (ino : ℕ) (b : Bytes) (r : Result (Unit {0}) × Ext2)
    : Type 0 where
  pub done : r.0 ≡ ok tt
  pub got : Bytes
  pub reads : (read_inode f r.1 ino).0 ≡ ok got
  pub same : (i : ℕ) → i < inode_bytes → got i ≡ b i
  pub others : OtherInodes s ino r.1

read-bytes :
    (f : Faults) (s : Ext2) (ino : ℕ) {r : Result Bytes × Ext2}
    → Works f s.calls
    → IsInode s.vol ino
    → ReadsInode f s ino r
    → r.0 ≡ ok (stored s ino)
read-bytes f s ino w h (bytes c l x) = refl
read-bytes f s ino w h (bad_number x) =
    absurd (elim x [ inl y ↦ omega (arith, h.low) | inr y ↦ omega (arith, h.high) ])
read-bytes f s ino w h (read_fails e c x y) = absurd (Works-Fails f s.calls c w x)

writes-ReadsBack :
    (f : Faults) (s : Ext2) (ino : ℕ) (b : Bytes) {r : Result (Unit {0}) × Ext2}
    → Works f s.calls
    → IsInode s.vol ino
    → WritesInode f s ino b r
    → ReadsBack f s ino b r
writes-ReadsBack f s ino b w h (written d c l x same others) = record {
  done = refl;
  got = stored (with_disk s d c) ino;
  reads =
      read-bytes f (with_disk s d c) ino (later-Works f s.calls c l w) h
        (read_inode-ReadsInode f (with_disk s d c) ino);
  same = same;
  others = others;
}
writes-ReadsBack f s ino b w h (no_inode x) =
    absurd (elim x [ inl y ↦ omega (arith, h.low) | inr y ↦ omega (arith, h.high) ])
writes-ReadsBack f s ino b w h (write_fails e d c x y z) = absurd (Works-Fails f s.calls c w x)

-- Where the inode tables of the groups do not overlap and no later call fails, write_inode of an
-- inode of the volume succeeds, a read_inode behind it answers the bytes that were written, and the
-- bytes of every other inode are as they were.
pub read_inode-write_inode :
    (f : Faults) (s : Ext2) (ino : ℕ) (b : Bytes)
    → Tables s.vol
    → Works f s.calls
    → IsInode s.vol ino
    → ReadsBack f s ino b (write_inode f s ino b)
read_inode-write_inode f s ino b t w h =
    writes-ReadsBack f s ino b w h (write_inode-WritesInode f s ino b t)
