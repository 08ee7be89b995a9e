-- ===== src/Sys/Pipe/Fifo.antt =====
-- A pipe of src/kernel/sys/pipe.c seen as a queue of bytes, and its reads and writes on that view.
use alcor2os.Base.{
  ℕ, zero, suc, ◌+◌, ◌-◌, ◌%◌, ◌≤◌, ◌<◌, ◌≡◌, refl, sym, ap, ◌∙◌, ◌⊎◌, inl, inr, true, false, not,
  ◌&&◌, Option, none, some, List, [], ◌∷◌, ◌++◌, arith, ltb, ◌==◌, if◌then◌else◌, ==_iff,
  Bool-cases, length, get_or, take, take-append_left, take_all,
}
use mathlib.Core.List.{append-nil}
use alcor2os.Base.Errno.{ok, err, ebadf}
use alcor2os.Base.Ring.{window, length-window, window-pop}
use alcor2os.Sys.Pipe.{
  Pipe, World, Read, copy_out, read_bytes, read_wait, read_block, cleared_reader, pipe_read_resume,
  pipe_read_obj, is_open,
}

pub record IsValid (p : Pipe) : Type 0 where
  pub sized : length p.buffer ≡ 4096
  pub read_in : p.read_pos < 4096
  pub write_at : p.write_pos ≡ (p.read_pos + p.count) % 4096
  pub bounded : p.count ≤ 4096

-- The bytes written and not yet read.
unfoldable pub contents : Pipe → List ℕ
contents p = window p.buffer 4096 p.read_pos p.count

pub length-contents : (p : Pipe) → length (contents p) ≡ p.count
unfolding contents
length-contents p = length-window p.buffer 4096 p.read_pos p.count

-- The copy to `dst` takes the window's first bytes.
record CopiedOut (buf : List ℕ) (n c h : ℕ) (out : List ℕ × ℕ) : Type 0 where
  bytes : window buf 4096 h c ≡ out.0 ++ window buf 4096 out.1 (c - n)
  number : length out.0 ≡ n
  index : out.1 < 4096
  end_index : (out.1 + (c - n)) % 4096 ≡ (h + c) % 4096

copy_out-CopiedOut :
    (buf : List ℕ) (n c h : ℕ)
    → h < 4096
    → n ≤ c
    → c ≤ 4096
    → CopiedOut buf n c h (copy_out n buf h)
unfolding copy_out
copy_out-CopiedOut buf zero c h l m o = record {
  bytes = ap (window buf 4096 h) (omega arith);
  number = refl;
  index = l;
  end_index = omega arith;
}
copy_out-CopiedOut buf (suc n) zero h l m o = absurd (omega arith)
copy_out-CopiedOut buf (suc n) (suc c) h l m o =
    let r : CopiedOut buf n c ((h + 1) % 4096) (copy_out n buf ((h + 1) % 4096)) =
      copy_out-CopiedOut buf n c ((h + 1) % 4096) (omega arith) (omega arith) (omega arith) in
    let k : suc c - suc n ≡ c - n = omega arith in
    record {
      bytes = rw (window-pop buf 4096 h c l (omega arith), k) (ap (◌∷◌ (get_or buf h 0)) r.bytes);
      number = ap suc r.number;
      index = r.index;
      end_index = omega (arith, r.end_index);
    }

-- What a read of `n` bytes does: it returns the oldest bytes and removes them, or refuses, or waits for
-- a writer at an empty pipe.
unfoldable pub Reads : World → ℕ → Read → Type 0
Reads w n (Read.returns r bytes w') =
    IsValid w'.pipe
    × (contents w.pipe ≡ bytes ++ contents w'.pipe)
    × (((r ≡ ok (length bytes)) × (bytes ≡ take n (contents w.pipe)))
        ⊎ ((r ≡ err ebadf) × (bytes ≡ []) × ((w.allocated ≡ false) ⊎ (w.read_open ≡ 0))))
Reads w n (Read.waits w') =
    IsValid w'.pipe × (contents w'.pipe ≡ contents w.pipe) × (w.count ≡ 0) × (0 < w.write_open)

-- As many bytes as were asked for, or all.
CopiedOut-take :
    (buf : List ℕ) (m n c h : ℕ) {out : List ℕ × ℕ}
    → m ≤ n
    → (m ≡ n) ⊎ (m ≡ c)
    → CopiedOut buf m c h out
    → out.0 ≡ take n (window buf 4096 h c)
unfolding window
CopiedOut-take buf m n c h {out} le (inl e) r =
    rw r.bytes (sym (take-append_left n out.0 (window buf 4096 out.1 (c - m)) (r.number ∙ e)))
CopiedOut-take buf m n c h {out} le (inr e) r =
    let z : c - m ≡ 0 = omega arith in
    let all : window buf 4096 h c ≡ out.0 =
      r.bytes ∙ ap (λ k. out.0 ++ window buf 4096 out.1 k) z ∙ append-nil out.0 in
    rw all (sym (take_all n out.0 (omega (arith, r.number))))

read_size : ℕ → ℕ → ℕ
read_size c n = if ltb c n then c else n

read_size_lem :
    (c n : ℕ)
    → (read_size c n ≤ n) × (read_size c n ≤ c) × ((read_size c n ≡ n) ⊎ (read_size c n ≡ c))
unfolding read_size
read_size_lem c n = ground arith

read_bytes-Reads : (w : World) (n : ℕ) → IsValid w.pipe → Reads w n (read_bytes w n)
unfolding read_bytes Reads contents window read_size
read_bytes-Reads w n v = elim (Bool-cases (w.count == 0)) [
  | inl z ↦
      let e : w.count ≡ 0 = (==_iff w.count 0).0 z in
      let empty : contents w.pipe ≡ [] = ap (window w.buffer 4096 w.read_pos) e in
      rw z (v, refl, inl (refl, sym (ap (take n) empty ∙ take_all n [] (omega arith))))
  | inr z ↦
      let m : ℕ = read_size w.count n in
      let f : (m ≤ n) × (m ≤ w.count) × ((m ≡ n) ⊎ (m ≡ w.count)) = read_size_lem w.count n in
      let r : CopiedOut w.buffer m w.count w.read_pos (copy_out m w.buffer w.read_pos) =
        copy_out-CopiedOut w.buffer m w.count w.read_pos v.read_in f.1 v.bounded in
      rw z (
        record {
          sized = v.sized;
          read_in = r.index;
          write_at = v.write_at ∙ sym r.end_index;
          bounded = omega (arith, v.bounded);
        },
        r.bytes,
        inl (ap ok (sym r.number), CopiedOut-take w.buffer m n w.count w.read_pos f.0 f.2 r),
      )
]

read_wait-Reads :
    (w : World) (me : Option ℕ) (n : ℕ) → IsValid w.pipe → Reads w n (read_wait w me n)
unfolding read_wait read_block Reads contents
read_wait-Reads w me n v = elim (Bool-cases (w.count == 0 && is_open w.write_open)) [
  | inl t ↦ rw t (go me t)
  | inr t ↦ rw t (read_bytes-Reads w n v)
]
  where
    go : (o : Option ℕ) → (w.count == 0 && is_open w.write_open) ≡ true → Reads w n (read_block w o)
    go none t = (v, refl, ground arith, ground arith)
    go (some q) t = (
      record { sized = v.sized; read_in = v.read_in; write_at = v.write_at; bounded = v.bounded },
      refl,
      ground arith,
      ground arith,
    )

-- A read of n bytes from a well-formed pipe keeps it well formed and returns the oldest bytes, at
-- most n, which leave the pipe, or EBADF with the pipe as it was, or waits at an empty pipe that
-- has a writer.
pub pipe_read_obj-Reads :
    (w : World) (me : Option ℕ) (n : ℕ) → IsValid w.pipe → Reads w n (pipe_read_obj w me n)
unfolding pipe_read_obj Reads contents window
pipe_read_obj-Reads w me n v = elim (Bool-cases (not w.allocated)) [
  | inl a ↦ rw a (v, refl, inr (refl, refl, inl (ground arith)))
  | inr a ↦ rw a (elim (Bool-cases (not (is_open w.read_open))) [
    | inl o ↦ rw o (v, refl, inr (refl, refl, inr (ground arith)))
    | inr o ↦ rw o (elim (Bool-cases (w.count == 0 && not (is_open w.write_open))) [
      | inl z ↦
          let e : w.count ≡ 0 = ground arith in
          let empty : contents w.pipe ≡ [] = ap (window w.buffer 4096 w.read_pos) e in
          rw z (v, refl, inl (refl, sym (ap (take n) empty ∙ take_all n [] (omega arith))))
      | inr z ↦ rw z (read_wait-Reads w me n v)
    ])
  ])
]

pub pipe_read_resume-Reads :
    (w : World) (me : Option ℕ) (n : ℕ) → IsValid w.pipe → Reads w n (pipe_read_resume w me n)
unfolding pipe_read_resume Reads contents
pipe_read_resume-Reads w none n v = read_wait-Reads w none n v
pipe_read_resume-Reads w (some q) n v =
    read_wait-Reads (cleared_reader w (some q)) (some q) n
      (record { sized = v.sized; read_in = v.read_in; write_at = v.write_at; bounded = v.bounded })
