-- ===== src/Fs/Paths/Parent.antt =====
-- What `..` makes of the buffer of `vfs_normalize` in src/fs/vfs.c.
use alcor2os.Base.{
  ℕ, ◌<◌, ◌≡◌, refl, ap, ◌∙◌, ◌≢◌, ◌⊎◌, inl, inr, false, List, [], ◌∷◌, ◌++◌, arith, lt→ltb, ne→==,
  length,
}
use alcor2os.Fs.Paths.{
  slash, dot, back_up, leave_segment, put_bytes, add_segment, next_segment, is_nil,
}

abbrev pub NoSlash : List ℕ → Type 0
NoSlash [] = Unit {0}
NoSlash (c ∷ s) = (c ≢ slash) × NoSlash s

put_bytes-append_out : (s x out : List ℕ) → put_bytes s (x ++ out) ≡ put_bytes s x ++ out
put_bytes-append_out [] x out = refl
put_bytes-append_out (c ∷ s) x out = put_bytes-append_out s (c ∷ x) out

put_bytes-NoSlash : (s x : List ℕ) → NoSlash s → NoSlash x → NoSlash (put_bytes s x)
put_bytes-NoSlash [] x h k = k
put_bytes-NoSlash (c ∷ s) x h k = put_bytes-NoSlash s (c ∷ x) h.1 (h.0, k)

-- Bytes that are not a slash are taken back up to the slash before them.
back_up-NoSlash :
    (x out : List ℕ) → NoSlash x → 0 < length out → back_up (x ++ slash ∷ out) ≡ slash ∷ out
unfolding back_up
back_up-NoSlash [] [] h k = absurd (omega arith)
back_up-NoSlash [] (d ∷ out) h k = refl
back_up-NoSlash (c ∷ []) out h k = rw (ne→== c slash h.0) (back_up-NoSlash [] out tt k)
back_up-NoSlash (c ∷ d ∷ x) out h k = rw (ne→== c slash h.0) (back_up-NoSlash (d ∷ x) out h.1 k)

leave-NoSlash :
    (x out : List ℕ)
    → is_nil x ≡ false
    → NoSlash x
    → 0 < length out
    → leave_segment (x ++ slash ∷ out) ≡ slash ∷ out
unfolding leave_segment
leave-NoSlash [] out e h k = absurd cc
leave-NoSlash (c ∷ []) out e h k = back_up-NoSlash [] out tt k
leave-NoSlash (c ∷ d ∷ x) out e h k = back_up-NoSlash (d ∷ x) out h.1 k

put_bytes-is_nil :
    (s x : List ℕ) → (is_nil s ≡ false) ⊎ (is_nil x ≡ false) → is_nil (put_bytes s x) ≡ false
put_bytes-is_nil [] x (inl e) = absurd cc
put_bytes-is_nil [] x (inr e) = e
put_bytes-is_nil (c ∷ s) x e = put_bytes-is_nil s (c ∷ x) (inr refl)

-- Where the normalised part of a path is longer than the root, adding a component without slashes
-- and then leaving it by '..' does not give that part back but the part with a slash behind it, to
-- which the next component adds its own slash.
pub next_segment_parent :
    (out seg : List ℕ)
    → 1 < length out
    → is_nil seg ≡ false
    → NoSlash seg
    → next_segment (add_segment out seg) (dot ∷ dot ∷ []) ≡ slash ∷ out
unfolding next_segment add_segment
next_segment_parent out seg h e n = rw (lt→ltb 1 (length out) h) (
    ap leave_segment (put_bytes-append_out seg [] (slash ∷ out))
    ∙ leave-NoSlash (put_bytes seg []) out (put_bytes-is_nil seg [] (inl e))
        (put_bytes-NoSlash seg [] n tt) (omega arith))
