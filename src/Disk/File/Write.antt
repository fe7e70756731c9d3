-- ===== src/Disk/File/Write.antt =====
-- The loop of `TorrentFile::write` ends, and what it leaves in the file and in the buffers.
use cratetorrent.Prelude.{
  ℕ, zero, suc, ◌+◌, ◌^◌, ◌<◌, ◌≤◌, ◌≡◌, ◌∙◌, refl, ap, arith, false, inl, inr, Bool-cases, Option,
  none, some, List, [], ◌∷◌, ◌++◌, Checked, ret, panic, ◌>>=◌, ◌==◌, lt→ltb, le→leb, leb, assert,
  ◌>>◌, length, length-append, length-take, length-drop, drop,
}
use cratetorrent.Storage.{FileSlice}
use cratetorrent.IoVecs.{IoVec, IoVecs, bounded, as_slice, advance}
use cratetorrent.IoVecs.Bytes.{flatten}
use cratetorrent.IoVecs.Bound.{first, rest, IsValid, SplitsAt, bounded_lem}
use cratetorrent.IoVecs.Cursor.{Advances, advance_lem}
use cratetorrent.IoVecs.Boundary.{
  OnBoundary, HasHalf, bounded-HasHalf, into_tail-TailOf, advance-HasHalf, as_slice-first,
}
use cratetorrent.Disk.File.{
  FileApi, WriteResult, written, io_error, out_of_fuel, total_len, is_empty, finish, after_call,
  write_loop, write,
}

pub total_len-flatten : (bs : List IoVec) → total_len bs ≡ length (flatten bs)
total_len-flatten [] = refl
total_len-flatten (b ∷ bs) = omega (arith, total_len-flatten bs, length-append b (flatten bs))

pub is_empty-flatten : (bs : List IoVec) → 0 < length (flatten bs) → is_empty bs ≡ false
is_empty-flatten [] h = absurd (omega arith)
is_empty-flatten (b ∷ bs) h = refl

module _ (api : FileApi) where
  open api use {File, byte_at, pwritev}

  -- A call that does not fail writes at least one byte, and no more than it is given.
  abbrev pub MakesProgress : Type 0
  MakesProgress =
      (f f' : File) (bufs : List IoVec) (offset n : ℕ)
      → pwritev f bufs offset ≡ some (f', n)
      → 0 < length (flatten bufs)
      → (0 < n) × (n ≤ length (flatten bufs))

  -- The buffers left over: the bytes from the bound on, and before them what comes again.
  abbrev pub LeftOver : List IoVec → ℕ → List IoVec → Type 0
  LeftOver blocks len tail =
      (again : List ℕ) × (flatten tail ≡ again ++ drop len (flatten blocks))
      × ((OnBoundary blocks len → ⊥) → again ≡ [])

  abbrev pub Ends : List IoVec → ℕ → Checked (WriteResult File) → Type 0
  Ends blocks len panic = ⊥
  Ends blocks len (ret (written f tail)) = LeftOver blocks len tail
  Ends blocks len (ret io_error) = Unit
  Ends blocks len (ret out_of_fuel) = ⊥

  -- The state of the loop: what is left to write of the first `len` bytes, and what is behind it.
  pub record IsLoopState (blocks : List IoVec) (len : ℕ) (s : IoVecs) (total : ℕ) : Type 0 where
    pub valid : IsValid s
    pub left : length (first s) + total ≡ len
    pub some_left : 0 < length (first s)
    pub behind : rest s ≡ drop len (flatten blocks)
    pub half : (OnBoundary blocks len → ⊥) → HasHalf s.split

  finish-Ends :
      (blocks : List IoVec) (len : ℕ) (f : File) (s : IoVecs) (total : ℕ)
      → IsLoopState blocks len s total
      → Ends blocks len (finish api f s)
  finish-Ends blocks len f s total st =
      let (tail, e, t) = into_tail-TailOf s st.valid in
      rw e
        (t.again, t.bytes ∙ ap (λ ys. t.again ++ ys) st.behind, λ off. t.none_again (st.half off))

  -- After an advance by fewer bytes than are left, the loop goes on.
  advance-IsLoopState :
      (blocks : List IoVec) (len : ℕ) (s s' : IoVecs) (total n : ℕ)
      → IsLoopState blocks len s total
      → n < length (first s)
      → advance s n ≡ ret s'
      → Advances s n (ret s')
      → IsLoopState blocks len s' (total + n)
  advance-IsLoopState blocks len s s' total n st lt e (fst', rst', v) =
      let l = ap length fst' ∙ length-drop n (first s) in
      let old = st.left in
      record {
        valid = v;
        left = omega arith;
        some_left = omega arith;
        behind = rst' ∙ st.behind;
        half = λ off. advance-HasHalf s s' n e (st.half off);
      }

  loop-Ends :
      MakesProgress
      → (blocks : List IoVec) (slice : FileSlice) → slice.len < 2 ^ 64
      → (fuel : ℕ) (f : File) (s : IoVecs) (total : ℕ) → IsLoopState blocks slice.len s total
      → length (first s) ≤ fuel
      → Ends blocks slice.len (write_loop api fuel slice f s total)
  unfolding write_loop after_call
  loop-Ends progress blocks slice fits zero f s total st h =
      let some_left = st.some_left in absurd (omega arith)
  loop-Ends progress blocks slice fits (suc fuel) f s total st h =
      let (bs, e, fl) = as_slice-first s st.valid in
      let some_left = st.some_left in
      let same = ap length fl in
      rw e (
        rw (is_empty-flatten bs (omega arith)) (
          called (λ f' s' total'. loop-Ends progress blocks slice fits fuel f' s' total') bs same
            (pwritev f bs slice.offset) refl))
    where
      GoesOn : Type 0
      GoesOn =
          (f' : File) (s' : IoVecs) (total' : ℕ)
          → IsLoopState blocks slice.len s' total'
          → length (first s') ≤ fuel
          → Ends blocks slice.len (write_loop api fuel slice f' s' total')

      go_on :
          GoesOn
          → (f' : File) (n : ℕ) (r : Checked IoVecs) → 0 < n
          → n < length (first s)
          → advance s n ≡ r
          → Advances s n r
          → Ends blocks slice.len (r >>= λ s'. write_loop api fuel slice f' s' (total + n))
      go_on again f' n panic pos lt e a = a
      go_on again f' n (ret s') pos lt e a =
          let (fst', _, _) = a in
          let l = ap length fst' ∙ length-drop n (first s) in
          again f' s' (total + n) (advance-IsLoopState blocks slice.len s s' total n st lt e a)
            (omega arith)

      called :
          GoesOn
          → (bs : List IoVec) → length (flatten bs) ≡ length (first s)
          → (r : Option (File × ℕ)) → pwritev f bs slice.offset ≡ r
          → Ends blocks slice.len (
              after_call api
                (λ f' s' total'. write_loop api fuel slice f' s' total')
                slice.len
                s
                total
                r)
      called again bs same none e = tt
      called again bs same (some (f', n)) e =
          let some_left = st.some_left in
          let left = st.left in
          let (pos, most) = progress f f' bs slice.offset n e (omega arith) in
          rw (lt→ltb (total + n) (2 ^ 64) (omega arith))
            (elim (Bool-cases ((total + n) == slice.len)) [
              | inl q ↦ rw q (finish-Ends blocks slice.len f' s total st)
              | inr q ↦ rw q (
                  let lt : n < length (first s) = ground arith in
                  go_on again f' n (advance s n) pos lt refl
                    (advance_lem s n st.valid (omega arith)))
            ])

  pub first-IsLoopState :
      (blocks : List IoVec) (len : ℕ) (s : IoVecs)
      → 0 < len
      → len ≤ length (flatten blocks)
      → bounded blocks len ≡ ret s
      → SplitsAt blocks len (ret s)
      → IsLoopState blocks len s 0
  first-IsLoopState blocks len s pos h e (fst, rst, v) =
      let l = ap length fst ∙ length-take len (flatten blocks) in
      record {
        valid = v;
        left = omega arith;
        some_left = omega arith;
        behind = rst;
        half = λ off. bounded-HasHalf blocks len s pos off e;
      }

  -- Where each call of `pwritev` that does not fail makes progress, for a slice of at least one byte and
  -- no longer than the buffers, as many rounds as it has bytes are enough for `write`: it ends with an
  -- I/O error, or with buffers that hold the bytes behind the slice, preceded by other bytes only if
  -- the slice ends on the boundary of two buffers.
  pub write_lem :
      MakesProgress
      → (fuel : ℕ) (slice : FileSlice) (f : File) (blocks : List IoVec) → 0 < slice.len
      → slice.len ≤ length (flatten blocks)
      → slice.len < 2 ^ 64
      → slice.len ≤ fuel
      → Ends blocks slice.len (write api fuel slice f blocks)
  unfolding write
  write_lem progress fuel slice f blocks pos h fits enough =
      go (bounded blocks slice.len) refl (bounded_lem blocks slice.len pos)
    where
      go :
          (r : Checked IoVecs)
          → bounded blocks slice.len ≡ r
          → SplitsAt blocks slice.len r
          → Ends blocks slice.len (
              r >>= λ s. as_slice s >>= λ bufs.
              (assert (leb (total_len bufs) slice.len) >> write_loop api fuel slice f s 0))
      go panic e a = a
      go (ret s) e a =
          let st = first-IsLoopState blocks slice.len s pos h e a in
          let (bs, eb, fl) = as_slice-first s st.valid in
          let left = st.left in
          let same = ap length fl in
          rw eb (
            rw (le→leb (total_len bs) slice.len (omega (arith, total_len-flatten bs)))
              (loop-Ends progress blocks slice fits fuel f s 0 st (omega arith)))
