-- ===== src/Disk/File/Whole.antt =====
-- What one system call leaves in the file, if it writes all that it is given.
use native.Mathlib.Decide.{dec_lt}
use cratetorrent.Prelude.{
  inl, inr, zero, [], ◌∷◌, ℕ, suc, ◌+◌, ◌^◌, ◌<◌, ◌≤◌, ◌≡◌, ◌∙◌, refl, ap, arith, ◌⊎◌, Option, none,
  some, List, ◌++◌, Checked, ret, panic, ◌>>=◌, ==_refl, lt→ltb, le→leb, leb, assert, ◌>>◌, length,
  take, get_elem?, subst,
}
use cratetorrent.Storage.{FileSlice}
use cratetorrent.IoVecs.{IoVec, IoVecs, bounded, as_slice}
use cratetorrent.IoVecs.Bytes.{flatten}
use cratetorrent.IoVecs.Bound.{first, SplitsAt, bounded_lem}
use cratetorrent.IoVecs.Boundary.{into_tail-TailOf, as_slice-first}
use cratetorrent.Disk.File.{
  FileApi, WriteResult, written, io_error, total_len, finish, after_call, write_loop, write,
}
use cratetorrent.Disk.File.Write.{
  LeftOver, IsLoopState, first-IsLoopState, total_len-flatten, is_empty-flatten,
}

pub take-all : (n : ℕ) (xs : List ℕ) → length xs ≤ n → take n xs ≡ xs
take-all zero [] h = refl
take-all zero (x ∷ xs) h = absurd (omega arith)
take-all (suc n) [] h = refl
take-all (suc n) (x ∷ xs) h = ap (λ ys. x ∷ ys) (take-all n xs (omega arith))

module _ (api : FileApi) where
  open api use {File, byte_at, pwritev}

  -- The bytes are in the file from the offset on, and all else is as before.
  abbrev pub Puts : File → List ℕ → ℕ → File → Type 0
  Puts f bytes offset f' =
      ((i : ℕ) → i < length bytes → byte_at f' (offset + i) ≡ get_elem? bytes i)
      × ((j : ℕ) → (j < offset) ⊎ (offset + length bytes ≤ j) → byte_at f' j ≡ byte_at f j)

  -- A call that does not fail has put some of the first bytes of the buffers at the offset.
  abbrev pub WritesFile : Type 0
  WritesFile =
      (f f' : File) (bufs : List IoVec) (offset n : ℕ)
      → pwritev f bufs offset ≡ some (f', n)
      → (n ≤ length (flatten bufs)) × Puts f (take n (flatten bufs)) offset f'

  -- A call for these bytes fails, with this consequence, or writes fewer of them.
  abbrev pub Stops : File → List ℕ → ℕ → Type 0 → Type 0
  Stops f bytes offset Failed =
      (bufs : List IoVec) × (flatten bufs ≡ bytes)
      × (((pwritev f bufs offset ≡ none) × Failed)
          ⊎ ((f' : File) × (n : ℕ) × (pwritev f bufs offset ≡ some (f', n)) × (n < length bytes)))

  -- The slice's bytes are in the file and the others are left over.
  abbrev pub Stores : List IoVec → FileSlice → File → Checked (WriteResult File) → Type 0
  Stores blocks slice f r =
      (f' : File) × (tail : List IoVec) × (r ≡ ret (written f' tail))
      × Puts f (take slice.len (flatten blocks)) slice.offset f'
      × LeftOver api blocks slice.len tail

  abbrev pub StoresOr : List IoVec → FileSlice → File → Checked (WriteResult File) → Type 0
  StoresOr blocks slice f r =
      Stores blocks slice f r
      ⊎ Stops f (take slice.len (flatten blocks)) slice.offset (r ≡ ret io_error)

  finish-Stores :
      (blocks : List IoVec) (slice : FileSlice) (f f' : File) (s : IoVecs)
      → IsLoopState api blocks slice.len s 0
      → Puts f (take slice.len (flatten blocks)) slice.offset f'
      → Stores blocks slice f (finish api f' s)
  finish-Stores blocks slice f f' s st p =
      let (tail, e, t) = into_tail-TailOf s st.valid in
      rw e (
        f',
        tail,
        refl,
        p,
        (t.again, t.bytes ∙ ap (λ ys. t.again ++ ys) st.behind, λ off. t.none_again (st.half off)),
      )

  call-Stores :
      WritesFile
      → (blocks : List IoVec) (slice : FileSlice) (f : File) (s : IoVecs) (bs : List IoVec)
      → (next : File → IoVecs → ℕ → Checked (WriteResult File)) → slice.len < 2 ^ 64
      → IsLoopState api blocks slice.len s 0
      → flatten bs ≡ first s
      → first s ≡ take slice.len (flatten blocks)
      → (r : Option (File × ℕ)) → pwritev f bs slice.offset ≡ r
      → StoresOr blocks slice f (after_call api next slice.len s 0 r)
  unfolding after_call
  call-Stores law blocks slice f s bs next fits st fl fst none e = inr (bs, fl ∙ fst, inl (e, refl))
  call-Stores law blocks slice f s bs next fits st fl fst (some (f', n)) e =
      let (most, put) = law f f' bs slice.offset n e in
      let left = st.left in
      let same = ap length fl in
      let bytes = ap length (fl ∙ fst) in
      elim (dec_lt n slice.len) [
        | yes short ↦ inr (bs, fl ∙ fst, inr (f', n, e, omega arith))
        | no all ↦
            let n_eq : 0 + n ≡ slice.len = omega arith in
            inl (
              rw n_eq (
                rw (lt→ltb slice.len (2 ^ 64) fits) (
                  rw (==_refl slice.len) (
                    finish-Stores blocks slice f f' s st (
                      subst (λ ys. Puts f ys slice.offset f')
                        (take-all n (flatten bs) (omega arith) ∙ fl ∙ fst) put)))))
      ]

  -- For a slice of at least one byte and no longer than the buffers, one round is enough for `write`,
  -- unless its call fails or writes less: the slice's bytes are in the file at the slice's offset, all
  -- other bytes of the file as before, and the bytes behind the slice left over, preceded by other
  -- bytes only if the slice ends on the boundary of two buffers.
  pub write_whole :
      WritesFile
      → (fuel : ℕ) (slice : FileSlice) (f : File) (blocks : List IoVec) → 0 < slice.len
      → slice.len ≤ length (flatten blocks)
      → slice.len < 2 ^ 64
      → StoresOr blocks slice f (write api (suc fuel) slice f blocks)
  unfolding write write_loop
  write_whole law fuel slice f blocks pos h fits =
      go (bounded blocks slice.len) refl (bounded_lem blocks slice.len pos)
    where
      go :
          (r : Checked IoVecs)
          → bounded blocks slice.len ≡ r
          → SplitsAt blocks slice.len r
          → StoresOr blocks slice f (
              r >>= λ s. as_slice s >>= λ bufs.
              (assert (leb (total_len bufs) slice.len) >> write_loop api (suc fuel) slice f s 0))
      go panic e a = absurd a
      go (ret s) e a =
          let st = first-IsLoopState api blocks slice.len s pos h e a in
          let (bs, eb, fl) = as_slice-first s st.valid in
          let left = st.left in
          let same = ap length fl in
          rw eb (
            rw (le→leb (total_len bs) slice.len (omega (arith, total_len-flatten bs))) (
              rw (is_empty-flatten bs (omega arith)) (
                call-Stores law blocks slice f s bs _ fits st fl a.0 (pwritev f bs slice.offset)
                  refl)))
