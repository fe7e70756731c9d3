-- ===== src/Disk/Torrent/Parts.antt =====
-- The parts of a piece that lie in the files that it overlaps with, and the write to one of them.
use cratetorrent.Prelude.{
  ℕ, zero, suc, ◌+◌, ◌-◌, ◌^◌, ◌<◌, ◌≤◌, min, max, ◌≡◌, ◌⊎◌, inl, inr, refl, sym, ap, ◌∙◌, arith,
  true, false, Bool-cases, ◌==◌, ==_iff, ==_refl, List, [], ◌∷◌, ◌++◌, map, All, Checked, ret,
  ◌>>=◌, lt→ltb, le→leb, length, take, drop, length-append,
}
use native.Mathlib.Decide.{dec_lt}
use cratetorrent.Storage.{FileInfo, FileSlice}
use cratetorrent.IoVecs.{IoVec}
use cratetorrent.IoVecs.Bytes.{flatten}
use cratetorrent.IoVecs.Boundary.{OnBoundary}
use cratetorrent.Disk.File.{FileApi, write}
use cratetorrent.Disk.File.Write.{LeftOver}
use cratetorrent.Disk.File.Whole.{Puts, Stops, StoresOr}
use cratetorrent.Disk.Read.Files.{get_slice-inside}
use cratetorrent.Disk.Piece.{buffered, Blocks}
use cratetorrent.Disk.Torrent.{SaveResult, saved, save_failed, keep_file, Files, write_files}

pub flatten-blocks : (bs : Blocks) → flatten (map (λ b. b.1) bs) ≡ buffered bs
unfolding buffered
flatten-blocks [] = refl
flatten-blocks ((o, bytes) ∷ bs) = ap (λ ys. bytes ++ ys) (flatten-blocks bs)

-- Whether a bound lies between two buffers.
pub on_boundary? : (bufs : List IoVec) (n : ℕ) → Dec (OnBoundary bufs n)
on_boundary? [] n = no (λ (k, h, e). omega arith)
on_boundary? (b ∷ []) n = no (λ (k, h, e). omega arith)
on_boundary? (b ∷ c ∷ bs) n = elim (dec_lt n (length b)) [
  | yes less ↦ no (λ (k, h, e). let l = length-append b (flatten (take k (c ∷ bs))) in omega arith)
  | no more ↦ elim (Bool-cases (n == length b)) [
    | inl at ↦
        let same = (==_iff n (length b)).0 at in
        yes (0, omega arith, omega (arith, length-append b []))
    | inr other ↦
        let far : n ≡ length b → ⊥ =
          λ e. not_same (sym (ap (λ k. k == length b) e ∙ ==_refl (length b)) ∙ other) in
        elim (on_boundary? (c ∷ bs) (n - length b)) [
          | yes (k, h, e) ↦ yes (
            suc k,
            omega arith,
            omega (arith, e, length-append b (flatten (take (suc k) (c ∷ bs)))),
          )
          | no off ↦ no (later off far)
        ]
  ]
]
  where
    not_same : true ≡ false → ⊥
    not_same e = cc

    later :
        (OnBoundary (c ∷ bs) (n - length b) → ⊥)
        → (n ≡ length b → ⊥)
        → OnBoundary (b ∷ c ∷ bs) n
        → ⊥
    later off far (zero, h, e) = far (omega (arith, e, length-append b []))
    later off far (suc k, h, e) =
        off (k, omega arith, omega (arith, e, length-append b (flatten (take (suc k) (c ∷ bs)))))

module _ (api : FileApi) (sha1 : List ℕ → List ℕ) where
  open api use {File}

  abbrev pub Fs : Type 0
  Fs = Files api sha1 false

  -- The files lie one after the other from `o`.
  abbrev pub ArePlaced : ℕ → Fs → Type 0
  ArePlaced o [] = Unit
  ArePlaced o ((info, f) ∷ fs) =
      (info.torrent_offset ≡ o) × (0 < info.len) × ArePlaced (o + info.len) fs

  abbrev pub size_of : Fs → ℕ
  size_of [] = 0
  size_of ((info, f) ∷ fs) = info.len + size_of fs

  abbrev pub FirstHas : ℕ → Fs → Type 0
  FirstHas offset [] = Unit
  FirstHas offset ((info, f) ∷ fs) = offset < info.torrent_offset + info.len

  abbrev pub AllBefore : ℕ → Fs → Type 0
  AllBefore end = All (λ x. x.0.torrent_offset < end)

  -- The files, the first of which starts at `o`, are those that have a byte of the range.
  pub record Spans (o offset len : ℕ) (fs : Fs) : Type 0 where
    pub placed : ArePlaced o fs
    pub after_start : o ≤ offset
    pub first_has : FirstHas offset fs
    pub all_before : AllBefore (offset + len) fs
    pub inside : offset + len ≤ o + size_of fs
    pub word : o + size_of fs < 2 ^ 64

  -- The bytes of a piece at `start` that lie in the file.
  abbrev pub part_of : ℕ → List ℕ → FileInfo → List ℕ
  part_of start content info =
      take ((info.torrent_offset + info.len) - max start info.torrent_offset)
        (drop (info.torrent_offset - start) content)

  -- Each file has its part at its place, and all other bytes as before.
  abbrev pub AllPut : ℕ → List ℕ → Fs → Fs → Type 0
  AllPut start content [] [] = Unit
  AllPut start content ((info, f) ∷ fs) ((i, f') ∷ fs') =
      (i ≡ info)
      × Puts api f (part_of start content info) (start - info.torrent_offset) f'
      × AllPut start content fs fs'
  AllPut start content _ _ = ⊥

  abbrev pub AreMore : Fs → Type 0
  AreMore [] = ⊥
  AreMore (x ∷ xs) = Unit

  -- The call for a file's part fails, with this consequence, or writes less; or the part ends on the
  -- boundary of two of the buffers that are left to write, and another file follows.
  abbrev pub Interrupts : ℕ → List ℕ → Fs → Type 0 → Type 0
  Interrupts start content [] Failed = ⊥
  Interrupts start content ((info, f) ∷ fs) Failed =
      (Stops api f (part_of start content info) (start - info.torrent_offset) Failed
        ⊎ ((bufs : List IoVec) × (flatten bufs ≡ drop (info.torrent_offset - start) content)
            × AreMore fs
            × OnBoundary bufs (length (part_of start content info))))
      ⊎ Interrupts start content fs Failed

  Interrupts-map :
      {A B : Type 0} (start : ℕ) (content : List ℕ) (fs : Fs)
      → (A → B)
      → Interrupts start content fs A
      → Interrupts start content fs B
  Interrupts-map {A = A} {B = B} start content [] g i = elim i [ ]
  Interrupts-map start content ((info, f) ∷ fs) g (inl (inl (bufs, same, inl (e, a)))) =
      inl (inl (bufs, same, inl (e, g a)))
  Interrupts-map start content ((info, f) ∷ fs) g (inl (inl (bufs, same, inr short))) =
      inl (inl (bufs, same, inr short))
  Interrupts-map start content ((info, f) ∷ fs) g (inl (inr bound)) = inl (inr bound)
  Interrupts-map start content ((info, f) ∷ fs) g (inr i) =
      inr (Interrupts-map start content fs g i)

  -- The outcome of the write of a piece.
  abbrev pub Saves : ℕ → List ℕ → Fs → Checked (SaveResult api sha1 false) → Type 0
  Saves start content fs r =
      ((fs' : Fs) × (r ≡ ret (saved fs')) × AllPut start content fs fs')
      ⊎ Interrupts start content fs (r ≡ ret save_failed)

  -- The step from one file to the next.
  pub after_first :
      (P : Checked (SaveResult api sha1 false) → Type 0)
      → (len offset total : ℕ) (bufs : List IoVec) (info : FileInfo) (f : File) (fs : Fs)
      → total ≤ len
      → info.torrent_offset ≤ offset
      → offset < info.torrent_offset + info.len
      → info.torrent_offset + info.len < 2 ^ 64
      → len < 2 ^ 64
      → (slice : FileSlice)
      → slice ≡ record {
        offset = offset - info.torrent_offset;
        len = min (len - total) ((info.torrent_offset + info.len) - offset);
      }
      → StoresOr api bufs slice f (write api slice.len slice f bufs)
      → ((f' : File) (tail : List IoVec)
          → Puts api f (take slice.len (flatten bufs)) slice.offset f'
          → LeftOver api bufs slice.len tail
          → P (
              write_files api sha1 false len (offset + slice.len) (total + slice.len) tail fs
              >>= λ r. ret (keep_file api sha1 false (info, f') r)))
      → (Stops api f
            (take slice.len (flatten bufs))
            slice.offset
            (write_files api sha1 false len offset total bufs ((info, f) ∷ fs) ≡ ret save_failed)
          → P (write_files api sha1 false len offset total bufs ((info, f) ∷ fs)))
      → P (write_files api sha1 false len offset total bufs ((info, f) ∷ fs))
  unfolding write_files
  after_first P len offset total bufs info f fs le ge lt fit fit' slice is
        (inl (f', tail, wr, puts, left)) k stopped =
      let sl = get_slice-inside info offset (len - total) ge lt fit ∙ ap ret (sym is) in
      let len_is = ap (λ x. x.len) is in
      rw (le→leb total len le) (
        rw sl (
          rw wr (
            rw (lt→ltb (offset + slice.len) (2 ^ 64) (omega arith))
              (rw (lt→ltb (total + slice.len) (2 ^ 64) (omega arith)) (k f' tail puts left)))))
  after_first P len offset total bufs info f fs le ge lt fit fit' slice is
        (inr (bs, same, inl (e, wr))) k stopped =
      let sl = get_slice-inside info offset (len - total) ge lt fit ∙ ap ret (sym is) in
      stopped (bs, same, inl (e, rw (le→leb total len le) (rw sl (rw wr refl))))
  after_first P len offset total bufs info f fs le ge lt fit fit' slice is
        (inr (bs, same, inr short)) k stopped =
      stopped (bs, same, inr short)

  pub keep-Saves :
      (start : ℕ) (content : List ℕ) (info : FileInfo) (f f' : File) (fs : Fs)
      → Puts api f (part_of start content info) (start - info.torrent_offset) f'
      → (r : Checked (SaveResult api sha1 false)) → Saves start content fs r
      → Saves start content
          ((info, f) ∷ fs)
          (r >>= λ x. ret (keep_file api sha1 false (info, f') x))
  keep-Saves start content info f f' fs puts r (inl (fs', e, put)) =
      rw e (inl ((info, f') ∷ fs', refl, (refl, puts, put)))
  keep-Saves start content info f f' fs puts r (inr stops) =
      inr (inr (Interrupts-map start content fs (λ e. rw e refl) stops))
