-- ===== src/Storage/Within.antt =====
-- A piece's offset, length and files, all at once; its files are files of the torrent.
use cratetorrent.Prelude.{
  ℕ, suc, ◌+◌, ◌*◌, ◌<◌, ◌≤◌, ◌≡◌, refl, arith, Option, none, some, List, [], ◌∷◌, false,
  Bool-cases, inl, inr, Checked, ret, panic, ◌>>=◌, IfReturns, IfReturns-after, mul_bits, add_bits,
  subst, not, ◌==◌, if◌then◌else◌, length, drop, length-drop,
}
use cratetorrent.Storage.{
  FileInfo, Range, StorageInfo, contains, find_start, extend_end, range_from, byte_range,
  files_intersecting_bytes, files_intersecting_piece, piece_len, torrent_piece_offset,
}
use cratetorrent.Storage.Intersect.{Intersects}
use cratetorrent.Storage.Pieces.{
  IsValid, PieceBytes, PieceFiles, piece_bytes_lem, files_intersecting_piece_lem,
}

extend_end_le :
    (i : ℕ) (fs : List FileInfo) (r : Range) (end n : ℕ)
    → end ≤ n
    → i + length fs ≤ n
    → extend_end i fs r end ≤ n
unfolding extend_end
extend_end_le i [] r end n h k = h
extend_end_le i (f ∷ fs) r end n h k = elim (Bool-cases (not (contains r f.torrent_offset))) [
  | inl e ↦ rw e h
  | inr e ↦ rw e (extend_end_le (suc i) fs r (suc i) n (omega arith) (omega arith))
]

-- The index that is found is that of a file.
abbrev FoundBelow : ℕ → Checked (Option ℕ) → Type 0
FoundBelow n panic = Unit
FoundBelow n (ret none) = Unit
FoundBelow n (ret (some i)) = i < n

find_start-FoundBelow :
    (i : ℕ) (fs : List FileInfo) (pos : ℕ) → FoundBelow (i + length fs) (find_start i fs pos)
unfolding find_start
find_start-FoundBelow i [] pos = tt
find_start-FoundBelow i (f ∷ fs) pos =
    let same : suc i + length fs ≡ i + suc (length fs) = omega arith in
    go (byte_range f) (
      subst (λ n. FoundBelow n (find_start (suc i) fs pos)) same
        (find_start-FoundBelow (suc i) fs pos))
  where
    go :
        (r : Checked Range)
        → FoundBelow (i + suc (length fs)) (find_start (suc i) fs pos)
        → FoundBelow
            (i + suc (length fs))
            (r >>= λ b. if contains b pos then ret (some i) else find_start (suc i) fs pos)
    go panic h = tt
    go (ret b) h = elim (Bool-cases (contains b pos)) [
      | inl e ↦ rw e (omega arith)
      | inr e ↦ rw e h
    ]

range_from-le :
    (files : List FileInfo) (r : Range) (res : Checked (Option ℕ))
    → FoundBelow (length files) res
    → IfReturns (λ out. out.end ≤ length files) (res >>= λ first. ret (range_from files r first))
range_from-le files r panic h = tt
range_from-le files r (ret none) h = omega arith
range_from-le files r (ret (some i)) h =
    extend_end_le (suc i) (drop (suc i) files) r (suc i) (length files) (omega arith)
      (omega (arith, length-drop (suc i) files))

files_intersecting_bytes-le :
    (files : List FileInfo) (r : Range)
    → IfReturns (λ out. out.end ≤ length files) (files_intersecting_bytes files r)
unfolding files_intersecting_bytes
files_intersecting_bytes-le [] r = tt
files_intersecting_bytes-le (f ∷ []) r = omega arith
files_intersecting_bytes-le (f ∷ g ∷ fs) r =
    let some_files : (suc (suc (length fs)) == 0) ≡ false = ground arith in
    let not_one : (suc (suc (length fs)) == 1) ≡ false = ground arith in
    let from_first : 0 + length (f ∷ g ∷ fs) ≡ length (f ∷ g ∷ fs) = omega arith in
    rw (some_files, not_one)
      (range_from-le (f ∷ g ∷ fs) r (find_start 0 (f ∷ g ∷ fs) r.start) (
        subst (λ n. FoundBelow n (find_start 0 (f ∷ g ∷ fs) r.start)) from_first
          (find_start-FoundBelow 0 (f ∷ g ∷ fs) r.start)))

files_intersecting_piece-le :
    (s : StorageInfo) (i : ℕ)
    → IfReturns (λ out. out.end ≤ length s.files) (files_intersecting_piece s i)
unfolding files_intersecting_piece
files_intersecting_piece-le s i =
    IfReturns-after (λ out. out.end ≤ length s.files) (mul_bits 64 i s.piece_len) _
      λ piece_offset.
        IfReturns-after (λ out. out.end ≤ length s.files) (piece_len s i) _
          λ len.
            IfReturns-after (λ out. out.end ≤ length s.files) (add_bits 64 piece_offset len) _
              λ piece_end.
                files_intersecting_bytes-le s.files
                  (record { start = piece_offset; end = piece_end })

-- A piece's place in the torrent and in the files.
pub record IsPlaced (s : StorageInfo) (i : ℕ) : Type 0 where
  pub len : ℕ
  pub range : Range
  pub offset_ret : torrent_piece_offset s i ≡ ret (i * s.piece_len)
  pub len_ret : piece_len s i ≡ ret len
  pub range_ret : files_intersecting_piece s i ≡ ret range
  pub some_len : 0 < len
  pub len_le : len ≤ s.piece_len
  pub inside : i * s.piece_len + len ≤ s.download_len
  pub intersects :
      Intersects s.files
        (record { start = i * s.piece_len; end = i * s.piece_len + len })
        (ret range)
  pub end_le : range.end ≤ length s.files

pub place : (s : StorageInfo) (i : ℕ) → IsValid s → i < s.piece_count → IsPlaced s i
place s i v h =
    go (torrent_piece_offset s i) (piece_len s i) (files_intersecting_piece s i) refl refl refl
      (piece_bytes_lem s i v h) (files_intersecting_piece_lem s i v h)
      (files_intersecting_piece-le s i)
  where
    go :
        (o l : Checked ℕ) (r : Checked Range)
        → torrent_piece_offset s i ≡ o
        → piece_len s i ≡ l
        → files_intersecting_piece s i ≡ r
        → PieceBytes s i o l
        → PieceFiles s i l r
        → IfReturns (λ out. out.end ≤ length s.files) r
        → IsPlaced s i
    go panic l r p q t b f e = absurd b
    go (ret o) panic r p q t b f e = absurd b
    go (ret o) (ret l) panic p q t b f e = absurd f
    go (ret o) (ret l) (ret r) p q t (at, pos, short, inside) f e = record {
      len = l;
      range = r;
      offset_ret = rw (← at) p;
      len_ret = q;
      range_ret = t;
      some_len = pos;
      len_le = short;
      inside = omega arith;
      intersects = f;
      end_le = e;
    }
