-- ===== src/Storage/Pieces.antt =====
-- `StorageInfo::new` and the lengths and offsets of pieces.
use Prim.Native.String.{String}
use cratetorrent.Prelude.{
  ℕ, zero, suc, ◌+◌, ◌-◌, ◌*◌, ◌/◌, ◌%◌, ◌^◌, ◌<◌, ◌≤◌, ◌≡◌, refl, List, [], ◌∷◌, arith, Checked,
  ret, panic, lt→ltb, if◌then◌else◌, ◌>>=◌, le→leb, ◌==◌, Bool-cases, inl, inr, ◌⊎◌, add_bits,
}
use native.Mathlib.Nat.{mul_comm}
use native.Mathlib.Decide.{ℕ_discrete}
use cratetorrent.Storage.{
  FileInfo, Range, Metainfo, StorageInfo, download_len, new, piece_len, piece_count, is_archive,
  torrent_piece_offset, files_intersecting_bytes, files_intersecting_piece,
}
use cratetorrent.Storage.Layout.{IsLaidOut, sum_len}
use cratetorrent.Storage.Intersect.{Intersects, files_intersecting_bytes_lem}

-- The pieces make up the files: all but the last have the nominal length, and the last the rest.
pub record IsValid (s : StorageInfo) : Type 0 where
  pub laid_out : IsLaidOut 0 s.files
  pub all_files : sum_len s.files ≡ s.download_len
  pub fits : s.download_len < 2 ^ 64
  pub some_piece : 0 < s.piece_count
  pub whole : (s.piece_count - 1) * s.piece_len + s.last_piece_len ≡ s.download_len
  pub last_some : 0 < s.last_piece_len
  pub last_le : s.last_piece_len ≤ s.piece_len
  pub word : s.piece_len < 2 ^ 32

-- The hashes are as many as the pieces that the files' bytes take.
pub record IsConsistent (m : Metainfo) : Type 0 where
  pub laid_out : IsLaidOut 0 m.files
  pub fits : sum_len m.files < 2 ^ 64
  pub word : m.piece_len < 2 ^ 32
  pub enough : sum_len m.files ≤ (m.pieces_len / 20) * m.piece_len
  pub needed : (m.pieces_len / 20 - 1) * m.piece_len < sum_len m.files

download_len-sum : (fs : List FileInfo) → sum_len fs < 2 ^ 64 → download_len fs ≡ ret (sum_len fs)
unfolding download_len
download_len-sum [] h = refl
download_len-sum (f ∷ fs) h =
    rw (download_len-sum fs (omega arith)) (rw (lt→ltb (f.len + sum_len fs) (2 ^ 64) h))

-- What `StorageInfo::new` may return for a metainfo.
abbrev pub NewOutcome : Metainfo → Checked StorageInfo → Type 0
NewOutcome m panic = ⊥
NewOutcome m (ret s) =
    IsValid s
    × (s.files ≡ m.files)
    × (s.piece_len ≡ m.piece_len)
    × (s.piece_count ≡ m.pieces_len / 20)

last_fits : (n p total : ℕ) → 0 < n → total ≤ n * p → (n - 1) * p < total → total - (n - 1) * p ≤ p
last_fits zero p total h e k = elim h [ ]
last_fits (suc n) p total h e k = grind arith

pieces_pos : (n p total : ℕ) → total ≤ n * p → (n - 1) * p < total → 0 < n
pieces_pos zero p total h k = grind arith
pieces_pos (suc n) p total h k = omega arith

-- For a metainfo whose files lie one after the other and whose hashes are as many as its pieces,
-- `StorageInfo::new` does not panic: the pieces have the nominal length but for the last, whose
-- length is from 1 to that, and together they make up the files.
pub new_lem :
    (join : String → String → String) (m : Metainfo) (dir : String)
    → IsConsistent m
    → NewOutcome m (new join m dir)
unfolding new piece_count
new_lem join m dir c =
    let n = m.pieces_len / 20 in
    let total = sum_len m.files in
    let pos = pieces_pos n m.piece_len total c.enough c.needed in
    let comm = mul_comm (n - 1) m.piece_len in
    let last = last_fits n m.piece_len total pos c.enough c.needed in
    rw (download_len-sum m.files c.fits) (
      rw (le→leb 1 n pos) (
        rw (lt→ltb (m.piece_len * (n - 1)) (2 ^ 64) (omega (arith, comm, c.needed, c.fits))) (
          rw (le→leb (m.piece_len * (n - 1)) total (omega (arith, comm, c.needed)))
            (rec pos comm last, refl, refl, refl))))
  where
    rec :
        0 < m.pieces_len / 20
        → (m.pieces_len / 20 - 1) * m.piece_len ≡ m.piece_len * (m.pieces_len / 20 - 1)
        → sum_len m.files - (m.pieces_len / 20 - 1) * m.piece_len ≤ m.piece_len
        → IsValid (record {
          piece_count = piece_count m;
          piece_len = m.piece_len;
          last_piece_len = (sum_len m.files - m.piece_len * (piece_count m - 1)) % 2 ^ 32;
          download_len = sum_len m.files;
          download_dir = if is_archive m then join dir m.name else dir;
          files = m.files;
        })
    rec pos comm last = record {
      laid_out = c.laid_out;
      all_files = refl;
      fits = c.fits;
      some_piece = pos;
      whole = omega (arith, comm, last, c.needed, c.word);
      last_some = omega (arith, comm, last, c.needed, c.word);
      last_le = omega (arith, comm, last, c.needed, c.word);
      word = c.word;
    }

-- A metainfo with no piece hash panics, since the code takes one from the count.
new_no_pieces :
    (join : String → String → String) (m : Metainfo) (dir : String)
    → m.pieces_len < 20
    → new join m dir ≡ panic
unfolding new piece_count
new_no_pieces join m dir h = ground arith

-- What the piece at an index is, by its bytes in the torrent.
abbrev pub PieceBytes : StorageInfo → ℕ → Checked ℕ → Checked ℕ → Type 0
PieceBytes s i (ret offset) (ret len) =
    (offset ≡ i * s.piece_len) × (0 < len) × (len ≤ s.piece_len) × (offset + len ≤ s.download_len)
PieceBytes s i _ _ = ⊥

mul_step : (i k p : ℕ) → i < k → i * p + p ≤ k * p
mul_step i k p h = grind arith

piece_inside :
    (i n p last total : ℕ)
    → i < n
    → (n - 1) * p + last ≡ total
    → last ≤ p
    → (i * p + last ≤ total) × ((i ≡ n - 1) ⊎ (i * p + p ≤ total))
piece_inside i n p last total h e k = elim (ℕ_discrete i (n - 1)) [
  | yes e' ↦ (rw e' (omega arith), inl e')
  | no ne ↦ let m = mul_step i (n - 1) p (omega arith) in (omega arith, inr (omega arith))
]

-- On a valid storage and for an index below the piece count, `piece_len` and `torrent_piece_offset`
-- do not panic: the piece has at least one byte and at most the nominal length, starts at the index
-- times that length, and ends inside the torrent.
pub piece_bytes_lem :
    (s : StorageInfo) (i : ℕ)
    → IsValid s
    → i < s.piece_count
    → PieceBytes s i (torrent_piece_offset s i) (piece_len s i)
unfolding torrent_piece_offset piece_len
piece_bytes_lem s i v h =
    let inside =
      piece_inside i s.piece_count s.piece_len s.last_piece_len s.download_len h v.whole
        v.last_le in
    rw (lt→ltb (i * s.piece_len) (2 ^ 64) (omega (arith, inside, v.fits))) (
      rw (lt→ltb i s.piece_count h) (
        rw (le→leb 1 s.piece_count (omega arith)) (elim (Bool-cases (i == (s.piece_count - 1))) [
          | inl e ↦ rw e (ground (arith, inside, v.last_some, v.last_le))
          | inr e ↦ rw e (ground (arith, inside, v.last_some, v.last_le))
        ])))

-- The files of a piece are those that have a byte of it.
abbrev pub PieceFiles : StorageInfo → ℕ → Checked ℕ → Checked Range → Type 0
PieceFiles s i (ret len) out =
    Intersects s.files (record { start = i * s.piece_len; end = i * s.piece_len + len }) out
PieceFiles s i panic out = ⊥

-- On a valid storage and for an index below the piece count, `files_intersecting_piece` does not
-- panic, and a file's index is in the returned range exactly if the file has a byte of the piece.
pub files_intersecting_piece_lem :
    (s : StorageInfo) (i : ℕ)
    → IsValid s
    → i < s.piece_count
    → PieceFiles s i (piece_len s i) (files_intersecting_piece s i)
unfolding files_intersecting_piece torrent_piece_offset
files_intersecting_piece_lem s i v h =
    go (torrent_piece_offset s i) (piece_len s i) (piece_bytes_lem s i v h)
  where
    go :
        (o l : Checked ℕ)
        → PieceBytes s i o l
        → PieceFiles s i l (do
          piece_offset ← o
          len ← l
          piece_end ← add_bits 64 piece_offset len
          files_intersecting_bytes s.files (record { start = piece_offset; end = piece_end }))
    go panic l b = absurd b
    go (ret o) panic b = absurd b
    go (ret o) (ret l) (at, pos, short, inside) = rw at (
        rw (lt→ltb (i * s.piece_len + l) (2 ^ 64) (omega (arith, v.fits))) (
          files_intersecting_bytes_lem s.files
            (record { start = i * s.piece_len; end = i * s.piece_len + l }) v.laid_out
            (omega (arith, v.all_files, v.fits)) (omega arith) (omega (arith, v.all_files))))
