-- ===== src/Storage.antt =====
-- cratetorrent/src/storage_info.rs: how the torrent's pieces lie in its files.
pub mod Layout
pub mod Intersect
pub mod Pieces
pub mod Within
mod Tests
use Prim.Native.String.{String}
use cratetorrent.Prelude.{
  ℕ, zero, suc, ◌+◌, ◌-◌, ◌%◌, ◌/◌, ◌^◌, Bool, not, ◌&&◌, Option, none, some, List, [], ◌∷◌,
  Checked, ret, panic, ◌>>=◌, ◌>>◌, assert, add_bits, mul_bits, sub_checked, ltb, leb, ◌==◌,
  if◌then◌else◌, length, drop, min,
}

pub record FileInfo : Type 0 where
  pub path : String
  pub len : ℕ
  pub torrent_offset : ℕ

pub record FileSlice : Type 0 where
  pub offset : ℕ
  pub len : ℕ

-- `Range<u64>` and `Range<usize>`.
pub record Range : Type 0 where
  pub start : ℕ
  pub end : ℕ

abbrev pub contains : Range → ℕ → Bool
contains r x = leb r.start x && ltb x r.end

unfoldable pub torrent_end_offset : FileInfo → Checked ℕ
torrent_end_offset f = add_bits 64 f.torrent_offset f.len

unfoldable pub byte_range : FileInfo → Checked Range
byte_range f = do end ← torrent_end_offset f; ret (record { start = f.torrent_offset; end = end })

unfoldable pub get_slice : FileInfo → ℕ → ℕ → Checked FileSlice
get_slice f torrent_offset len = do
  assert (leb f.torrent_offset torrent_offset)
  end ← torrent_end_offset f
  assert (ltb torrent_offset end)
  ret (record { offset = torrent_offset - f.torrent_offset; len = min len (end - torrent_offset) })

-- The part of `Metainfo` that the storage is computed from; `pieces_len` is the length of the
-- string of concatenated hashes.
pub record Metainfo : Type 0 where
  pub name : String
  pub pieces_len : ℕ
  pub piece_len : ℕ
  pub files : List FileInfo

-- `Metainfo::download_len`, the sum of the file lengths.
unfoldable pub download_len : List FileInfo → Checked ℕ
download_len [] = ret 0
download_len (f ∷ fs) = do rest ← download_len fs; add_bits 64 f.len rest

pub record StorageInfo : Type 0 where
  pub piece_count : ℕ
  pub piece_len : ℕ
  pub last_piece_len : ℕ
  pub download_len : ℕ
  pub download_dir : String
  pub files : List FileInfo

-- `Metainfo::is_archive` and `Metainfo::piece_count`.
unfoldable pub is_archive : Metainfo → Bool
is_archive m = ltb 1 (length m.files)

unfoldable pub piece_count : Metainfo → ℕ
piece_count m = m.pieces_len / 20

-- `StorageInfo::new`. Joining the torrent's name to the directory is `PathBuf::join`, an argument.
unfoldable pub new : (String → String → String) → Metainfo → String → Checked StorageInfo
new join m download_dir = do
  total ← download_len m.files
  before_last ← sub_checked (piece_count m) 1
  full ← mul_bits 64 m.piece_len before_last
  last_piece_len ← sub_checked total full
  ret (record {
    piece_count = piece_count m;
    piece_len = m.piece_len;
    last_piece_len = last_piece_len % 2 ^ 32;
    download_len = total;
    download_dir = if is_archive m then join download_dir m.name else download_dir;
    files = m.files;
  })

-- `piece_len` of one piece.
unfoldable pub piece_len : StorageInfo → ℕ → Checked ℕ
piece_len s index = do
  assert (ltb index s.piece_count)
  last ← sub_checked s.piece_count 1
  ret (if index == last then s.last_piece_len else s.piece_len)

unfoldable pub torrent_piece_offset : StorageInfo → ℕ → Checked ℕ
torrent_piece_offset s index = mul_bits 64 index s.piece_len

-- `iter().enumerate().find(…)`: the first file from index `i` on whose bytes hold `pos`.
unfoldable pub find_start : ℕ → List FileInfo → ℕ → Checked (Option ℕ)
find_start i [] pos = ret none
find_start i (f ∷ fs) pos =
    let rest = find_start (suc i) fs pos in
    do r ← byte_range f; if contains r pos then ret (some i) else rest

-- The loop over the files after the first match: `end` grows until a file starts outside the range.
unfoldable pub extend_end : ℕ → List FileInfo → Range → ℕ → ℕ
extend_end i [] r end = end
extend_end i (f ∷ fs) r end =
    let rest = extend_end (suc i) fs r (suc i) in
    if not (contains r f.torrent_offset) then end else rest

-- The file range from the first match on.
abbrev pub range_from : List FileInfo → Range → Option ℕ → Range
range_from files r none = record { start = 0; end = 0 }
range_from files r (some i) = record {
  start = i;
  end = extend_end (suc i) (drop (suc i) files) r (suc i);
}

unfoldable pub files_intersecting_bytes : List FileInfo → Range → Checked Range
files_intersecting_bytes files r = do
  assert (not (length files == 0))
  if length files == 1
      then ret (record { start = 0; end = 1 })
      else do first ← find_start 0 files r.start; ret (range_from files r first)

unfoldable pub files_intersecting_piece : StorageInfo → ℕ → Checked Range
files_intersecting_piece s index = do
  piece_offset ← mul_bits 64 index s.piece_len
  len ← piece_len s index
  piece_end ← add_bits 64 piece_offset len
  files_intersecting_bytes s.files (record { start = piece_offset; end = piece_end })
