-- ===== src/Disk/Torrent.antt =====
-- The write buffer of a torrent, cratetorrent/src/disk/io/torrent.rs, and `Piece::write` of piece.rs.
-- The `HashMap` of the pieces in progress is the list of its entries. The read cache is left out. The
-- worker thread that a complete piece is handed to is a function of its own, `save_piece`.
pub mod Buffer
pub mod Parts
pub mod Saved
mod Tests
use cratetorrent.Prelude.{
  ℕ, ◌+◌, ◌-◌, ◌*◌, Bool, true, false, not, Option, none, some, List, [], ◌∷◌, ◌++◌, map, Checked,
  ret, panic, ◌>>=◌, ◌>>◌, assert, expect, add_bits, mul_bits, sub_checked, ltb, leb, ◌==◌,
  if◌then◌else◌, length, take, drop,
}
use cratetorrent.Block.{BlockInfo}
use cratetorrent.Storage.{
  StorageInfo, FileInfo, FileSlice, Range, get_slice, piece_len, torrent_piece_offset,
  files_intersecting_piece,
}
use cratetorrent.Download.{debug_assert}
use cratetorrent.IoVecs.{IoVec}
use cratetorrent.Disk.Piece.{Piece, Blocks, enqueue_block, is_complete, matches_hash}
use cratetorrent.Disk.File.{FileApi, WriteResult, written, io_error, out_of_fuel, write, is_empty}

-- A piece in progress with the range of the files that it intersects.
abbrev pub Entry : Type 0
Entry = Piece × Range

abbrev pub WriteBuf : Type 0
WriteBuf = List (ℕ × Entry)

-- `HashMap::get`, `insert` and `remove`.
abbrev pub find : WriteBuf → ℕ → Option Entry
find [] i = none
find ((j, e) ∷ buf) i = if j == i then some e else find buf i

abbrev pub put : WriteBuf → ℕ → Entry → WriteBuf
put [] i e = (i, e) ∷ []
put ((j, d) ∷ buf) i e = if j == i then (i, e) ∷ buf else (j, d) ∷ put buf i e

abbrev pub remove : WriteBuf → ℕ → WriteBuf
remove [] i = []
remove ((j, d) ∷ buf) i = if j == i then buf else (j, d) ∷ remove buf i

pub record Torrent : Type 0 where
  pub info : StorageInfo
  pub write_buf : WriteBuf
  pub piece_hashes : List ℕ

-- The entry that `start_new_piece` makes.
unfoldable pub new_entry : Torrent → ℕ → Checked Entry
new_entry t i = do
  assert (ltb i t.info.piece_count)
  hash_pos ← mul_bits 64 i 20
  hash_end ← add_bits 64 hash_pos 20
  assert (leb hash_end (length t.piece_hashes))
  len ← piece_len t.info i
  file_range ← files_intersecting_piece t.info i
  ret (
    record { expected_hash = take 20 (drop hash_pos t.piece_hashes); len = len; blocks = [] },
    file_range,
  )

-- The entry of the piece, new if there was none.
abbrev pub started : Torrent → ℕ → Option Entry → Checked Entry
started t i none = new_entry t i
started t i (some e) = ret e

-- `write_block` up to the worker thread: the torrent, and the piece that the thread is given.
unfoldable pub write_block : Torrent → BlockInfo → List ℕ → Checked (Torrent × Option Entry)
write_block t info bytes = do
  (p, files) ← started t info.piece_index (find t.write_buf info.piece_index)
  let p' = enqueue_block p info.offset bytes
  ret (
      if is_complete p'
      then (record t { write_buf = remove t.write_buf info.piece_index }, some (p', files))
      else (record t { write_buf = put t.write_buf info.piece_index (p', files) }, none))

module _ (api : FileApi) (sha1 : List ℕ → List ℕ) (dev : Bool) where
  open api use {File}

  abbrev pub Files : Type 0
  Files = List (FileInfo × File)

  -- The outcome of a write of a piece: the files after it, an error, or, for a write to a file that
  -- makes no progress, none yet.
  pub data SaveResult : Type 0 where
    saved : Files → SaveResult
    save_failed : SaveResult
    save_pending : SaveResult

  abbrev pub keep_file : FileInfo × File → SaveResult → SaveResult
  keep_file f (saved fs) = saved (f ∷ fs)
  keep_file f save_failed = save_failed
  keep_file f save_pending = save_pending

  -- The first buffer is there and has a byte.
  abbrev pub starts_with_byte : List IoVec → Bool
  starts_with_byte [] = false
  starts_with_byte (b ∷ bs) = not (length b == 0)

  -- What comes after the write to one file.
  abbrev pub after_file :
      (List IoVec → Checked SaveResult) → FileInfo → WriteResult File → Checked SaveResult
  after_file next info (written f tail) = do r ← next tail; ret (keep_file (info, f) r)
  after_file next info io_error = ret save_failed
  after_file next info out_of_fuel = ret save_pending

  -- The loop of `Piece::write` over the files that the piece overlaps with.
  unfoldable pub write_files : ℕ → ℕ → ℕ → List IoVec → Files → Checked SaveResult
  write_files len offset total bufs [] = do debug_assert dev (is_empty bufs); ret (saved [])
  write_files len offset total bufs ((info, f) ∷ fs) = do
    debug_assert dev (ltb total len)
    remaining ← sub_checked len total
    slice ← get_slice info offset remaining
    debug_assert dev (ltb 0 slice.len)
    debug_assert dev (starts_with_byte bufs)
    r ← write api slice.len slice f bufs
    after_file
        (λ tail. (do
          offset' ← add_bits 64 offset slice.len
          total' ← add_bits 64 total slice.len
          write_files len offset' total' tail fs))
        info r

  -- `Piece::write`, over the files of its range.
  unfoldable pub write_piece : Entry → ℕ → Files → Checked SaveResult
  write_piece (p, range) offset files = do
    assert (leb range.start range.end)
    assert (leb range.end (length files))
    debug_assert dev (ltb range.start range.end)
    write_files p.len offset 0 (map (λ b. b.1) p.blocks)
        (take (range.end - range.start) (drop range.start files))

  -- What the torrent is told of a piece.
  pub data Told : Type 0 where
    completion : ℕ → Bool → Told
    write_error : Told

  abbrev pub told : ℕ → SaveResult → Option Told
  told i (saved fs) = some (completion i true)
  told i save_failed = some write_error
  told i save_pending = none

  -- The worker thread: what the torrent is told, and the outcome of the write, if the piece is valid.
  -- The offset of the piece is one that `write_block` computes before. The statistics are left out.
  unfoldable pub save_piece :
      StorageInfo → ℕ → Entry → Files → Checked (Option Told × Option SaveResult)
  save_piece storage i (p, range) files = do
    offset ← torrent_piece_offset storage i
    is_valid ← matches_hash sha1 p
    let saves : Checked (Option Told × Option SaveResult) = (do
      r ← write_piece (p, range) offset files
      ret (told i r, some r))
    if is_valid then saves else ret (some (completion i false), none)
