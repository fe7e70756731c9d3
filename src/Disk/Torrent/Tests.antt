-- ===== src/Disk/Torrent/Tests.antt =====
-- Three pieces of four bytes in two files: the first block of the second piece completes it.
use cratetorrent.Prelude.{ℕ, ◌*◌, ◌<◌, ◌≡◌, arith, List, [], ◌∷◌, ret, replicate}
use cratetorrent.Block.{full_block_len, block_count}
use cratetorrent.Storage.{StorageInfo, Range, piece_len}
use cratetorrent.Storage.Pieces as Pieces
use cratetorrent.Disk.Piece.Complete.{block_bytes}
use cratetorrent.Disk.Piece.{Piece}
use cratetorrent.Disk.File.Tests.{whole_api, blank}
use cratetorrent.Disk.Torrent.{Torrent, write_block}
use cratetorrent.Disk.Torrent.Parts.{Fs}
use cratetorrent.Disk.Torrent.Buffer.{IsTorrentOf, Writes, write_block_lem}

abbrev info : StorageInfo
info = record {
  piece_count = 3;
  piece_len = 4;
  last_piece_len = 4;
  download_len = 12;
  download_dir = "d";
  files =
      record { path = "a"; len = 5; torrent_offset = 0 }
      ∷ record { path = "b"; len = 7; torrent_offset = 5 }
      ∷ [];
}

abbrev content : ℕ → List ℕ
content i = i ∷ 2 ∷ 3 ∷ 4 ∷ []

abbrev torrent : Torrent
torrent = record { info = info; write_buf = []; piece_hashes = replicate 60 0 }

info-IsValid : Pieces.IsValid info
info-IsValid = omega arith

piece_len_four : (i : ℕ) → i < 3 → piece_len info i ≡ ret 4
unfolding piece_len
piece_len_four i h = ground arith

torrent-IsTorrentOf : IsTorrentOf content torrent
torrent-IsTorrentOf = record {
  storage = info-IsValid;
  all_hashes = omega arith;
  word = omega arith;
  sized = piece_len_four;
  entries = tt;
}

one_block : 0 < block_count 4
unfolding block_count
one_block = omega arith

write_block_lem_example :
    Writes
      (λ bytes. bytes)
      content
      (replicate 60 0)
      1
      (write_block torrent
        (record { piece_index = 1; offset = 0 * full_block_len; len = 4 })
        (block_bytes (content 1) 0))
write_block_lem_example =
    write_block_lem (λ bytes. bytes) content torrent 1 0 4 torrent-IsTorrentOf (omega arith)
      one_block

abbrev piece : Piece
piece = record { expected_hash = []; len = 3; blocks = (0, 7 ∷ 8 ∷ 9 ∷ []) ∷ [] }

-- The piece has its first byte in the first file, and the others in the second.
abbrev files : Fs whole_api (λ bytes. bytes)
files =
    (record { path = "a"; len = 5; torrent_offset = 0 }, blank)
    ∷ (record { path = "b"; len = 12; torrent_offset = 5 }, blank)
    ∷ []

abbrev both : Range
both = record { start = 0; end = 2 }
