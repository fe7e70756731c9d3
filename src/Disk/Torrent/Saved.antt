-- ===== src/Disk/Torrent/Saved.antt =====
-- What the write of a piece leaves in the files that the piece overlaps with.
use cratetorrent.Disk.Piece.{Piece}
