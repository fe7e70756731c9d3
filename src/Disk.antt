-- ===== src/Disk.antt =====
-- cratetorrent/src/disk/io: what is written to the files of a torrent.
pub mod File
pub mod Piece
pub mod Read
pub mod Reads
pub mod Task
pub mod Torrent
