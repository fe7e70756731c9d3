-- ===== src/Lib.antt =====
-- Verification of cratetorrent, a BitTorrent engine.
--
-- A torrent's content is one run of bytes, cut into pieces of equal length (but for the last), each
-- cut into blocks of 16 KiB (but for the last), and laid out over one or more files. A peer session
-- reads messages through a codec, registers what its peer has with the torrent's piece picker, asks
-- it for the next piece, and requests blocks through the piece download. The blocks that arrive are
-- handed to the disk task, which buffers them by piece; a complete piece whose hash is right is
-- written to the files that it overlaps with, through buffers that are bounded by each file's part.
--
-- The files of a torrent and the hashes of its pieces come from a metainfo file, which is parsed and
-- checked once.
--
-- Files, each over the Rust source that its first line names:
--   Block          cratetorrent/src/lib.rs: BlockInfo, block_len, block_count
--   PiecePicker    cratetorrent/src/piece_picker.rs
--   Metainfo       cratetorrent/src/metainfo.rs: Metainfo::from_bytes
--   Storage        cratetorrent/src/storage_info.rs, with what it takes from a metainfo
--   Download       cratetorrent/src/download.rs
--   Codec          cratetorrent/src/peer/codec.rs: messages; Codec/Handshake: the handshake
--   IoVecs         cratetorrent/src/iovecs.rs
--   Disk           cratetorrent/src/disk/io: File the write loop of file.rs; Piece the blocks of a piece
--                  in piece.rs; Torrent the write buffer of torrent.rs; Read the read loop of file.rs
--                  and the read of a piece in piece.rs; Reads the read cache of torrent.rs;
--                  Task the commands of cratetorrent/src/disk.rs
--   Counter        cratetorrent/src/counter.rs
--   Avg            cratetorrent/src/avg.rs
--   Session        cratetorrent/src/peer/state.rs: the context of a session
--   Peer           cratetorrent/src/peer.rs: Pipeline has the loops over the shared downloads,
--                  Requests what downloads, Messages what answers the peer, Run the loop of a
--                  session with its start and end; the other children prove what holds of them
--   Tracker        cratetorrent/src/tracker.rs: the peers of a response, the query of an announce
--   Torrent        cratetorrent/src/torrent.rs: completed pieces, sessions' states and new sessions;
--                  Announces the announces to the trackers; Task the tick, the loop of the task with
--                  its start and end, and the statistics of torrent/stats.rs
--   Prelude        what the others share: Boolean tests, lists, and results that may panic
--
-- A function of the source is the definition of the same name in its file. A method that changes
-- `self` takes the state and returns the new one. `Checked` is the outcome of code that may panic: a
-- failed assertion, an index out of range, and an integer that leaves its type are each `panic`, as
-- in Rust's dev profile, in which the debug assertions are compiled in; where the outcome without
-- them matters, a Boolean says which profile it is. `usize` and `u64` have 64 bits. A cast that
-- truncates is written out as a remainder. A loop of the source is a recursive function of its own,
-- whose arguments are the variables of the loop. Three loops are not bounded by a list, and recurse
-- on fuel, where running out is a result of its own. Those of `TorrentFile::write` and `read` do not
-- run out when the fuel is at least the number of bytes of the slice. That of `make_requests`, which
-- starts downloads, is given one round more than the piece picker has free pieces, of which each round takes one.
--
-- A slice of memory is the list of its bytes, and a hash set, a bit field and a B-tree map are lists
-- of their elements, bits, and entries by key. The crates `bytes` and `bitvec` (the record
-- `WireApi`), the system calls `pwritev` and `preadv` (`FileApi`, `ReadApi`), the cache of
-- the crate `lru` (`CacheApi`), the bencode parser and the types of paths and URLs (`ParseApi`),
-- floating point numbers (`FloatApi`), SHA-1 and the joining of paths are parameters. So is whether the receiver of a message, a socket or a channel, takes it.
--
-- A handler of a session is a function on the state of the session, on what it shares with other
-- sessions, and on the events so far: what it received, and what it handed to the socket, the disk
-- task, the torrent and the alert channel. It may also fail, as by `?`, or panic. Sessions are
-- sequences of inputs in any order, between which the shared piece picker and downloads may change.
-- Times are numbers of nanoseconds, one for each input.
--
-- Not modelled: the engine's task, channels and timers, the opening of connections and files, the
-- tracker's HTTP requests, logging, and the command line client.
pub mod Prelude
pub mod Block
pub mod PiecePicker
pub mod Metainfo
pub mod Storage
pub mod Download
pub mod Codec
pub mod IoVecs
pub mod Disk
pub mod Counter
pub mod Avg
pub mod Session
pub mod Peer
pub mod Tracker
pub mod Torrent
