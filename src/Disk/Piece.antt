-- ===== src/Disk/Piece.antt =====
-- The write buffer of a piece, cratetorrent/src/disk/io/piece.rs. The `BTreeMap` of the blocks is the
-- list of its entries in the order of their offsets; SHA-1 is a parameter.
pub mod Complete
pub mod Arrived
mod Tests
use cratetorrent.Prelude.{
  ℕ, suc, Bool, true, false, ◌||◌, List, [], ◌∷◌, ◌++◌, Checked, ret, panic, ◌>>=◌, ◌>>◌, assert,
  ltb, ◌==◌, if◌then◌else◌, length,
}
use cratetorrent.Block.{block_count}
use cratetorrent.Codec.Handshake.{bytes_eq}

abbrev pub Blocks : Type 0
Blocks = List (ℕ × List ℕ)

pub record Piece : Type 0 where
  pub expected_hash : List ℕ
  pub len : ℕ
  pub blocks : Blocks

-- Whether the map has the key.
unfoldable pub is_occupied : ℕ → Blocks → Bool
is_occupied offset [] = false
is_occupied offset ((o, bytes) ∷ bs) = o == offset || is_occupied offset bs

-- A new entry, at the place of its key.
unfoldable pub insert : ℕ → List ℕ → Blocks → Blocks
insert offset bytes [] = (offset, bytes) ∷ []
insert offset bytes ((o, d) ∷ bs) =
    let rest = insert offset bytes bs in
    if ltb offset o then (offset, bytes) ∷ (o, d) ∷ bs else (o, d) ∷ rest

unfoldable pub enqueue_block : Piece → ℕ → List ℕ → Piece
unfolding is_occupied insert
enqueue_block p offset bytes =
    if is_occupied offset p.blocks then p else record p { blocks = insert offset bytes p.blocks }

unfoldable pub is_complete : Piece → Bool
is_complete p = length p.blocks == block_count p.len

-- What the hasher is fed.
unfoldable pub buffered : Blocks → List ℕ
buffered [] = []
buffered ((o, bytes) ∷ bs) = bytes ++ buffered bs

unfoldable pub matches_hash : (List ℕ → List ℕ) → Piece → Checked Bool
matches_hash sha1 p = do
  assert (length p.blocks == block_count p.len)
  ret (bytes_eq (sha1 (buffered p.blocks)) p.expected_hash)
