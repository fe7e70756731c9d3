-- ===== src/Download.antt =====
-- cratetorrent/src/download.rs: the blocks of a piece that is being downloaded. The `HashSet` of
-- blocks is the list of its members; a `Vec` that is pushed to is returned.
pub mod Picked
pub mod Status
mod Tests
use cratetorrent.Prelude.{
  ℕ, zero, suc, ◌+◌, ◌*◌, ◌/◌, ◌%◌, ◌^◌, Bool, true, false, not, ◌&&◌, ◌||◌, List, [], ◌∷◌, ◌++◌,
  map, Checked, ret, panic, ◌>>=◌, ◌>>◌, assert, index, mul_bits, ltb, leb, ◌==◌, if◌then◌else◌,
  length, set, replicate, ◌≡◌, refl,
}
use cratetorrent.Block.{full_block_len, BlockInfo, block_len, block_count}

pub data BlockStatus : Type 0 where
  free requested received : BlockStatus

pub record PieceDownload : Type 0 where
  pub index : ℕ
  pub len : ℕ
  pub blocks : List BlockStatus

unfoldable pub new : ℕ → ℕ → PieceDownload
new i len = record { index = i; len = len; blocks = replicate (block_count len) free }

-- The derived equality of `BlockInfo`, and membership in a set of them.
abbrev pub info_eq : BlockInfo → BlockInfo → Bool
info_eq a b = a.piece_index == b.piece_index && (a.offset == b.offset && a.len == b.len)

abbrev pub contains : List BlockInfo → BlockInfo → Bool
contains [] b = false
contains (a ∷ as') b = info_eq a b || contains as' b

-- The `BlockInfo` that `pick_blocks` makes for the block at an index.
unfoldable pub make_info : ℕ → ℕ → ℕ → Checked BlockInfo
make_info piece_index len i = do
  offset ← mul_bits 32 (i % 2 ^ 32) full_block_len
  l ← block_len len i
  ret (record { piece_index = piece_index; offset = offset; len = l })

-- The body of the loop in `pick_blocks` for one block: its new status, and what is pushed.
unfoldable pub pick_block :
    ℕ → ℕ → Bool → List BlockInfo → ℕ → BlockStatus → Checked (BlockStatus × List BlockInfo)
pick_block p len in_end_game prev_picked i free = do
  info ← make_info p len i
  ret (requested, info ∷ [])
pick_block p len in_end_game prev_picked i requested =
    let again : Checked (BlockStatus × List BlockInfo) = (do
      info ← make_info p len i
      ret (requested, if contains prev_picked info then [] else info ∷ [])) in
    if in_end_game then again else ret (requested, [])
pick_block p len in_end_game prev_picked i received = ret (received, [])

-- The loop from block `i` on, with the number of blocks picked so far.
unfoldable pub pick_from :
    ℕ
    → ℕ
    → Bool
    → List BlockInfo
    → ℕ
    → ℕ
    → List BlockStatus
    → ℕ
    → List BlockInfo
    → Checked (List BlockStatus × List BlockInfo)
pick_from p len in_end_game prev_picked count i [] picked buf = ret ([], buf)
pick_from p len in_end_game prev_picked count i (b ∷ bs) picked buf =
    let rest : Checked (List BlockStatus × List BlockInfo) = (do
      (b', new_picks) ← pick_block p len in_end_game prev_picked i b
      (bs', buf') ←
          pick_from p len in_end_game prev_picked count (suc i) bs (picked + length new_picks)
            (buf ++ new_picks)
      ret (b' ∷ bs', buf')) in
    if picked == count then ret (b ∷ bs, buf) else rest

unfoldable pub pick_blocks :
    PieceDownload
    → ℕ
    → List BlockInfo
    → Bool
    → List BlockInfo
    → Checked (PieceDownload × List BlockInfo)
pick_blocks d count pick_buf in_end_game prev_picked = do
  (blocks, buf) ← pick_from d.index d.len in_end_game prev_picked count 0 d.blocks 0 pick_buf
  ret (record d { blocks = blocks }, buf)

abbrev pub is_requested : BlockStatus → Bool
is_requested requested = true
is_requested _ = false

-- A `debug_assert!` runs in the dev profile only.
abbrev pub debug_assert : Bool → Bool → Checked (Unit {0})
debug_assert dev b = if dev then assert b else ret tt

pub debug_assert_ret : (dev b : Bool) → b ≡ true → debug_assert dev b ≡ ret tt
debug_assert_ret true b e = rw e refl
debug_assert_ret false b e = refl

-- The checks that `received_block` and `free_block` begin with, and `index_in_piece` with its own;
-- `dev` says whether the debug assertions are compiled in.
unfoldable pub block_position : Bool → PieceDownload → BlockInfo → Checked ℕ
block_position dev d block = do
  debug_assert dev (block.piece_index == d.index)
  debug_assert dev (ltb block.offset d.len)
  debug_assert dev (leb block.len d.len)
  debug_assert dev (leb block.len full_block_len)
  debug_assert dev (ltb 0 block.len)
  ret (block.offset / full_block_len)

unfoldable pub received_block :
    Bool → PieceDownload → BlockInfo → Checked (PieceDownload × BlockStatus)
received_block dev d block = do
  i ← block_position dev d block
  prev_status ← index d.blocks i
  debug_assert dev (is_requested prev_status)
  ret (record d { blocks = set d.blocks i received }, prev_status)

unfoldable pub free_all_blocks : PieceDownload → PieceDownload
free_all_blocks d = record d { blocks = map (λ _. free) d.blocks }

unfoldable pub free_block : Bool → PieceDownload → BlockInfo → Checked PieceDownload
free_block dev d block = do
  i ← block_position dev d block
  _ ← index d.blocks i
  ret (record d { blocks = set d.blocks i free })
