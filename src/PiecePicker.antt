-- ===== src/PiecePicker.antt =====
-- cratetorrent/src/piece_picker.rs: which piece to download next. A method that mutates `self`
-- returns the new state. `Bitfield` is the list of its bits.
pub mod Invariant
pub mod Pick
pub mod Register
pub mod Kept
mod Tests
use cratetorrent.Prelude.{
  ℕ, zero, suc, ◌+◌, Bool, true, false, not, ◌&&◌, Option, none, some, List, [], ◌∷◌, Checked, ret,
  panic, ◌>>=◌, ◌>>◌, assert, index, add_bits, sub_checked, ltb, ◌==◌, if◌then◌else◌, length, set,
  replicate,
}

pub record Piece : Type 0 where
  pub frequency : ℕ
  pub is_pending : Bool

pub record PiecePicker : Type 0 where
  pub own_pieces : List Bool
  pub pieces : List Piece
  pub missing_count : ℕ
  pub free_count : ℕ

-- `Piece::default()`.
abbrev pub default_piece : Piece
default_piece = record { frequency = 0; is_pending = false }

-- `Bitfield::count_zeros` and `count_ones`.
unfoldable pub count_zeros : List Bool → ℕ
count_zeros [] = 0
count_zeros (b ∷ bs) = (if b then 0 else 1) + count_zeros bs

unfoldable pub new : List Bool → PiecePicker
new own_pieces = record {
  own_pieces = own_pieces;
  pieces = replicate (length own_pieces) default_piece;
  missing_count = count_zeros own_pieces;
  free_count = count_zeros own_pieces;
}

unfoldable pub all_pieces_picked : PiecePicker → Bool
all_pieces_picked s = s.free_count == 0

-- The test of the loop in `pick_piece`.
abbrev pub can_pick : Bool → Piece → Bool
can_pick own piece = not own && (ltb 0 piece.frequency && not piece.is_pending)

-- Puts a piece that the loop has passed back in front.
abbrev pub keep_front : Piece → Option (ℕ × List Piece) → Option (ℕ × List Piece)
keep_front p none = none
keep_front p (some (i, ps)) = some (i, p ∷ ps)

-- The loop of `pick_piece` from index `i` on, over the rest of both vectors: the picked index and
-- the rest of the pieces with the flag set on it.
unfoldable pub pick_from : ℕ → List Bool → List Piece → Checked (Option (ℕ × List Piece))
pick_from i [] pieces = ret none
pick_from i (own ∷ owns) [] = panic
pick_from i (own ∷ owns) (p ∷ ps) =
    let rest : Checked (Option (ℕ × List Piece)) = (do
      found ← pick_from (suc i) owns ps
      ret (keep_front p found)) in
    if can_pick own p then ret (some (i, record p { is_pending = true } ∷ ps)) else rest

-- What `pick_piece` does with the loop's result.
abbrev pub take_found : PiecePicker → Option (ℕ × List Piece) → Checked (PiecePicker × Option ℕ)
take_found s none = ret (s, none)
take_found s (some (i, pieces)) = do
  free_count ← sub_checked s.free_count 1
  ret (record s { pieces = pieces; free_count = free_count }, some i)

unfoldable pub pick_piece : PiecePicker → Checked (PiecePicker × Option ℕ)
pick_piece s = pick_from 0 s.own_pieces s.pieces >>= take_found s

-- The loop of `register_peer_pieces` over our pieces and the peer's, `zip`ped.
unfoldable pub register_from :
    List Bool → List Bool → List Piece → Bool → Checked (List Piece × Bool)
register_from [] theirs pieces interested = ret (pieces, interested)
register_from (have ∷ owns) [] pieces interested = ret (pieces, interested)
register_from (have ∷ owns) (false ∷ theirs) [] interested = register_from owns theirs [] interested
register_from (have ∷ owns) (true ∷ theirs) [] interested = panic
register_from (have ∷ owns) (false ∷ theirs) (p ∷ ps) interested = do
  (ps', i) ← register_from owns theirs ps interested
  ret (p ∷ ps', i)
register_from (have ∷ owns) (true ∷ theirs) (p ∷ ps) interested = do
  frequency ← add_bits 64 p.frequency 1
  (ps', i) ← register_from owns theirs ps (if have then interested else true)
  ret (record p { frequency = frequency } ∷ ps', i)

unfoldable pub register_peer_pieces : PiecePicker → List Bool → Checked (PiecePicker × Bool)
register_peer_pieces s theirs = do
  assert (length theirs == length s.own_pieces)
  (pieces, interested) ← register_from s.own_pieces theirs s.pieces false
  ret (record s { pieces = pieces }, interested)

unfoldable pub register_peer_piece : PiecePicker → ℕ → Checked (PiecePicker × Bool)
register_peer_piece s i = do
  is_interested ← index s.own_pieces i
  piece ← index s.pieces i
  frequency ← add_bits 64 piece.frequency 1
  ret (record s { pieces = set s.pieces i (record piece { frequency = frequency }) }, is_interested)

unfoldable pub received_piece : PiecePicker → ℕ → Checked PiecePicker
received_piece s i = do
  have_piece ← index s.own_pieces i
  assert (not have_piece)
  missing_count ← sub_checked s.missing_count 1
  piece ← index s.pieces i
  let t = record s { own_pieces = set s.own_pieces i true; missing_count = missing_count }
  if piece.is_pending then ret t else do
    free_count ← sub_checked s.free_count 1
    ret (record t {
      free_count = free_count;
      pieces = set s.pieces i (record piece { is_pending = false });
    })
