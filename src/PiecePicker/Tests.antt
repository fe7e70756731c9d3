-- ===== src/PiecePicker/Tests.antt =====
-- A picker of three pieces, the second of which we have.
use cratetorrent.Prelude.{◌≡◌, refl, arith, true, false, none, some, [], ◌∷◌, ret}
use cratetorrent.PiecePicker.{
  Piece, PiecePicker, count_zeros, new, pick_from, pick_piece, register_peer_pieces, received_piece,
}
use cratetorrent.PiecePicker.Invariant.{IsValid, count_free, ReceiveOutcome, received_piece_lem}
use cratetorrent.PiecePicker.Pick.{PickOutcome, pick_piece_lem}
use cratetorrent.PiecePicker.Register.{RegisterOutcome, register_peer_pieces_lem}

abbrev idle_piece : Piece
idle_piece = record { frequency = 2; is_pending = false }

abbrev picked_piece : Piece
picked_piece = record { frequency = 1; is_pending = true }

abbrev picker : PiecePicker
picker = record {
  own_pieces = false ∷ true ∷ false ∷ [];
  pieces = picked_piece ∷ idle_piece ∷ idle_piece ∷ [];
  missing_count = 2;
  free_count = 1;
}

picker-IsValid : IsValid picker
unfolding count_zeros count_free
picker-IsValid = omega arith

picks_third :
    pick_piece picker
    ≡ ret (
      record {
        own_pieces = false ∷ true ∷ false ∷ [];
        pieces = picked_piece ∷ idle_piece ∷ (record idle_piece { is_pending = true }) ∷ [];
        missing_count = 2;
        free_count = 0;
      },
      some 2,
    )
unfolding pick_piece pick_from
picks_third = refl

none_in_swarm : pick_piece (new (false ∷ false ∷ [])) ≡ ret (new (false ∷ false ∷ []), none)
unfolding pick_piece pick_from new
none_in_swarm = refl

pick_piece_lem_example : PickOutcome picker (pick_piece picker)
pick_piece_lem_example = pick_piece_lem picker picker-IsValid

register_peer_pieces_lem_example :
    RegisterOutcome picker
      (true ∷ true ∷ false ∷ [])
      (register_peer_pieces picker (true ∷ true ∷ false ∷ []))
register_peer_pieces_lem_example =
    register_peer_pieces_lem picker (true ∷ true ∷ false ∷ []) picker-IsValid (omega arith) refl

received_piece_lem_example : ReceiveOutcome picker 0 picked_piece (received_piece picker 0)
received_piece_lem_example = received_piece_lem picker 0 picked_piece picker-IsValid refl refl
