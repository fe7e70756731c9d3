-- ===== src/PiecePicker/Kept.antt =====
-- Whatever a peer announces, the piece picker stays valid and keeps our pieces.
use cratetorrent.Prelude.{
  ℕ, ◌≡◌, refl, ◌∙◌, Bool, true, false, Option, none, some, List, [], ◌∷◌, Checked, ret, panic,
  IfReturns, IfReturns-bind, IfReturns-after, arith, if◌then◌else◌, length, get_elem?, length-set,
  index, expect, assert, add_bits, ◌==◌,
}
use cratetorrent.PiecePicker.{
  Piece, PiecePicker, register_from, register_peer_pieces, register_peer_piece,
}
use cratetorrent.PiecePicker.Invariant.{IsValid, count_free}
use cratetorrent.PiecePicker.Register.{count_free-set_frequency}

-- A valid picker of the same length.
abbrev pub StaysValid : PiecePicker → PiecePicker → Type 0
StaysValid s s' = IsValid s' × (length s'.own_pieces ≡ length s.own_pieces)

-- Records of as many pieces, of which as many are free.
abbrev SameFree : List Bool → List Piece → List Piece → Type 0
SameFree owns ps ps' = (length ps' ≡ length ps) × (count_free owns ps' ≡ count_free owns ps)

register_from-SameFree :
    (owns theirs : List Bool) (ps : List Piece) (interested : Bool)
    → IfReturns (λ r. SameFree owns ps (r.0)) (register_from owns theirs ps interested)
unfolding register_from count_free
register_from-SameFree [] theirs ps i = (refl, refl)
register_from-SameFree (own ∷ owns) [] ps i = (refl, refl)
register_from-SameFree (own ∷ owns) (false ∷ theirs) [] i =
    nothing (register_from owns theirs [] i) (register_from-SameFree owns theirs [] i)
  where
    nothing :
        (r : Checked (List Piece × Bool))
        → IfReturns (λ out. SameFree owns [] (out.0)) r
        → IfReturns (λ out. SameFree (own ∷ owns) [] (out.0)) r
    nothing (ret ([], j)) (l, c) = (refl, refl)
    nothing (ret (p ∷ ps', j)) (l, c) = absurd (omega arith)
    nothing panic k = tt
register_from-SameFree (own ∷ owns) (true ∷ theirs) [] i = tt
register_from-SameFree (own ∷ owns) (false ∷ theirs) (p ∷ ps) i =
    IfReturns-bind (λ r. SameFree owns ps (r.0)) (λ r. SameFree (own ∷ owns) (p ∷ ps) (r.0))
      (register_from owns theirs ps i) _ (register_from-SameFree owns theirs ps i)
      (λ r h. (omega (arith, h.0), omega (arith, h.1)))
register_from-SameFree (own ∷ owns) (true ∷ theirs) (p ∷ ps) i =
    IfReturns-after (λ r. SameFree (own ∷ owns) (p ∷ ps) (r.0)) (add_bits 64 p.frequency 1) _
      (λ n.
        IfReturns-bind (λ r. SameFree owns ps (r.0)) (λ r. SameFree (own ∷ owns) (p ∷ ps) (r.0))
          (register_from owns theirs ps (if own then i else true)) _
          (register_from-SameFree owns theirs ps (if own then i else true))
          (λ r h. (omega (arith, h.0), omega (arith, h.1))))

pub register_peer_pieces-StaysValid :
    (s : PiecePicker) (theirs : List Bool)
    → IsValid s
    → IfReturns (λ r. StaysValid s (r.0)) (register_peer_pieces s theirs)
unfolding register_peer_pieces
register_peer_pieces-StaysValid s theirs v =
    IfReturns-after (λ r. StaysValid s (r.0)) (assert (length theirs == length s.own_pieces)) _
      (λ _.
        IfReturns-bind (λ r. SameFree s.own_pieces s.pieces (r.0)) (λ r. StaysValid s (r.0))
          (register_from s.own_pieces theirs s.pieces false) _
          (register_from-SameFree s.own_pieces theirs s.pieces false)
          (λ r h. (
            record {
              same_length = h.0 ∙ v.same_length;
              missing_exact = v.missing_exact;
              free_exact = omega (arith, v.free_exact, h.1);
            },
            refl,
          )))

pub index-found {ℓ} :
    {A : Type ℓ} (xs : List A) (i : ℕ) → IfReturns (λ x. get_elem? xs i ≡ some x) (index xs i)
index-found {A = A} xs i = go (get_elem? xs i)
  where
    go : (o : Option A) → IfReturns (λ x. o ≡ some x) (expect o)
    go none = tt
    go (some x) = refl

pub register_peer_piece-StaysValid :
    (s : PiecePicker) (i : ℕ)
    → IsValid s
    → IfReturns (λ r. StaysValid s (r.0)) (register_peer_piece s i)
unfolding register_peer_piece
register_peer_piece-StaysValid s i v =
    IfReturns-after (λ r. StaysValid s (r.0)) (index s.own_pieces i) _
      (λ own.
        IfReturns-bind (λ p. get_elem? s.pieces i ≡ some p) (λ r. StaysValid s (r.0))
          (index s.pieces i) _ (index-found s.pieces i)
          (λ p e.
            IfReturns-after (λ r. StaysValid s (r.0)) (add_bits 64 p.frequency 1) _
              (λ n. (
                record {
                  same_length = length-set s.pieces i (record p { frequency = n }) ∙ v.same_length;
                  missing_exact = v.missing_exact;
                  free_exact =
                      omega (
                        arith,
                        v.free_exact,
                        count_free-set_frequency s.own_pieces s.pieces i p n e,
                      );
                },
                refl,
              ))))
