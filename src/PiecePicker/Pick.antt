-- ===== src/PiecePicker/Pick.antt =====
-- `pick_piece`: it takes the first piece that can be picked, and only then.
use cratetorrent.Prelude.{
  ℕ, zero, suc, ◌+◌, ◌-◌, ◌<◌, ◌≡◌, refl, Bool, true, false, Option, none, some, List, [], ◌∷◌,
  Checked, ret, panic, arith, length, get_elem?, Bool-cases, inl, inr, le→leb, ◌>>=◌, ap,
}
use cratetorrent.PiecePicker.{
  Piece, PiecePicker, can_pick, pick_from, pick_piece, keep_front, take_found,
}
use cratetorrent.PiecePicker.Invariant.{IsValid, count_free}

-- The piece at an index can be picked: we do not have it, some peer has it, and it is not pending.
pub record IsPickable (owns : List Bool) (ps : List Piece) (i : ℕ) : Type 0 where
  pub piece : Piece
  pub missing : get_elem? owns i ≡ some false
  pub present : get_elem? ps i ≡ some piece
  pub available : 0 < piece.frequency
  pub idle : piece.is_pending ≡ false

-- The pieces with the flag set at one index.
abbrev pub mark_pending : List Piece → ℕ → List Piece
mark_pending [] i = []
mark_pending (p ∷ ps) zero = record p { is_pending = true } ∷ ps
mark_pending (p ∷ ps) (suc i) = p ∷ mark_pending ps i

-- What the loop from index `i` on may return over the rest of the vectors.
Found : ℕ → List Bool → List Piece → Checked (Option (ℕ × List Piece)) → Type 0
Found i owns ps panic = ⊥
Found i owns ps (ret none) = (j : ℕ) → ¬ IsPickable owns ps j
Found i owns ps (ret (some (k, ps'))) =
    (j : ℕ) × (k ≡ i + j)
    × (ps' ≡ mark_pending ps j)
    × IsPickable owns ps j
    × ((m : ℕ) → m < j → ¬ IsPickable owns ps m)
    × (length ps' ≡ length ps)
    × (count_free owns ps ≡ suc (count_free owns ps'))

can_pick-IsPickable :
    (own : Bool) (p : Piece) (owns : List Bool) (ps : List Piece)
    → can_pick own p ≡ true
    → IsPickable (own ∷ owns) (p ∷ ps) 0
can_pick-IsPickable own p owns ps h = record {
  piece = p;
  missing = ground arith;
  present = refl;
  available = ground arith;
  idle = ground arith;
}

not-IsPickable_head :
    (own : Bool) (p : Piece) (owns : List Bool) (ps : List Piece)
    → can_pick own p ≡ false
    → ¬ IsPickable (own ∷ owns) (p ∷ ps) 0
not-IsPickable_head own p owns ps h k = ground (arith, k.missing, k.present, k.available, k.idle)

IsPickable-tail :
    (own : Bool) (p : Piece) (owns : List Bool) (ps : List Piece) (j : ℕ)
    → IsPickable (own ∷ owns) (p ∷ ps) (suc j)
    → IsPickable owns ps j
IsPickable-tail own p owns ps j k = record {
  piece = k.piece;
  missing = k.missing;
  present = k.present;
  available = k.available;
  idle = k.idle;
}

IsPickable-cons :
    (own : Bool) (p : Piece) (owns : List Bool) (ps : List Piece) (j : ℕ)
    → IsPickable owns ps j
    → IsPickable (own ∷ owns) (p ∷ ps) (suc j)
IsPickable-cons own p owns ps j k = record {
  piece = k.piece;
  missing = k.missing;
  present = k.present;
  available = k.available;
  idle = k.idle;
}

-- Past a piece that cannot be picked, the loop's result carries over.
Found-step :
    (i : ℕ) (own : Bool) (p : Piece) (owns : List Bool) (ps : List Piece)
    (r : Checked (Option (ℕ × List Piece)))
    → can_pick own p ≡ false
    → Found (suc i) owns ps r
    → Found i (own ∷ owns) (p ∷ ps) (r >>= λ found. ret (keep_front p found))
unfolding Found count_free
Found-step i own p owns ps panic h k = k
Found-step i own p owns ps (ret none) h k = λ j. none_at j
  where
    none_at : (j : ℕ) → ¬ IsPickable (own ∷ owns) (p ∷ ps) j
    none_at zero = not-IsPickable_head own p owns ps h
    none_at (suc j) = λ q. k j (IsPickable-tail own p owns ps j q)
Found-step i own p owns ps (ret (some (n, ps'))) h (j, e, marked, here, first, len, counted) = (
  suc j,
  omega arith,
  ap (λ qs. p ∷ qs) marked,
  IsPickable-cons own p owns ps j here,
  earlier,
  omega arith,
  ground arith,
)
  where
    earlier : (m : ℕ) → m < suc j → ¬ IsPickable (own ∷ owns) (p ∷ ps) m
    earlier zero l = not-IsPickable_head own p owns ps h
    earlier (suc m) l = λ q. first m (omega arith) (IsPickable-tail own p owns ps m q)

pick_from-Found :
    (i : ℕ) (owns : List Bool) (ps : List Piece)
    → length ps ≡ length owns
    → Found i owns ps (pick_from i owns ps)
unfolding pick_from Found count_free
pick_from-Found i [] ps e = λ j k. ground (arith, k.missing)
pick_from-Found i (own ∷ owns) [] e = absurd (omega arith)
pick_from-Found i (own ∷ owns) (p ∷ ps) e = elim (Bool-cases (can_pick own p)) [
  | inl h ↦ rw (h) (
    0,
    omega arith,
    refl,
    can_pick-IsPickable own p owns ps h,
    λ m l. absurd (omega arith),
    refl,
    ground arith,
  )
  | inr h ↦ rw (h) (
      Found-step i own p owns ps (pick_from (suc i) owns ps) h
        (pick_from-Found (suc i) owns ps (omega arith)))
]

-- What `pick_piece` may return from a state.
abbrev pub PickOutcome : PiecePicker → Checked (PiecePicker × Option ℕ) → Type 0
PickOutcome s panic = ⊥
PickOutcome s (ret (s', none)) = (s' ≡ s) × ((j : ℕ) → ¬ IsPickable s.own_pieces s.pieces j)
PickOutcome s (ret (s', some i)) =
    IsPickable s.own_pieces s.pieces i
    × ((j : ℕ) → j < i → ¬ IsPickable s.own_pieces s.pieces j)
    × (s' ≡ record s { pieces = mark_pending s.pieces i; free_count = s.free_count - 1 })
    × IsValid s'

PickOutcome-Found :
    (s : PiecePicker) (r : Checked (Option (ℕ × List Piece)))
    → IsValid s
    → Found 0 s.own_pieces s.pieces r
    → PickOutcome s (r >>= take_found s)
unfolding Found
PickOutcome-Found s panic v k = k
PickOutcome-Found s (ret none) v k = (refl, k)
PickOutcome-Found s (ret (some (i, ps'))) v (j, e, marked, here, first, len, counted) =
    let same : i ≡ j = omega arith in
    rw (le→leb 1 s.free_count (omega arith)) (
      rw same here,
      λ m l. first m (omega arith),
      rw (same, marked),
      record {
        same_length = omega arith;
        missing_exact = v.missing_exact;
        free_exact = omega arith;
      },
    )

-- From a valid state `pick_piece` does not panic. It picks the first piece that we do not have, that
-- a peer has and that is not pending, sets the flag on that piece alone, takes one off the free
-- count and stays valid; it returns `none`, with the state unchanged, only if there is no such piece.
pub pick_piece_lem : (s : PiecePicker) → IsValid s → PickOutcome s (pick_piece s)
unfolding pick_piece
pick_piece_lem s v = PickOutcome-Found s _ v (pick_from-Found 0 s.own_pieces s.pieces v.same_length)
