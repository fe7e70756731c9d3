-- ===== src/PiecePicker/Register.antt =====
-- The availability of pieces, `register_peer_pieces` and `register_peer_piece`.
use cratetorrent.Prelude.{
  ℕ, zero, suc, ◌+◌, ◌^◌, ◌<◌, ◌≡◌, refl, Bool, true, false, not, ◌&&◌, some, List, [], ◌∷◌,
  Checked, ret, panic, arith, if◌then◌else◌, length, set, get_elem?, length-set, ap, All, ◌↔◌, ◌||◌,
  ==_iff, lt→ltb,
}
use cratetorrent.PiecePicker.{
  Piece, PiecePicker, register_from, register_peer_pieces, register_peer_piece,
}
use cratetorrent.PiecePicker.Invariant.{IsValid, count_free}

-- No availability count is at the top of `usize`.
abbrev pub HasRoom : List Piece → Type 0
HasRoom = All (λ p. p.frequency + 1 < 2 ^ 64)

-- The pieces with the counts of those that the peer has raised by one.
abbrev pub raise : List Bool → List Piece → List Piece
raise [] ps = ps
raise (b ∷ bs) [] = []
raise (b ∷ bs) (p ∷ ps) =
    record p { frequency = (if b then p.frequency + 1 else p.frequency) } ∷ raise bs ps

-- The peer has a piece that we do not have.
abbrev pub wants : List Bool → List Bool → Bool
wants [] theirs = false
wants (own ∷ owns) [] = false
wants (own ∷ owns) (b ∷ bs) = (not own && b) || wants owns bs

register_from-eq :
    (owns theirs : List Bool) (ps : List Piece) (i : Bool)
    → length ps ≡ length owns
    → length theirs ≡ length owns
    → HasRoom ps
    → register_from owns theirs ps i ≡ ret (raise theirs ps, i || wants owns theirs)
unfolding register_from
register_from-eq [] [] [] i e f h = ground arith
register_from-eq [] [] (p ∷ ps) i e f h = absurd (omega arith)
register_from-eq [] (b ∷ theirs) ps i e f h = absurd (omega arith)
register_from-eq (own ∷ owns) [] ps i e f h = absurd (omega arith)
register_from-eq (own ∷ owns) (b ∷ theirs) [] i e f h = absurd (omega arith)
register_from-eq (own ∷ owns) (false ∷ theirs) (p ∷ ps) i e f h =
    rw (register_from-eq owns theirs ps i (omega arith) (omega arith) h.1) (ground arith)
register_from-eq (own ∷ owns) (true ∷ theirs) (p ∷ ps) i e f h =
    rw (lt→ltb (p.frequency + 1) (2 ^ 64) h.0) rw
      (register_from-eq owns theirs ps (if own then i else true) (omega arith) (omega arith) h.1)
      (ground arith)

length-raise : (theirs : List Bool) (ps : List Piece) → length (raise theirs ps) ≡ length ps
length-raise [] ps = refl
length-raise (b ∷ bs) [] = refl
length-raise (b ∷ bs) (p ∷ ps) = ap suc (length-raise bs ps)

count_free-raise :
    (owns theirs : List Bool) (ps : List Piece)
    → count_free owns (raise theirs ps) ≡ count_free owns ps
unfolding count_free
count_free-raise [] theirs ps = refl
count_free-raise (own ∷ owns) [] ps = refl
count_free-raise (own ∷ owns) (b ∷ bs) [] = refl
count_free-raise (own ∷ owns) (b ∷ bs) (p ∷ ps) = ground (arith, count_free-raise owns bs ps)

-- `wants` is the existence of such an index.
wants_sound :
    (owns theirs : List Bool)
    → wants owns theirs ≡ true
    → (i : ℕ) × (get_elem? owns i ≡ some false) × (get_elem? theirs i ≡ some true)
wants_sound [] theirs h = cc
wants_sound (own ∷ owns) [] h = cc
wants_sound (false ∷ owns) (true ∷ bs) h = (0, refl, refl)
wants_sound (false ∷ owns) (false ∷ bs) h = let (i, p, q) = wants_sound owns bs h in (suc i, p, q)
wants_sound (true ∷ owns) (b ∷ bs) h = let (i, p, q) = wants_sound owns bs h in (suc i, p, q)

wants_complete :
    (owns theirs : List Bool) (i : ℕ)
    → get_elem? owns i ≡ some false
    → get_elem? theirs i ≡ some true
    → wants owns theirs ≡ true
wants_complete [] theirs i p q = cc
wants_complete (own ∷ owns) [] i p q = cc
wants_complete (own ∷ owns) (b ∷ bs) zero p q = ground arith
wants_complete (own ∷ owns) (b ∷ bs) (suc i) p q = ground (arith, wants_complete owns bs i p q)

-- The count at an index goes up by one exactly where the peer has the piece.
raise_at :
    (theirs : List Bool) (ps : List Piece) (i : ℕ) (b : Bool) (p : Piece)
    → get_elem? theirs i ≡ some b
    → get_elem? ps i ≡ some p
    → get_elem? (raise theirs ps) i
      ≡ some (record p { frequency = (if b then p.frequency + 1 else p.frequency) })
raise_at [] ps i b p f g = cc
raise_at (c ∷ cs) [] i b p f g = cc
raise_at (c ∷ cs) (q ∷ qs) zero b p f g = ground arith
raise_at (c ∷ cs) (q ∷ qs) (suc i) b p f g = raise_at cs qs i b p f g

-- What `register_peer_pieces` does to a state.
pub record Registered (s : PiecePicker) (theirs : List Bool) (s' : PiecePicker) (interested : Bool)
    : Type 0 where
  pub valid : IsValid s'
  pub same_own : s'.own_pieces ≡ s.own_pieces
  pub raised :
      (i : ℕ) (b : Bool) (p : Piece)
      → get_elem? theirs i ≡ some b
      → get_elem? s.pieces i ≡ some p
      → get_elem? s'.pieces i
        ≡ some (record p { frequency = (if b then p.frequency + 1 else p.frequency) })
  pub interest :
      (interested ≡ true)
      ↔ ((i : ℕ) × (get_elem? s.own_pieces i ≡ some false) × (get_elem? theirs i ≡ some true))

abbrev pub RegisterOutcome : PiecePicker → List Bool → Checked (PiecePicker × Bool) → Type 0
RegisterOutcome s theirs panic = ⊥
RegisterOutcome s theirs (ret (s', interested)) = Registered s theirs s' interested

-- From a valid state with room in the counts, and for a bitfield of our length,
-- `register_peer_pieces` does not panic. It keeps the state valid and our pieces the same, raises by
-- one the count of each piece that the peer has and of no other, and reports interest exactly if the
-- peer has a piece that we do not have.
pub register_peer_pieces_lem :
    (s : PiecePicker) (theirs : List Bool)
    → IsValid s
    → HasRoom s.pieces
    → length theirs ≡ length s.own_pieces
    → RegisterOutcome s theirs (register_peer_pieces s theirs)
unfolding register_peer_pieces
register_peer_pieces_lem s theirs v room e =
    rw ((==_iff (length theirs) (length s.own_pieces)).1 e) rw
      (register_from-eq s.own_pieces theirs s.pieces false v.same_length e room)
      record {
        valid = record {
          same_length = omega (arith, v.same_length, length-raise theirs s.pieces);
          missing_exact = v.missing_exact;
          free_exact = omega (arith, v.free_exact, count_free-raise s.own_pieces theirs s.pieces);
        };
        same_own = refl;
        raised = raise_at theirs s.pieces;
        interest =
            (wants_sound s.own_pieces theirs, λ t. wants_complete s.own_pieces theirs t.0 t.1 t.2);
      }

pub count_free-set_frequency :
    (owns : List Bool) (ps : List Piece) (i : ℕ) (p : Piece) (n : ℕ)
    → get_elem? ps i ≡ some p
    → count_free owns (set ps i (record p { frequency = n })) ≡ count_free owns ps
unfolding count_free
count_free-set_frequency [] ps i p n e = refl
count_free-set_frequency (own ∷ owns) [] i p n e = refl
count_free-set_frequency (own ∷ owns) (q ∷ qs) zero p n e = ground arith
count_free-set_frequency (own ∷ owns) (q ∷ qs) (suc i) p n e =
    ground (arith, count_free-set_frequency owns qs i p n e)

-- For a piece within range whose count has room, `register_peer_piece` does not panic: it raises
-- that piece's count by one, keeps the state valid, and returns true exactly if we already have the
-- piece.
register_peer_piece_lem :
    (s : PiecePicker) (i : ℕ) (own : Bool) (p : Piece)
    → IsValid s
    → get_elem? s.own_pieces i ≡ some own
    → get_elem? s.pieces i ≡ some p
    → p.frequency + 1 < 2 ^ 64
    → (s' : PiecePicker) × (register_peer_piece s i ≡ ret (s', own))
      × (s' ≡ record s { pieces = set s.pieces i (record p { frequency = p.frequency + 1 }) })
      × IsValid s'
unfolding register_peer_piece
register_peer_piece_lem s i own p v o e room = (
  record s { pieces = set s.pieces i (record p { frequency = p.frequency + 1 }) },
  rw (o, e) (rw (lt→ltb (p.frequency + 1) (2 ^ 64) room)),
  refl,
  record {
    same_length =
        omega
          (arith, v.same_length, length-set s.pieces i (record p { frequency = p.frequency + 1 }));
    missing_exact = v.missing_exact;
    free_exact = omega (
      arith,
      v.free_exact,
      count_free-set_frequency s.own_pieces s.pieces i p (p.frequency + 1) e,
    );
  },
)
