-- ===== src/PiecePicker/Invariant.antt =====
-- What the cached counts of a `PiecePicker` stand for, and that every operation keeps it.
use cratetorrent.Prelude.{
  ℕ, zero, suc, ◌+◌, ◌-◌, ◌≡◌, refl, Bool, true, false, not, ◌&&◌, some, List, [], ◌∷◌, Checked,
  ret, sub_checked, ◌>>=◌, panic, arith, if◌then◌else◌, length, set, get_elem?, length-set,
  length-replicate, sym, le→leb, Bool-cases, inl, inr, ap,
}
use cratetorrent.PiecePicker.{Piece, PiecePicker, default_piece, count_zeros, new, received_piece}

-- The pieces that we neither have nor have picked.
unfoldable pub count_free : List Bool → List Piece → ℕ
count_free [] ps = 0
count_free (b ∷ bs) [] = 0
count_free (b ∷ bs) (p ∷ ps) = (if not b && not p.is_pending then 1 else 0) + count_free bs ps

pub record IsValid (s : PiecePicker) : Type 0 where
  pub same_length : length s.pieces ≡ length s.own_pieces
  pub missing_exact : s.missing_count ≡ count_zeros s.own_pieces
  pub free_exact : s.free_count ≡ count_free s.own_pieces s.pieces

-- What an operation may leave: a panic, or a valid state.
abbrev pub Keeps {ℓ} : {A : Type ℓ} → (A → PiecePicker) → Checked A → Type 0
Keeps f (ret a) = IsValid (f a)
Keeps f panic = Unit

count_free-new : (bs : List Bool) → count_free bs (new bs).pieces ≡ count_zeros bs
unfolding new count_free count_zeros
count_free-new [] = refl
count_free-new (true ∷ bs) = ground (arith, count_free-new bs)
count_free-new (false ∷ bs) = ground (arith, count_free-new bs)

pub new-IsValid : (own_pieces : List Bool) → IsValid (new own_pieces)
unfolding new
new-IsValid own_pieces = record {
  same_length = length-replicate (length own_pieces) default_piece;
  missing_exact = refl;
  free_exact = sym (count_free-new own_pieces);
}

count_zeros-set :
    (bs : List Bool) (i : ℕ)
    → get_elem? bs i ≡ some false
    → count_zeros bs ≡ suc (count_zeros (set bs i true))
unfolding count_zeros
count_zeros-set [] i h = cc
count_zeros-set (b ∷ bs) zero h = ground arith
count_zeros-set (b ∷ bs) (suc i) h = ground (arith, count_zeros-set bs i h)

-- A pending piece was not counted as free, so owning it changes nothing.
count_free-set_pending :
    (bs : List Bool) (ps : List Piece) (i : ℕ) (p : Piece)
    → get_elem? ps i ≡ some p
    → p.is_pending ≡ true
    → count_free (set bs i true) ps ≡ count_free bs ps
unfolding count_free
count_free-set_pending [] ps i p e h = refl
count_free-set_pending (b ∷ bs) [] i p e h = cc
count_free-set_pending (b ∷ bs) (q ∷ qs) zero p e h = ground arith
count_free-set_pending (b ∷ bs) (q ∷ qs) (suc i) p e h =
    ground (arith, count_free-set_pending bs qs i p e h)

-- Any other missing piece was counted once.
count_free-set_idle :
    (bs : List Bool) (ps : List Piece) (i : ℕ) (p : Piece)
    → get_elem? bs i ≡ some false
    → get_elem? ps i ≡ some p
    → p.is_pending ≡ false
    → count_free bs ps
      ≡ suc (count_free (set bs i true) (set ps i (record p { is_pending = false })))
unfolding count_free
count_free-set_idle [] ps i p o e h = cc
count_free-set_idle (b ∷ bs) [] i p o e h = cc
count_free-set_idle (b ∷ bs) (q ∷ qs) zero p o e h = ground arith
count_free-set_idle (b ∷ bs) (q ∷ qs) (suc i) p o e h =
    ground (arith, count_free-set_idle bs qs i p o e h)

-- What `received_piece` does to a state.
pub record Received (s : PiecePicker) (i : ℕ) (p : Piece) (s' : PiecePicker) : Type 0 where
  pub valid : IsValid s'
  pub owned : s'.own_pieces ≡ set s.own_pieces i true
  pub missing : s.missing_count ≡ suc s'.missing_count
  pub free : s.free_count ≡ (if p.is_pending then s'.free_count else suc s'.free_count)
  pub same_pieces : s'.pieces ≡ s.pieces

abbrev pub ReceiveOutcome : PiecePicker → ℕ → Piece → Checked PiecePicker → Type 0
ReceiveOutcome s i p panic = ⊥
ReceiveOutcome s i p (ret s') = Received s i p s'

set_same_idle :
    (ps : List Piece) (i : ℕ) (p : Piece)
    → get_elem? ps i ≡ some p
    → p.is_pending ≡ false
    → set ps i (record p { is_pending = false }) ≡ ps
set_same_idle [] i p e h = refl
set_same_idle (q ∷ qs) zero p e h = ground arith
set_same_idle (q ∷ qs) (suc i) p e h = ap (λ rs. q ∷ rs) (set_same_idle qs i p e h)

-- For a piece that we do not have, `received_piece` on a valid state does not panic. It marks that
-- piece alone as ours, takes one off the missing count, takes one off the free count only if the
-- piece was not pending, leaves the pieces' own records as they were, and stays valid.
pub received_piece_lem :
    (s : PiecePicker) (i : ℕ) (p : Piece)
    → IsValid s
    → get_elem? s.own_pieces i ≡ some false
    → get_elem? s.pieces i ≡ some p
    → ReceiveOutcome s i p (received_piece s i)
unfolding received_piece
received_piece_lem s i p v o e =
    let zeros = count_zeros-set s.own_pieces i o in
    rw (o, e) (rw (le→leb 1 s.missing_count (omega (arith, v.missing_exact))) (by_flag zeros))
  where
    by_flag :
        count_zeros s.own_pieces ≡ suc (count_zeros (set s.own_pieces i true))
        → ReceiveOutcome s i p (
            if p.is_pending
            then ret (record s {
              own_pieces = set s.own_pieces i true;
              missing_count = s.missing_count - 1;
            })
            else do
              free_count ← sub_checked s.free_count 1
              ret (record {
                own_pieces = set s.own_pieces i true;
                pieces = set s.pieces i (record p { is_pending = false });
                missing_count = s.missing_count - 1;
                free_count = free_count;
              }))
    by_flag zeros = elim (Bool-cases p.is_pending) [
      | inl h ↦ simp h record {
        valid = record {
          same_length = omega (arith, v.same_length, length-set s.own_pieces i true);
          missing_exact = omega (arith, v.missing_exact);
          free_exact =
              omega (arith, v.free_exact, count_free-set_pending s.own_pieces s.pieces i p e h);
        };
        owned = refl;
        missing = omega (arith, v.missing_exact);
        free = rw h;
        same_pieces = refl;
      }
      | inr h ↦
          let idle = count_free-set_idle s.own_pieces s.pieces i p o e h in
          simp h (
            rw (le→leb 1 s.free_count (omega (arith, v.free_exact))) record {
              valid = record {
                same_length = omega (
                  arith,
                  v.same_length,
                  length-set s.own_pieces i true,
                  length-set s.pieces i (record p { is_pending = false }),
                );
                missing_exact = omega (arith, v.missing_exact);
                free_exact = omega (arith, v.free_exact);
              };
              owned = refl;
              missing = omega (arith, v.missing_exact);
              free = rw h (omega (arith, v.free_exact));
              same_pieces = set_same_idle s.pieces i p e h;
            })
    ]

-- `received_piece` panics on a piece that we have.
pub received_piece_twice :
    (s : PiecePicker) (i : ℕ) → get_elem? s.own_pieces i ≡ some true → received_piece s i ≡ panic
unfolding received_piece
received_piece_twice s i o = rw o
