-- ===== src/Disk/Piece/Arrived.antt =====
-- Once each block has arrived, the write buffer is complete.
use cratetorrent.Prelude.{
  ℕ, suc, ◌+◌, ◌*◌, ◌<◌, ◌≤◌, ◌≡◌, ◌⊎◌, refl, ap, arith, Bool, true, false, inl, inr, Bool-cases,
  ◌||◌, List, [], ◌∷◌, ==_iff, ==_refl, ltb, ltb→lt, ltb_false→le, ◌==◌, All, length,
}
use cratetorrent.Block.{full_block_len, block_count}
use cratetorrent.Disk.Piece.{Blocks, Piece, is_occupied, insert, enqueue_block, is_complete}
use cratetorrent.Disk.Piece.Complete.{
  AreBlocks, block_bytes, Buffers, enqueue_all, enqueue_all-Buffers, empty_piece,
}

or_true : (a b : Bool) → (a || b) ≡ true → (a ≡ true) ⊎ (b ≡ true)
or_true true b e = inl refl
or_true false b e = inr e

or_right : (a b : Bool) → b ≡ true → (a || b) ≡ true
or_right true b e = refl
or_right false b e = e

-- The block at an index has an entry.
abbrev HasBlock : Blocks → ℕ → Type 0
HasBlock bs i = is_occupied (i * full_block_len) bs ≡ true

insert-HasBlock :
    (i offset : ℕ) (bytes : List ℕ) (bs : Blocks)
    → HasBlock bs i
    → HasBlock (insert offset bytes bs) i
unfolding is_occupied insert
insert-HasBlock i offset bytes [] h = cc
insert-HasBlock i offset bytes ((o, d) ∷ bs) h = elim (Bool-cases (ltb offset o)) [
  | inl t ↦ rw t (or_right (offset == (i * full_block_len)) _ h)
  | inr t ↦ rw t (
      by_head (insert-HasBlock i offset bytes bs)
        (or_true (o == (i * full_block_len)) (is_occupied (i * full_block_len) bs) h))
]
  where
    by_head :
        (HasBlock bs i → HasBlock (insert offset bytes bs) i)
        → ((o == (i * full_block_len)) ≡ true) ⊎ (is_occupied (i * full_block_len) bs ≡ true)
        → (o == (i * full_block_len) || is_occupied (i * full_block_len) (insert offset bytes bs))
          ≡ true
    by_head keep (inl e) = rw e refl
    by_head keep (inr e) = or_right (o == (i * full_block_len)) _ (keep e)

insert_has :
    (offset : ℕ) (bytes : List ℕ) (bs : Blocks) → is_occupied offset (insert offset bytes bs) ≡ true
unfolding is_occupied insert
insert_has offset bytes [] = rw (==_refl offset) refl
insert_has offset bytes ((o, d) ∷ bs) = elim (Bool-cases (ltb offset o)) [
  | inl t ↦ rw t (rw (==_refl offset) refl)
  | inr t ↦ rw t (or_right (o == offset) _ (insert_has offset bytes bs))
]

enqueue_block-HasBlock :
    (p : Piece) (i offset : ℕ) (bytes : List ℕ)
    → HasBlock p.blocks i
    → HasBlock (enqueue_block p offset bytes).blocks i
unfolding enqueue_block
enqueue_block-HasBlock p i offset bytes h = elim (Bool-cases (is_occupied offset p.blocks)) [
  | inl o ↦ rw o h
  | inr o ↦ rw o (insert-HasBlock i offset bytes p.blocks h)
]

enqueue_block_has :
    (p : Piece) (offset : ℕ) (bytes : List ℕ)
    → is_occupied offset (enqueue_block p offset bytes).blocks ≡ true
unfolding enqueue_block
enqueue_block_has p offset bytes = elim (Bool-cases (is_occupied offset p.blocks)) [
  | inl o ↦ rw o o
  | inr o ↦ rw o (insert_has offset bytes p.blocks)
]

-- An index is among those that have arrived.
abbrev pub Arrives : ℕ → List ℕ → Type 0
Arrives i [] = ⊥
Arrives i (j ∷ js) = (i ≡ j) ⊎ Arrives i js

enqueue_all-keeps :
    (content is : List ℕ) (p : Piece) (i : ℕ)
    → HasBlock p.blocks i
    → HasBlock (enqueue_all content is p).blocks i
enqueue_all-keeps content [] p i h = h
enqueue_all-keeps content (j ∷ is) p i h =
    enqueue_all-keeps content is _ i
      (enqueue_block-HasBlock p i (j * full_block_len) (block_bytes content j) h)

enqueue_all-HasBlock :
    (content is : List ℕ) (p : Piece) (i : ℕ)
    → Arrives i is
    → HasBlock (enqueue_all content is p).blocks i
enqueue_all-HasBlock content [] p i a = elim a [ ]
enqueue_all-HasBlock content (j ∷ is) p i (inl e) =
    enqueue_all-keeps content is _ i
      (rw e (enqueue_block_has p (j * full_block_len) (block_bytes content j)))
enqueue_all-HasBlock content (j ∷ is) p i (inr a) = enqueue_all-HasBlock content is _ i a

HasBlock-ge :
    (content : List ℕ) (k j : ℕ) (bs : Blocks) → AreBlocks content k bs → HasBlock bs j → k ≤ j
unfolding is_occupied
HasBlock-ge content k j [] a h = cc
HasBlock-ge content k j ((o, d) ∷ bs) (i, ki, li, oi, di, rest) h =
    elim (or_true (o == (j * full_block_len)) (is_occupied (j * full_block_len) bs) h) [
      | inl e ↦ let f = (==_iff o (j * full_block_len)).0 e in omega arith
      | inr e ↦ let f = HasBlock-ge content (suc i) j bs rest e in omega arith
    ]

-- If no block from `k` on is missing, there are as many entries as blocks.
length-AreBlocks :
    (content : List ℕ) (k : ℕ) (bs : Blocks)
    → AreBlocks content k bs
    → k ≤ block_count (length content)
    → ((i : ℕ) → k ≤ i → i < block_count (length content) → HasBlock bs i)
    → length bs + k ≡ block_count (length content)
unfolding is_occupied
length-AreBlocks content k [] a h all = elim (Bool-cases (ltb k (block_count (length content)))) [
  | inl t ↦ let e = all k (omega arith) (ltb→lt k (block_count (length content)) t) in cc
  | inr t ↦ let e = ltb_false→le k (block_count (length content)) t in omega arith
]
length-AreBlocks content k ((o, d) ∷ bs) (i, ki, li, oi, di, rest) h all =
    let i_eq : i ≡ k = first_is (all k (omega arith) (omega arith)) in
    let r =
      length-AreBlocks content (suc i) bs rest (omega arith)
        (λ j h lt. later j h (all j (omega arith) lt)) in
    omega arith
  where
    first_is : HasBlock ((o, d) ∷ bs) k → i ≡ k
    first_is e =
        elim (or_true (o == (k * full_block_len)) (is_occupied (k * full_block_len) bs) e) [
          | inl q ↦ let f = (==_iff o (k * full_block_len)).0 q in omega arith
          | inr q ↦ let f = HasBlock-ge content (suc i) k bs rest q in absurd (omega arith)
        ]

    later : (j : ℕ) → suc i ≤ j → HasBlock ((o, d) ∷ bs) j → HasBlock bs j
    later j h e =
        elim (or_true (o == (j * full_block_len)) (is_occupied (j * full_block_len) bs) e) [
          | inl q ↦ let f = (==_iff o (j * full_block_len)).0 q in absurd (omega arith)
          | inr q ↦ q
        ]

-- Blocks of a piece that arrive in any order, with any repeated: if the block at each index of the piece
-- is among them, the buffer is complete.
pub arrived_lem :
    (content expected_hash is : List ℕ)
    → All (λ i. i < block_count (length content)) is
    → ((i : ℕ) → i < block_count (length content) → Arrives i is)
    → is_complete (enqueue_all content is (empty_piece content expected_hash)) ≡ true
unfolding is_complete
arrived_lem content expected_hash is a each =
    let p = enqueue_all content is (empty_piece content expected_hash) in
    let b : Buffers content expected_hash p =
      enqueue_all-Buffers content expected_hash is (empty_piece content expected_hash)
        record { same_len = refl; same_hash = refl; are_blocks = tt } a in
    let n = length-AreBlocks content 0 p.blocks b.are_blocks (omega arith) (λ i h lt.
      enqueue_all-HasBlock content is (empty_piece content expected_hash) i (each i lt)) in
    let m = ap block_count b.same_len in
    (==_iff (length p.blocks) (block_count p.len)).1 (omega arith)
