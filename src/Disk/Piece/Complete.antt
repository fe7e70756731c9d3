-- ===== src/Disk/Piece/Complete.antt =====
-- A complete write buffer holds the piece.
use cratetorrent.Prelude.{
  ℕ, zero, suc, ◌+◌, ◌*◌, ◌<◌, ◌≤◌, ◌≡◌, ◌∙◌, refl, sym, ap, ap₂, arith, Bool, true, false, inl,
  inr, Bool-cases, ◌||◌, List, [], ◌∷◌, ◌++◌, ret, ==_iff, ltb, ltb→lt, ltb_false→le, ◌==◌, All,
  length, take, drop, take-append-drop,
}
use cratetorrent.Block.{full_block_len, block_count}
use cratetorrent.IoVecs.Bound.{take-all}
use cratetorrent.Codec.Handshake.{bytes_eq}
use cratetorrent.Disk.Piece.{
  Blocks, Piece, is_occupied, insert, enqueue_block, is_complete, buffered, matches_hash,
}

-- The bytes of the block at an index of a piece.
abbrev pub block_bytes : List ℕ → ℕ → List ℕ
block_bytes content i = take full_block_len (drop (i * full_block_len) content)

-- The entries are blocks of the piece, with increasing indices from `k` on.
abbrev pub AreBlocks : List ℕ → ℕ → Blocks → Type 0
AreBlocks content k [] = Unit
AreBlocks content k ((offset, bytes) ∷ bs) =
    (i : ℕ) × (k ≤ i)
    × (i < block_count (length content))
    × (offset ≡ i * full_block_len)
    × (bytes ≡ block_bytes content i)
    × AreBlocks content (suc i) bs

drop_nil : (n : ℕ) → drop {A = ℕ} n [] ≡ []
drop_nil zero = refl
drop_nil (suc n) = refl

pub drop-drop : (m n : ℕ) (xs : List ℕ) → drop m (drop n xs) ≡ drop (n + m) xs
drop-drop m zero xs = ap (λ j. drop j xs) (omega arith)
drop-drop m (suc n) [] = drop_nil m ∙ sym (drop_nil (suc n + m))
drop-drop m (suc n) (x ∷ xs) =
    let e : suc (n + m) ≡ suc n + m = omega arith in drop-drop m n xs ∙ ap (λ j. drop j (x ∷ xs)) e

count-AreBlocks :
    (content : List ℕ) (k : ℕ) (bs : Blocks)
    → AreBlocks content k bs
    → k ≤ block_count (length content)
    → length bs + k ≤ block_count (length content)
count-AreBlocks content k [] a h = omega arith
count-AreBlocks content k ((o, d) ∷ bs) (i, ki, lt, _, _, rest) h =
    let c = count-AreBlocks content (suc i) bs rest (omega arith) in omega arith

-- With as many entries as there are blocks left, none is left out.
full-AreBlocks :
    (content : List ℕ) (k : ℕ) (bs : Blocks)
    → AreBlocks content k bs
    → length bs + k ≡ block_count (length content)
    → buffered bs ≡ drop (k * full_block_len) content
unfolding buffered block_count
full-AreBlocks content k [] a e = sym (take-all (k * full_block_len) content (omega arith)).1
full-AreBlocks content k ((o, d) ∷ bs) (i, ki, lt, _, bytes, rest) e =
    let c = count-AreBlocks content (suc i) bs rest (omega arith) in
    let i_eq : i ≡ k = omega arith in
    let next : k * full_block_len + full_block_len ≡ suc k * full_block_len = omega arith in
    ap₂ (λ xs ys. xs ++ ys) (bytes ∙ ap (block_bytes content) i_eq)
      (full-AreBlocks content (suc i) bs rest (omega arith)
        ∙ ap (λ j. drop (suc j * full_block_len) content) i_eq
        ∙ ap (λ j. drop j content) (sym next)
        ∙ sym (drop-drop full_block_len (k * full_block_len) content))
    ∙ take-append-drop full_block_len (drop (k * full_block_len) content)

insert-AreBlocks :
    (content : List ℕ) (k j : ℕ) (bs : Blocks)
    → AreBlocks content k bs
    → k ≤ j
    → j < block_count (length content)
    → is_occupied (j * full_block_len) bs ≡ false
    → AreBlocks content k (insert (j * full_block_len) (block_bytes content j) bs)
unfolding insert is_occupied
insert-AreBlocks content k j [] a h lt e = (j, h, lt, refl, refl, tt)
insert-AreBlocks content k j ((o, d) ∷ bs) (i, ki, li, oi, di, rest) h lt e =
    elim (Bool-cases (ltb (j * full_block_len) o)) [
      | inl t ↦ rw t (
        j,
        h,
        lt,
        refl,
        refl,
        (i, ground (arith, ltb→lt (j * full_block_len) o t), li, oi, di, rest),
      )
      | inr t ↦
          let le = ltb_false→le (j * full_block_len) o t in
          let (ne, free) =
            or_false (o == (j * full_block_len)) (is_occupied (j * full_block_len) bs) e in
          rw t (i, ki, li, oi, di, insert-AreBlocks content (suc i) j bs rest (later ne le) lt free)
    ]
  where
    or_false : (a b : Bool) → (a || b) ≡ false → (a ≡ false) × (b ≡ false)
    or_false true b e = cc
    or_false false b e = (refl, e)

    later : (o == (j * full_block_len)) ≡ false → o ≤ j * full_block_len → suc i ≤ j
    later ne le = ground arith

-- Enqueuing blocks of the piece, by their indices in the order of their arrival.
abbrev pub enqueue_all : List ℕ → List ℕ → Piece → Piece
enqueue_all content [] p = p
enqueue_all content (i ∷ is) p =
    enqueue_all content is (enqueue_block p (i * full_block_len) (block_bytes content i))

-- The state that the first block finds.
abbrev pub empty_piece : List ℕ → List ℕ → Piece
empty_piece content expected_hash = record {
  expected_hash = expected_hash;
  len = length content;
  blocks = [];
}

pub record Buffers (content expected_hash : List ℕ) (p : Piece) : Type 0 where
  pub same_len : p.len ≡ length content
  pub same_hash : p.expected_hash ≡ expected_hash
  pub are_blocks : AreBlocks content 0 p.blocks

pub enqueue_block-Buffers :
    (content expected_hash : List ℕ) (p : Piece) (i : ℕ)
    → Buffers content expected_hash p
    → i < block_count (length content)
    → Buffers content expected_hash (enqueue_block p (i * full_block_len) (block_bytes content i))
unfolding enqueue_block
enqueue_block-Buffers content expected_hash p i b lt =
    elim (Bool-cases (is_occupied (i * full_block_len) p.blocks)) [
      | inl o ↦ rw o b
      | inr o ↦ rw o record {
        same_len = b.same_len;
        same_hash = b.same_hash;
        are_blocks = insert-AreBlocks content 0 i p.blocks b.are_blocks (omega arith) lt o;
      }
    ]

pub enqueue_all-Buffers :
    (content expected_hash : List ℕ) (is : List ℕ) (p : Piece)
    → Buffers content expected_hash p
    → All (λ i. i < block_count (length content)) is
    → Buffers content expected_hash (enqueue_all content is p)
enqueue_all-Buffers content expected_hash [] p b a = b
enqueue_all-Buffers content expected_hash (i ∷ is) p b (lt, a) =
    enqueue_all-Buffers content expected_hash is _
      (enqueue_block-Buffers content expected_hash p i b lt) a

pub matches_hash-Buffers :
    (sha1 : List ℕ → List ℕ) (content expected_hash : List ℕ) (p : Piece)
    → Buffers content expected_hash p
    → is_complete p ≡ true
    → (buffered p.blocks ≡ content)
      × (matches_hash sha1 p ≡ ret (bytes_eq (sha1 content) expected_hash))
unfolding is_complete matches_hash
matches_hash-Buffers sha1 content expected_hash p b c =
    let n : length p.blocks ≡ block_count p.len =
      (==_iff (length p.blocks) (block_count p.len)).0 c in
    let all =
      full-AreBlocks content 0 p.blocks b.are_blocks
        (ap (λ j. j + 0) n ∙ ap (λ j. block_count j + 0) b.same_len ∙ omega arith) in
    (all, rw c (ap₂ (λ xs ys. ret (bytes_eq (sha1 xs) ys)) all b.same_hash))

-- Blocks of a piece that arrive in any order, with any repeated, and are enqueued: once the buffer is
-- complete, its blocks in order are the piece's bytes, and `matches_hash` does not panic and compares
-- the hash of those bytes with the expected one.
pub complete_lem :
    (sha1 : List ℕ → List ℕ) (content expected_hash is : List ℕ)
    → All (λ i. i < block_count (length content)) is
    → is_complete (enqueue_all content is (empty_piece content expected_hash)) ≡ true
    → (buffered (enqueue_all content is (empty_piece content expected_hash)).blocks ≡ content)
      × (matches_hash sha1 (enqueue_all content is (empty_piece content expected_hash))
          ≡ ret (bytes_eq (sha1 content) expected_hash))
complete_lem sha1 content expected_hash is a c =
    matches_hash-Buffers sha1 content expected_hash
      (enqueue_all content is (empty_piece content expected_hash))
      (enqueue_all-Buffers content expected_hash is (empty_piece content expected_hash)
        record { same_len = refl; same_hash = refl; are_blocks = tt } a)
      c
