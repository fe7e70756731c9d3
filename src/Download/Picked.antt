-- ===== src/Download/Picked.antt =====
-- `pick_blocks` picks exactly the first candidates, up to the count that it is given.
use cratetorrent.Prelude.{
  ℕ, suc, ◌+◌, ◌-◌, ◌*◌, ◌^◌, ◌<◌, ◌≤◌, min, ◌≡◌, refl, ap, ◌∙◌, ◌⊎◌, inl, inr, Bool, true, false,
  not, ◌&&◌, List, [], ◌∷◌, ◌++◌, map, append-nil, append_assoc, Checked, ret, panic, ◌>>=◌, arith,
  ◌==◌, if◌then◌else◌, length, length-append, length-replicate, Bool-cases, take, drop,
}
use cratetorrent.Block.{full_block_len, BlockInfo, block_count}
use cratetorrent.Block.Partition.{block_len-ret}
use cratetorrent.Download.{
  BlockStatus, free, requested, received, PieceDownload, new, contains, make_info, pick_block,
  pick_from, pick_blocks,
}

-- The block at an index of a piece: 16 KiB, or what is left of the piece.
abbrev pub block_at : ℕ → ℕ → ℕ → BlockInfo
block_at p len i = record {
  piece_index = p;
  offset = i * full_block_len;
  len = min (len - i * full_block_len) full_block_len;
}

make_info-ret :
    (p len i : ℕ) → len < 2 ^ 32 → i < block_count len → make_info p len i ≡ ret (block_at p len i)
unfolding make_info block_count
make_info-ret p len i h k = rw (block_len-ret len i h k) (ground arith)

-- A block may be picked if it is free, or, in endgame, requested but not by this peer.
abbrev pub may_pick : Bool → List BlockInfo → BlockInfo → BlockStatus → Bool
may_pick in_end_game prev info free = true
may_pick in_end_game prev info requested = in_end_game && not (contains prev info)
may_pick in_end_game prev info received = false

-- The blocks that may be picked, in order, from block `i` on.
abbrev pub candidates : ℕ → ℕ → Bool → List BlockInfo → ℕ → List BlockStatus → List BlockInfo
candidates p len eg prev i [] = []
candidates p len eg prev i (b ∷ bs) =
    (if may_pick eg prev (block_at p len i) b then block_at p len i ∷ [] else [])
    ++ candidates p len eg prev (suc i) bs

-- A free block becomes requested.
abbrev pub request : BlockStatus → BlockStatus
request free = requested
request requested = requested
request received = received

-- The loop from block `i` on went through the first `c` blocks, marked them and pushed their
-- candidates, and then stopped: at the end, or since it had enough.
pub record PickedUpTo (p len : ℕ) (eg : Bool) (prev : List BlockInfo) (count i : ℕ)
    (bs : List BlockStatus) (picked : ℕ) (buf : List BlockInfo) (bs' : List BlockStatus)
    (buf' : List BlockInfo) : Type 0 where
  pub c : ℕ
  pub within : c ≤ length bs
  pub marked : bs' ≡ map request (take c bs) ++ drop c bs
  pub pushed : buf' ≡ buf ++ candidates p len eg prev i (take c bs)
  pub at_most : picked + length (candidates p len eg prev i (take c bs)) ≤ count
  pub stopped : (c ≡ length bs) ⊎ (picked + length (candidates p len eg prev i (take c bs)) ≡ count)

abbrev Loops :
    ℕ
    → ℕ
    → Bool
    → List BlockInfo
    → ℕ
    → ℕ
    → List BlockStatus
    → ℕ
    → List BlockInfo
    → Checked (List BlockStatus × List BlockInfo)
    → Type 0
Loops p len eg prev count i bs picked buf panic = ⊥
Loops p len eg prev count i bs picked buf (ret (bs', buf')) =
    PickedUpTo p len eg prev count i bs picked buf bs' buf'

pick_block-ret :
    (p len : ℕ) (eg : Bool) (prev : List BlockInfo) (i : ℕ) (b : BlockStatus)
    → len < 2 ^ 32
    → i < block_count len
    → pick_block p len eg prev i b
      ≡ ret (request b, if may_pick eg prev (block_at p len i) b then block_at p len i ∷ [] else [])
unfolding pick_block
pick_block-ret p len eg prev i free h k = rw (make_info-ret p len i h k)
pick_block-ret p len true prev i requested h k = rw (make_info-ret p len i h k) (ground arith)
pick_block-ret p len false prev i requested h k = refl
pick_block-ret p len eg prev i received h k = refl

length_if : (t : Bool) (b : BlockInfo) → length (if t then b ∷ [] else []) ≤ 1
length_if true b = omega arith
length_if false b = omega arith

-- A block more at the front.
PickedUpTo-cons :
    (p len : ℕ) (eg : Bool) (prev : List BlockInfo) (count i : ℕ) (b : BlockStatus)
    (bs : List BlockStatus) (picked : ℕ) (buf : List BlockInfo)
    (r : Checked (List BlockStatus × List BlockInfo))
    → let new_picks : List BlockInfo =
        (if may_pick eg prev (block_at p len i) b then block_at p len i ∷ [] else []) in
      Loops p len eg prev count (suc i) bs (picked + length new_picks) (buf ++ new_picks) r
      → Loops p len eg prev count i
          (b ∷ bs)
          picked
          buf
          (r >>= λ out. ret (request b ∷ out.0, out.1))
PickedUpTo-cons p len eg prev count i b bs picked buf panic k = k
PickedUpTo-cons p len eg prev count i b bs picked buf (ret (bs', buf')) k =
    let here : List BlockInfo =
      (if may_pick eg prev (block_at p len i) b then block_at p len i ∷ [] else []) in
    let later = candidates p len eg prev (suc i) (take k.c bs) in
    let total = length-append here later in
    record {
      c = suc k.c;
      within = omega (arith, k.within);
      marked = ap (λ xs. request b ∷ xs) k.marked;
      pushed = k.pushed ∙ append_assoc buf here later;
      at_most = omega (arith, total, k.at_most);
      stopped = elim k.stopped [ inl e ↦ inl (omega arith) | inr e ↦ inr (omega (arith, total)) ];
    }

pick_from-Loops :
    (p len : ℕ) (eg : Bool) (prev : List BlockInfo) (count i : ℕ) (bs : List BlockStatus)
    (picked : ℕ) (buf : List BlockInfo)
    → len < 2 ^ 32
    → i + length bs ≤ block_count len
    → picked ≤ count
    → Loops p len eg prev count i bs picked buf (pick_from p len eg prev count i bs picked buf)
unfolding pick_from
pick_from-Loops p len eg prev count i [] picked buf h k m = record {
  c = 0;
  within = omega arith;
  marked = refl;
  pushed = rw append-nil;
  at_most = omega arith;
  stopped = inl refl;
}
pick_from-Loops p len eg prev count i (b ∷ bs) picked buf h k m =
    elim (Bool-cases (picked == count)) [
      | inl e ↦ rw e record {
        c = 0;
        within = omega arith;
        marked = refl;
        pushed = rw append-nil;
        at_most = omega arith;
        stopped = inr (ground arith);
      }
      | inr e ↦ rw e (
          rw (pick_block-ret p len eg prev i b h (omega arith)) (
            PickedUpTo-cons p len eg prev count i b bs picked buf _ (
              pick_from-Loops p len eg prev count (suc i) bs _ _ h (omega arith) (
                ground
                  (arith, length_if (may_pick eg prev (block_at p len i) b) (block_at p len i))))))
    ]

pub record IsValid (d : PieceDownload) : Type 0 where
  pub all_blocks : length d.blocks ≡ block_count d.len
  pub word : d.len < 2 ^ 32

-- What `pick_blocks` may return.
abbrev pub PickOutcome :
    PieceDownload
    → ℕ
    → List BlockInfo
    → Bool
    → List BlockInfo
    → Checked (PieceDownload × List BlockInfo)
    → Type 0
PickOutcome d count buf eg prev panic = ⊥
PickOutcome d count buf eg prev (ret (d', buf')) =
    (d'.index ≡ d.index)
    × (d'.len ≡ d.len)
    × PickedUpTo d.index d.len eg prev count 0 d.blocks 0 buf d'.blocks buf'

-- On a valid download `pick_blocks` does not panic. It goes through the blocks up to some index,
-- pushes those of them that may be picked, in order and as blocks of this piece, marks the free ones
-- among them requested, and leaves the blocks from that index on alone. It pushes at most `count`
-- blocks, and stops only at the end or when it has pushed `count`.
pub pick_blocks_lem :
    (d : PieceDownload) (count : ℕ) (buf : List BlockInfo) (eg : Bool) (prev : List BlockInfo)
    → IsValid d
    → PickOutcome d count buf eg prev (pick_blocks d count buf eg prev)
unfolding pick_blocks
pick_blocks_lem d count buf eg prev v = go _ (
    pick_from-Loops d.index d.len eg prev count 0 d.blocks 0 buf v.word
      (omega (arith, v.all_blocks)) (omega arith))
  where
    go :
        (r : Checked (List BlockStatus × List BlockInfo))
        → Loops d.index d.len eg prev count 0 d.blocks 0 buf r
        → PickOutcome d count buf eg prev (r >>= λ out. ret (record d { blocks = out.0 }, out.1))
    go panic k = k
    go (ret (bs', buf')) k = (refl, refl, k)

pub new-IsValid : (i len : ℕ) → len < 2 ^ 32 → IsValid (new i len)
unfolding new
new-IsValid i len h = record { all_blocks = length-replicate (block_count len) free; word = h }
