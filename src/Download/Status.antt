-- ===== src/Download/Status.antt =====
-- How the statuses of the blocks change: requests use up free blocks, received blocks stay so.
use cratetorrent.Prelude.{
  ℕ, zero, suc, ◌+◌, ◌<◌, min, ◌≡◌, ◌≢◌, refl, ap, ◌∙◌, ◌⊎◌, inl, inr, Bool, true, false, List, [],
  ◌∷◌, ◌++◌, map, Checked, ret, panic, ◌>>=◌, arith, if◌then◌else◌, length, take, drop, some, set,
  get_elem?, length-set, get_elem?-set_self, get_elem?-set_ne, get_elem?-some, assert,
}
use cratetorrent.Block.{BlockInfo, block_count}
use cratetorrent.Download.{
  BlockStatus, free, requested, received, PieceDownload, pick_blocks, received_block, free_block,
  block_position, debug_assert, is_requested,
}
use cratetorrent.Download.Picked.{
  block_at, candidates, request, IsValid, PickOutcome, pick_blocks_lem,
}

abbrev is_free : BlockStatus → Bool
is_free free = true
is_free _ = false

-- How many blocks are free.
abbrev pub count_free : List BlockStatus → ℕ
count_free [] = 0
count_free (b ∷ bs) = (if is_free b then 1 else 0) + count_free bs

count_free-append :
    (bs cs : List BlockStatus) → count_free (bs ++ cs) ≡ count_free bs + count_free cs
count_free-append [] cs = omega arith
count_free-append (b ∷ bs) cs = omega (arith, count_free-append bs cs)

count_free-request : (bs : List BlockStatus) → count_free (map request bs) ≡ 0
count_free-request [] = refl
count_free-request (free ∷ bs) = omega (arith, count_free-request bs)
count_free-request (requested ∷ bs) = omega (arith, count_free-request bs)
count_free-request (received ∷ bs) = omega (arith, count_free-request bs)

-- Out of endgame the candidates are the free blocks.
length-candidates :
    (p len : ℕ) (prev : List BlockInfo) (i : ℕ) (bs : List BlockStatus)
    → length (candidates p len false prev i bs) ≡ count_free bs
length-candidates p len prev i [] = refl
length-candidates p len prev i (free ∷ bs) = omega (arith, length-candidates p len prev (suc i) bs)
length-candidates p len prev i (requested ∷ bs) =
    omega (arith, length-candidates p len prev (suc i) bs)
length-candidates p len prev i (received ∷ bs) =
    omega (arith, length-candidates p len prev (suc i) bs)

count_free-take-drop :
    (n : ℕ) (bs : List BlockStatus)
    → count_free (take n bs) + count_free (drop n bs) ≡ count_free bs
count_free-take-drop zero bs = omega arith
count_free-take-drop (suc n) [] = refl
count_free-take-drop (suc n) (b ∷ bs) = omega (arith, count_free-take-drop n bs)

drop-all : (bs : List BlockStatus) → drop (length bs) bs ≡ []
drop-all [] = refl
drop-all (b ∷ bs) = drop-all bs

-- What `pick_blocks` does to the free blocks out of endgame.
abbrev UsesFree : PieceDownload → ℕ → Checked (PieceDownload × List BlockInfo) → Type 0
UsesFree d count panic = ⊥
UsesFree d count (ret (d', picks)) =
    (length picks ≡ min count (count_free d.blocks))
    × (count_free d.blocks ≡ length picks + count_free d'.blocks)

-- Out of endgame and from an empty buffer, `pick_blocks` on a valid download picks as many blocks as
-- asked for, or all free ones if they are fewer, and each pick makes one free block not free.
pick_blocks-UsesFree :
    (d : PieceDownload) (count : ℕ) (prev : List BlockInfo)
    → IsValid d
    → UsesFree d count (pick_blocks d count [] false prev)
pick_blocks-UsesFree d count prev v = go _ (pick_blocks_lem d count [] false prev v)
  where
    go :
        (r : Checked (PieceDownload × List BlockInfo))
        → PickOutcome d count [] false prev r
        → UsesFree d count r
    go panic k = k
    go (ret (d', picks)) (i, l, k) =
        let n = length-candidates d.index d.len prev 0 (take k.c d.blocks) in
        let split = count_free-take-drop k.c d.blocks in
        let after = count_free-append (map request (take k.c d.blocks)) (drop k.c d.blocks) in
        let none_left = count_free-request (take k.c d.blocks) in
        let pushed = ap length k.pushed in
        let marked = ap count_free k.marked in
        let exact : length picks ≡ min count (count_free d.blocks) = elim k.stopped [
          | inl e ↦
              let rest =
                ap (λ c. count_free (drop c d.blocks)) e ∙ ap count_free (drop-all d.blocks) in
              omega arith
          | inr e ↦ omega arith
        ] in
        (exact, omega arith)

block_position_lem :
    (dev : Bool) (d : PieceDownload) (i : ℕ)
    → i < block_count d.len
    → block_position dev d (block_at d.index d.len i) ≡ ret i
unfolding block_position block_count
block_position_lem true d i h = ground arith
block_position_lem false d i h = ground arith

-- For a block at an index below the block count, of the right piece and length, that is requested,
-- or of any status where debug assertions are compiled out: `received_block` returns the status that
-- it had, marks it received, and leaves every other block alone.
received_block_lem :
    (dev : Bool) (d : PieceDownload) (i : ℕ) (status : BlockStatus)
    → i < block_count d.len
    → get_elem? d.blocks i ≡ some status
    → (dev ≡ false) ⊎ (status ≡ requested)
    → received_block dev d (block_at d.index d.len i)
      ≡ ret (record d { blocks = set d.blocks i received }, status)
unfolding received_block
received_block_lem dev d i status h e k = rw (block_position_lem dev d i h) (rw e (by_profile k))
  where
    by_profile :
        (dev ≡ false) ⊎ (status ≡ requested)
        → ◌>>=◌ {B = PieceDownload × BlockStatus}
            (debug_assert dev (is_requested status))
            (λ _. ret (record d { blocks = set d.blocks i received }, status))
          ≡ ret (record d { blocks = set d.blocks i received }, status)
    by_profile k = ground arith

-- With debug assertions, `received_block` panics on every block of the piece that is not requested
-- at that time: one that a timeout has freed, or that was received before.
received_block_not_requested :
    (d : PieceDownload) (i : ℕ) (status : BlockStatus)
    → i < block_count d.len
    → get_elem? d.blocks i ≡ some status
    → status ≢ requested
    → received_block true d (block_at d.index d.len i) ≡ panic
unfolding received_block
received_block_not_requested d i status h e k =
    rw (block_position_lem true d i h) (rw e (refused status k))
  where
    refused :
        (st : BlockStatus)
        → st ≢ requested
        → ◌>>=◌ {B = PieceDownload × BlockStatus}
            (assert (is_requested st))
            (λ _. ret (record d { blocks = set d.blocks i received }, st))
          ≡ panic
    refused free k = refl
    refused requested k = absurd (k refl)
    refused received k = refl

free_block_lem :
    (dev : Bool) (d : PieceDownload) (i : ℕ)
    → IsValid d
    → i < block_count d.len
    → free_block dev d (block_at d.index d.len i) ≡ ret (record d { blocks = set d.blocks i free })
unfolding free_block
free_block_lem dev d i v h =
    let (b, e) = get_elem?-some d.blocks i (omega (arith, v.all_blocks)) in
    rw (block_position_lem dev d i h) (rw e)

-- For an index below the block count of a valid download, `free_block` does not panic: it makes that
-- block free, whatever its status, leaves the others alone, and the download stays valid.
free_block_again :
    (dev : Bool) (d : PieceDownload) (i : ℕ)
    → IsValid d
    → i < block_count d.len
    → (d' : PieceDownload) × (free_block dev d (block_at d.index d.len i) ≡ ret d')
      × (get_elem? d'.blocks i ≡ some free)
      × ((j : ℕ) → i ≢ j → get_elem? d'.blocks j ≡ get_elem? d.blocks j)
      × IsValid d'
free_block_again dev d i v h = (
  record d { blocks = set d.blocks i free },
  free_block_lem dev d i v h,
  get_elem?-set_self d.blocks i free (omega (arith, v.all_blocks)),
  λ j ne. get_elem?-set_ne d.blocks i j free ne,
  record { all_blocks = omega (arith, v.all_blocks, length-set d.blocks i free); word = v.word },
)
