-- ===== src/Peer/Filling.antt =====
-- The downloads of a torrent in progress, and the first loop of `make_requests` over them.
use cratetorrent.Prelude.{
  ℕ, zero, suc, ◌+◌, ◌-◌, ◌^◌, ◌<◌, ◌≤◌, max, ◌≡◌, refl, sym, ap, subst, ◌∙◌, arith, inl, inr, Bool,
  false, some, List, [], ◌∷◌, ◌++◌, Checked, ret, panic, ◌>>=◌, Bool-cases, All, leb, ◌==◌, length,
  take, drop, map, length-append,
}
use cratetorrent.Block.{BlockInfo, block_count}
use cratetorrent.Storage.{StorageInfo, piece_len}
use cratetorrent.Download.{PieceDownload, BlockStatus, pick_blocks}
use cratetorrent.Download.Picked as Picked
use cratetorrent.Download.Picked.{
  block_at, candidates, may_pick, PickOutcome, PickedUpTo, pick_blocks_lem, new-IsValid,
}
use cratetorrent.PiecePicker.{PiecePicker}
use cratetorrent.PiecePicker.Invariant as Picker
use cratetorrent.Peer.{Downloads, lookup, insert_download}
use cratetorrent.Peer.Pipeline.{continue_downloads}
use cratetorrent.Peer.Valid.{IsBlockOf}
use cratetorrent.Peer.Sets.{All-append}

-- The piece lengths are of the type `u32`.
pub record IsSized (storage : StorageInfo) : Type 0 where
  pub piece_word : storage.piece_len < 2 ^ 32
  pub last_word : storage.last_piece_len < 2 ^ 32

-- A download is of the piece of its key, in the torrent, and has that piece's length and blocks.
pub record IsDownloadOf (storage : StorageInfo) (i : ℕ) (d : PieceDownload) : Type 0 where
  pub valid : Picked.IsValid d
  pub keyed : d.index ≡ i
  pub in_range : i < storage.piece_count
  pub sized : piece_len storage i ≡ ret d.len

abbrev pub AreDownloads : StorageInfo → Downloads → Type 0
AreDownloads storage = All (λ e. IsDownloadOf storage (e.0) (e.1))

-- What the sessions of a torrent share is valid.
pub record IsShared (storage : StorageInfo) (picker : PiecePicker) (ds : Downloads) : Type 0 where
  pub picking : Picker.IsValid picker
  pub same_count : length picker.own_pieces ≡ storage.piece_count
  pub downloading : AreDownloads storage ds

pub lookup-IsDownloadOf :
    (storage : StorageInfo) (ds : Downloads) (i : ℕ) (d : PieceDownload)
    → AreDownloads storage ds
    → lookup ds i ≡ some d
    → IsDownloadOf storage i d
lookup-IsDownloadOf storage [] i d h e = cc
lookup-IsDownloadOf storage ((j, d') ∷ ds) i d (v, h) e = elim (Bool-cases (j == i)) [
  | inl t ↦
      let j≡i : j ≡ i = ground arith in
      let same : d' ≡ d = ground arith in
      subst (λ k. IsDownloadOf storage k d) j≡i (subst (IsDownloadOf storage j) same v)
  | inr f ↦ lookup-IsDownloadOf storage ds i d h (ground arith)
]

pub insert_download-AreDownloads :
    (storage : StorageInfo) (ds : Downloads) (i : ℕ) (d : PieceDownload)
    → AreDownloads storage ds
    → IsDownloadOf storage i d
    → AreDownloads storage (insert_download ds i d)
insert_download-AreDownloads storage [] i d h k = (k, tt)
insert_download-AreDownloads storage ((j, d') ∷ ds) i d (v, h) k = elim (Bool-cases (j == i)) [
  | inl t ↦ rw t (k, h)
  | inr f ↦ rw f (v, insert_download-AreDownloads storage ds i d h k)
]

-- The candidates of a download are blocks of the torrent.
block_at-IsBlockOf :
    (storage : StorageInfo) (p len i : ℕ)
    → p < storage.piece_count
    → piece_len storage p ≡ ret len
    → i < block_count len
    → IsBlockOf storage (block_at p len i)
unfolding block_count
block_at-IsBlockOf storage p len i r e h = record {
  in_range = r;
  some_byte = omega arith;
  its_piece_len = len;
  is_piece_len = e;
  inside = omega arith;
}

candidates-IsBlockOf :
    (storage : StorageInfo) (p len : ℕ) (eg : Bool) (prev : List BlockInfo) (i : ℕ)
    (bs : List BlockStatus)
    → p < storage.piece_count
    → piece_len storage p ≡ ret len
    → i + length bs ≤ block_count len
    → All (IsBlockOf storage) (candidates p len eg prev i bs)
candidates-IsBlockOf storage p len eg prev i [] r e h = tt
candidates-IsBlockOf storage p len eg prev i (b ∷ bs) r e h =
    let rest = candidates-IsBlockOf storage p len eg prev (suc i) bs r e (omega arith) in
    elim (Bool-cases (may_pick eg prev (block_at p len i) b)) [
      | inl t ↦ rw t (block_at-IsBlockOf storage p len i r e (omega arith), rest)
      | inr f ↦ rw f rest
    ]

length-take_le {ℓ} : {A : Type ℓ} (n : ℕ) (xs : List A) → length (take n xs) ≤ length xs
length-take_le zero xs = omega arith
length-take_le (suc n) [] = omega arith
length-take_le (suc n) (x ∷ xs) = omega (arith, length-take_le n xs)

-- Blocks of the torrent, no more than `room` of them beyond what there was.
pub record IsPicked (storage : StorageInfo) (room : ℕ) (buf buf' : List BlockInfo) : Type 0 where
  pub blocks : All (IsBlockOf storage) buf'
  pub bounded : length buf' ≤ max (length buf) room

-- A download after blocks were picked of it, and the blocks that there are then.
abbrev pub Picks :
    StorageInfo → ℕ → ℕ → List BlockInfo → Checked (PieceDownload × List BlockInfo) → Type 0
Picks storage i count buf panic = ⊥
Picks storage i count buf (ret (d', buf')) =
    IsDownloadOf storage i d' × All (IsBlockOf storage) buf' × (length buf' ≤ length buf + count)

length-marked :
    (n : ℕ) (bs : List BlockStatus)
    → length (map Picked.request (take n bs) ++ drop n bs) ≡ length bs
length-marked zero bs = refl
length-marked (suc n) [] = refl
length-marked (suc n) (b ∷ bs) = ap suc (length-marked n bs)

pub pick_blocks-Picks :
    (storage : StorageInfo) (i : ℕ) (d : PieceDownload) (count : ℕ) (buf : List BlockInfo)
    (eg : Bool) (prev : List BlockInfo)
    → IsDownloadOf storage i d
    → All (IsBlockOf storage) buf
    → Picks storage i count buf (pick_blocks d count buf eg prev)
pick_blocks-Picks storage i d count buf eg prev v h =
    go (pick_blocks d count buf eg prev) (pick_blocks_lem d count buf eg prev v.valid)
  where
    go :
        (r : Checked (PieceDownload × List BlockInfo))
        → PickOutcome d count buf eg prev r
        → Picks storage i count buf r
    go panic k = k
    go (ret (d', buf')) (same_index, same_len, k) =
        let picks = candidates d.index d.len eg prev 0 (take k.c d.blocks) in
        let index_in : d.index < storage.piece_count = omega (arith, v.keyed, v.in_range) in
        let is_len : piece_len storage d.index ≡ ret d.len =
          ap (piece_len storage) v.keyed ∙ v.sized in
        let all : All (IsBlockOf storage) picks =
          candidates-IsBlockOf storage d.index d.len eg prev 0 (take k.c d.blocks) index_in is_len
            (omega (arith, length-take_le k.c d.blocks, v.valid.all_blocks)) in
        (
          record {
            valid = record {
              all_blocks =
                  ap length k.marked
                  ∙ length-marked k.c d.blocks
                  ∙ v.valid.all_blocks
                  ∙ ap block_count (sym same_len);
              word = subst (λ n. n < 2 ^ 32) (sym same_len) v.valid.word;
            };
            keyed = same_index ∙ v.keyed;
            in_range = v.in_range;
            sized = v.sized ∙ ap ret (sym same_len);
          },
          subst (All (IsBlockOf storage)) (sym k.pushed) (All-append _ buf picks h all),
          omega (arith, ap length k.pushed, length-append buf picks, k.at_most),
        )

-- What the first loop may return.
abbrev pub Continues :
    StorageInfo → ℕ → List BlockInfo → ℕ → Checked (Downloads × List BlockInfo) → Type 0
Continues storage target outgoing start panic = ⊥
Continues storage target outgoing start (ret (ds, requests)) =
    AreDownloads storage ds
    × All (IsBlockOf storage) requests
    × (length requests + length outgoing ≤ max start target)

pub continue_downloads-Continues :
    (storage : StorageInfo) (target : ℕ) (eg : Bool) (outgoing : List BlockInfo) (start : ℕ)
    (ds : Downloads) (requests : List BlockInfo)
    → AreDownloads storage ds
    → All (IsBlockOf storage) requests
    → length requests + length outgoing ≤ max start target
    → Continues storage target outgoing start (continue_downloads target eg outgoing ds requests)
unfolding continue_downloads
continue_downloads-Continues storage target eg outgoing start [] requests v h b = (tt, h, b)
continue_downloads-Continues storage target eg outgoing start ((i, d) ∷ ds) requests (v, vs) h b =
    elim (Bool-cases (leb target (length requests + length outgoing))) [
      | inl t ↦ rw t ((v, vs), h, b)
      | inr f ↦ rw f (
          go _ (pick_blocks-Picks storage i d _ requests eg outgoing v h)
            (λ requests' h' b'.
              continue_downloads-Continues storage target eg outgoing start ds requests' vs h' b')
            f)
    ]
  where
    put :
        (d' : PieceDownload)
        → IsDownloadOf storage i d'
        → (r : Checked (Downloads × List BlockInfo)) → Continues storage target outgoing start r
        → Continues storage target outgoing start (r >>= λ out. ret ((i, d') ∷ out.0, out.1))
    put d' v' panic k = k
    put d' v' (ret (ds', all)) (vs', h', b') = ((v', vs'), h', b')

    go :
        (r : Checked (PieceDownload × List BlockInfo))
        → Picks storage i (target - (length requests + length outgoing)) requests r
        → ((requests' : List BlockInfo)
            → All (IsBlockOf storage) requests'
            → length requests' + length outgoing ≤ max start target
            → Continues storage target outgoing start
                (continue_downloads target eg outgoing ds requests'))
        → leb target (length requests + length outgoing) ≡ false
        → Continues storage target outgoing start (
            r >>= λ out. continue_downloads target eg outgoing ds (out.1) >>= λ rest.
            ret ((i, out.0) ∷ rest.0, rest.1))
    go panic k rest f = k
    go (ret (d', requests')) (v', h', b') rest f =
        put d' v' (continue_downloads target eg outgoing ds requests')
          (rest requests' h' (ground arith))
