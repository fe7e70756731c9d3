-- ===== src/Peer/Freed.antt =====
-- Blocks that are freed or received leave the downloads of the torrent valid.
use cratetorrent.Prelude.{
  ℕ, ◌≡◌, refl, ◌∙◌, Bool, Option, none, some, List, [], ◌∷◌, IfReturns, IfReturns-bind,
  IfReturns-after, set, length-set, index,
}
use cratetorrent.Block.{BlockInfo}
use cratetorrent.Storage.{StorageInfo}
use cratetorrent.Download.{
  PieceDownload, BlockStatus, free, received, received_block, free_block, block_position,
  debug_assert, is_requested,
}
use cratetorrent.Peer.{Downloads, lookup}
use cratetorrent.Peer.Pipeline.{free_in, free_blocks}
use cratetorrent.Peer.Filling.{
  IsDownloadOf, AreDownloads, lookup-IsDownloadOf, insert_download-AreDownloads,
}

-- Another status of a block.
IsDownloadOf-set :
    (storage : StorageInfo) (i : ℕ) (d : PieceDownload) (j : ℕ) (status : BlockStatus)
    → IsDownloadOf storage i d
    → IsDownloadOf storage i (record d { blocks = set d.blocks j status })
IsDownloadOf-set storage i d j status v = record {
  valid = record {
    all_blocks = length-set d.blocks j status ∙ v.valid.all_blocks;
    word = v.valid.word;
  };
  keyed = v.keyed;
  in_range = v.in_range;
  sized = v.sized;
}

free_block-IsDownloadOf :
    (storage : StorageInfo) (i : ℕ) (dev : Bool) (d : PieceDownload) (b : BlockInfo)
    → IsDownloadOf storage i d
    → IfReturns (IsDownloadOf storage i) (free_block dev d b)
unfolding free_block
free_block-IsDownloadOf storage i dev d b v =
    IfReturns-after (IsDownloadOf storage i) (block_position dev d b) _ (λ j.
      IfReturns-after (IsDownloadOf storage i) (index d.blocks j) _
        (λ _. IsDownloadOf-set storage i d j free v))

pub received_block-IsDownloadOf :
    (storage : StorageInfo) (i : ℕ) (dev : Bool) (d : PieceDownload) (b : BlockInfo)
    → IsDownloadOf storage i d
    → IfReturns (λ r. IsDownloadOf storage i (r.0)) (received_block dev d b)
unfolding received_block
received_block-IsDownloadOf storage i dev d b v =
    IfReturns-after (λ r. IsDownloadOf storage i (r.0)) (block_position dev d b) _
      (λ j.
        IfReturns-after (λ r. IsDownloadOf storage i (r.0)) (index d.blocks j) _
          (λ prev.
            IfReturns-after (λ r. IsDownloadOf storage i (r.0))
              (debug_assert dev (is_requested prev)) _
              (λ _. IsDownloadOf-set storage i d j received v)))

free_in-AreDownloads :
    (storage : StorageInfo) (dev : Bool) (b : BlockInfo) (ds : Downloads) (d : Option PieceDownload)
    → AreDownloads storage ds
    → lookup ds b.piece_index ≡ d
    → IfReturns (AreDownloads storage) (free_in dev b ds d)
free_in-AreDownloads storage dev b ds none h e = h
free_in-AreDownloads storage dev b ds (some d) h e =
    IfReturns-bind (IsDownloadOf storage b.piece_index) (AreDownloads storage) (free_block dev d b)
      _
      (free_block-IsDownloadOf storage b.piece_index dev d b
        (lookup-IsDownloadOf storage ds b.piece_index d h e))
      (λ d' v. insert_download-AreDownloads storage ds b.piece_index d' h v)

pub free_blocks-AreDownloads :
    (storage : StorageInfo) (dev : Bool) (bs : List BlockInfo) (ds : Downloads)
    → AreDownloads storage ds
    → IfReturns (AreDownloads storage) (free_blocks dev bs ds)
unfolding free_blocks
free_blocks-AreDownloads storage dev [] ds h = h
free_blocks-AreDownloads storage dev (b ∷ bs) ds h =
    IfReturns-bind (AreDownloads storage) (AreDownloads storage)
      (free_in dev b ds (lookup ds b.piece_index)) _
      (free_in-AreDownloads storage dev b ds (lookup ds b.piece_index) h refl)
      (λ ds' h'. free_blocks-AreDownloads storage dev bs ds' h')
