-- ===== src/Torrent/Completion.antt =====
-- A completed piece leaves what the sessions share valid.
use cratetorrent.Prelude.{
  ℕ, suc, ◌≡◌, refl, ap, ◌∙◌, arith, inl, inr, Bool, true, false, not, ◌&&◌, ◌||◌, Option, none,
  some, List, [], ◌∷◌, ◌++◌, map, Checked, ret, panic, ◌>>=◌, Bool-cases, ltb, ◌==◌, if◌then◌else◌,
  length, set, length-set, get_elem?, get_elem?-some, IfReturns, IfReturns-after, subst, sym, ◌<◌,
  zero,
}
use cratetorrent.Storage.{StorageInfo}
use cratetorrent.Download.{PieceDownload, BlockStatus, free, free_all_blocks}
use cratetorrent.PiecePicker.{PiecePicker, Piece, received_piece, all_pieces_picked}
use cratetorrent.PiecePicker.Invariant.{ReceiveOutcome, received_piece_lem}
use cratetorrent.Counter.{FloatApi}
use cratetorrent.Peer.{Downloads, lookup}
use cratetorrent.Peer.Filling.{
  IsShared, IsDownloadOf, AreDownloads, lookup-IsDownloadOf, insert_download-AreDownloads,
}
use cratetorrent.Torrent.{
  Torrent, Notice, torrent_complete, announce_completed, remove_download, tell_peers,
  complete_piece, free_download, handle_piece_completion, push_completed,
}

remove_download-AreDownloads :
    (storage : StorageInfo) (ds : Downloads) (i : ℕ)
    → AreDownloads storage ds
    → AreDownloads storage (remove_download ds i)
remove_download-AreDownloads storage [] i h = tt
remove_download-AreDownloads storage ((j, d) ∷ ds) i (v, h) = elim (Bool-cases (j == i)) [
  | inl t ↦ rw t (remove_download-AreDownloads storage ds i h)
  | inr f ↦ rw f (v, remove_download-AreDownloads storage ds i h)
]

lookup-remove_download : (ds : Downloads) (i : ℕ) → lookup (remove_download ds i) i ≡ none
lookup-remove_download [] i = refl
lookup-remove_download ((j, d) ∷ ds) i = elim (Bool-cases (j == i)) [
  | inl t ↦ rw t (lookup-remove_download ds i)
  | inr f ↦ rw f (rw f (lookup-remove_download ds i))
]

length-map_free : (bs : List BlockStatus) → length (map (λ _. free) bs) ≡ length bs
length-map_free [] = refl
length-map_free (b ∷ bs) = ap suc (length-map_free bs)

free_all_blocks-IsDownloadOf :
    (storage : StorageInfo) (i : ℕ) (d : PieceDownload)
    → IsDownloadOf storage i d
    → IsDownloadOf storage i (free_all_blocks d)
unfolding free_all_blocks
free_all_blocks-IsDownloadOf storage i d v = record {
  valid = record {
    all_blocks = length-map_free d.blocks ∙ v.valid.all_blocks;
    word = v.valid.word;
  };
  keyed = v.keyed;
  in_range = v.in_range;
  sized = v.sized;
}

own_below : (xs : List Bool) (i : ℕ) (b : Bool) → get_elem? xs i ≡ some b → i < length xs
own_below [] i b e = cc
own_below (x ∷ xs) zero b e = omega arith
own_below (x ∷ xs) (suc i) b e = omega (arith, own_below xs i b e)

module _ ⦃api : FloatApi⦄ where
  -- After a valid piece: it is ours and no longer downloaded, the endgame has begun if all missing
  -- pieces are picked, and the last piece completes the torrent.
  pub record Completes (t : Torrent) (i : ℕ) (t' : Torrent) (notices : List Notice) : Type 0 where
    pub shared : IsShared t.storage t'.piece_picker t'.downloads
    pub owned : t'.piece_picker.own_pieces ≡ set t.piece_picker.own_pieces i true
    pub finished : lookup t'.downloads i ≡ none
    pub fewer : t.piece_picker.missing_count ≡ suc t'.piece_picker.missing_count
    pub endgame : t'.in_endgame ≡ (
        t.in_endgame || (ltb 0 t'.piece_picker.missing_count && (t'.piece_picker.free_count == 0)))
    pub told :
        notices
        ≡ tell_peers i t'.in_endgame t.peers
          ++ (if t'.piece_picker.missing_count == 0
              then torrent_complete ∷ announce_completed ∷ []
              else [])

  -- What `handle_piece_completion` may return.
  abbrev pub CompletionOutcome : Torrent → ℕ → Bool → Checked (Torrent × List Notice) → Type 0
  CompletionOutcome t i valid panic = ⊥
  CompletionOutcome t i true (ret (t', notices)) = Completes t i t' notices
  CompletionOutcome t i false (ret (t', notices)) =
      IsShared t.storage t'.piece_picker t'.downloads × (notices ≡ [])

  free_download-IsShared :
      (t : Torrent) (i : ℕ)
      → IsShared t.storage t.piece_picker t.downloads
      → IsShared t.storage t.piece_picker (free_download t.downloads i (lookup t.downloads i))
  free_download-IsShared t i v = record {
    picking = v.picking;
    same_count = v.same_count;
    downloading = freed (lookup t.downloads i) refl;
  }
    where
      freed :
          (d : Option PieceDownload)
          → lookup t.downloads i ≡ d
          → AreDownloads t.storage (free_download t.downloads i d)
      freed none f = v.downloading
      freed (some d) f =
          insert_download-AreDownloads t.storage t.downloads i (free_all_blocks d) v.downloading (
            free_all_blocks-IsDownloadOf t.storage i d
              (lookup-IsDownloadOf t.storage t.downloads i d v.downloading f))

  pub completion_lem :
      (t : Torrent) (i : ℕ) (p : Piece) (valid : Bool)
      → IsShared t.storage t.piece_picker t.downloads
      → get_elem? t.piece_picker.own_pieces i ≡ some false
      → get_elem? t.piece_picker.pieces i ≡ some p
      → CompletionOutcome t i valid (handle_piece_completion t i valid)
  unfolding handle_piece_completion complete_piece all_pieces_picked
  completion_lem t i p true v o e =
      go (received_piece t.piece_picker i) (received_piece_lem t.piece_picker i p v.picking o e)
    where
      go :
          (r : Checked PiecePicker)
          → ReceiveOutcome t.piece_picker i p r
          → CompletionOutcome t i true (
              r >>= λ picker.
              let in_endgame =
                if not t.in_endgame && (ltb 0 picker.missing_count && (picker.free_count == 0))
                then true
                else t.in_endgame in
              ret (
                record t {
                  downloads = remove_download t.downloads i;
                  piece_picker = picker;
                  in_endgame = in_endgame;
                  completed_pieces = push_completed i t.completed_pieces;
                },
                tell_peers i in_endgame t.peers
                    ++ (if picker.missing_count == 0
                        then torrent_complete ∷ announce_completed ∷ []
                        else []),
              ))
      go panic k = k
      go (ret picker) k = record {
        shared = record {
          picking = k.valid;
          same_count =
              ap length k.owned ∙ length-set t.piece_picker.own_pieces i true ∙ v.same_count;
          downloading = remove_download-AreDownloads t.storage t.downloads i v.downloading;
        };
        owned = k.owned;
        finished = lookup-remove_download t.downloads i;
        fewer = k.missing;
        endgame = ground arith;
        told = refl;
      }
  completion_lem t i p false v o e = (free_download-IsShared t i v, refl)

  -- The storage is the same, and what the sessions share is valid.
  abbrev pub SharedAfter : Torrent → Torrent × List Notice → Type 0
  SharedAfter t (t', notices) =
      (t'.storage ≡ t.storage) × IsShared t'.storage t'.piece_picker t'.downloads

  keeps_storage :
      (t : Torrent) (i : ℕ) → IfReturns (λ r. r.0.storage ≡ t.storage) (complete_piece t i)
  unfolding complete_piece
  keeps_storage t i =
      IfReturns-after (λ r. r.0.storage ≡ t.storage) (received_piece t.piece_picker i) _ λ p. refl

  with_storage :
      (t : Torrent) (i : ℕ) (r : Checked (Torrent × List Notice))
      → CompletionOutcome t i true r
      → IfReturns (λ x. x.0.storage ≡ t.storage) r
      → IfReturns (SharedAfter t) r
  with_storage t i panic c h = tt
  with_storage t i (ret (t', notices)) c h =
      (h, subst (λ storage. IsShared storage t'.piece_picker t'.downloads) (sym h) c.shared)

  -- A completed piece, whichever it is, leaves what the sessions share valid.
  pub completion-keeps :
      (t : Torrent) (i : ℕ) (valid : Bool)
      → IsShared t.storage t.piece_picker t.downloads
      → IfReturns (SharedAfter t) (handle_piece_completion t i valid)
  unfolding handle_piece_completion
  completion-keeps t i false v = (refl, free_download-IsShared t i v)
  completion-keeps t i true v = go (get_elem? t.piece_picker.own_pieces i) refl
    where
      go :
          (own : Option Bool)
          → get_elem? t.piece_picker.own_pieces i ≡ own
          → IfReturns (SharedAfter t) (complete_piece t i)
      go none e = unfold complete_piece in unfold received_piece in rw e tt
      go (some true) e = unfold complete_piece in unfold received_piece in rw e tt
      go (some false) e =
          let (p, at) =
            get_elem?-some t.piece_picker.pieces i (
              omega
                (arith, v.picking.same_length, own_below t.piece_picker.own_pieces i false e)) in
          with_storage t i (complete_piece t i) (completion_lem t i p true v e at)
            (keeps_storage t i)
