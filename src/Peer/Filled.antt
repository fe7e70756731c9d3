-- ===== src/Peer/Filled.antt =====
-- The second loop of `make_requests`, and `free_pending_blocks`: on valid downloads they do not
-- panic and they end.
use cratetorrent.Prelude.{
  ℕ, zero, suc, ◌+◌, ◌-◌, ◌^◌, ◌<◌, ◌≤◌, max, ◌≡◌, refl, sym, ap, subst, ◌∙◌, arith, inl, inr, ◌⊎◌,
  leb→le, Bool, true, false, Option, none, some, List, [], ◌∷◌, Checked, ret, panic, ◌>>=◌,
  Bool-cases, All, leb, if◌then◌else◌, length, get_elem?,
}
use cratetorrent.Block.{BlockInfo}
use cratetorrent.Storage.{StorageInfo, piece_len}
use cratetorrent.Download as Download
use cratetorrent.Download.{PieceDownload, BlockStatus, pick_blocks, free_block}
use cratetorrent.Download.Picked.{new-IsValid}
use cratetorrent.PiecePicker as PiecePicker
use cratetorrent.PiecePicker.{PiecePicker, pick_piece}
use cratetorrent.PiecePicker.Invariant as Picker
use cratetorrent.PiecePicker.Pick as Pick
use cratetorrent.PiecePicker.Pick.{IsPickable, pick_piece_lem}
use cratetorrent.Peer.{Downloads, insert_download}
use cratetorrent.Peer.Pipeline.{Filled, start_download, start_downloads, fill}
use cratetorrent.Peer.Valid.{IsBlockOf, piece_len-ret}
use cratetorrent.Peer.Filling.{
  IsSized, IsDownloadOf, IsShared, insert_download-AreDownloads, Picks, pick_blocks-Picks,
  Continues, continue_downloads-Continues,
}

-- What the loops have reached: valid shared state, and requests within the target.
pub record IsFilled (storage : StorageInfo) (target : ℕ) (outgoing : List BlockInfo) (f : Filled)
    : Type 0 where
  pub shared : IsShared storage f.picker f.downloads
  pub blocks : All (IsBlockOf storage) f.requests
  pub bounded : length f.requests + length outgoing ≤ max (length outgoing) target

-- No piece can be picked.
abbrev pub NonePickable : PiecePicker → Type 0
NonePickable p = (j : ℕ) → ¬ IsPickable p.own_pieces p.pieces j

abbrev pub Fills : StorageInfo → ℕ → List BlockInfo → Checked (Option Filled) → Type 0
Fills storage target outgoing panic = ⊥
Fills storage target outgoing (ret none) = ⊥
Fills storage target outgoing (ret (some f)) =
    IsFilled storage target outgoing f
    × ((target ≤ length f.requests + length outgoing) ⊎ NonePickable f.picker)

get_elem?-lt {ℓ} :
    {A : Type ℓ} (xs : List A) (i : ℕ) (x : A) → get_elem? xs i ≡ some x → i < length xs
get_elem?-lt [] i x e = cc
get_elem?-lt (y ∷ ys) zero x e = omega arith
get_elem?-lt (y ∷ ys) (suc i) x e = omega (arith, get_elem?-lt ys i x e)

-- A piece that can be picked is counted as free.
count_free-pickable :
    (owns : List Bool) (ps : List PiecePicker.Piece) (i : ℕ) (p : PiecePicker.Piece)
    → get_elem? owns i ≡ some false
    → get_elem? ps i ≡ some p
    → p.is_pending ≡ false
    → 0 < Picker.count_free owns ps
unfolding Picker.count_free
count_free-pickable [] ps i p e g h = cc
count_free-pickable (b ∷ owns) [] i p e g h = cc
count_free-pickable (b ∷ owns) (q ∷ ps) zero p e g h = ground arith
count_free-pickable (b ∷ owns) (q ∷ ps) (suc i) p e g h =
    ground (arith, count_free-pickable owns ps i p e g h)

piece_len-word :
    (storage : StorageInfo) (i len : ℕ)
    → IsSized storage
    → piece_len storage i ≡ ret len
    → len < 2 ^ 32
unfolding piece_len
piece_len-word storage i len h e = ground (arith, h.piece_word, h.last_word)

-- What one round of the second loop may return.
abbrev Starts : StorageInfo → ℕ → List BlockInfo → ℕ → Checked (Filled × Bool) → Type 0
Starts storage target outgoing free panic = ⊥
Starts storage target outgoing free (ret (f, again)) =
    IsFilled storage target outgoing f
    × (again ≡ true → f.picker.free_count < free)
    × (again ≡ false → NonePickable f.picker)

new_download :
    (storage : StorageInfo) (i len : ℕ)
    → IsSized storage
    → i < storage.piece_count
    → piece_len storage i ≡ ret len
    → IsDownloadOf storage i (Download.new i len)
unfolding Download.new
new_download storage i len z r e = record {
  valid = new-IsValid i len (piece_len-word storage i len z e);
  keyed = refl;
  in_range = r;
  sized = e;
}

start_download-Starts :
    (storage : StorageInfo) (target : ℕ) (eg : Bool) (outgoing : List BlockInfo) (f : Filled)
    (picked : PiecePicker × Option ℕ)
    → IsSized storage
    → IsFilled storage target outgoing f
    → length f.requests + length outgoing < target
    → Pick.PickOutcome f.picker (ret picked)
    → Starts storage target outgoing f.picker.free_count (
        start_download storage eg outgoing
          (target - (length f.requests + length outgoing))
          f
          picked)
unfolding start_download
start_download-Starts storage target eg outgoing f (picker, none) z v lt (same, k) = (
  record {
    shared = subst (λ p. IsShared storage p f.downloads) (sym same) v.shared;
    blocks = v.blocks;
    bounded = v.bounded;
  },
  λ e. cc,
  λ e. subst NonePickable (sym same) k,
)
start_download-Starts storage target eg outgoing f (picker, some i) z v lt (p, first, eq, valid) =
    let own_len : length f.picker.own_pieces ≡ storage.piece_count = v.shared.same_count in
    let r : i < storage.piece_count =
      omega (arith, get_elem?-lt f.picker.own_pieces i false p.missing, own_len) in
    let (len, e) = piece_len-ret storage i r in
    rw e (
      go len (new_download storage i len z r e) _ (
        pick_blocks-Picks storage i (Download.new i len)
          (target - (length f.requests + length outgoing)) f.requests eg outgoing
          (new_download storage i len z r e) v.blocks))
  where
    positive : 0 < f.picker.free_count
    positive = omega (
      arith,
      v.shared.picking.free_exact,
      count_free-pickable f.picker.own_pieces f.picker.pieces i p.piece p.missing p.present p.idle,
    )

    go :
        (len : ℕ)
        → IsDownloadOf storage i (Download.new i len)
        → (r : Checked (PieceDownload × List BlockInfo))
        → Picks storage i (target - (length f.requests + length outgoing)) f.requests r
        → Starts storage target outgoing f.picker.free_count (
            r >>= λ out. ret (
              record {
                picker = picker;
                downloads = insert_download f.downloads i (out.0);
                requests = out.1;
              },
              true,
            ))
    go len w panic k = k
    go len w (ret (d, requests)) (v', h', b') = (
      record {
        shared = record {
          picking = valid;
          same_count = ap (λ q. length q.own_pieces) eq ∙ v.shared.same_count;
          downloading =
              insert_download-AreDownloads storage f.downloads i d v.shared.downloading v';
        };
        blocks = h';
        bounded = omega (arith, lt, b');
      },
      λ t. omega (arith, positive, ap (λ q. q.free_count) eq),
      λ e. cc,
    )

start_downloads-Fills :
    (fuel : ℕ) (storage : StorageInfo) (target : ℕ) (eg : Bool) (outgoing : List BlockInfo)
    (f : Filled)
    → IsSized storage
    → IsFilled storage target outgoing f
    → f.picker.free_count < fuel
    → Fills storage target outgoing (start_downloads fuel storage target eg outgoing f)
unfolding start_downloads
start_downloads-Fills zero storage target eg outgoing f z v h = absurd (omega arith)
start_downloads-Fills (suc fuel) storage target eg outgoing f z v h =
    elim (Bool-cases (leb target (length f.requests + length outgoing))) [
      | inl t ↦ rw t (v, inl (leb→le target (length f.requests + length outgoing) t))
      | inr e ↦ rw e (
          picked (pick_piece f.picker) (pick_piece_lem f.picker v.shared.picking) (ground arith)
            (λ f' v' h'. start_downloads-Fills fuel storage target eg outgoing f' z v' h'))
    ]
  where
    next :
        (r : Checked (Filled × Bool))
        → Starts storage target outgoing f.picker.free_count r
        → ((f' : Filled)
            → IsFilled storage target outgoing f'
            → f'.picker.free_count < fuel
            → Fills storage target outgoing (start_downloads fuel storage target eg outgoing f'))
        → Fills storage target outgoing (
            r >>= λ out.
            if out.1
            then start_downloads fuel storage target eg outgoing (out.0)
            else ret (some (out.0)))
    next panic k rest = k
    next (ret (f', true)) (v', less, last) rest = rest f' v' (omega (arith, less refl, h))
    next (ret (f', false)) (v', less, last) rest = (v', inr (last refl))

    picked :
        (r : Checked (PiecePicker × Option ℕ))
        → Pick.PickOutcome f.picker r
        → length f.requests + length outgoing < target
        → ((f' : Filled)
            → IsFilled storage target outgoing f'
            → f'.picker.free_count < fuel
            → Fills storage target outgoing (start_downloads fuel storage target eg outgoing f'))
        → Fills storage target outgoing (
            r >>= λ p.
            start_download storage eg outgoing (target - (length f.requests + length outgoing)) f p
            >>= λ out.
                if out.1
                then start_downloads fuel storage target eg outgoing (out.0)
                else ret (some (out.0)))
    picked panic k lt rest = k
    picked (ret p) k lt rest =
        next
          (start_download storage eg outgoing (target - (length f.requests + length outgoing)) f p)
          (start_download-Starts storage target eg outgoing f p z v lt k) rest

-- From valid downloads and a valid piece picker, the loops of `make_requests` do not panic, and they
-- end within the rounds that they are given: with as many requests, the pending ones counted, as the
-- target asks for, or with no piece left that can be picked. What they leave shared is valid again,
-- all blocks that they pick lie within a piece of the torrent, and with the pending requests they are
-- at most as many as the larger of the pending ones and the target.
pub fill_lem :
    (storage : StorageInfo) (target : ℕ) (eg : Bool) (outgoing : List BlockInfo)
    (picker : PiecePicker) (ds : Downloads)
    → IsSized storage
    → IsShared storage picker ds
    → Fills storage target outgoing (fill storage target eg outgoing picker ds)
unfolding fill
fill_lem storage target eg outgoing picker ds z v = go _ (
    continue_downloads-Continues storage target eg outgoing (length outgoing) ds [] v.downloading tt
      (omega arith))
  where
    go :
        (r : Checked (Downloads × List BlockInfo))
        → Continues storage target outgoing (length outgoing) r
        → Fills storage target outgoing (
            r >>= λ out.
            start_downloads
              (suc picker.free_count)
              storage
              target
              eg
              outgoing
              (record { picker = picker; downloads = out.0; requests = out.1 }))
    go panic k = k
    go (ret (ds', requests)) (vs, h, b) =
        start_downloads-Fills (suc picker.free_count) storage target eg outgoing
          (record { picker = picker; downloads = ds'; requests = requests }) z
          (record {
            shared = record { picking = v.picking; same_count = v.same_count; downloading = vs };
            blocks = h;
            bounded = b;
          })
          (omega arith)
