-- ===== src/Peer/Pipeline.antt =====
-- The loops of `make_requests` and `free_pending_blocks` over the shared downloads.
use cratetorrent.Prelude.{
  ℕ, zero, suc, ◌+◌, ◌-◌, Bool, true, false, Option, none, some, List, [], ◌∷◌, Checked, ret, ◌>>=◌,
  leb, if◌then◌else◌, length,
}
use cratetorrent.Block.{BlockInfo}
use cratetorrent.Storage.{StorageInfo, piece_len}
use cratetorrent.Download as Download
use cratetorrent.Download.{PieceDownload, pick_blocks, free_block}
use cratetorrent.Counter as Counter
use cratetorrent.Counter.{FloatApi}
use cratetorrent.Session.{SessionContext}
use cratetorrent.PiecePicker.{PiecePicker, pick_piece}
use cratetorrent.Peer.{Downloads, lookup, insert_download}

-- The first loop of `make_requests`: downloads in progress are continued.
unfoldable pub continue_downloads :
    ℕ → Bool → List BlockInfo → Downloads → List BlockInfo → Checked (Downloads × List BlockInfo)
continue_downloads target in_endgame outgoing [] requests = ret ([], requests)
continue_downloads target in_endgame outgoing ((i, d) ∷ ds) requests =
    let count = length requests + length outgoing in
    let rest : Checked (Downloads × List BlockInfo) = (do
      (d', requests') ← pick_blocks d (target - count) requests in_endgame outgoing
      (ds', all) ← continue_downloads target in_endgame outgoing ds requests'
      ret ((i, d') ∷ ds', all)) in
    if leb target count then ret ((i, d) ∷ ds, requests) else rest

-- What the second loop changes: the piece picker, the downloads and the requests.
pub record Filled : Type 0 where
  pub picker : PiecePicker
  pub downloads : Downloads
  pub requests : List BlockInfo

-- A new download of the piece that was picked, if one was, and what the loop goes on with.
unfoldable pub start_download :
    StorageInfo
    → Bool
    → List BlockInfo
    → ℕ
    → Filled
    → PiecePicker × Option ℕ
    → Checked (Filled × Bool)
start_download storage in_endgame outgoing to_request f (picker, none) =
    ret (record f { picker = picker }, false)
start_download storage in_endgame outgoing to_request f (picker, some i) = do
  len ← piece_len storage i
  (d, requests) ← pick_blocks (Download.new i len) to_request f.requests in_endgame outgoing
  ret (
    record { picker = picker; downloads = insert_download f.downloads i d; requests = requests },
    true,
  )

-- The second loop: new downloads are started. `none` if it is not done after so many rounds.
unfoldable pub start_downloads :
    ℕ → StorageInfo → ℕ → Bool → List BlockInfo → Filled → Checked (Option Filled)
start_downloads zero storage target in_endgame outgoing f = ret none
start_downloads (suc fuel) storage target in_endgame outgoing f =
    let count = length f.requests + length outgoing in
    let round : Checked (Option Filled) = (do
      picked ← pick_piece f.picker
      (f', again) ← start_download storage in_endgame outgoing (target - count) f picked
      let rest = start_downloads fuel storage target in_endgame outgoing f'
      if again then rest else ret (some f')) in
    if leb target count then ret (some f) else round

-- Both loops. A round that goes on takes a free piece, so the rounds are at most one more than these.
unfoldable pub fill :
    StorageInfo → ℕ → Bool → List BlockInfo → PiecePicker → Downloads → Checked (Option Filled)
fill storage target in_endgame outgoing picker downloads = do
  (downloads', requests) ← continue_downloads target in_endgame outgoing downloads []
  start_downloads (suc picker.free_count) storage target in_endgame outgoing
      (record { picker = picker; downloads = downloads'; requests = requests })

-- A block of a download that is in progress is free again.
abbrev pub free_in : Bool → BlockInfo → Downloads → Option PieceDownload → Checked Downloads
free_in dev block ds none = ret ds
free_in dev block ds (some d) = do
  d' ← free_block dev d block
  ret (insert_download ds block.piece_index d')

-- The loop of `free_pending_blocks`.
unfoldable pub free_blocks : Bool → List BlockInfo → Downloads → Checked Downloads
free_blocks dev [] ds = ret ds
free_blocks dev (b ∷ bs) ds = do
  ds' ← free_in dev b ds (lookup ds b.piece_index)
  free_blocks dev bs ds'

module _ ⦃api : FloatApi⦄ where
  -- The bytes of the protocol that were sent and received.
  unfoldable pub count_protocol_up : SessionContext → ℕ → Checked SessionContext
  count_protocol_up c bytes = do
    up ← Counter.add api c.counters.protocol.up bytes
    ret (record c {
      counters = record c.counters { protocol = record c.counters.protocol { up = up } };
    })

  unfoldable pub count_protocol_down : SessionContext → ℕ → Checked SessionContext
  count_protocol_down c bytes = do
    down ← Counter.add api c.counters.protocol.down bytes
    ret (record c {
      counters = record c.counters { protocol = record c.counters.protocol { down = down } };
    })
