-- ===== src/Peer/Tests.antt =====
-- A session with a peer that has both pieces of a torrent: it is told of our interest, unchokes us, is
-- asked for a block and sends it.
use cratetorrent.Prelude.{
  ℕ, ◌+◌, ◌-◌, ◌*◌, ◌/◌, ◌^◌, ◌≡◌, refl, arith, true, false, [], ◌∷◌, panic, ltb,
}
use cratetorrent.Prelude.Int.{int64, sub_i64, add_i64, div_i64, mul_i64, abs_i64}
use cratetorrent.Block as Block
use cratetorrent.Block.{BlockInfo}
use cratetorrent.Storage.{StorageInfo, piece_len}
use cratetorrent.Counter.{FloatApi, add}
use cratetorrent.Avg as Avg
use cratetorrent.Session as Session
use cratetorrent.PiecePicker as PiecePicker
use cratetorrent.PiecePicker.{PiecePicker}
use cratetorrent.PiecePicker.Invariant as Picker
use cratetorrent.Download as Download
use cratetorrent.Codec as Codec
use cratetorrent.Codec.{Message}
use cratetorrent.Codec.Id as MessageIds
use cratetorrent.Codec.Handshake as Handshake
use cratetorrent.Peer.{Torrent, PeerSession, validate_block_info}
use cratetorrent.Peer.Effects.{Outcome, done, failed, panicked, with_ctx, send}
use cratetorrent.Peer.Pipeline.{
  fill, continue_downloads, start_download, start_downloads, count_protocol_up, count_protocol_down,
}
use cratetorrent.Peer.Requests as Requests
use cratetorrent.Peer.Messages as Messages
use cratetorrent.Peer.Run as Run
use cratetorrent.Peer.Run.{
  Direction, outbound, Greeting, greeted, Input, message, new, shake_hands, begin, react,
}
use cratetorrent.Peer.Valid.{Validates, validate_block_info_lem}
use cratetorrent.Peer.Filling.{IsSized, IsShared}
use cratetorrent.Peer.Filled.{Fills, fill_lem}
use cratetorrent.Peer.Orderly.{IsOrderly, IsKept}
use cratetorrent.Peer.Serving.{Reaches, begun, reacted, kept_lem, serving_lem, EndsWell, ended_lem}

instance abbrev naturals : FloatApi
naturals = record {
  Float = ℕ;
  of_u64 = λ n. n;
  plus = λ a b. a + b;
  times = λ a b. a * b;
  over = λ a b. a / b;
  greater = λ a b. ltb b a;
  round_u64 = λ n. n;
}

abbrev storage : StorageInfo
storage = record {
  piece_count = 2;
  piece_len = 8;
  last_piece_len = 3;
  download_len = 11;
  download_dir = "d";
  files = [];
}

abbrev torrent : Torrent
torrent = record {
  storage = storage;
  dev = true;
  info_hash = 1 ∷ [];
  client_id = 2 ∷ [];
  accepts = λ log e. true;
}

abbrev state_of : {A : Type 0} → Outcome A → PeerSession
state_of (done a s) = s
state_of (failed e s) = s
state_of panicked = new torrent (PiecePicker.new []) []

abbrev picker : PiecePicker
picker = PiecePicker.new (false ∷ false ∷ [])

abbrev greeting : Greeting
greeting = greeted (Handshake.new (1 ∷ []) (3 ∷ []))

abbrev shaken : PeerSession
shaken = state_of (shake_hands torrent outbound greeting (new torrent picker []))

abbrev begun_at : PeerSession
begun_at = state_of (begin torrent 0 shaken)

abbrev announced : PeerSession
announced = state_of (react torrent 1 (message (Message.bitfield (true ∷ true ∷ []))) begun_at)

abbrev unchoked : PeerSession
unchoked = state_of (react torrent 2 (message Message.unchoke) announced)

abbrev served : PeerSession
served = state_of (react torrent 3 (message (Message.block 1 0 (4 ∷ 5 ∷ 6 ∷ []))) unchoked)

abbrev info : BlockInfo
info = record { piece_index = 1; offset = 1; len = 2 }

-- What the five steps lead to, and a message that is refused.
steps_run :
    (shake_hands torrent outbound greeting (new torrent picker []) ≡ done true shaken)
    × (begin torrent 0 shaken ≡ done tt begun_at)
    × (react torrent 1 (message (Message.bitfield (true ∷ true ∷ []))) begun_at
        ≡ done true announced)
    × (react torrent 2 (message Message.unchoke) announced ≡ done true unchoked)
    × (react torrent 3 (message (Message.block 1 0 (4 ∷ 5 ∷ 6 ∷ []))) unchoked ≡ done true served)
unfolding Messages.handle_msg Messages.dispatch Codec.id Codec.protocol_len Messages.handle_unchoke
    Session.prepare_for_download Requests.make_requests Requests.request_filled
    Requests.send_requests fill continue_downloads start_downloads start_download
    PiecePicker.pick_piece PiecePicker.pick_from Download.new Download.pick_blocks
    Download.pick_from Download.pick_block Download.make_info Block.block_len Block.block_count
    piece_len react Run.on_msg Run.handle_first Messages.handle_bitfield_msg
    Messages.update_interest Session.update_state PiecePicker.register_peer_pieces
    PiecePicker.register_from MessageIds.header_len begin shake_hands Run.handle_greeting
    Run.answer_handshake new with_ctx send count_protocol_up count_protocol_down add Handshake.new
    Handshake.len Handshake.bytes_eq Session.set_connection_state Session.default_context
    PiecePicker.new PiecePicker.count_zeros Requests.handle_block_msg Requests.handle_arrived_block
    Download.received_block Download.block_position Session.update_download_stats
    Session.request_timeout Avg.mean_duration Avg.deviation_duration Avg.update_duration Avg.update
    Avg.mean Avg.deviation sub_i64 add_i64 div_i64 mul_i64 abs_i64 int64 Avg.new
steps_run = (refl, refl, refl, refl, refl)

storage-IsSized : IsSized storage
storage-IsSized = record { piece_word = omega arith; last_word = omega arith }

picker-IsShared : IsShared storage picker []
unfolding PiecePicker.new
picker-IsShared = record {
  picking = Picker.new-IsValid (false ∷ false ∷ []);
  same_count = refl;
  downloading = tt;
}

served-Reaches : Reaches torrent served
served-Reaches =
    let (shake, begins, announces, unchokes, serves) = steps_run in
    reacted 3 (message (Message.block 1 0 (4 ∷ 5 ∷ 6 ∷ [])))
      (reacted 2 (message Message.unchoke)
        (reacted 1 (message (Message.bitfield (true ∷ true ∷ [])))
          (begun outbound greeting 0 picker-IsShared shake begins) announces)
        unchokes)
      serves

kept_lem_example : IsKept storage served
kept_lem_example = kept_lem torrent served storage-IsSized served-Reaches

serving_lem_example : IsOrderly storage served.log
serving_lem_example = serving_lem torrent served storage-IsSized served-Reaches

-- A request while the peer is choked ends the session.
ended_lem_example : EndsWell torrent (react torrent 4 (message (Message.request info)) served)
ended_lem_example =
    ended_lem torrent 4 (message (Message.request info)) served storage-IsSized served-Reaches

fill_lem_example : Fills storage 4 [] (fill storage 4 false [] picker [])
fill_lem_example = fill_lem storage 4 false [] picker [] storage-IsSized picker-IsShared

validate_block_info_lem_example : Validates storage info (validate_block_info storage info)
validate_block_info_lem_example = validate_block_info_lem storage info

-- The sum of the offset and the length of a block that a peer asks for may leave `u32`.
validation_overflows :
    validate_block_info storage (record { piece_index = 0; offset = 2 ^ 32 - 1; len = 1 }) ≡ panic
unfolding validate_block_info piece_len
validation_overflows = refl
