-- ===== src/Torrent/Tests.antt =====
-- A torrent of two pieces, of which we have the first, completes the second.
use cratetorrent.Prelude.{ℕ, ◌+◌, ◌*◌, ◌/◌, ◌≡◌, refl, true, false, none, [], ◌∷◌, ltb}
use cratetorrent.Storage.{StorageInfo}
use cratetorrent.Counter as Counter
use cratetorrent.Counter.{FloatApi}
use cratetorrent.PiecePicker as PiecePicker
use cratetorrent.PiecePicker.Invariant as Picker
use cratetorrent.Peer.Filling.{IsShared}
use cratetorrent.Torrent.{Torrent, new_entry, connect_peers}

instance abbrev pub naturals : FloatApi
naturals = record {
  Float = ℕ;
  of_u64 = λ n. n;
  plus = λ a b. a + b;
  times = λ a b. a * b;
  over = λ a b. a / b;
  greater = λ a b. ltb b a;
  round_u64 = λ n. n;
}

abbrev storage : StorageInfo
storage = record {
  piece_count = 2;
  piece_len = 8;
  last_piece_len = 3;
  download_len = 11;
  download_dir = "d";
  files = [];
}

abbrev pub torrent : Torrent
torrent = record {
  peers = (7, new_entry) ∷ [];
  available_peers = 8 ∷ 9 ∷ [];
  storage = storage;
  piece_picker = PiecePicker.new (true ∷ false ∷ []);
  downloads = [];
  in_endgame = false;
  counters = Counter.default_counters naturals;
  max_connected_peer_count = 2;
  completed_pieces = none;
}

pub torrent-IsShared : IsShared storage torrent.piece_picker []
unfolding PiecePicker.new
torrent-IsShared = record {
  picking = Picker.new-IsValid (true ∷ false ∷ []);
  same_count = refl;
  downloading = tt;
}

-- One more peer is connected to, up to the limit.
connects_one : (connect_peers torrent).available_peers ≡ 9 ∷ []
unfolding connect_peers
connects_one = refl
