-- ===== src/Tracker.antt =====
-- cratetorrent/src/tracker.rs: the peers of a tracker's response, in both of their forms, and the
-- query of an announce.
pub mod Compact
pub mod Tests
use cratetorrent.Prelude.{
  ℕ, zero, suc, ◌+◌, ◌/◌, ◌%◌, ◌^◌, ◌<◌, ◌≡◌, not, Option, none, some, List, [], ◌∷◌, ◌++◌, Checked,
  ret, panic, ◌>>=◌, ◌==◌, if◌then◌else◌, length,
}
use cratetorrent.Codec.{get_u32}
use cratetorrent.Codec.Wire.{WireApi}

-- What the tracker takes from the standard library and the crates: `Ipv4Addr::from`, `str::parse`
-- and `to_string`, `get_u16` with the bytes that it reads, and the error that serde passes on.
pub record TrackerApi : Type 1 where
  pub IpAddr : Type 0
  pub Text : Type 0
  pub SerdeError : Type 0
  pub ipv4 : ℕ → IpAddr
  pub parse : Text → Option IpAddr
  pub number_text : ℕ → Text
  pub ip_text : IpAddr → Text
  pub be_u16 : ℕ → List ℕ
  pub of_be_u16 : ℕ → ℕ → ℕ
  pub of_be_u16-be_u16 :
      (x : ℕ) → x < 2 ^ 16 → (a b : ℕ) × (be_u16 x ≡ a ∷ b ∷ []) × (of_be_u16 a b ≡ x)

pub data Event : Type 0 where
  started completed stopped : Event

-- The keys of the query.
pub data Key : Type 0 where
  port_key downloaded_key uploaded_key left_key compact_key numwant_key ip_key : Key

module _ (w : WireApi) (api : TrackerApi) where
  open api use {IpAddr, Text, SerdeError, ipv4, parse, number_text, ip_text, of_be_u16}

  pub record SocketAddr : Type 0 where
    pub ip : IpAddr
    pub port : ℕ

  pub data PeersResult : Type 0 where
    ok : List SocketAddr → PeersResult
    invalid_value : PeersResult
    serde_error : SerdeError → PeersResult

  pub record RawPeer : Type 0 where
    pub ip : Text
    pub port : ℕ

  -- An element of a sequence, as `next_element` returns it.
  pub data Element : Type 0 where
    raw_peer : RawPeer → Element
    bad_element : SerdeError → Element

  -- `Buf::get_u16`, which panics if there are fewer than two bytes.
  unfoldable pub get_u16 : List ℕ → Checked (ℕ × List ℕ)
  get_u16 (a ∷ b ∷ buf) = ret (of_be_u16 a b, buf)
  get_u16 _ = panic

  -- So many rounds of the loop of `visit_bytes`.
  unfoldable pub take_entries : ℕ → List ℕ → List SocketAddr → Checked PeersResult
  unfolding get_u16
  take_entries zero b peers = ret (ok peers)
  take_entries (suc n) b peers = do
    (addr, b1) ← get_u32 w b
    (port, b2) ← get_u16 b1
    take_entries n b2 (peers ++ (record { ip = ipv4 addr; port = port } ∷ []))

  -- `step_by(6)` visits every sixth number below the length.
  unfoldable pub visit_bytes : List ℕ → Checked PeersResult
  unfolding take_entries
  visit_bytes b =
      let buf_len = length b in
      if not (buf_len % 6 == 0) then ret invalid_value else take_entries ((buf_len + 5) / 6) b []

  abbrev pub push_parsed : List SocketAddr → Option IpAddr → ℕ → List SocketAddr
  push_parsed peers none port = peers
  push_parsed peers (some ip) port = peers ++ (record { ip = ip; port = port } ∷ [])

  -- The loop of `visit_seq`: a peer whose address does not parse is passed over.
  unfoldable pub take_elements : List Element → List SocketAddr → PeersResult
  take_elements [] peers = ok peers
  take_elements (bad_element e ∷ seq) peers = serde_error e
  take_elements (raw_peer p ∷ seq) peers = take_elements seq (push_parsed peers (parse p.ip) p.port)

  unfoldable pub visit_seq : List Element → PeersResult
  unfolding take_elements
  visit_seq seq = take_elements seq []

  -- `Announce` without the info hash and the peer id, which go into the URL.
  pub record Announce : Type 0 where
    pub port : ℕ
    pub ip : Option IpAddr
    pub downloaded : ℕ
    pub uploaded : ℕ
    pub left : ℕ
    pub peer_count : Option ℕ
    pub tracker_id : Option Text
    pub event : Option Event

  abbrev pub push_some :
      {A : Type 0} → List (Key × Text) → Key → (A → Text) → Option A → List (Key × Text)
  push_some query key to_string none = query
  push_some query key to_string (some x) = query ++ ((key, to_string x) ∷ [])

  -- The query that `Tracker::announce` builds; `"1"` is the text of 1.
  unfoldable pub announce_query : Announce → List (Key × Text)
  announce_query params =
      let query =
        (port_key, number_text params.port)
        ∷ (downloaded_key, number_text params.downloaded)
        ∷ (uploaded_key, number_text params.uploaded)
        ∷ (left_key, number_text params.left)
        ∷ (compact_key, number_text 1)
        ∷ [] in
      push_some (push_some query numwant_key number_text params.peer_count) ip_key ip_text params.ip
