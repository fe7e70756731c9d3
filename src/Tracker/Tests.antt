-- ===== src/Tracker/Tests.antt =====
-- The tracker over big endian bytes, where an address is its number and a text is a number.
use cratetorrent.Prelude.{
  ℕ, zero, suc, ◌+◌, ◌*◌, ◌/◌, ◌%◌, ◌^◌, ◌≡◌, refl, arith, none, some, Option, List, [], ◌∷◌, ◌++◌,
  ret,
}
use cratetorrent.Codec.Wire.{WireApi}
use cratetorrent.Tracker.{
  TrackerApi, Announce, Event, started, port_key, downloaded_key, uploaded_key, left_key,
  compact_key, numwant_key, ok, serde_error, raw_peer, bad_element, visit_bytes, visit_seq,
  take_elements, announce_query,
}
use cratetorrent.Tracker.Compact.{entries, answer, visit_bytes_lem}

abbrev pub wire : WireApi
wire = record {
  Bitfield = List ℕ;
  as_slice = λ b. b;
  from_vec = λ v. v;
  as_slice-from_vec = λ v. refl;
  be_u32 = λ x. x / 2 ^ 24 % 256 ∷ x / 2 ^ 16 % 256 ∷ x / 2 ^ 8 % 256 ∷ x % 256 ∷ [];
  of_be_u32 = λ a b c d. ((a * 256 + b) * 256 + c) * 256 + d;
  of_be_u32-be_u32 = λ x h. (_, _, _, _, refl, omega arith);
}

-- The text 0 is no address.
abbrev parse_address : ℕ → Option ℕ
parse_address zero = none
parse_address (suc n) = some (suc n)

abbrev pub api : TrackerApi
api = record {
  IpAddr = ℕ;
  Text = ℕ;
  SerdeError = Unit;
  ipv4 = λ x. x;
  parse = parse_address;
  number_text = λ x. x;
  ip_text = λ x. x;
  be_u16 = λ x. x / 256 ∷ x % 256 ∷ [];
  of_be_u16 = λ a b. a * 256 + b;
  of_be_u16-be_u16 = λ x h. (_, _, refl, omega arith);
}

abbrev two_entries : List (ℕ × ℕ)
two_entries = (3232235530, 49123) ∷ (7, 80) ∷ []

visit_bytes_lem_example :
    visit_bytes wire api (entries wire api two_entries ++ []) ≡ ret (answer wire api two_entries [])
visit_bytes_lem_example =
    visit_bytes_lem wire api two_entries []
      ((omega arith, omega arith), ((omega arith, omega arith), tt)) (omega arith)

visit_seq_unparsed :
    visit_seq wire api
      (raw_peer (record { ip = 0; port = 1 }) ∷ raw_peer (record { ip = 9; port = 2 }) ∷ [])
    ≡ ok (record { ip = 9; port = 2 } ∷ [])
unfolding visit_seq take_elements
visit_seq_unparsed = refl

visit_seq_bad :
    visit_seq wire api (raw_peer (record { ip = 9; port = 2 }) ∷ bad_element tt ∷ [])
    ≡ serde_error tt
unfolding visit_seq take_elements
visit_seq_bad = refl

abbrev announced : Option ℕ → Option Event → Announce wire api
announced tracker_id event = record {
  port = 6881;
  ip = none;
  downloaded = 1;
  uploaded = 2;
  left = 3;
  peer_count = some 50;
  tracker_id = tracker_id;
  event = event;
}

-- The query of an announce with an event and a tracker id has neither.
event_not_sent :
    announce_query wire api (announced (some 4) (some started))
    ≡ (port_key, 6881)
      ∷ (downloaded_key, 1)
      ∷ (uploaded_key, 2)
      ∷ (left_key, 3)
      ∷ (compact_key, 1)
      ∷ (numwant_key, 50)
      ∷ []
unfolding announce_query
event_not_sent = refl
