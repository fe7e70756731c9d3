-- ===== src/Peer/Starting.antt =====
-- The handshakes at the start of a session keep its invariant.
use cratetorrent.Prelude.{
  ℕ, zero, suc, ◌≡◌, refl, arith, false, not, some, List, Checked, ret, panic, length-replicate,
  replicate,
}
use cratetorrent.Download.{debug_assert}
use cratetorrent.PiecePicker.{PiecePicker}
use cratetorrent.Counter.{FloatApi}
use cratetorrent.Session.{
  SessionState, SessionContext, update_state, prepare_for_download, update_upload_stats,
}
use cratetorrent.Peer.{
  Torrent, PeerSession, channel, io, sent_handshake, peer_connected, invalid_info_hash, Downloads,
}
use cratetorrent.Peer.Pipeline.{count_protocol_up, count_protocol_down}
use cratetorrent.Peer.Effects.{fail, ◌>>◌, then_do, modify, checked, when, with_ctx, send_command}
use cratetorrent.Peer.Messages.{count_ones}
use cratetorrent.Peer.Filling.{IsShared}
use cratetorrent.Peer.Orderly.{IsKept}
use cratetorrent.Peer.Rules.{
  Keeps, IsKept-ctx, IsKept-log, Runs-with_ctx, Keeps-with_ctx, Runs-send, Keeps-send, Keeps-when,
  count_protocol_up-KeepsState,
}
use cratetorrent.Peer.Rules.{count_protocol_down-KeepsState}
use cratetorrent.Peer.Run.{send_info, set_connection}
use cratetorrent.Session as Session
use cratetorrent.Session.{ConnectionState, set_connection_state}
use cratetorrent.Peer.Running.{IsKept-connection, send_info-Keeps, then-Keeps}
use cratetorrent.Peer.Run.{
  new, Direction, is_outbound, Greeting, closed, undecodable, greeted, send_handshake,
  answer_handshake, handle_greeting, shake_hands,
}
use cratetorrent.Codec.Handshake as Handshake
use cratetorrent.Codec.Handshake.{Handshake, bytes_eq, protocol_string}

module _ ⦃api : FloatApi⦄ (t : Torrent) where
  count_ones-replicate : (n : ℕ) → 0 ≡ count_ones (replicate n false)
  count_ones-replicate zero = refl
  count_ones-replicate (suc n) = omega (arith, count_ones-replicate n)

  pub new-IsKept :
      (picker : PiecePicker) (ds : Downloads)
      → IsShared t.storage picker ds
      → IsKept t.storage (new t picker ds)
  unfolding new Session.default_context
  new-IsKept picker ds h = record {
    sound = record {
      orderly = tt;
      pending = tt;
      asked = tt;
      unchoked = λ e. cc;
      interested = λ e. cc;
      idle = λ e. refl;
      shared = h;
      counted = count_ones-replicate t.storage.piece_count;
      sized = length-replicate t.storage.piece_count false;
    };
    agreed = refl;
  }

  IsKept-id :
      (id : List ℕ) (s : PeerSession)
      → IsKept t.storage s
      → IsKept t.storage (record s { id = some id })
  IsKept-id id s v = record {
    sound = record {
      orderly = v.sound.orderly;
      pending = v.sound.pending;
      asked = v.sound.asked;
      unchoked = v.sound.unchoked;
      interested = v.sound.interested;
      idle = v.sound.idle;
      shared = v.sound.shared;
      counted = v.sound.counted;
      sized = v.sound.sized;
    };
    agreed = v.agreed;
  }

  send_handshake-Keeps :
      (s : PeerSession) → IsKept t.storage s → Keeps t.storage (send_handshake t s)
  send_handshake-Keeps s v =
      Runs-with_ctx t.storage (λ u s'. IsKept t.storage s')
        (λ c. count_protocol_up c (Handshake.len (Handshake.new t.info_hash t.client_id))) s _
        (count_protocol_up-KeepsState s.ctx _)
        (λ c same.
          Keeps-send t.storage t io (sent_handshake (Handshake.new t.info_hash t.client_id)) _ (
            IsKept-log t.storage _ (sent_handshake (Handshake.new t.info_hash t.client_id)) refl tt
              (IsKept-ctx t.storage s c same v)))

  answer_handshake-Keeps :
      (direction : Direction) (h : Handshake) (s : PeerSession)
      → IsKept t.storage s
      → Keeps t.storage (answer_handshake t direction h s)
  unfolding answer_handshake
  answer_handshake-Keeps direction h s v = go (debug_assert t.dev (bytes_eq h.prot protocol_string))
    where
      go :
          (r : Checked (Unit {0}))
          → Keeps t.storage (
              then_do (checked r s) (λ _. (do
                with_ctx (λ c. count_protocol_down c (Handshake.len h))
                when (not (bytes_eq h.info_hash t.info_hash)) (fail invalid_info_hash)
                modify (λ s'. record s' { id = some h.peer_id })
                when (not (is_outbound direction)) (send_handshake t)
                send_command t (peer_connected h.peer_id)
                set_connection t ConnectionState.availability_exchange)))
      go panic = tt
      go (ret u) =
          then-Keeps t (with_ctx (λ c. count_protocol_down c (Handshake.len h)) s) _
            (Keeps-with_ctx t.storage (λ c. count_protocol_down c (Handshake.len h)) s
              (count_protocol_down-KeepsState s.ctx _) v)
            (λ _ s1 w1.
              then-Keeps t
                (when (not (bytes_eq h.info_hash t.info_hash)) (fail invalid_info_hash) s1) _
                (Keeps-when t.storage (not (bytes_eq h.info_hash t.info_hash))
                  (fail invalid_info_hash) s1 w1 (λ e. w1))
                (λ _ s2 w2.
                  let w3 = IsKept-id h.peer_id s2 w2 in
                  then-Keeps t (when (not (is_outbound direction)) (send_handshake t) _) _
                    (Keeps-when t.storage (not (is_outbound direction)) (send_handshake t) _ w3
                      (λ e. send_handshake-Keeps _ w3))
                    (λ _ s4 w4.
                      let w5 = IsKept-log t.storage s4 (peer_connected h.peer_id) refl tt w4 in
                      Runs-send t.storage (λ u' s'. IsKept t.storage s') t channel
                        (peer_connected h.peer_id) s4 _ w5
                        (IsKept-connection t ConnectionState.availability_exchange _ w5))))

  handle_greeting-Keeps :
      (direction : Direction) (g : Greeting) (s : PeerSession)
      → IsKept t.storage s
      → Keeps t.storage (handle_greeting t direction g s)
  unfolding handle_greeting
  handle_greeting-Keeps direction closed s v =
      then-Keeps t (send_info t _) _
        (send_info-Keeps t _ (IsKept-connection t ConnectionState.disconnected s v)) (λ u s' w. w)
  handle_greeting-Keeps direction undecodable s v = v
  handle_greeting-Keeps direction (greeted h) s v =
      then-Keeps t (answer_handshake t direction h s) _ (answer_handshake-Keeps direction h s v)
        (λ u s' w. w)

  pub shake_hands-Keeps :
      (direction : Direction) (g : Greeting) (s : PeerSession)
      → IsKept t.storage s
      → Keeps t.storage (shake_hands t direction g s)
  unfolding shake_hands
  shake_hands-Keeps direction g s v =
      let w =
        IsKept-connection t ConnectionState.handshaking _
          (IsKept-connection t ConnectionState.connecting s v) in
      then-Keeps t (when (is_outbound direction) (send_handshake t) _) _
        (Keeps-when t.storage (is_outbound direction) (send_handshake t) _ w
          (λ e. send_handshake-Keeps _ w))
        (λ u s' w'. handle_greeting-Keeps direction g s' w')
