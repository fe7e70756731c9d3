-- ===== src/Peer/Running.antt =====
-- A session keeps its invariant over all that its loop selects, and to its end.
use cratetorrent.Prelude.{
  ℕ, zero, suc, ◌+◌, ◌-◌, ◌≡◌, refl, sym, ap, subst, ◌∙◌, arith, inl, inr, Bool, true, false, not,
  ◌&&◌, Option, none, some, List, [], ◌∷◌, ◌++◌, Checked, ret, panic, IfReturns, IfReturns-after,
  All, Bool-cases, ltb, leb, add_bits, if◌then◌else◌, length, set, length-set, length-append,
  length-replicate, length-take, ◌^◌, take, replicate, get_elem?,
}
use cratetorrent.Prelude as Prelude
use cratetorrent.Block.{BlockInfo}
use cratetorrent.Counter.{FloatApi}
use cratetorrent.Codec.{Message}
use cratetorrent.Session.{
  SessionState, SessionContext, update_state, prepare_for_download, update_upload_stats,
}
use cratetorrent.Peer.{
  PeerError, Torrent, PeerSession, to_peer, channel, io, inactivity_timeout, peer_state, alert,
}
use cratetorrent.Peer.Effects.{Handler, Outcome, pure, fail, ◌>>◌, then_do, checked, when, send}
use cratetorrent.Peer.Messages.{is_availability_exchange, send_read_block, handle_msg}
use cratetorrent.Peer.Filling.{IsSized}
use cratetorrent.Peer.Orderly.{IsKept}
use cratetorrent.Peer.Rules.{
  Runs, Keeps, Runs-then, IsKept-ctx, IsKept-log, Keeps-with_ctx, Keeps-send, Keeps-when,
}
use cratetorrent.Peer.Arriving.{IsKept-freed, Runs-free_pending_blocks}
use cratetorrent.Peer.Requests.{free_pending_blocks}
use cratetorrent.Peer.Answering.{send_read_block-Keeps}
use cratetorrent.Peer.Arriving.{check_request_timeout-Keeps, handle_piece_completion-Keeps}
use cratetorrent.Peer.Announced.{handle_bitfield_msg-Keeps}
use cratetorrent.Peer.Dispatched.{IsReady, received-IsReady, handle_msg-Keeps}
use cratetorrent.Peer.Requests.{
  is_empty, check_request_timeout, free_pending_blocks, handle_piece_completion,
}
use cratetorrent.Peer.Run.{
  Command, block, piece_completion, shutdown, Input, ticked, unreadable, message, command,
  session_info, send_info, check_activity, tick, begin, handle_first, on_msg, on_command, react,
  report, finish, inactivity_limit, any, set_connection,
}
use cratetorrent.Session as Session
use cratetorrent.Session.{ConnectionState, set_connection_state}
use cratetorrent.Session.State.{tick-KeepsState}

module _ ⦃api : FloatApi⦄ (t : Torrent) where
  pub IsKept-connection :
      (state : ConnectionState) (s : PeerSession)
      → IsKept t.storage s
      → IsKept t.storage (record s { ctx = set_connection_state s.ctx state })
  unfolding set_connection_state
  IsKept-connection state s v = record {
    sound = record {
      orderly = v.sound.orderly;
      pending = v.sound.pending;
      asked = v.sound.asked;
      unchoked = v.sound.unchoked;
      interested = v.sound.interested;
      idle = v.sound.idle;
      shared = v.sound.shared;
      counted = v.sound.counted;
      sized = v.sound.sized;
    };
    agreed = v.agreed;
  }

  check_activity-Keeps :
      (now : ℕ) (s : PeerSession) → IsKept t.storage s → Keeps t.storage (check_activity t now s)
  unfolding check_activity
  check_activity-Keeps now s v =
      Keeps-when t.storage (not s.ctx.state.is_interested && not s.ctx.state.is_peer_interested) _ s
        v (λ e. go (Prelude.expect s.ctx.connected_time))
    where
      go :
          (r : Checked ℕ)
          → Keeps t.storage (
              then_do (checked r s) (λ connected.
                when (leb inactivity_limit (now - connected)) (fail inactivity_timeout)))
      go (ret connected) =
          Keeps-when t.storage (leb inactivity_limit (now - connected)) _ s v (λ e. v)
      go panic = tt

  pub send_info-Keeps : (s : PeerSession) → IsKept t.storage s → Keeps t.storage (send_info t s)
  send_info-Keeps s v =
      Keeps-send t.storage t channel (peer_state (session_info t s)) s
        (IsKept-log t.storage s (peer_state (session_info t s)) refl tt v)

  pub then-Keeps :
      {A B : Type 0} (o : Outcome A) (f : A → Handler B)
      → Keeps t.storage o
      → ((a : A) (s : PeerSession) → IsKept t.storage s → Keeps t.storage (f a s))
      → Keeps t.storage (then_do o f)
  then-Keeps = Runs-then t.storage (λ a s. IsKept t.storage s) (λ b s. IsKept t.storage s)

  tick-Keeps :
      (now : ℕ) (s : PeerSession)
      → IsSized t.storage
      → IsKept t.storage s
      → Keeps t.storage (tick t now s)
  unfolding tick
  tick-Keeps now s z v =
      then-Keeps (check_activity t now s) _ (check_activity-Keeps now s v) (λ u s1 w1.
        then-Keeps (when (not (is_empty s1.outgoing_requests)) (check_request_timeout t now) s1) _
          (Keeps-when t.storage (not (is_empty s1.outgoing_requests)) (check_request_timeout t now)
            s1 w1 (λ e. check_request_timeout-Keeps t now s1 z w1))
          (λ u' s2 w2.
            then-Keeps (when s2.ctx.changed (send_info t) s2) _
              (Keeps-when t.storage s2.ctx.changed (send_info t) s2 w2 (λ e. send_info-Keeps s2 w2))
              (λ u'' s3 w3. Keeps-with_ctx t.storage Session.tick s3 (tick-KeepsState s3.ctx) w3)))

  handle_first-Keeps :
      (now : ℕ) (msg : Message (List Bool)) (s : PeerSession)
      → IsSized t.storage
      → IsReady t msg s
      → Keeps t.storage (handle_first t now msg s)
  unfolding handle_first
  handle_first-Keeps now (Message.bitfield b) s z v =
      handle_bitfield_msg-Keeps t b s (record { sound = v.sound; agreed = v.agrees })
  handle_first-Keeps now Message.keep_alive s z v = handle_msg-Keeps t now _ s z v
  handle_first-Keeps now Message.choke s z v = handle_msg-Keeps t now _ s z v
  handle_first-Keeps now Message.unchoke s z v = handle_msg-Keeps t now _ s z v
  handle_first-Keeps now Message.interested s z v = handle_msg-Keeps t now _ s z v
  handle_first-Keeps now Message.not_interested s z v = handle_msg-Keeps t now _ s z v
  handle_first-Keeps now (Message.block p o bytes) s z v = handle_msg-Keeps t now _ s z v
  handle_first-Keeps now (Message.request b) s z v = handle_msg-Keeps t now _ s z v
  handle_first-Keeps now (Message.have i) s z v = handle_msg-Keeps t now _ s z v
  handle_first-Keeps now (Message.cancel b) s z v = handle_msg-Keeps t now _ s z v

  on_msg-Keeps :
      (now : ℕ) (msg : Message (List Bool)) (s : PeerSession)
      → IsSized t.storage
      → IsKept t.storage s
      → Keeps t.storage (on_msg t now msg s)
  unfolding on_msg
  on_msg-Keeps now msg s z v =
      let w = received-IsReady t msg s v in
      elim (Bool-cases (is_availability_exchange s.ctx.state.connection)) [
        | inr e ↦ simp e (
            then-Keeps (handle_msg t now msg _) _ (handle_msg-Keeps t now msg _ z w)
              (λ u s' w'. w'))
        | inl e ↦ simp e (
            then-Keeps (handle_first t now msg _) _ (handle_first-Keeps now msg _ z w)
              (λ u s' w'. either (not (any s'.picker.own_pieces) && not (any s'.pieces)) s' w'))
      ]
    where
      either :
          (b : Bool) (s' : PeerSession)
          → IsKept t.storage s'
          → Keeps t.storage (
              (if b then pure false else (set_connection t ConnectionState.connected >> pure true))
                s')
      either true s' w' = w'
      either false s' w' = IsKept-connection ConnectionState.connected s' w'

  on_command-Keeps :
      (now : ℕ) (c : Command) (s : PeerSession)
      → IsKept t.storage s
      → Keeps t.storage (on_command t now c s)
  unfolding on_command
  on_command-Keeps now (block p o bytes) s v =
      then-Keeps (send_read_block t now p o bytes s) _ (send_read_block-Keeps t now p o bytes s v)
        (λ u s' w. w)
  on_command-Keeps now (piece_completion i eg) s v =
      then-Keeps (handle_piece_completion t i _) _
        (handle_piece_completion-Keeps t i _ (IsKept-ctx t.storage s _ refl v)) (λ u s' w. w)
  on_command-Keeps now shutdown s v = v

  pub react-Keeps :
      (now : ℕ) (input : Input) (s : PeerSession)
      → IsSized t.storage
      → IsKept t.storage s
      → Keeps t.storage (react t now input s)
  unfolding react
  react-Keeps now ticked s z v = then-Keeps (tick t now s) _ (tick-Keeps now s z v) (λ u s' w. w)
  react-Keeps now unreadable s z v = v
  react-Keeps now (message msg) s z v = on_msg-Keeps now msg s z v
  react-Keeps now (command c) s z v = on_command-Keeps now c s v

  pub begin-Keeps :
      (now : ℕ) (s : PeerSession) → IsKept t.storage s → Keeps t.storage (begin t now s)
  unfolding begin
  begin-Keeps now s v =
      let w = IsKept-ctx t.storage s (record s.ctx { connected_time = some now }) refl v in
      Keeps-when t.storage (any s.picker.own_pieces) _ _ w (λ e.
        Keeps-send t.storage t io (to_peer (Message.bitfield s.picker.own_pieces)) _
          (IsKept-log t.storage _ (to_peer (Message.bitfield s.picker.own_pieces)) refl tt w))

  -- A session that has ended: its invariant holds, and it has no request pending.
  abbrev pub Ended : Unit {0} → PeerSession → Type 0
  Ended u s = IsKept t.storage s × (s.outgoing_requests ≡ [])

  report-Keeps :
      (e : Option PeerError) (s : PeerSession) → IsKept t.storage s → Keeps t.storage (report t e s)
  report-Keeps none s v = v
  report-Keeps (some e) s v =
      then-Keeps (send_info t _) _
        (send_info-Keeps _ (IsKept-connection ConnectionState.disconnected s v))
        (λ u s' w.
          Keeps-send t.storage t channel (alert e) s' (IsKept-log t.storage s' (alert e) refl tt w))

  disconnect-Ended :
      (s : PeerSession)
      → Ended tt s
      → Runs t.storage Ended ((set_connection t ConnectionState.disconnected >> send_info t) s)
  unfolding send
  disconnect-Ended s (v, e) =
      let s' : PeerSession = record s {
        ctx = set_connection_state s.ctx ConnectionState.disconnected;
      } in
      let w =
        IsKept-log t.storage s' (peer_state (session_info t s')) refl tt
          (IsKept-connection ConnectionState.disconnected s v) in
      elim (Bool-cases (t.accepts s'.log (peer_state (session_info t s')))) [
        | inl a ↦ rw a (w, e)
        | inr a ↦ rw a w
      ]

  pub finish-Ended :
      (e : Option PeerError) (s : PeerSession)
      → IsKept t.storage s
      → Runs t.storage Ended (finish t e s)
  unfolding finish
  finish-Ended e s v =
      Runs-then t.storage (λ u s'. IsKept t.storage s') Ended (report t e s) _ (report-Keeps e s v)
        (λ u s1 w. by_requests s1.outgoing_requests s1 refl w)
    where
      by_requests :
          (requests : List BlockInfo) (s1 : PeerSession)
          → s1.outgoing_requests ≡ requests
          → IsKept t.storage s1
          → Runs t.storage Ended (
              then_do
                (when (not (is_empty requests)) (free_pending_blocks t) s1)
                (λ _. set_connection t ConnectionState.disconnected >> send_info t))
      by_requests [] s1 e1 w = disconnect-Ended s1 (w, e1)
      by_requests (b ∷ bs) s1 e1 w =
          Runs-free_pending_blocks t Ended s1 _ w.sound.shared
            (λ ds h. disconnect-Ended _ (IsKept-freed t s1 ds h w, refl))
