-- ===== src/Peer/Dispatched.antt =====
-- Whatever message a session receives, it keeps its invariant.
use cratetorrent.Prelude.{
  ℕ, ◌≡◌, refl, sym, ap, ◌∙◌, inl, inr, Bool, true, false, List, [], ◌∷◌, Bool-cases,
}
use cratetorrent.Counter.{FloatApi}
use cratetorrent.Codec.{Message, protocol_len}
use cratetorrent.Session.{SessionContext, update_state, prepare_for_download}
use cratetorrent.Session.State.{prepare_for_download-KeepsState}
use cratetorrent.Peer.{Torrent, PeerSession, received, block_info, Downloads}
use cratetorrent.Peer.Pipeline.{count_protocol_down}
use cratetorrent.Peer.Messages.{handle_choke, handle_unchoke, dispatch, handle_msg}
use cratetorrent.Peer.Filling.{IsSized, IsShared}
use cratetorrent.Peer.Orderly.{Happened, is_choked_by, IsSound, IsKept, IsSound-ctx, IsSound-log}
use cratetorrent.Peer.Rules.{Keeps, Runs-then, IsKept-ctx, Runs-with_ctx, Keeps-when}
use cratetorrent.Peer.Downloading.{make_requests-Keeps}
use cratetorrent.Peer.Arriving.{Runs-free_pending_blocks, handle_block_msg-Keeps}
use cratetorrent.Peer.Requests.{handle_block_msg}
use cratetorrent.Peer.Announced.{handle_have_msg-Keeps}
use cratetorrent.Peer.Answering.{
  handle_request_msg-Keeps, handle_cancel-Keeps, handle_interested-Keeps,
  handle_not_interested-Keeps,
}
use cratetorrent.Peer.Rules.{count_protocol_down-KeepsState}

module _ ⦃api : FloatApi⦄ (t : Torrent) where
  IsKept-choked :
      (s : PeerSession) (ds : Downloads)
      → IsShared t.storage s.picker ds
      → is_choked_by s.log ≡ true
      → IsSound t.storage s
      → IsKept t.storage (record s {
        ctx = update_state s.ctx (λ state. record state { is_choked = true });
        outgoing_requests = [];
        downloads = ds;
      })
  unfolding update_state
  IsKept-choked s ds h e v = record {
    sound = record {
      orderly = v.orderly;
      pending = v.pending;
      asked = tt;
      unchoked = v.unchoked;
      interested = v.interested;
      idle = λ _. refl;
      shared = h;
      counted = v.counted;
      sized = v.sized;
    };
    agreed = sym e;
  }

  handle_choke-Keeps :
      (s : PeerSession)
      → is_choked_by s.log ≡ true
      → IsSound t.storage s
      → Keeps t.storage (handle_choke t s)
  unfolding handle_choke
  handle_choke-Keeps s e v = elim (Bool-cases s.ctx.state.is_choked) [
    | inl c ↦ simp c record { sound = v; agreed = c ∙ sym e }
    | inr c ↦ simp c (
        Runs-free_pending_blocks t (λ u s'. IsKept t.storage s') s _ v.shared
          (λ ds h. IsKept-choked s ds h e v))
  ]

  IsKept-free :
      (s : PeerSession)
      → is_choked_by s.log ≡ false
      → IsSound t.storage s
      → IsKept t.storage
          (record s { ctx = update_state s.ctx (λ state. record state { is_choked = false }) })
  unfolding update_state
  IsKept-free s e v = record {
    sound = record {
      orderly = v.orderly;
      pending = v.pending;
      asked = v.asked;
      unchoked = v.unchoked;
      interested = v.interested;
      idle = λ h. cc;
      shared = v.shared;
      counted = v.counted;
      sized = v.sized;
    };
    agreed = sym e;
  }

  handle_unchoke-Keeps :
      (now : ℕ) (s : PeerSession)
      → IsSized t.storage
      → is_choked_by s.log ≡ false
      → IsSound t.storage s
      → Keeps t.storage (handle_unchoke t now s)
  unfolding handle_unchoke
  handle_unchoke-Keeps now s z e v = elim (Bool-cases s.ctx.state.is_choked) [
    | inr c ↦ simp c record { sound = v; agreed = c ∙ sym e }
    | inl c ↦ simp c (
        let w = IsKept-free s e v in
        Keeps-when t.storage s.ctx.state.is_interested _ _ w (λ i.
          Runs-with_ctx t.storage (λ u s'. IsKept t.storage s') prepare_for_download _ _
            (prepare_for_download-KeepsState _)
            (λ c' same. make_requests-Keeps t now _ z (IsKept-ctx t.storage _ c' same w))))
  ]

  -- What the last choke or unchoke says after a message is received.
  abbrev pub Agrees : Message (List Bool) → PeerSession → Type 0
  Agrees Message.choke s = is_choked_by s.log ≡ true
  Agrees Message.unchoke s = is_choked_by s.log ≡ false
  Agrees _ s = s.ctx.state.is_choked ≡ is_choked_by s.log

  -- A session that has received a message and not yet handled it.
  pub record IsReady (msg : Message (List Bool)) (s : PeerSession) : Type 0 where
    pub sound : IsSound t.storage s
    pub told : Happened s.log (received msg)
    pub agrees : Agrees msg s

  pub received-IsReady :
      (msg : Message (List Bool)) (s : PeerSession)
      → IsKept t.storage s
      → IsReady msg (record s { log = received msg ∷ s.log })
  received-IsReady msg s v = record {
    sound = IsSound-log t.storage s (received msg) tt v.sound;
    told = inl refl;
    agrees = by_message msg;
  }
    where
      by_message : (m : Message (List Bool)) → Agrees m (record s { log = received m ∷ s.log })
      by_message (Message.bitfield b) = v.agreed
      by_message Message.keep_alive = v.agreed
      by_message Message.choke = refl
      by_message Message.unchoke = refl
      by_message Message.interested = v.agreed
      by_message Message.not_interested = v.agreed
      by_message (Message.block p o bytes) = v.agreed
      by_message (Message.request b) = v.agreed
      by_message (Message.have i) = v.agreed
      by_message (Message.cancel b) = v.agreed

  Agrees-ctx :
      (msg : Message (List Bool)) (s : PeerSession) (c : SessionContext)
      → c.state ≡ s.ctx.state
      → Agrees msg s
      → Agrees msg (record s { ctx = c })
  Agrees-ctx (Message.bitfield b) s c e h = ap (λ st. st.is_choked) e ∙ h
  Agrees-ctx Message.keep_alive s c e h = ap (λ st. st.is_choked) e ∙ h
  Agrees-ctx Message.choke s c e h = h
  Agrees-ctx Message.unchoke s c e h = h
  Agrees-ctx Message.interested s c e h = ap (λ st. st.is_choked) e ∙ h
  Agrees-ctx Message.not_interested s c e h = ap (λ st. st.is_choked) e ∙ h
  Agrees-ctx (Message.block p o bytes) s c e h = ap (λ st. st.is_choked) e ∙ h
  Agrees-ctx (Message.request b) s c e h = ap (λ st. st.is_choked) e ∙ h
  Agrees-ctx (Message.have i) s c e h = ap (λ st. st.is_choked) e ∙ h
  Agrees-ctx (Message.cancel b) s c e h = ap (λ st. st.is_choked) e ∙ h

  dispatch-Keeps :
      (now : ℕ) (msg : Message (List Bool)) (s : PeerSession)
      → IsSized t.storage
      → IsReady msg s
      → Keeps t.storage (dispatch t now msg s)
  unfolding dispatch
  dispatch-Keeps now (Message.bitfield b) s z v = record { sound = v.sound; agreed = v.agrees }
  dispatch-Keeps now Message.keep_alive s z v = record { sound = v.sound; agreed = v.agrees }
  dispatch-Keeps now Message.choke s z v = handle_choke-Keeps s v.agrees v.sound
  dispatch-Keeps now Message.unchoke s z v = handle_unchoke-Keeps now s z v.agrees v.sound
  dispatch-Keeps now Message.interested s z v =
      handle_interested-Keeps t s (record { sound = v.sound; agreed = v.agrees })
  dispatch-Keeps now Message.not_interested s z v =
      handle_not_interested-Keeps t s (record { sound = v.sound; agreed = v.agrees })
  dispatch-Keeps now (Message.block p o bytes) s z v =
      Runs-then t.storage (λ u s'. IsKept t.storage s') (λ u s'. IsKept t.storage s')
        (handle_block_msg t now (block_info p o bytes) bytes s) _
        (handle_block_msg-Keeps t now p o bytes s v.told
          (record { sound = v.sound; agreed = v.agrees }))
        (λ u s' w. make_requests-Keeps t now s' z w)
  dispatch-Keeps now (Message.request b) s z v =
      handle_request_msg-Keeps t b s (record { sound = v.sound; agreed = v.agrees })
  dispatch-Keeps now (Message.have i) s z v =
      handle_have_msg-Keeps t i s (record { sound = v.sound; agreed = v.agrees })
  dispatch-Keeps now (Message.cancel b) s z v =
      handle_cancel-Keeps t b s (record { sound = v.sound; agreed = v.agrees })

  pub handle_msg-Keeps :
      (now : ℕ) (msg : Message (List Bool)) (s : PeerSession)
      → IsSized t.storage
      → IsReady msg s
      → Keeps t.storage (handle_msg t now msg s)
  unfolding handle_msg
  handle_msg-Keeps now msg s z v =
      Runs-with_ctx t.storage (λ u s'. IsKept t.storage s')
        (λ c. count_protocol_down c (protocol_len msg)) s _ (count_protocol_down-KeepsState s.ctx _)
        (λ c same. dispatch-Keeps now msg _ z (record {
          sound = IsSound-ctx t.storage s c same v.sound;
          told = v.told;
          agrees = Agrees-ctx msg s c same v.agrees;
        }))
