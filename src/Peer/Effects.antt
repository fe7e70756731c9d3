-- ===== src/Peer/Effects.antt =====
-- The effects of a handler of a session: it may panic, or return early with an error, and it changes
-- the session.
use cratetorrent.Prelude.{Bool, Option, none, some, List, ◌∷◌, Checked, if◌then◌else◌}
use cratetorrent.Prelude as Prelude
use cratetorrent.Counter.{FloatApi}
use cratetorrent.Codec.{Message}
use cratetorrent.Session.{SessionContext}
use cratetorrent.Peer.{PeerError, channel, io, Event, to_peer, Torrent, PeerSession}

module _ ⦃api : FloatApi⦄ where
  pub data Outcome {ℓ} (A : Type ℓ) : Type ℓ where
    done : A → PeerSession → Outcome A
    failed : PeerError → PeerSession → Outcome A
    panicked : Outcome A

  abbrev pub Handler {ℓ} : Type ℓ → Type ℓ
  Handler A = PeerSession → Outcome A

  abbrev pub pure {ℓ} : {A : Type ℓ} → A → Handler A
  pure a s = done a s

  -- What comes after an outcome.
  abbrev pub then_do {ℓ κ} : {A : Type ℓ} {B : Type κ} → Outcome A → (A → Handler B) → Outcome B
  then_do (done a s) f = f a s
  then_do (failed e s) f = failed e s
  then_do panicked f = panicked

infixl 5 ◌>>=◌ ◌>>◌
abbrev pub ◌>>=◌ {ℓ κ} :
    ⦃api : FloatApi⦄ → {A : Type ℓ} {B : Type κ} → Handler A → (A → Handler B) → Handler B
(m >>= f) s = then_do (m s) f

abbrev pub ◌>>◌ {ℓ κ} :
    ⦃api : FloatApi⦄ → {A : Type ℓ} {B : Type κ} → Handler A → Handler B → Handler B
m >> k = m >>= λ _. k

module _ ⦃api : FloatApi⦄ where
  abbrev pub get : Handler PeerSession
  get s = done s s

  abbrev pub modify : (PeerSession → PeerSession) → Handler (Unit {0})
  modify f s = done tt (f s)

  abbrev pub fail {ℓ} : {A : Type ℓ} → PeerError → Handler A
  fail e s = failed e s

  -- A computation that may panic.
  abbrev pub checked {ℓ} : {A : Type ℓ} → Checked A → Handler A
  checked (Prelude.ret a) s = done a s
  checked Prelude.panic s = panicked

  -- `?` on the result of a validation.
  abbrev pub require : Option PeerError → Handler (Unit {0})
  require none s = done tt s
  require (some e) s = failed e s

  abbrev pub when : Bool → Handler (Unit {0}) → Handler (Unit {0})
  when b m = if b then m else pure tt

  -- An operation of the session context.
  unfoldable pub with_ctx : (SessionContext → Checked SessionContext) → Handler (Unit {0})
  with_ctx f = get >>= λ s. checked (f s.ctx) >>= λ c. modify (λ t. record t { ctx = c })

  abbrev pub record_event : Event → Handler (Unit {0})
  record_event e = modify (λ s. record s { log = e ∷ s.log })

  -- An event is handed to its receiver, who may be gone.
  unfoldable pub send : Torrent → PeerError → Event → Handler (Unit {0})
  send t e event s =
      if t.accepts s.log event
      then done tt (record s { log = event ∷ s.log })
      else failed e (record s { log = event ∷ s.log })

  abbrev pub send_msg : Torrent → Message (List Bool) → Handler (Unit {0})
  send_msg t m = send t io (to_peer m)

  abbrev pub send_command : Torrent → Event → Handler (Unit {0})
  send_command t event = send t channel event
