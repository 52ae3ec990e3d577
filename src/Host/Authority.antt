-- ===== src/Host/Authority.antt =====
-- companion/src/app_state.rs: the peers whose messages `handle_network_event` does not act on.
use beatblock_online.Base.{
  ◌≡◌, ◌⊎◌, refl, Bool, true, false, not, ◌&&◌, ◌||◌, inl, inr, Option, none, some, is_none, List,
  ◌∷◌, Text, arith,
}
use beatblock_online.Float.{Float}
use beatblock_online.Model.{Participant}
use beatblock_online.Room.State.{Room}
use beatblock_online.Render.{RenderSample}
use beatblock_online.Renderer.State.{Single}
use beatblock_online.Host.Message.{Envelope, PeerMessageClass, is_message, classify_peer_message}
use beatblock_online.Host.State
use beatblock_online.Host.State.{Host, HostError, World, Double, Effect, Answer, bailed, Act}
use beatblock_online.Host.Chart.{in_roster, require_admitted_peer}
use beatblock_online.Host.Events.{handle_envelope, handle_sample, handle_classified}

-- What a peer sends: `NetworkEvent::Envelope` and `NetworkEvent::RenderSample`.
pub data PeerMessage (F : Type 0) : Type 0 where
  envelope : Envelope F → PeerMessage F
  render_sample : RenderSample → PeerMessage F

module _ {F : Type 0} where
  abbrev pub is_present : Option (Participant F) → Bool
  is_present none = false
  is_present (some p) = p.admitted && p.connected

  -- The session is of an admitted and connected participant.
  abbrev pub is_admitted_peer : Text → Room F → Bool
  is_admitted_peer id r = is_present (in_roster id r)

  abbrev pub is_refused : Text → Room F → PeerMessage F → Bool
  is_refused id r (envelope e) =
      not (is_message e) || is_none (classify_peer_message e) || not (is_admitted_peer id r)
  is_refused id r (render_sample s) = not (is_admitted_peer id r)

  -- The handler failed, and all it did was, at most, to disconnect the session.
  pub record IsRefused (id : Text) (h : Host F) (r : Host F × Answer Unit) : Type 0 where
    pub sent : List Effect
    pub error : HostError
    pub same : r ≡ (record h { sent = sent }, bailed error)
    pub told : (sent ≡ h.sent) ⊎ (sent ≡ Effect.peer_disconnected id false ∷ h.sent)

  require_admitted_peer-bailed :
      (id : Text) (o : Option (Participant F)) (h : Host F)
      → in_roster id h.room ≡ o
      → is_present o ≡ false
      → (error : HostError) × (require_admitted_peer id h ≡ (h, bailed error))
  unfolding require_admitted_peer
  require_admitted_peer-bailed id none h f n = (State.not_in_roster, ground (arith, f))
  require_admitted_peer-bailed id (some p) h f n = (State.awaiting_admission, ground (arith, f, n))

module _ {F : Type 0} ⦃fl : Float F⦄ ⦃sg : Single⦄ ⦃db : Double F⦄ where
  envelope-IsRefused :
      (w : World F) (id : Text) (e : Envelope F) (h : Host F) (m : Bool)
      (c : Option PeerMessageClass)
      → is_message e ≡ m
      → classify_peer_message e ≡ c
      → not m || is_none c || not (is_admitted_peer id h.room) ≡ true
      → IsRefused id h (handle_envelope w id e h)
  unfolding handle_envelope handle_classified
  envelope-IsRefused w id e h false c s k n = record {
    sent = h.sent;
    error = State.bad_message;
    same = ground (arith, s);
    told = inl refl;
  }
  envelope-IsRefused w id e h true none s k n = record {
    sent = Effect.peer_disconnected id false ∷ h.sent;
    error = State.forbidden_message;
    same = ground (arith, s, k);
    told = inr refl;
  }
  envelope-IsRefused w id e h true (some c) s k n =
      let v = require_admitted_peer-bailed id (in_roster id h.room) h refl (ground (arith, n)) in
      record { sent = h.sent; error = v.0; same = ground (arith, s, k, v.1); told = inl refl }

  sample-IsRefused :
      (w : World F) (id : Text) (s : RenderSample) (h : Host F)
      → is_admitted_peer id h.room ≡ false
      → IsRefused id h (handle_sample w id s h)
  unfolding handle_sample
  sample-IsRefused w id s h n =
      let v = require_admitted_peer-bailed id (in_roster id h.room) h refl n in
      record { sent = h.sent; error = v.0; same = ground (arith, v.1); told = inl refl }

  abbrev pub handle_message : World F → Text → PeerMessage F → Act F Unit
  handle_message w id (envelope e) = handle_envelope w id e
  handle_message w id (render_sample s) = handle_sample w id s

  -- A message with a wrong version or of a kind that peers may not send, or one that is too long, and any
  -- message or sample of a session that is not an admitted and connected participant fails, and the host
  -- does nothing for it but, at most, to disconnect the session.
  pub handle_message-IsRefused :
      (w : World F) (id : Text) (m : PeerMessage F) (h : Host F)
      → is_refused id h.room m ≡ true
      → IsRefused id h (handle_message w id m h)
  handle_message-IsRefused w id (envelope e) h n =
      envelope-IsRefused w id e h (is_message e) (classify_peer_message e) refl refl n
  handle_message-IsRefused w id (render_sample s) h n =
      sample-IsRefused w id s h (ground (arith, n))
