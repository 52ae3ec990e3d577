-- ===== src/Host/History.antt =====
-- companion/src/app_state.rs: what happens to a hosting runtime, as events, and histories of them.
use beatblock_online.Base.{ℕ, Bool, Option, List, [], ◌∷◌, Text}
use beatblock_online.Float.{Float}
use beatblock_online.Model.{ParticipantRole, ChartLock}
use beatblock_online.Render.{RenderSample}
use beatblock_online.Renderer.State.{Single}
use beatblock_online.Host.Message.{Envelope}
use beatblock_online.Host.State.{Host, World, Double}
use beatblock_online.Host.Publish
use beatblock_online.Host.Control
use beatblock_online.Host.Control.{Package}
use beatblock_online.Host.Operations.{HostAction, after_action}
use beatblock_online.Host.Events

-- `ring` is what the reset of a frame ring returns. The hosting runtime's own game
-- events (`apply_local`) and `configure_renderer` are no events, so no slot gets a participant.
pub data HostEvent (F : Type 0) : Type 0 where
  envelope : Text → Envelope F → HostEvent F
  render_sample : Text → RenderSample → HostEvent F
  authenticated : (session_id name : Text) → ParticipantRole → HostEvent F
  disconnected removed : (ring : Option Text) → Text → HostEvent F
  admitted role_set : (ring : Option Text) → Text → ParticipantRole → HostEvent F
  access_set : Text → Bool → HostEvent F
  build_finished : Text → ChartLock → Option Package → HostEvent F
  due_expired : (now_ms : ℕ) → HostEvent F
  flushed : HostEvent F
  acted : HostAction F → HostEvent F

module _ {F : Type 0} ⦃fl : Float F⦄ ⦃sg : Single⦄ ⦃db : Double F⦄ where
  abbrev pub after_event : World F → HostEvent F → Host F → Host F
  after_event w (envelope id e) h = (Events.handle_envelope w id e h).0
  after_event w (render_sample id s) h = (Events.handle_sample w id s h).0
  after_event w (authenticated id name role) h = (Events.handle_authenticated w id name role h).0
  after_event w (disconnected ring id) h = (Events.handle_disconnected w ring id h).0
  after_event w (removed ring id) h = (Events.remove_participant w ring id h).0
  after_event w (admitted ring id role) h = (Events.admit_participant w ring id role h).0
  after_event w (role_set ring id role) h = (Events.set_participant_role w ring id role h).0
  after_event w (access_set id enabled) h = (Events.set_commentator_access w id enabled h).0
  after_event w (build_finished id chart packed) h = (Control.finish_build w id chart packed h).0
  after_event w (due_expired now_ms) h = (Events.expire_due_disconnects w now_ms h).0
  after_event w flushed h = (Publish.flush_room_updates w h).0
  after_event w (acted a) h = after_action w a h

  unfoldable pub after_events : List (World F × HostEvent F) → Host F → Host F
  after_events [] h = h
  after_events ((w, e) ∷ es) h = after_events es (after_event w e h)
