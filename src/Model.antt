-- ===== src/Model.antt =====
-- companion/src/model.rs: the types of the room protocol that the room engine keeps.
use beatblock_online.Base.{ℕ, Bool, true, false, Option, List, Text}

pub data ParticipantRole : Type 0 where
  player spectator host : ParticipantRole

pub data AdmissionMode : Type 0 where
  password_only host_approval : AdmissionMode

pub data ChartTransferMode : Type 0 where
  verify_only host_transfer : ChartTransferMode

pub data RoomLifecycle : Type 0 where
  forming chart_locked ready countdown playing results set_complete closed : RoomLifecycle

pub data RunValidity : Type 0 where
  pending valid invalid dnf : RunValidity

-- The texts of `invalid_reason`: one constructor for each fixed text, with the values that the
-- program formats into it, and `reported` for a text that comes from outside.
pub data Reason : Type 0 where
  join_rejected new_attempt disconnected game_did_not_start : Reason
  sequence_gap : (expected received : ℕ) → Reason
  ended_early : (received opportunities : ℕ) → Reason
  rejected : (kind detail : Text) → Reason
  reported : Text → Reason

pub record ScoreTotals : Type 0 where
  pub hits : ℕ
  pub misses : ℕ
  pub barelies : ℕ
  pub combo : ℕ
  pub max_combo : ℕ
  pub current_max_hits : ℕ
  pub max_hits : ℕ
  pub mine_hits : ℕ

-- `ScoreTotals::default()`
abbrev pub no_totals : ScoreTotals
no_totals = record {
  hits = 0;
  misses = 0;
  barelies = 0;
  combo = 0;
  max_combo = 0;
  current_max_hits = 0;
  max_hits = 0;
  mine_hits = 0;
}

pub record Participant (F : Type 0) : Type 0 where
  pub session_id : Text
  pub display_name : Text
  pub role : ParticipantRole
  pub admitted : Bool
  pub connected : Bool
  pub ready : Bool
  pub verified : Bool
  pub progress : F
  pub accuracy : F
  pub rank : Option ℕ
  pub set_total : F
  pub totals : ScoreTotals
  pub validity : RunValidity
  pub invalid_reason : Option Reason
  pub last_sequence : Option ℕ
  pub commentator_access : Bool

pub record ChartLock : Type 0 where
  pub hash : Text
  pub package_name : Text
  pub song_name : Text
  pub variant : Text
  pub expected_max_hits : ℕ
  pub official : Bool
  pub transfer_mode : ChartTransferMode

pub record SetlistEntry : Type 0 where
  pub id : Text
  pub chart : ChartLock
  pub completed : Bool

pub data VfxModifier : Type 0 where
  full decreased none : VfxModifier

pub data TapModifier : Type 0 where
  default lenient strict auto : TapModifier

pub data SideModifier : Type 0 where
  default lenient auto : SideModifier

pub data BarelyModifier : Type 0 where
  default lenient strict : BarelyModifier

pub data RestartModifier : Type 0 where
  none miss barely : RestartModifier

pub record RoomModifiers (F : Type 0) : Type 0 where
  pub rate : F
  pub vfx : VfxModifier
  pub taps : TapModifier
  pub sides : SideModifier
  pub barelies : BarelyModifier
  pub restart_on : RestartModifier

pub record RoomSnapshot (F : Type 0) : Type 0 where
  pub id : Text
  pub name : Text
  pub host_session_id : Text
  pub lifecycle : RoomLifecycle
  pub admission_mode : AdmissionMode
  pub allow_chart_transfers : Bool
  pub auto_request_chart_transfers : Bool
  pub validity_checks_enabled : Bool
  pub require_same_game_build : Bool
  pub modifiers : RoomModifiers F
  pub participants : List (Participant F)
  pub chart : Option ChartLock
  pub setlist : List SetlistEntry
  pub current_setlist_index : Option ℕ
  pub scheduled_start_time_ms : Option ℕ
  pub force_start : Bool
  pub created_at_ms : ℕ
  pub updated_at_ms : ℕ

abbrev pub max_players : ℕ
max_players = 16

abbrev pub max_spectators : ℕ
max_spectators = 32

-- `role == ParticipantRole::Spectator`, and `matches!(role, Player | Host)`
abbrev pub is_spectator : ParticipantRole → Bool
is_spectator spectator = true
is_spectator _ = false

abbrev pub is_racing : ParticipantRole → Bool
is_racing spectator = false
is_racing _ = true

-- `matches!(lifecycle, Countdown | Playing)`
abbrev pub in_race : RoomLifecycle → Bool
in_race countdown = true
in_race playing = true
in_race _ = false

-- `matches!(lifecycle, Forming | ChartLocked | Ready)`
abbrev pub before_race : RoomLifecycle → Bool
before_race forming = true
before_race chart_locked = true
before_race ready = true
before_race _ = false
