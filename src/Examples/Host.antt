-- ===== src/Examples/Host.antt =====
-- The host, and the consent to incoming archives, at concrete inputs.
use beatblock_online.Base.{
  ℕ, ◌≢◌, refl, true, false, some, none, List, [], ◌∷◌, text, Text, text_eq, leb,
}
use beatblock_online.Model.{password_only, player, spectator}
use beatblock_online.Room.Create
use beatblock_online.Storage.{Storage}
use beatblock_online.Renderer.State.{new_manager}
use beatblock_online.Broadcast.{empty_plan}
use beatblock_online.Network.Transfer.{
  ChartTransferHeader, Authorization, TransferCall, authorize, consume, table_after_all, accepted,
  consume_incoming_transfer_authorization,
}
use beatblock_online.Network.Transfer.Consent.{IsAccepted, consume-IsAccepted}
use beatblock_online.Host.Message.{Envelope, is_message, classify_peer_message}
use beatblock_online.Host.State.{Host, World, Double}
use beatblock_online.Host.History
use beatblock_online.Host.History.{HostEvent, after_events}
use beatblock_online.Host.Refines.{IsReached}
use beatblock_online.Host.Refinement.{after_events-IsReached}
use beatblock_online.Host.Opening.{HostRoomOptions}
use beatblock_online.Host.Session.{Setup, HostedRoom, new_runtime, host_room, after_sessions}
use beatblock_online.Host.Sound.{IsSound}
use beatblock_online.Host.Promises.{after_sessions-new_runtime-IsSound}
use beatblock_online.Host.Authority
use beatblock_online.Host.Authority.{
  PeerMessage, handle_message, IsRefused, handle_message-IsRefused,
}
use beatblock_online.Examples.{fixed}
use beatblock_online.Examples.Renderer.{tenths}

abbrev digits : Text
digits = text "0123456789abcdef0123456789abcdef0123456789abcdef0123456789abcdef"

abbrev archive : ChartTransferHeader
archive = record {
  request_id = text "r1";
  name = text "song";
  size = 9;
  archive_sha256 = digits;
  chart_hash = digits;
  contains_executable_content = true;
}

abbrev consent : List TransferCall
consent = authorize (text "p") archive true ∷ consume (text "q") archive ∷ []

abbrev allowed : Authorization
allowed = record { header = archive; executable_content_confirmed = true }

consume-IsAccepted_example :
    IsAccepted consent (text "p") archive allowed
    × ((consume_incoming_transfer_authorization
          (text "p")
          archive
          (consume_incoming_transfer_authorization
            (text "p")
            archive
            (table_after_all consent [])).0).1
        ≢ accepted allowed)
unfolding consume_incoming_transfer_authorization table_after_all text_eq
consume-IsAccepted_example =
    consume-IsAccepted consent (text "p") archive archive allowed allowed refl

instance abbrev plain_double : Double ℕ
plain_double = record { is_finite = λ n. true; is_percentage = λ n. leb n 1000000; narrow = λ n. n }

abbrev world : World ℕ
world = record {
  now = 2000;
  now_rejected = 2001;
  now_synced = 2002;
  now_planned = 2003;
  saved = true;
  delivered = true;
  envelope_json = some (text "{}");
  room_json = λ r. text "{}";
  error_text = λ e. text "error";
  event_size = 104;
  sha256 = λ t. [];
}

abbrev message : Text → Envelope ℕ
message kind = record {
  version = 3;
  kind = kind;
  sequence = 1;
  run_time_us = 5000;
  run_id = some (text "run");
  payload = record {
    text_at = λ k. none;
    nat_at = λ k. none;
    bool_at = λ k. some true;
    number_at = λ k. none;
    size = 20;
    has_totals = false;
    totals = none;
    score = record { totals = none; progress = none };
    mirror_status = none;
  };
}

abbrev hosted : Host ℕ
hosted = record {
  room = Create.host_room 1000 (text "room") (text "h") (text "Cup") (text "Ann") password_only;
  renderer = new_manager;
  storage = record {
    room_recovery = none;
    match_history = [];
    run_events = [];
    pending = record { events = []; bytes = 0 };
  };
  broadcast_plan = empty_plan;
  broadcast_revision = 0;
  commentator_subscribers = [];
  commentator_statuses = [];
  pending_transfer_offers = [];
  active_transfer_builds = [];
  selected_chart_path = none;
  chart_paths = [];
  local_session_id = some (text "h");
  room_dirty = false;
  sent = [];
}

abbrev evening : List (World ℕ × HostEvent ℕ)
evening =
    (world, History.authenticated (text "p") (text "Bob") player)
    ∷ (world, History.envelope (text "p") (message (text "client.ready")))
    ∷ (world, History.role_set none (text "p") spectator)
    ∷ (world, History.disconnected none (text "p"))
    ∷ []

after_events-IsReached_example : IsReached hosted (after_events evening hosted)
after_events-IsReached_example = after_events-IsReached evening hosted

abbrev setup : Setup
setup = record {
  display_name = text "Ann";
  room_id = text "room";
  host_id = text "h";
  build_known = true;
  started = true;
  published = true;
  ring = none;
}

abbrev cup : HostRoomOptions ℕ
cup = record {
  room_name = text " Cup ";
  admission_mode = password_only;
  host_participating = false;
  validity_checks_enabled = true;
  require_same_game_build = true;
  modifiers = Create.default_modifiers;
}

abbrev first_room : HostedRoom ℕ
first_room = record {
  opening = world;
  setup = setup;
  options = cup;
  events = evening;
  is_closed = true;
  ending = world;
  final = setup;
}

abbrev nothing_stored : Storage
nothing_stored = record {
  room_recovery = none;
  match_history = [];
  run_events = [];
  pending = record { events = []; bytes = 0 };
}

after_sessions-new_runtime-IsSound_example :
    let before = after_sessions (first_room ∷ []) (new_runtime 500 nothing_stored) in
    IsSound before × IsSound (after_events evening (host_room world setup cup before).0)
after_sessions-new_runtime-IsSound_example =
    after_sessions-new_runtime-IsSound 500 nothing_stored (first_room ∷ []) world setup cup evening

handle_message-IsRefused_example :
    IsRefused
      (text "z")
      hosted
      (handle_message world (text "z") (Authority.envelope (message (text "run.started"))) hosted)
unfolding Create.host_room text_eq is_message classify_peer_message
handle_message-IsRefused_example =
    handle_message-IsRefused world (text "z") (Authority.envelope (message (text "run.started")))
      hosted refl
