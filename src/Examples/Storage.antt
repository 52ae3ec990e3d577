-- ===== src/Examples/Storage.antt =====
-- The backlog and the tables, at concrete inputs.
use beatblock_online.Base.{
  ℕ, ◌+◌, ◌≡◌, ◌⊎◌, refl, true, false, none, is_some, ◌≢◌, [], ◌∷◌, text, arith,
}
use beatblock_online.Storage.{
  PendingEvent, PendingBacklog, Storage, Match, estimated_bytes, flush_pending_events, save_room,
}
use beatblock_online.Storage.Backlog.{
  IsBacklog, IsPrefix, Requeued, flush_pending_events-IsBacklog, total,
}
use beatblock_online.Storage.Durable.{
  IsFlushed, flush_pending_events-IsFlushed, IsSaved, save_room-IsSaved,
}

abbrev event : ℕ → PendingEvent
event n = record {
  room_id = text "room";
  run_id = text "run";
  sequence = n;
  received_at_ms = 1000 + n;
  envelope_json = text "{}";
}

-- Two events of nine bytes of text, and an event size of 104.
abbrev backlog : PendingBacklog
backlog = record { events = event 1 ∷ event 2 ∷ []; bytes = 226 }

abbrev meanwhile : PendingBacklog
meanwhile = record { events = event 3 ∷ []; bytes = 113 }

abbrev stored : Storage
stored = record {
  room_recovery = none;
  match_history = [];
  run_events = event 1 ∷ [];
  pending = backlog;
}

backlog-IsBacklog : IsBacklog 104 backlog
unfolding estimated_bytes total
backlog-IsBacklog = record { counted = refl; events = omega arith; bytes = omega arith }

meanwhile-IsBacklog : IsBacklog 104 meanwhile
unfolding estimated_bytes total
meanwhile-IsBacklog = record { counted = refl; events = omega arith; bytes = omega arith }

flush_pending_events-IsBacklog_example :
    let after = flush_pending_events 104 false meanwhile stored in
    IsBacklog 104 after.0.pending
    × ((is_some after.1 ≡ true)
        ⊎ (after.0.run_events ≡ event 1 ∷ [])
          × IsPrefix after.0.pending.events (event 1 ∷ event 2 ∷ event 3 ∷ [])
          × Requeued backlog meanwhile after.0.pending)
flush_pending_events-IsBacklog_example =
    flush_pending_events-IsBacklog 104 false meanwhile stored backlog-IsBacklog meanwhile-IsBacklog

flushes : (flush_pending_events 104 true meanwhile stored).1 ≢ none
unfolding flush_pending_events
flushes = ground arith

flush_pending_events-IsFlushed_example :
    let after = flush_pending_events 104 true meanwhile stored in IsFlushed stored after.0 after.1
flush_pending_events-IsFlushed_example =
    flush_pending_events-IsFlushed 104 true meanwhile stored (refl, tt) flushes

abbrev one_match : Match
one_match = record {
  room_id = text "room";
  room_name = text "Friday";
  lifecycle = text "playing";
  snapshot_json = text "{}";
  updated_at_ms = 1000;
}

save_room-IsSaved_example :
    IsSaved true one_match 1600 1500 stored (save_room true one_match 600 stored).0
save_room-IsSaved_example = save_room-IsSaved true one_match 600 1500 stored
