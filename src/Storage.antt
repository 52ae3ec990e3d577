-- ===== src/Storage.antt =====
-- companion/src/storage.rs: the runtime database and the events that wait for it. A table is the list
-- of its rows in the order of insertion; whether SQLite carries out a transaction is an argument, and
-- one that it refuses leaves the tables as they were. JSON texts are arguments. `usize` has 64 bits.
pub mod Backlog
pub mod Durable
use beatblock_online.Base.{
  ℕ, suc, ◌+◌, ◌-◌, ◌*◌, Bool, true, false, not, ◌&&◌, ◌||◌, Option, none, some, List, [], ◌∷◌,
  ◌++◌, reverse, if◌then◌else◌, ltb, leb, ◌==◌, length, retain, is_empty, any, Text, text_eq,
  utf8_len, saturating_add,
}

pub record PendingEvent : Type 0 where
  pub room_id : Text
  pub run_id : Text
  pub sequence : ℕ
  pub received_at_ms : ℕ
  pub envelope_json : Text

pub record PendingBacklog : Type 0 where
  pub events : List PendingEvent
  pub bytes : ℕ

abbrev pub empty_backlog : PendingBacklog
empty_backlog = record { events = []; bytes = 0 }

abbrev pub max_pending_events : ℕ
max_pending_events = 32768

abbrev pub max_pending_event_bytes : ℕ
max_pending_event_bytes = 16 * 1024 * 1024

-- `room_recovery`, of which there is at most one row
pub record Recovery : Type 0 where
  pub snapshot_json : Text
  pub recover_until_ms : ℕ
  pub updated_at_ms : ℕ

-- `match_history`
pub record Match : Type 0 where
  pub room_id : Text
  pub room_name : Text
  pub lifecycle : Text
  pub snapshot_json : Text
  pub updated_at_ms : ℕ

pub record Storage : Type 0 where
  pub room_recovery : Option Recovery
  pub match_history : List Match
  pub run_events : List PendingEvent
  pub pending : PendingBacklog

-- The conflict clauses: all columns but `room_id` and `room_name` are replaced.
unfoldable pub upsert_match : Match → List Match → List Match
upsert_match m [] = m ∷ []
upsert_match m (h ∷ hs) =
    let rest = upsert_match m hs in
    if text_eq h.room_id m.room_id
    then record h {
      lifecycle = m.lifecycle;
      snapshot_json = m.snapshot_json;
      updated_at_ms = m.updated_at_ms;
    }
      ∷ hs
    else h ∷ rest

-- `Storage::save_room`, with the columns that it takes from the room
unfoldable pub save_room : Bool → Match → ℕ → Storage → Storage × Bool
unfolding upsert_match
save_room committed m recovery_ms s =
    if committed
    then (
      record s {
        room_recovery = some (record {
          snapshot_json = m.snapshot_json;
          recover_until_ms = saturating_add m.updated_at_ms recovery_ms;
          updated_at_ms = m.updated_at_ms;
        });
        match_history = upsert_match m s.match_history;
      },
      true,
    )
    else (s, false)

unfoldable pub recovered : ℕ → Option Recovery → Option Text
recovered now_ms none = none
recovered now_ms (some r) = if leb now_ms r.recover_until_ms then some r.snapshot_json else none

-- `Storage::recover_room`, as the JSON of the room
unfoldable pub recover_room : ℕ → Storage → Option Text
unfolding recovered
recover_room now_ms s = recovered now_ms s.room_recovery

-- The primary key of `run_events`.
unfoldable pub same_key : PendingEvent → PendingEvent → Bool
same_key e f = text_eq e.room_id f.room_id && text_eq e.run_id f.run_id && e.sequence == f.sequence

-- `INSERT OR IGNORE`, for each event of the batch
unfoldable pub insert_events : List PendingEvent → List PendingEvent → List PendingEvent
insert_events [] rows = rows
insert_events (e ∷ es) rows =
    insert_events es (if any (same_key e) rows then rows else rows ++ e ∷ [])

-- The sum of what the statement returns for the events of the batch.
unfoldable pub count_inserted : List PendingEvent → List PendingEvent → ℕ
count_inserted [] rows = 0
count_inserted (e ∷ es) rows =
    (if any (same_key e) rows then 0 else 1)
    + count_inserted es (if any (same_key e) rows then rows else rows ++ e ∷ [])

-- `event_size` is `std::mem::size_of::<PendingEvent>()`.
module _ (event_size : ℕ) where
  unfoldable pub estimated_bytes : PendingEvent → ℕ
  unfolding utf8_len
  estimated_bytes e =
      saturating_add
        (saturating_add (saturating_add (utf8_len e.room_id) (utf8_len e.run_id))
          (utf8_len e.envelope_json))
        event_size

  abbrev pub push_event : PendingEvent → PendingBacklog → PendingBacklog × Bool
  push_event e b =
      if leb max_pending_events (length b.events)
        || ltb max_pending_event_bytes (saturating_add b.bytes (estimated_bytes e))
      then (b, false)
      else (record { events = b.events ++ e ∷ []; bytes = b.bytes + estimated_bytes e }, true)

  unfoldable pub run_or_unassigned : Option Text → Text
  run_or_unassigned none = 117 ∷ 110 ∷ 97 ∷ 115 ∷ 115 ∷ 105 ∷ 103 ∷ 110 ∷ 101 ∷ 100 ∷ []
  run_or_unassigned (some run_id) = run_id

  -- `Storage::queue_event`: the backlog, and whether the event was queued.
  unfoldable pub queue_event :
      ℕ → Text → Option Text → ℕ → Option Text → PendingBacklog → PendingBacklog × Bool
  unfolding estimated_bytes run_or_unassigned
  queue_event now room_id run_id sequence none b = (b, false)
  queue_event now room_id run_id sequence (some json) b =
      push_event
        (record {
          room_id = room_id;
          run_id = run_or_unassigned run_id;
          sequence = sequence;
          received_at_ms = now;
          envelope_json = json;
        })
        b

  -- The `while` loop that drops the newest events, on the events from the newest on.
  unfoldable pub drop_newest : List PendingEvent → ℕ → List PendingEvent × ℕ
  unfolding estimated_bytes
  drop_newest [] bytes = ([], bytes)
  drop_newest (e ∷ es) bytes =
      let rest = drop_newest es (bytes - estimated_bytes e) in
      if ltb max_pending_events (suc (length es)) || ltb max_pending_event_bytes bytes
      then rest
      else (e ∷ es, bytes)

  abbrev pub oldest_first : List PendingEvent × ℕ → PendingBacklog
  oldest_first (es, bytes) = record { events = reverse es; bytes = bytes }

  -- The events that could not be written, ahead of those that were queued meanwhile.
  unfoldable pub requeue : PendingBacklog → PendingBacklog → PendingBacklog
  unfolding drop_newest
  requeue failed meanwhile = oldest_first (
      drop_newest (reverse (failed.events ++ meanwhile.events))
        (saturating_add failed.bytes meanwhile.bytes))

  -- `Storage::flush_pending_events`: the tables, and the number of new rows unless there is an error.
  -- `meanwhile` is what other threads queue during the transaction.
  unfoldable pub flush_pending_events : Bool → PendingBacklog → Storage → Storage × Option ℕ
  unfolding insert_events count_inserted requeue
  flush_pending_events committed meanwhile s =
      if is_empty s.pending.events
      then (record s { pending = empty_backlog }, some 0)
      else if committed
      then (
        record s { run_events = insert_events s.pending.events s.run_events; pending = meanwhile },
        some (count_inserted s.pending.events s.run_events),
      )
      else (record s { pending = requeue s.pending meanwhile }, none)

  abbrev pub any_inserted : Option ℕ → Option Bool
  any_inserted none = none
  any_inserted (some inserted) = some (ltb 0 inserted)

  -- `Storage::append_event`, with nothing queued between its two calls: whether there is a new row,
  -- unless there is an error.
  unfoldable pub append_event :
      Bool
      → PendingBacklog
      → ℕ
      → Text
      → Option Text
      → ℕ
      → Option Text
      → Storage
      → Storage × Option Bool
  unfolding queue_event flush_pending_events
  append_event committed meanwhile now room_id run_id sequence json s =
      let (b, queued) = queue_event now room_id run_id sequence json s.pending in
      if queued
      then (let (flushed, inserted) =
            flush_pending_events committed meanwhile (record s { pending = b }) in
          (flushed, any_inserted inserted))
      else (s, none)

-- The rows of one run from a sequence number on, in the order of the numbers.
unfoldable pub insert_by_sequence : PendingEvent → List PendingEvent → List PendingEvent
insert_by_sequence e [] = e ∷ []
insert_by_sequence e (f ∷ fs) =
    let rest = insert_by_sequence e fs in if ltb f.sequence e.sequence then f ∷ rest else e ∷ f ∷ fs

unfoldable pub order_by_sequence : List PendingEvent → List PendingEvent
unfolding insert_by_sequence
order_by_sequence [] = []
order_by_sequence (e ∷ es) = insert_by_sequence e (order_by_sequence es)

-- `Storage::events`, behind its flush
unfoldable pub select_events : Text → Text → ℕ → Storage → List PendingEvent
unfolding order_by_sequence
select_events room_id run_id from s = order_by_sequence (
    retain (λ e. text_eq e.room_id room_id && text_eq e.run_id run_id && leb from e.sequence)
      s.run_events)

-- `Storage::prune_raw_events`, behind its flush
unfoldable pub prune_raw_events : ℕ → Storage → Storage
prune_raw_events older_than_ms s = record s {
  run_events = retain (λ e. leb older_than_ms e.received_at_ms) s.run_events;
}

-- `Storage::delete_history`, behind its flush
unfoldable pub delete_history : Text → Storage → Storage
delete_history room_id s = record s {
  run_events = retain (λ e. not (text_eq e.room_id room_id)) s.run_events;
  match_history = retain (λ m. not (text_eq m.room_id room_id)) s.match_history;
}
