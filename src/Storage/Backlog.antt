-- ===== src/Storage/Backlog.antt =====
-- The bounds of the backlog, and the order in which events wait.
use mathlib.Core.List.{reverse-append, reverse-reverse, reverse-cons}
use beatblock_online.Base.{
  ℕ, suc, ◌+◌, ◌-◌, ◌≤◌, ◌<◌, ◌≡◌, refl, ◌∙◌, sym, ap, ◌⊎◌, inl, inr, Bool, true, ◌||◌, Bool-cases,
  Option, none, some, List, [], ◌∷◌, ◌++◌, reverse, ltb, is_empty, is_some, length, length-append,
  Text, saturating_add, arith,
}
use beatblock_online.Storage.{
  PendingEvent, PendingBacklog, Storage, estimated_bytes, queue_event, drop_newest, requeue,
  flush_pending_events, max_pending_events, max_pending_event_bytes, push_event,
}

-- A list that is the beginning of another.
abbrev pub IsPrefix : List PendingEvent → List PendingEvent → Type 0
IsPrefix es fs = (rest : List PendingEvent) × (fs ≡ es ++ rest)

-- All events wait again, unless they pass a limit together.
abbrev pub Requeued : PendingBacklog → PendingBacklog → PendingBacklog → Type 0
Requeued failed meanwhile after =
    (max_pending_events < length failed.events + length meanwhile.events)
    ⊎ (max_pending_event_bytes < failed.bytes + meanwhile.bytes)
    ⊎ (after.events ≡ failed.events ++ meanwhile.events)

module _ (event_size : ℕ) where
  unfoldable pub total : List PendingEvent → ℕ
  total [] = 0
  total (e ∷ es) = estimated_bytes event_size e + total es

  -- The bytes are counted right, and neither limit is passed.
  pub record IsBacklog (b : PendingBacklog) : Type 0 where
    pub counted : b.bytes ≡ total b.events
    pub events : length b.events ≤ max_pending_events
    pub bytes : b.bytes ≤ max_pending_event_bytes

  total-append : (es fs : List PendingEvent) → total (es ++ fs) ≡ total es + total fs
  unfolding total
  total-append [] fs = omega arith
  total-append (e ∷ es) fs = omega (arith, total-append es fs)

  total-reverse : (es : List PendingEvent) → total (reverse es) ≡ total es
  unfolding total
  total-reverse [] = refl
  total-reverse (e ∷ es) =
      ap total (reverse-cons e es)
      ∙ omega (arith, total-append (reverse es) (e ∷ []), total-reverse es)

  length-reverse : (es : List PendingEvent) → length (reverse es) ≡ length es
  length-reverse [] = refl
  length-reverse (e ∷ es) =
      ap length (reverse-cons e es)
      ∙ omega (arith, length-append (reverse es) (e ∷ []), length-reverse es)

  push_event-IsBacklog :
      (e : PendingEvent) (b : PendingBacklog)
      → IsBacklog b
      → IsBacklog (push_event event_size e b).0
  unfolding total
  push_event-IsBacklog e b v =
      ground (arith, total-append b.events (e ∷ []), length-append b.events (e ∷ []))

  queue_event-IsBacklog :
      (now : ℕ) (room_id : Text) (run_id : Option Text) (sequence : ℕ) (json : Option Text)
      (b : PendingBacklog)
      → IsBacklog b
      → IsBacklog (queue_event event_size now room_id run_id sequence json b).0
  unfolding queue_event
  queue_event-IsBacklog now room_id run_id sequence none b v = v
  queue_event-IsBacklog now room_id run_id sequence (some json) b v = push_event-IsBacklog _ b v

  -- What the loop leaves of the events from the newest on.
  record Trimmed (es : List PendingEvent) (kept : List PendingEvent × ℕ) : Type 0 where
    dropped : List PendingEvent
    split : es ≡ dropped ++ kept.0
    counted : kept.1 ≡ total kept.0
    events : length kept.0 ≤ max_pending_events
    bytes : kept.1 ≤ max_pending_event_bytes

  drop_newest-Trimmed :
      (es : List PendingEvent) (bytes : ℕ)
      → bytes ≡ total es
      → Trimmed es (drop_newest event_size es bytes)
  unfolding drop_newest total
  drop_newest-Trimmed [] bytes h = record {
    dropped = [];
    split = refl;
    counted = h;
    events = omega arith;
    bytes = omega (arith, h);
  }
  drop_newest-Trimmed (e ∷ es) bytes h =
      elim (Bool-cases
        (ltb max_pending_events (suc (length es)) || ltb max_pending_event_bytes bytes)) [
          | inl over ↦
              let rest =
                drop_newest-Trimmed es (bytes - estimated_bytes event_size e) (omega (arith, h)) in
              rw over (record {
                dropped = e ∷ rest.dropped;
                split = ap (λ l. e ∷ l) rest.split;
                counted = rest.counted;
                events = rest.events;
                bytes = rest.bytes;
              })
          | inr under ↦ rw under (record {
            dropped = [];
            split = refl;
            counted = h;
            events = ground arith;
            bytes = ground arith;
          })
        ]

  drop_newest_none :
      (es : List PendingEvent) (bytes : ℕ)
      → length es ≤ max_pending_events
      → bytes ≤ max_pending_event_bytes
      → (drop_newest event_size es bytes).0 ≡ es
  unfolding drop_newest
  drop_newest_none [] bytes h k = refl
  drop_newest_none (e ∷ es) bytes h k = ground arith

  requeue-IsBacklog :
      (failed meanwhile : PendingBacklog)
      → IsBacklog failed
      → IsBacklog meanwhile
      → IsBacklog (requeue event_size failed meanwhile)
        × IsPrefix (requeue event_size failed meanwhile).events (failed.events ++ meanwhile.events)
  unfolding requeue
  requeue-IsBacklog failed meanwhile v w =
      let all = failed.events ++ meanwhile.events in
      let counted : saturating_add failed.bytes meanwhile.bytes ≡ total (reverse all) = omega (
        arith,
        v.counted,
        w.counted,
        v.bytes,
        w.bytes,
        total-reverse all,
        total-append failed.events meanwhile.events,
      ) in
      let t =
        drop_newest-Trimmed (reverse all) (saturating_add failed.bytes meanwhile.bytes) counted in
      let joined = sym (reverse-reverse all) ∙ ap reverse t.split in
      (
        record {
          counted =
              t.counted
              ∙ sym (
                  total-reverse
                    (drop_newest event_size (reverse all)
                      (saturating_add failed.bytes meanwhile.bytes)).0);
          events = omega (
            arith,
            length-reverse
                (drop_newest event_size (reverse all)
                  (saturating_add failed.bytes meanwhile.bytes)).0,
            t.events,
          );
          bytes = t.bytes;
        },
        (
          reverse t.dropped,
          joined
              ∙ reverse-append t.dropped
                  (drop_newest event_size (reverse all)
                    (saturating_add failed.bytes meanwhile.bytes)).0,
        ),
      )

  requeue_all :
      (failed meanwhile : PendingBacklog)
      → length failed.events + length meanwhile.events ≤ max_pending_events
      → failed.bytes + meanwhile.bytes ≤ max_pending_event_bytes
      → (requeue event_size failed meanwhile).events ≡ failed.events ++ meanwhile.events
  unfolding requeue
  requeue_all failed meanwhile h k =
      let all = failed.events ++ meanwhile.events in
      let fits : length (reverse all) ≤ max_pending_events =
        omega (arith, h, length-reverse all, length-append failed.events meanwhile.events) in
      ap reverse (
        drop_newest_none (reverse all) (saturating_add failed.bytes meanwhile.bytes) fits
          (omega (arith, k)))
      ∙ reverse-reverse all

  requeued :
      (failed meanwhile : PendingBacklog)
      → Requeued failed meanwhile (requeue event_size failed meanwhile)
  requeued failed meanwhile = ground (arith, requeue_all failed meanwhile)

  -- A flush keeps a backlog within its limits, counted right, if what is queued meanwhile is so. If it
  -- fails, the tables are as they were, and what waits is the beginning of the old events with the
  -- new ones behind them, and all of these if they fit.
  pub flush_pending_events-IsBacklog :
      (committed : Bool) (meanwhile : PendingBacklog) (s : Storage)
      → IsBacklog s.pending
      → IsBacklog meanwhile
      → let after = flush_pending_events event_size committed meanwhile s in
        IsBacklog after.0.pending
        × ((is_some after.1 ≡ true)
            ⊎ (after.0.run_events ≡ s.run_events)
              × IsPrefix after.0.pending.events (s.pending.events ++ meanwhile.events)
              × Requeued s.pending meanwhile after.0.pending)
  unfolding flush_pending_events total
  flush_pending_events-IsBacklog committed meanwhile s v w =
      elim (Bool-cases (is_empty s.pending.events)) [
        | inl none_waits ↦
            rw none_waits
              (record { counted = refl; events = omega arith; bytes = omega arith }, inl refl)
        | inr waiting ↦ elim (Bool-cases committed) [
          | inl written ↦ rw (waiting, written) (w, inl refl)
          | inr failed ↦
              let (bounded, order) = requeue-IsBacklog s.pending meanwhile v w in
              rw (waiting, failed) (bounded, inr (refl, order, requeued s.pending meanwhile))
        ]
      ]
