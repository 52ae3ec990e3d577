-- ===== src/Storage/Durable.antt =====
-- What the tables hold.
use mathlib.Core.List.{append_assoc, append-nil}
use beatblock_online.Base.{
  ℕ, ◌≤◌, ◌<◌, ◌+◌, ◌-◌, ◌^◌, min, ◌⊎◌, ◌&&◌, false, text_eq, ◌≡◌, refl, ◌∙◌, sym, ap, ◌≢◌, inl,
  inr, Bool, true, Option, none, length, ◌||◌, Bool-cases, some, List, [], ◌∷◌, ◌++◌, any, All,
  Distinct, Distinct-append_last, is_empty, if◌then◌else◌, text_eq_iff, arith,
}
use beatblock_online.Storage.{
  PendingEvent, PendingBacklog, Storage, Match, same_key, insert_events, count_inserted,
  flush_pending_events, upsert_match, save_room, recover_room,
}

same_key_refl : (e : PendingEvent) → same_key e e ≡ true
unfolding same_key
same_key_refl e = ground (arith, text_eq_iff e.room_id e.room_id, text_eq_iff e.run_id e.run_id)

same_key_sym : (e f : PendingEvent) → same_key e f ≡ same_key f e
unfolding same_key
same_key_sym e f = ground (
  arith,
  text_eq_iff e.room_id f.room_id,
  text_eq_iff f.room_id e.room_id,
  text_eq_iff e.run_id f.run_id,
  text_eq_iff f.run_id e.run_id,
)

any-append :
    (t : PendingEvent → Bool) (es fs : List PendingEvent)
    → any t (es ++ fs) ≡ (any t es || any t fs)
any-append t [] fs = refl
any-append t (e ∷ es) fs = ground (arith, any-append t es fs)

any-same_key_comm :
    (e : PendingEvent) (es : List PendingEvent) → any (same_key e) es ≡ any (λ f. same_key f e) es
any-same_key_comm e [] = refl
any-same_key_comm e (f ∷ es) = ground (arith, same_key_sym e f, any-same_key_comm e es)

-- Rows are never lost.
insert_events-any :
    (t : PendingEvent → Bool) (es rows : List PendingEvent)
    → any t rows ≡ true
    → any t (insert_events es rows) ≡ true
unfolding insert_events
insert_events-any t [] rows h = h
insert_events-any t (e ∷ es) rows h = elim (Bool-cases (any (same_key e) rows)) [
  | inl old ↦ rw old (insert_events-any t es rows h)
  | inr new ↦
      rw new (insert_events-any t es (rows ++ e ∷ []) (ground (arith, any-append t rows (e ∷ []))))
]

insert_events-All :
    (es rows : List PendingEvent) → All (λ e. any (same_key e) (insert_events es rows) ≡ true) es
unfolding insert_events
insert_events-All [] rows = tt
insert_events-All (e ∷ es) rows =
    let next = if any (same_key e) rows then rows else rows ++ e ∷ [] in
    let put : any (same_key e) next ≡ true =
      ground (arith, any-append (same_key e) rows (e ∷ []), same_key_refl e) in
    (insert_events-any (same_key e) es next put, insert_events-All es next)

insert_events-Distinct :
    (es rows : List PendingEvent)
    → Distinct same_key rows
    → Distinct same_key (insert_events es rows)
unfolding insert_events
insert_events-Distinct [] rows d = d
insert_events-Distinct (e ∷ es) rows d = elim (Bool-cases (any (same_key e) rows)) [
  | inl old ↦ rw old (insert_events-Distinct es rows d)
  | inr new ↦ rw new (
      insert_events-Distinct es (rows ++ e ∷ [])
        (Distinct-append_last same_key rows e d (sym (any-same_key_comm e rows) ∙ new)))
]

-- Some of the events, in their order.
pub data IsPicked : List PendingEvent → List PendingEvent → Type 0 where
  nothing : IsPicked [] []
  skip : {xs es : List PendingEvent} → (e : PendingEvent) → IsPicked xs es → IsPicked xs (e ∷ es)
  keep :
      {xs es : List PendingEvent} → (e : PendingEvent) → IsPicked xs es → IsPicked (e ∷ xs) (e ∷ es)

insert_events_prefix :
    (es rows : List PendingEvent)
    → (new : List PendingEvent) × (insert_events es rows ≡ rows ++ new)
      × (count_inserted es rows ≡ length new)
      × IsPicked new es
unfolding insert_events count_inserted
insert_events_prefix [] rows = ([], sym (append-nil rows), refl, nothing)
insert_events_prefix (e ∷ es) rows = elim (Bool-cases (any (same_key e) rows)) [
  | inl old ↦
      let (rest, same, counted, picked) = insert_events_prefix es rows in
      rw old (rest, same, omega (arith, counted), skip e picked)
  | inr new ↦
      let (rest, same, counted, picked) = insert_events_prefix es (rows ++ e ∷ []) in
      rw new
        (e ∷ rest, same ∙ append_assoc rows (e ∷ []) rest, omega (arith, counted), keep e picked)
]

pub record IsFlushed (before after : Storage) (inserted : Option ℕ) : Type 0 where
  pub kept :
      (new : List PendingEvent) × (after.run_events ≡ before.run_events ++ new)
      × (inserted ≡ some (length new))
      × IsPicked new before.pending.events
  pub written : All (λ e. any (same_key e) after.run_events ≡ true) before.pending.events
  pub keys : Distinct same_key after.run_events

-- In a table with no two rows of one key, a flush that succeeds leaves every row where it was and returns the number
-- of new rows. The new rows are waiting events as they are, in their order; every event that waited has a
-- row with its key; and no two rows have one key.
pub flush_pending_events-IsFlushed :
    (event_size : ℕ) (committed : Bool) (meanwhile : PendingBacklog) (s : Storage)
    → Distinct same_key s.run_events
    → (flush_pending_events event_size committed meanwhile s).1 ≢ none
    → let after = flush_pending_events event_size committed meanwhile s in
      IsFlushed s after.0 after.1
unfolding flush_pending_events
flush_pending_events-IsFlushed event_size committed meanwhile s d h =
    elim (Bool-cases (is_empty s.pending.events)) [
      | inl none_waits ↦ rw none_waits (record {
        kept = ([], sym (append-nil s.run_events), refl, none_picked s.pending.events none_waits);
        written = All_of_empty s.pending.events none_waits;
        keys = d;
      })
      | inr waiting ↦ elim (Bool-cases committed) [
        | inl done ↦
            rw (waiting, done)
              (record {
                kept = inserted_rows s.pending.events s.run_events;
                written = insert_events-All s.pending.events s.run_events;
                keys = insert_events-Distinct s.pending.events s.run_events d;
              })
        | inr failed ↦ absurd (ground arith)
      ]
    ]
  where
    inserted_rows :
        (es rows : List PendingEvent)
        → (new : List PendingEvent) × (insert_events es rows ≡ rows ++ new)
          × (some (count_inserted es rows) ≡ some (length new))
          × IsPicked new es
    inserted_rows es rows =
        let (new, same, counted, picked) = insert_events_prefix es rows in
        (new, same, ap some counted, picked)

    none_picked : (es : List PendingEvent) → is_empty es ≡ true → IsPicked [] es
    none_picked [] e = nothing
    none_picked (x ∷ es) e = absurd (ground arith)

    All_of_empty :
        (es : List PendingEvent)
        → is_empty es ≡ true
        → All (λ e. any (same_key e) s.run_events ≡ true) es
    All_of_empty [] e = tt
    All_of_empty (x ∷ es) e = absurd (ground arith)

upsert_match-any :
    (m : Match) (hs : List Match)
    → any
        (λ h. text_eq h.room_id m.room_id && text_eq h.snapshot_json m.snapshot_json)
        (upsert_match m hs)
      ≡ true
unfolding upsert_match
upsert_match-any m [] =
    ground (arith, text_eq_iff m.room_id m.room_id, text_eq_iff m.snapshot_json m.snapshot_json)
upsert_match-any m (h ∷ hs) =
    ground (arith, text_eq_iff m.snapshot_json m.snapshot_json, upsert_match-any m hs)

-- What a save that is carried out, or is refused, leaves for a later recovery.
pub record IsSaved (committed : Bool) (m : Match) (until now_ms : ℕ) (before after : Storage)
    : Type 0 where
  pub recovered :
      (committed ≡ true) × (now_ms ≤ until) × (recover_room now_ms after ≡ some m.snapshot_json)
      ⊎ (committed ≡ true) × (until < now_ms) × (recover_room now_ms after ≡ none)
      ⊎ (committed ≡ false) × (after ≡ before)
  pub history :
      (committed ≡ false)
      ⊎ (any
            (λ h. text_eq h.room_id m.room_id && text_eq h.snapshot_json m.snapshot_json)
            after.match_history
          ≡ true)
  pub events : (after.run_events ≡ before.run_events) × (after.pending ≡ before.pending)

-- A room that was saved is recovered up to the end of the time that was granted, which saturates at 64
-- bits, and not after it, and stands in the history with its state; a save that is refused changes nothing;
-- and no save touches the events.
pub save_room-IsSaved :
    (committed : Bool) (m : Match) (recovery_ms now_ms : ℕ) (s : Storage)
    → IsSaved committed m
        (min (m.updated_at_ms + recovery_ms) (2 ^ 64 - 1))
        now_ms
        s
        (save_room committed m recovery_ms s).0
unfolding save_room recover_room
save_room-IsSaved true m recovery_ms now_ms s = record {
  recovered = ground arith;
  history = inr (upsert_match-any m s.match_history);
  events = (refl, refl);
}
save_room-IsSaved false m recovery_ms now_ms s = record {
  recovered = inr (inr (refl, refl));
  history = inl refl;
  events = (refl, refl);
}
