-- ===== src/Room/Setlist.antt =====
-- companion/src/room.rs: the chart and the ordered setlist. `now` is what `unix_ms()` returns during
-- the call, `entry_id` the new UUID of a setlist entry.
use beatblock_online.Base.{
  ℕ, ◌+◌, ◌-◌, min, Bool, true, false, not, ◌&&◌, ◌||◌, Option, none, some, List, [], ◌∷◌, ◌++◌,
  Text, map, if◌then◌else◌, leb, ◌==◌, length, all, position, get_elem?, remove_at, insert_at,
  modify_at, text_eq, is_empty, is_ascii_hexdigit,
}
use beatblock_online.Model.{
  RoomLifecycle, forming, chart_locked, results, set_complete, ChartLock, SetlistEntry, in_race,
}
use beatblock_online.Room.State.{
  Room, Exec, ◌>>=◌, ◌>>◌, bail_if, branch, or_bail, gets, modify, set_lifecycle, touch,
  index_out_of_range, active_completed, reorder_locked, not_after_results, setlist_inactive,
  no_next_chart, chart_locked_in_race, bad_chart_hash,
}
use beatblock_online.Room.Parts.{completed_entry, require_setlist_editable, unlocked_participant}

-- `Some(self.snapshot.setlist[i].chart.clone())`, at an index in range
unfoldable pub chart_at : List SetlistEntry → ℕ → Option ChartLock
chart_at es i = elim (get_elem? es i) [ none ↦ none | some e ↦ some e.chart ]

unfoldable pub place_of : Option Text → List SetlistEntry → Option ℕ
place_of none es = none
place_of (some id) es = position (λ e. text_eq e.id id) es

abbrev pub chart_finished : RoomLifecycle → Bool
chart_finished results = true
chart_finished set_complete = true
chart_finished _ = false

abbrev pub is_completed : List SetlistEntry → ℕ → Bool
is_completed es i = elim (get_elem? es i) [ none ↦ false | some e ↦ e.completed ]

unfoldable pub moved : List SetlistEntry → ℕ → ℕ → List SetlistEntry
moved es from to = elim (get_elem? es from) [
  | none ↦ es
  | some e ↦ insert_at (remove_at es from) to e
]

abbrev pub after_results : RoomLifecycle → Bool
after_results results = true
after_results _ = false

module _ {F : Type 0} where
  abbrev pub set_index : Option ℕ → Room F → Room F
  set_index i r = record r { snapshot = record r.snapshot { current_setlist_index = i } }

  abbrev pub set_setlist : List SetlistEntry → Room F → Room F
  set_setlist es r = record r { snapshot = record r.snapshot { setlist = es } }

  abbrev pub set_chart : Option ChartLock → Room F → Room F
  set_chart c r = record r { snapshot = record r.snapshot { chart = c } }

  unfoldable pub reset_for_locked_chart : Room F → Room F
  unfolding unlocked_participant
  reset_for_locked_chart r = record r {
    snapshot = record r.snapshot {
      lifecycle = chart_locked;
      scheduled_start_time_ms = none;
      force_start = false;
      participants = map unlocked_participant r.participants;
    };
  }

  -- The entry `i` becomes the active one.
  unfoldable pub activate : ℕ → Room F → Room F
  unfolding chart_at reset_for_locked_chart
  activate i r = reset_for_locked_chart (set_chart (chart_at r.setlist i) (set_index (some i) r))

  -- The id of the active entry before an edit, and its place after it.
  unfoldable pub active_id : Room F → Option Text
  active_id r = elim r.current_setlist_index [
    | none ↦ none
    | some i ↦ elim (get_elem? r.setlist i) [ none ↦ none | some e ↦ some e.id ]
  ]

  abbrev pub is_active : Room F → ℕ → Bool
  is_active r i = elim r.current_setlist_index [ none ↦ false | some j ↦ j == i ]

  -- The room after the entry `i` has been removed from the list.
  unfoldable pub after_removal : ℕ → Room F → Room F
  unfolding activate active_id place_of
  after_removal i r =
      let left = remove_at r.setlist i in
      let edited = set_setlist left r in
      if is_empty left
      then set_lifecycle forming (set_chart none (set_index none edited))
      else if is_active r i
      then activate (min i (length left - 1)) edited
      else set_index (place_of (active_id r) left) edited

  unfoldable pub remove_setlist : ℕ → ℕ → Exec F Unit
  unfolding after_removal
  remove_setlist now index = do
    require_setlist_editable
    r ← gets (λ r. r)
    bail_if (leb (length r.setlist) index) index_out_of_range
    bail_if (is_active r index && chart_finished r.lifecycle) active_completed
    modify (after_removal index)
    modify (touch now)

  abbrev pub crosses_active : Room F → ℕ → ℕ → Bool
  crosses_active r from to = elim r.current_setlist_index [
    | none ↦ false
    | some active ↦ leb from active || leb to active
  ]

  unfoldable pub move_setlist : ℕ → ℕ → ℕ → Exec F Unit
  unfolding moved active_id place_of
  move_setlist now from to = do
    require_setlist_editable
    r ← gets (λ r. r)
    bail_if (leb (length r.setlist) from || leb (length r.setlist) to) index_out_of_range
    bail_if ((is_completed r.setlist from || is_completed r.setlist to) || crosses_active r from to)
        reorder_locked
    let entries = moved r.setlist from to
    modify (set_setlist entries)
    modify (set_index (place_of (active_id r) entries))
    modify (touch now)

  -- The entry is marked before the bound is tested, so the mark stays when the test fails.
  unfoldable pub advance_setlist : ℕ → Exec F Unit
  unfolding activate
  advance_setlist now = do
    lifecycle ← gets (λ r. r.lifecycle)
    bail_if (not (after_results lifecycle)) not_after_results
    active ← gets (λ r. r.current_setlist_index)
    index ← or_bail active setlist_inactive
    modify (λ r. set_setlist (modify_at completed_entry index r.setlist) r)
    entries ← gets (λ r. r.setlist)
    bail_if (leb (length entries) (index + 1)) no_next_chart
    modify (activate (index + 1))
    modify (touch now)

  -- The branches of `lock_chart` on `append_to_setlist`.
  unfoldable pub append_chart : Text → ChartLock → Room F → Room F
  unfolding activate
  append_chart entry_id chart r =
      let entry : SetlistEntry = record { id = entry_id; chart = chart; completed = false } in
      let longer = set_setlist (r.setlist ++ entry ∷ []) r in
      elim r.current_setlist_index [
        | none ↦ activate 0 longer
        | some i ↦ elim r.lifecycle [ set_complete ↦ set_lifecycle results longer | _ ↦ longer ]
      ]

  unfoldable pub select_chart : ChartLock → Room F → Room F
  unfolding reset_for_locked_chart
  select_chart chart r =
      reset_for_locked_chart (set_chart (some chart) (set_index none (set_setlist [] r)))

  unfoldable pub lock_chart : ℕ → Text → ChartLock → Bool → Exec F Unit
  unfolding append_chart select_chart
  lock_chart now entry_id chart append_to_setlist = do
    lifecycle ← gets (λ r. r.lifecycle)
    bail_if (in_race lifecycle) chart_locked_in_race
    bail_if (not (length chart.hash == 64) || not (all is_ascii_hexdigit chart.hash)) bad_chart_hash
    branch append_to_setlist (modify (append_chart entry_id chart)) (modify (select_chart chart))
    modify (touch now)
