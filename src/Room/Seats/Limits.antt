-- ===== src/Room/Seats/Limits.antt =====
-- When a list of seats is a roster of the room, and how the changes of the roster keep it one.
use beatblock_online.Base.{
  suc, ◌≤◌, ◌<◌, Bool, true, false, not, ◌&&◌, ◌≡◌, refl, ap, ◌⊎◌, inl, inr, List, [], ◌∷◌, ◌++◌,
  Text, text_eq, text_eq_iff, eq_ignore_ascii_case, arith, retain, count_if, count_if-append,
  count_if-retain-le, any, Distinct, Distinct-retain, Distinct-append_last,
}
use beatblock_online.Model.{is_racing, is_spectator, max_players, max_spectators}
use beatblock_online.Room.Seats.Views.{Seat, seat_has_id, reseat}

abbrev pub same_session : Seat → Seat → Bool
same_session s t = text_eq s.session_id t.session_id

abbrev pub same_name : Seat → Seat → Bool
same_name s t = eq_ignore_ascii_case s.display_name t.display_name

abbrev pub admitted_racer : Seat → Bool
admitted_racer s = s.admitted && is_racing s.role

abbrev pub admitted_spectator : Seat → Bool
admitted_spectator s = s.admitted && is_spectator s.role

-- Sessions and, without regard to case, names are distinct, and the room is within its limits.
pub record IsRoster (ss : List Seat) : Type 0 where
  pub sessions : Distinct same_session ss
  pub names : Distinct same_name ss
  pub racers : count_if admitted_racer ss ≤ max_players
  pub spectators : count_if admitted_spectator ss ≤ max_spectators

pub IsRoster-retain : (q : Seat → Bool) (ss : List Seat) → IsRoster ss → IsRoster (retain q ss)
IsRoster-retain q ss v = record {
  sessions = Distinct-retain same_session q ss v.sessions;
  names = Distinct-retain same_name q ss v.names;
  racers = omega (arith, count_if-retain-le admitted_racer q ss);
  spectators = omega (arith, count_if-retain-le admitted_spectator q ss);
}

pub IsRoster-append :
    (ss : List Seat) (s : Seat)
    → IsRoster ss
    → any (λ t. same_session t s) ss ≡ false
    → any (λ t. same_name t s) ss ≡ false
    → (admitted_racer s ≡ true → count_if admitted_racer ss < max_players)
    → (admitted_spectator s ≡ true → count_if admitted_spectator ss < max_spectators)
    → IsRoster (ss ++ s ∷ [])
IsRoster-append ss s v new_session new_name racer_room spectator_room = record {
  sessions = Distinct-append_last same_session ss s v.sessions new_session;
  names = Distinct-append_last same_name ss s v.names new_name;
  racers = ground (arith, count_if-append admitted_racer ss (s ∷ []));
  spectators = ground (arith, count_if-append admitted_spectator ss (s ∷ []));
}

module _ (id : Text) (g : Seat → Seat) where
  any-reseat :
      (t : Seat → Bool) (ss : List Seat)
      → ((s : Seat) → t (g s) ≡ t s)
      → any t (reseat id g ss) ≡ any t ss
  any-reseat t [] same = refl
  any-reseat t (s ∷ ss) same = ground (arith, same s, any-reseat t ss same)

  Distinct-reseat :
      (same : Seat → Seat → Bool) (ss : List Seat)
      → ((s t : Seat) → same s (g t) ≡ same s t)
      → ((s t : Seat) → same (g s) t ≡ same s t)
      → Distinct same ss
      → Distinct same (reseat id g ss)
  Distinct-reseat same [] right left d = tt
  Distinct-reseat same (s ∷ ss) right left d =
      ground (
        arith,
        any-reseat (same s) ss (right s),
        any_left ss,
        Distinct-reseat same ss right left d.1,
      )
    where
      any_left : (us : List Seat) → any (same (g s)) us ≡ any (same s) us
      any_left [] = refl
      any_left (u ∷ us) = ground (arith, left s u, any_left us)

  -- A test that the change does not turn on counts no more seats.
  pub count_if-reseat-le :
      (t : Seat → Bool) (ss : List Seat)
      → ((s : Seat) → t (g s) ≡ true → t s ≡ true)
      → count_if t (reseat id g ss) ≤ count_if t ss
  count_if-reseat-le t [] weaker = omega arith
  count_if-reseat-le t (s ∷ ss) weaker = ground (arith, weaker s, count_if-reseat-le t ss weaker)

  -- A seat that changes is counted once beside the others.
  pub count_if-reseat-others :
      (t u : Seat → Bool) (ss : List Seat)
      → Distinct same_session ss
      → ((s : Seat) → t s ≡ true → u s ≡ true)
      → count_if t (reseat id g ss) ≤ suc (count_if (λ s. not (seat_has_id id s) && u s) ss)
  count_if-reseat-others t u [] d weaker = omega arith
  count_if-reseat-others t u (s ∷ ss) d weaker = ground (
    arith,
    weaker s,
    others ss,
    text_eq_iff s.session_id id,
    count_if-reseat-others t u ss d.1 weaker,
  )
    where
      others :
          (us : List Seat)
          → s.session_id ≡ id
          → any (same_session s) us ≡ false
          → count_if t us ≤ count_if (λ s. not (seat_has_id id s) && u s) us
      others [] e h = omega arith
      others (x ∷ us) e h = ground (
        arith,
        weaker x,
        others us e,
        text_eq_iff s.session_id x.session_id,
        text_eq_iff x.session_id id,
      )

  -- A change that keeps session and name keeps the roster valid, if for each limit it turns the
  -- test on for no seat, or the other seats leave room.
  pub IsRoster-reseat :
      (ss : List Seat)
      → ((s : Seat) → (g s).session_id ≡ s.session_id)
      → ((s : Seat) → (g s).display_name ≡ s.display_name)
      → ((s : Seat) → admitted_racer (g s) ≡ true → admitted_racer s ≡ true)
        ⊎ (count_if (λ s. not (seat_has_id id s) && is_racing s.role) ss < max_players)
      → ((s : Seat) → admitted_spectator (g s) ≡ true → admitted_spectator s ≡ true)
        ⊎ (count_if (λ s. not (seat_has_id id s) && is_spectator s.role) ss < max_spectators)
      → IsRoster ss
      → IsRoster (reseat id g ss)
  IsRoster-reseat ss same_id same_text racer_room spectator_room v = record {
    sessions =
        Distinct-reseat same_session ss (λ s t. ap (text_eq s.session_id) (same_id t))
          (λ s t. ap (λ i. text_eq i t.session_id) (same_id s)) v.sessions;
    names =
        Distinct-reseat same_name ss (λ s t. ap (eq_ignore_ascii_case s.display_name) (same_text t))
          (λ s t. ap (λ n. eq_ignore_ascii_case n t.display_name) (same_text s)) v.names;
    racers = elim racer_room [
      | inl weaker ↦ omega (arith, count_if-reseat-le admitted_racer ss weaker, v.racers)
      | inr room ↦ omega (
        arith,
        count_if-reseat-others admitted_racer (λ s. is_racing s.role) ss v.sessions
            (λ s h. ground arith),
      )
    ];
    spectators = elim spectator_room [
      | inl weaker ↦ omega (arith, count_if-reseat-le admitted_spectator ss weaker, v.spectators)
      | inr room ↦ omega (
        arith,
        count_if-reseat-others admitted_spectator (λ s. is_spectator s.role) ss v.sessions
            (λ s h. ground arith),
      )
    ];
  }
