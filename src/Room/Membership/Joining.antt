-- ===== src/Room/Membership/Joining.antt =====
-- Joining, and the removals after a lost connection, keep the roster valid.
use beatblock_online.Base.{
  ℕ, ◌≤◌, ◌<◌, Bool, true, false, not, ◌≡◌, refl, ◌∙◌, ◌⊎◌, inl, inr, none, List, [], ◌∷◌, ◌++◌,
  map, Text, arith, trim, count_if, any, find, retain, eq_ignore_ascii_case, delete, leb,
}
use beatblock_online.Float.{Float}
use beatblock_online.Model.{
  Participant, ParticipantRole, is_racing, is_spectator, max_players, max_spectators,
}
use beatblock_online.Room.State.{Room}
use beatblock_online.Room.Parts.{has_id, player_of, normalized_role, refresh_ready_lifecycle}
use beatblock_online.Room.Presence
use beatblock_online.Room.Presence.{new_participant, is_password_only}
use beatblock_online.Room.Seats.{
  Seat, seat, seats, IsRoster, same_session, same_name, admitted_racer, admitted_spectator,
  IsRoster-retain, IsRoster-append, map-seat-retain, map-seat-append, count_if-map-seat,
  any-map-seat,
}
use beatblock_online.Room.Membership.Frame.{seats-concluded, seats-update}
use beatblock_online.Room.Membership.Changes.{IsRoster-of_seats}

any_of_find :
    {F : Type 0} (t : Participant F → Bool) (ps : List (Participant F))
    → find t ps ≡ none
    → any t ps ≡ false
any_of_find t [] h = refl
any_of_find t (p ∷ ps) h = ground (arith, any_of_find t ps)

count_if_mono :
    (t u : Seat → Bool) (ss : List Seat)
    → ((s : Seat) → t s ≡ true → u s ≡ true)
    → count_if t ss ≤ count_if u ss
count_if_mono t u [] weaker = omega arith
count_if_mono t u (s ∷ ss) weaker = ground (arith, weaker s, count_if_mono t u ss weaker)

module _ {F : Type 0} ⦃fl : Float F⦄ (now : ℕ) where
  -- What a new session has passed before it is pushed.
  record IsNew (id name : Text) (role : ParticipantRole) (r : Room F) : Type 0 where
    absent : find (has_id id) r.participants ≡ none
    unused : any (λ p. eq_ignore_ascii_case p.display_name name) r.participants ≡ false
    players : is_racing role ≡ true → count_if (λ p. is_racing p.role) r.participants < max_players
    watchers :
        is_spectator role ≡ true
        → count_if (λ p. is_spectator p.role) r.participants < max_spectators

  join_cases :
      (id name : Text) (role : ParticipantRole) (r : Room F)
      → (seats (Presence.request_join_with_id now id name role r).0 ≡ seats r)
        ⊎ (IsNew id (trim name) (normalized_role role) r
            × (seats (Presence.request_join_with_id now id name role r).0
                ≡ map seat (
                    r.participants
                    ++ new_participant id
                        (trim name)
                        (normalized_role role)
                        (is_password_only r.admission_mode)
                      ∷ [])))
  unfolding Presence.request_join_with_id Presence.join_new player_of
  join_cases id name role r =
      ground (arith, seats-update id Presence.resumed r.participants (λ p. refl))

  pub request_join-IsRoster :
      (id name : Text) (role : ParticipantRole) (r : Room F)
      → IsRoster (seats r)
      → IsRoster (seats (Presence.request_join_with_id now id name role r).0)
  request_join-IsRoster id name role r v = elim (join_cases id name role r) [
    | inl e ↦ IsRoster-of_seats e v
    | inr (n, e) ↦
        let s : Seat = seat {F = F} (
          new_participant id (trim name) (normalized_role role)
            (is_password_only r.admission_mode)) in
        IsRoster-of_seats (e ∙ map-seat-append r.participants _) (
          IsRoster-append (seats r) s v
            (any-map-seat (λ t. same_session t s) r.participants
              ∙ any_of_find (has_id id) r.participants n.absent)
            (any-map-seat (λ t. same_name t s) r.participants ∙ n.unused)
            (λ h. omega (
              arith,
              count_if_mono admitted_racer (λ s. is_racing s.role) (seats r) (λ s h. ground arith),
              count_if-map-seat (λ s. is_racing s.role) r.participants,
              n.players (ground arith),
            ))
            (λ h. omega (
              arith,
              count_if_mono admitted_spectator (λ s. is_spectator s.role) (seats r)
                  (λ s h. ground arith),
              count_if-map-seat (λ s. is_spectator s.role) r.participants,
              n.watchers (ground arith),
            )))
  ]

  seat-disconnected_racer : (p : Participant F) → seat (Presence.disconnected_racer p) ≡ seat p
  unfolding Presence.disconnected_racer
  seat-disconnected_racer p = ground arith

  seats-expire_run : (id : Text) (r : Room F) → seats (Presence.expire_run now id r) ≡ seats r
  unfolding Presence.expire_run
  seats-expire_run id r =
      seats-concluded now _
      ∙ seats-update id Presence.disconnected_racer r.participants seat-disconnected_racer

  expire_cases :
      (id : Text) (r : Room F)
      → (seats (Presence.expire_disconnect now id r).0 ≡ seats r)
        ⊎ (seats (Presence.expire_disconnect now id r).0
            ≡ map seat (retain (λ p. not (has_id id p)) r.participants))
  unfolding Presence.expire_disconnect refresh_ready_lifecycle
  expire_cases id r = ground (
    arith,
    seats-expire_run id (record r { disconnect_deadlines = delete id r.disconnect_deadlines }),
  )

  pub expire_disconnect-IsRoster :
      (id : Text) (r : Room F)
      → IsRoster (seats r)
      → IsRoster (seats (Presence.expire_disconnect now id r).0)
  expire_disconnect-IsRoster id r v = elim (expire_cases id r) [
    | inl e ↦ IsRoster-of_seats e v
    | inr e ↦
        IsRoster-of_seats (e ∙ map-seat-retain id r.participants) (IsRoster-retain _ (seats r) v)
  ]

  expire_each-IsRoster :
      (ids : List Text) (r : Room F)
      → IsRoster (seats r)
      → IsRoster (seats (Presence.expire_each now ids r).0)
  unfolding Presence.expire_each
  expire_each-IsRoster [] r v = v
  expire_each-IsRoster (id ∷ ids) r v =
      expire_each-IsRoster ids (Presence.expire_disconnect now id r).0
        (expire_disconnect-IsRoster id r v)

  pub expire_due_disconnects-IsRoster :
      (t : ℕ) (r : Room F)
      → IsRoster (seats r)
      → IsRoster (seats (Presence.expire_due_disconnects now t r).0)
  unfolding Presence.expire_due_disconnects
  expire_due_disconnects-IsRoster t r v =
      expire_each-IsRoster (map (λ d. d.0) (retain (λ d. leb d.1 t) r.disconnect_deadlines)) r v
