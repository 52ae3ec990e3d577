-- ===== src/Room/Membership/Changes.antt =====
-- The operations that change seats keep the roster valid.
use beatblock_online.Base.{
  ℕ, ◌<◌, Bool, true, false, not, ◌&&◌, ◌≡◌, refl, sym, subst, ◌∙◌, ◌⊎◌, inl, inr, List, map, Text,
  if◌then◌else◌, arith, count_if, retain,
}
use beatblock_online.Model.{ParticipantRole, player, spectator, host}
use beatblock_online.Room.State.{Room}
use beatblock_online.Room.Parts.{
  has_id, update_first, same_side, limit_of, participant_mut, player_of, require_role_capacity,
  normalized_role, refresh_ready_lifecycle,
}
use beatblock_online.Room.Roster
use beatblock_online.Room.Seats.{
  Seat, seat, seats, reseat, IsRoster, same_name, IsRoster-retain, IsRoster-reseat,
  map-seat-update_first, map-seat-retain, count_if-map-seat,
}

-- A seat that takes a role, or leaves the admitted.
abbrev in_role : ParticipantRole → Seat → Seat
in_role role s = record s { role = role }

abbrev judged_as : Bool → ParticipantRole → Seat → Seat
judged_as accept role s = record s { admitted = accept; role = role }

module _ {F : Type 0} (id : Text) where
  -- The capacity test of the engine, over seats.
  abbrev HasRoom : ParticipantRole → Room F → Type 0
  HasRoom role r =
      count_if (λ p. not (has_id id p) && same_side role p) r.participants < limit_of role

  -- A participant who takes a role that has room keeps the roster valid.
  IsRoster-in_role :
      (role : ParticipantRole) (g : Seat → Seat) (r : Room F)
      → ((s : Seat) → (g s).session_id ≡ s.session_id)
      → ((s : Seat) → (g s).display_name ≡ s.display_name)
      → ((s : Seat) → (g s).role ≡ role)
      → HasRoom role r
      → IsRoster (seats r)
      → IsRoster (reseat id g (seats r))
  unfolding same_side
  IsRoster-in_role spectator g r same_id same_name takes room =
      IsRoster-reseat id g (seats r) same_id same_name (inl (λ s h. ground (arith, takes s)))
        (inr (rw (count_if-map-seat _ r.participants) room))
  IsRoster-in_role player g r same_id same_name takes room =
      IsRoster-reseat id g (seats r) same_id same_name
        (inr (rw (count_if-map-seat _ r.participants) room)) (inl (λ s h. ground (arith, takes s)))
  IsRoster-in_role host g r same_id same_name takes room =
      IsRoster-reseat id g (seats r) same_id same_name
        (inr (rw (count_if-map-seat _ r.participants) room)) (inl (λ s h. ground (arith, takes s)))

abbrev host_role : Bool → ParticipantRole
host_role b = if b then host else spectator

-- A room whose seats are those of a roster.
pub IsRoster-of_seats : {ss ts : List Seat} → ts ≡ ss → IsRoster ss → IsRoster ts
IsRoster-of_seats e v = subst IsRoster (sym e) v

module _ {F : Type 0} (now : ℕ) where
  set_role_cases :
      (id : Text) (role : ParticipantRole) (r : Room F)
      → (seats (Roster.set_role now id role r).0 ≡ seats r)
        ⊎ (HasRoom id (normalized_role role) r
            × (seats (Roster.set_role now id role r).0
                ≡ map seat
                    (update_first id (Roster.moved_to (normalized_role role)) r.participants)))
  unfolding Roster.set_role require_role_capacity participant_mut refresh_ready_lifecycle
  set_role_cases id role r = ground arith

  pub set_role-IsRoster :
      (id : Text) (role : ParticipantRole) (r : Room F)
      → IsRoster (seats r)
      → IsRoster (seats (Roster.set_role now id role r).0)
  set_role-IsRoster id role r v = elim (set_role_cases id role r) [
    | inl e ↦ IsRoster-of_seats e v
    | inr (room, e) ↦
        let new = normalized_role role in
        IsRoster-of_seats
          (e
            ∙ map-seat-update_first id (Roster.moved_to new) (in_role new) r.participants
                (λ p. refl))
          (IsRoster-in_role id new (in_role new) r (λ s. refl) (λ s. refl) (λ s. refl) room v)
  ]

  admit_cases :
      (id : Text) (accept : Bool) (role : ParticipantRole) (r : Room F)
      → (seats (Roster.admit now id accept role r).0 ≡ seats r)
        ⊎ ((accept ≡ true → HasRoom id (normalized_role role) r)
            × (seats (Roster.admit now id accept role r).0
                ≡ map seat
                    (update_first id (Roster.judged accept (normalized_role role)) r.participants)))
  unfolding Roster.admit require_role_capacity participant_mut refresh_ready_lifecycle
  admit_cases id accept role r = ground arith

  pub admit-IsRoster :
      (id : Text) (accept : Bool) (role : ParticipantRole) (r : Room F)
      → IsRoster (seats r)
      → IsRoster (seats (Roster.admit now id accept role r).0)
  admit-IsRoster id true role r v = elim (admit_cases id true role r) [
    | inl e ↦ IsRoster-of_seats e v
    | inr (room, e) ↦
        let new = normalized_role role in
        IsRoster-of_seats
          (e ∙ map-seat-update_first id _ (judged_as true new) r.participants (λ p. refl))
          (IsRoster-in_role id new (judged_as true new) r (λ s. refl) (λ s. refl) (λ s. refl)
            (room refl) v)
  ]
  admit-IsRoster id false role r v = elim (admit_cases id false role r) [
    | inl e ↦ IsRoster-of_seats e v
    | inr (_, e) ↦
        let new = normalized_role role in
        IsRoster-of_seats
          (e ∙ map-seat-update_first id _ (judged_as false new) r.participants (λ p. refl))
          (IsRoster-reseat id (judged_as false new) (seats r) (λ s. refl) (λ s. refl)
            (inl (λ s h. cc)) (inl (λ s h. cc)) v)
  ]

  hosting_cases :
      (b : Bool) (r : Room F)
      → (seats (Roster.set_host_participating now b r).0 ≡ seats r)
        ⊎ (HasRoom r.host_session_id (host_role b) r
            × (seats (Roster.set_host_participating now b r).0
                ≡ map seat (
                    update_first r.host_session_id
                      (Roster.hosting (host_role b) b)
                      r.participants)))
  unfolding Roster.set_host_participating require_role_capacity participant_mut
      refresh_ready_lifecycle
  hosting_cases b r = ground arith

  pub set_host_participating-IsRoster :
      (b : Bool) (r : Room F)
      → IsRoster (seats r)
      → IsRoster (seats (Roster.set_host_participating now b r).0)
  set_host_participating-IsRoster b r v = elim (hosting_cases b r) [
    | inl e ↦ IsRoster-of_seats e v
    | inr (room, e) ↦
        let new = host_role b in
        let id = r.host_session_id in
        IsRoster-of_seats
          (e
            ∙ map-seat-update_first id (Roster.hosting new b) (in_role new) r.participants
                (λ p. refl))
          (IsRoster-in_role id new (in_role new) r (λ s. refl) (λ s. refl) (λ s. refl) room v)
  ]

  kick_cases :
      (id : Text) (r : Room F)
      → (seats (Roster.kick now id r).0 ≡ seats r)
        ⊎ (seats (Roster.kick now id r).0
            ≡ map seat (retain (λ p. not (has_id id p)) r.participants))
  unfolding Roster.kick refresh_ready_lifecycle player_of
  kick_cases id r = ground arith

  pub kick-IsRoster :
      (id : Text) (r : Room F) → IsRoster (seats r) → IsRoster (seats (Roster.kick now id r).0)
  kick-IsRoster id r v = elim (kick_cases id r) [
    | inl e ↦ IsRoster-of_seats e v
    | inr e ↦
        IsRoster-of_seats (e ∙ map-seat-retain id r.participants) (IsRoster-retain _ (seats r) v)
  ]
