-- ===== src/Room/Seats/Views.antt =====
-- The seat of a participant, and the loops of the engine that leave the seats alone.
use beatblock_online.Base.{
  ℕ, zero, suc, Bool, not, ◌≡◌, refl, ap, List, [], ◌∷◌, ◌++◌, map, Text, if◌then◌else◌, text_eq,
  arith, retain, modify_at, count_if, any,
}
use beatblock_online.Model.{Participant, ParticipantRole}
use beatblock_online.Room.State.{Room}
use beatblock_online.Room.Parts.{has_id, update_first}

pub record Seat : Type 0 where
  pub session_id : Text
  pub display_name : Text
  pub role : ParticipantRole
  pub admitted : Bool

abbrev pub seat_has_id : Text → Seat → Bool
seat_has_id id s = text_eq s.session_id id

-- The first seat with the session id is replaced.
abbrev pub reseat : Text → (Seat → Seat) → List Seat → List Seat
reseat id g [] = []
reseat id g (s ∷ ss) = if seat_has_id id s then g s ∷ ss else s ∷ reseat id g ss

module _ {F : Type 0} where
  abbrev pub seat : Participant F → Seat
  seat p = record {
    session_id = p.session_id;
    display_name = p.display_name;
    role = p.role;
    admitted = p.admitted;
  }

  abbrev pub seats : Room F → List Seat
  seats r = map seat r.participants

  pub map-seat-update_first :
      (id : Text) (f : Participant F → Participant F) (g : Seat → Seat) (ps : List (Participant F))
      → ((p : Participant F) → seat (f p) ≡ g (seat p))
      → map seat (update_first id f ps) ≡ reseat id g (map seat ps)
  unfolding update_first
  map-seat-update_first id f g [] same = refl
  map-seat-update_first id f g (p ∷ ps) same =
      ground (arith, same p, map-seat-update_first id f g ps same)

  pub map-seat-retain :
      (id : Text) (ps : List (Participant F))
      → map seat (retain (λ p. not (has_id id p)) ps)
        ≡ retain (λ s. not (seat_has_id id s)) (map seat ps)
  map-seat-retain id [] = refl
  map-seat-retain id (p ∷ ps) = ground (arith, map-seat-retain id ps)

  pub map-seat-append :
      (ps : List (Participant F)) (p : Participant F)
      → map seat (ps ++ p ∷ []) ≡ map seat ps ++ seat p ∷ []
  map-seat-append [] p = refl
  map-seat-append (q ∷ ps) p = ap (◌∷◌ (seat q)) (map-seat-append ps p)

  pub count_if-map-seat :
      (t : Seat → Bool) (ps : List (Participant F))
      → count_if t (map seat ps) ≡ count_if (λ p. t (seat p)) ps
  count_if-map-seat t [] = refl
  count_if-map-seat t (p ∷ ps) = omega (arith, count_if-map-seat t ps)

  pub any-map-seat :
      (t : Seat → Bool) (ps : List (Participant F)) → any t (map seat ps) ≡ any (λ p. t (seat p)) ps
  any-map-seat t [] = refl
  any-map-seat t (p ∷ ps) = ground (arith, any-map-seat t ps)

-- A view of the participants that a write does not touch is kept by the loops that make the write.
module _ {F K : Type 0} (view : Participant F → K) where
  pub map-update_first :
      (id : Text) (f : Participant F → Participant F) (ps : List (Participant F))
      → ((p : Participant F) → view (f p) ≡ view p)
      → map view (update_first id f ps) ≡ map view ps
  unfolding update_first
  map-update_first id f [] same = refl
  map-update_first id f (p ∷ ps) same = ground (arith, same p, map-update_first id f ps same)

  pub map-map_same :
      (f : Participant F → Participant F) (ps : List (Participant F))
      → ((p : Participant F) → view (f p) ≡ view p)
      → map view (map f ps) ≡ map view ps
  map-map_same f [] same = refl
  map-map_same f (p ∷ ps) same = ground (arith, same p, map-map_same f ps same)

  pub map-modify_at :
      (f : Participant F → Participant F) (i : ℕ) (ps : List (Participant F))
      → ((p : Participant F) → view (f p) ≡ view p)
      → map view (modify_at f i ps) ≡ map view ps
  map-modify_at f i [] same = refl
  map-modify_at f zero (p ∷ ps) same = ground (arith, same p)
  map-modify_at f (suc i) (p ∷ ps) same = ground (arith, map-modify_at f i ps same)
