-- ===== src/Network/Transfer/Consent.antt =====
-- What an accepted stream says of the consent that was given.
use beatblock_online.Base.{
  ◌⊎◌, subst, ◌≡◌, ◌≢◌, refl, Bool, true, not, ◌||◌, Option, none, some, List, [], ◌∷◌, All,
  Bool-cases, inl, inr, text_eq, text_eq_iff, Text, arith,
}
use beatblock_online.Network.Transfer.{
  ChartTransferHeader, TransferError, Authorization, TransferKey, Authorizations, key_eq, header_eq,
  header_error, find_authorization, remove_authorization, authorized, authorize_error,
  authorize_incoming_chart_transfer, accepted, match_header, consume_valid,
  consume_incoming_transfer_authorization, TransferCall, authorize, consume, clear, table_after,
  table_after_all,
}

key_eq_refl : (k : TransferKey) → key_eq k k ≡ true
unfolding key_eq
key_eq_refl (s, r) = ground (arith, text_eq_iff s s, text_eq_iff r r)

key_eq-session : (j k : TransferKey) → key_eq j k ≡ true → j.0 ≡ k.0
unfolding key_eq
key_eq-session (s, r) (t, q) same = ground (arith, same, text_eq_iff s t)

find-remove :
    (k : TransferKey) (table : Authorizations)
    → find_authorization k (remove_authorization k table) ≡ none
unfolding find_authorization remove_authorization
find-remove k [] = refl
find-remove k ((j, a) ∷ rest) = ground (arith, find-remove k rest)

-- The calls hold one that authorizes the header for the session, with the confirmation.
pub data IsGiven (session_id : Text) (a : Authorization) : List TransferCall → Type 0 where
  here :
      {cs : List TransferCall}
      → IsGiven session_id a (authorize session_id a.header a.executable_content_confirmed ∷ cs)
  later :
      {cs : List TransferCall} (c : TransferCall)
      → IsGiven session_id a cs
      → IsGiven session_id a (c ∷ cs)

-- The session has consented in one of the calls. Executable content is confirmed, and the header is valid
-- and stands under its own request.
pub record IsConsent (cs : List TransferCall) (e : TransferKey × Authorization) : Type 0 where
  pub given : IsGiven e.0.0 e.1 cs
  pub confirmed :
      not e.1.header.contains_executable_content || e.1.executable_content_confirmed ≡ true
  pub valid : header_error e.1.header ≡ none
  pub request : text_eq e.0.1 e.1.header.request_id ≡ true

authorized-All :
    (cs : List TransferCall) (session_id : Text) (h : ChartTransferHeader) (confirmed : Bool)
    (table : Authorizations) (e : Option TransferError)
    → All (IsConsent cs) table
    → (e ≡ none
        → IsConsent cs (
          (session_id, h.request_id),
          record { header = h; executable_content_confirmed = confirmed },
        ))
    → All (IsConsent cs) (authorized session_id h confirmed table e).0
authorized-All cs session_id h confirmed table none v k = (k refl, v)
authorized-All cs session_id h confirmed table (some e) v k = v

authorize_error-none :
    (cs : List TransferCall) (session_id : Text) (h : ChartTransferHeader) (confirmed : Bool)
    (table : Authorizations)
    → authorize_error session_id h confirmed table ≡ none
    → IsConsent (authorize session_id h confirmed ∷ cs) (
      (session_id, h.request_id),
      record { header = h; executable_content_confirmed = confirmed },
    )
unfolding authorize_error
authorize_error-none cs session_id h confirmed table ok = record {
  given = here;
  confirmed = ground (arith, ok);
  valid = ground (arith, ok);
  request = ground (arith, text_eq_iff h.request_id h.request_id);
}

IsConsent-later :
    (c : TransferCall) (cs : List TransferCall) (e : TransferKey × Authorization)
    → IsConsent cs e
    → IsConsent (c ∷ cs) e
IsConsent-later c cs e v = record {
  given = later c v.given;
  confirmed = v.confirmed;
  valid = v.valid;
  request = v.request;
}

later-All :
    (c : TransferCall) (cs : List TransferCall) (table : Authorizations)
    → All (IsConsent cs) table
    → All (IsConsent (c ∷ cs)) table
later-All c cs [] v = tt
later-All c cs (e ∷ rest) v = (IsConsent-later c cs e v.0, later-All c cs rest v.1)

remove-All :
    (cs : List TransferCall) (k : TransferKey) (table : Authorizations)
    → All (IsConsent cs) table
    → All (IsConsent cs) (remove_authorization k table)
unfolding remove_authorization
remove-All cs k [] v = tt
remove-All cs k ((j, a) ∷ rest) v = elim (Bool-cases (key_eq j k)) [
  | inl same ↦ rw same (remove-All cs k rest v.1)
  | inr other ↦ rw other (v.0, remove-All cs k rest v.1)
]

consume_valid-All :
    (cs : List TransferCall) (session_id : Text) (h : ChartTransferHeader) (table : Authorizations)
    (e : Option TransferError)
    → All (IsConsent cs) table
    → All (IsConsent cs) (consume_valid session_id h table e).0
unfolding consume_valid
consume_valid-All cs session_id h table none v = remove-All cs (session_id, h.request_id) table v
consume_valid-All cs session_id h table (some e) v = v

table_after-All :
    (c : TransferCall) (cs : List TransferCall) (table : Authorizations)
    → All (IsConsent cs) table
    → All (IsConsent (c ∷ cs)) (table_after c table)
unfolding table_after authorize_incoming_chart_transfer consume_incoming_transfer_authorization
table_after-All (authorize session_id h confirmed) cs table v =
    authorized-All (authorize session_id h confirmed ∷ cs) session_id h confirmed table
      (authorize_error session_id h confirmed table)
      (later-All (authorize session_id h confirmed) cs table v)
      (authorize_error-none cs session_id h confirmed table)
table_after-All (consume session_id h) cs table v =
    consume_valid-All (consume session_id h ∷ cs) session_id h table (header_error h)
      (later-All (consume session_id h) cs table v)
table_after-All clear cs table v = tt

-- The calls so far, the latest first.
abbrev pub rev_onto : List TransferCall → List TransferCall → List TransferCall
rev_onto [] done = done
rev_onto (c ∷ cs) done = rev_onto cs (c ∷ done)

table_after_all-All :
    (cs done : List TransferCall) (table : Authorizations)
    → All (IsConsent done) table
    → All (IsConsent (rev_onto cs done)) (table_after_all cs table)
unfolding table_after_all
table_after_all-All [] done table v = v
table_after_all-All (c ∷ cs) done table v =
    table_after_all-All cs (c ∷ done) (table_after c table) (table_after-All c done table v)

IsGiven-rev_onto :
    (session_id : Text) (a : Authorization) (cs done : List TransferCall)
    → IsGiven session_id a (rev_onto cs done)
    → IsGiven session_id a cs ⊎ IsGiven session_id a done
IsGiven-rev_onto session_id a [] done g = inr g
IsGiven-rev_onto session_id a (c ∷ cs) done g =
    placed c (IsGiven-rev_onto session_id a cs (c ∷ done) g)
  where
    behind :
        (c : TransferCall)
        → IsGiven session_id a (c ∷ done)
        → IsGiven session_id a (c ∷ cs) ⊎ IsGiven session_id a done
    behind _ here = inl here
    behind _ (later c g) = inr g

    placed :
        (c : TransferCall)
        → IsGiven session_id a cs ⊎ IsGiven session_id a (c ∷ done)
        → IsGiven session_id a (c ∷ cs) ⊎ IsGiven session_id a done
    placed c (inl g) = inl (later c g)
    placed c (inr g) = behind c g

-- What was found: a consent of the session.
record IsFound (cs : List TransferCall) (session_id : Text) (a : Authorization) : Type 0 where
  given : IsGiven session_id a cs
  confirmed : not a.header.contains_executable_content || a.executable_content_confirmed ≡ true

find-IsFound :
    (cs : List TransferCall) (k : TransferKey) (table : Authorizations) (a : Authorization)
    → All (IsConsent cs) table
    → find_authorization k table ≡ some a
    → IsFound cs k.0 a
unfolding find_authorization
find-IsFound cs k [] a v found = absurd (ground (arith, found))
find-IsFound cs k ((j, b) ∷ rest) a v found = elim (Bool-cases (key_eq j k)) [
  | inl same ↦ at_head same (ground (arith, found, same))
  | inr other ↦ find-IsFound cs k rest a v.1 (ground (arith, found, other))
]
  where
    at_head : key_eq j k ≡ true → b ≡ a → IsFound cs k.0 a
    at_head same this = subst (IsFound cs k.0) this (record {
      given = subst (λ s. IsGiven s b cs) (key_eq-session j k same) v.0.given;
      confirmed = v.0.confirmed;
    })

-- A stream of the session with the header, accepted with the authorization.
pub record IsAccepted (cs : List TransferCall) (session_id : Text) (h : ChartTransferHeader)
    (a : Authorization) : Type 0 where
  pub given : IsGiven session_id a cs
  pub same : header_eq a.header h ≡ true
  pub confirmed : not h.contains_executable_content || a.executable_content_confirmed ≡ true

match_header-IsAccepted :
    (cs : List TransferCall) (session_id : Text) (h : ChartTransferHeader)
    (o : Option Authorization) (a : Authorization)
    → (o ≡ some a → IsFound cs session_id a)
    → match_header h o ≡ accepted a
    → IsAccepted cs session_id h a
unfolding match_header header_eq
match_header-IsAccepted cs session_id h none a v ok = absurd (ground (arith, ok))
match_header-IsAccepted cs session_id h (some b) a v ok =
    let f = v (ground (arith, ok)) in
    record {
      given = f.given;
      same = ground (arith, ok);
      confirmed = ground (arith, ok, f.confirmed);
    }

consume_valid-IsAccepted :
    (cs : List TransferCall) (session_id : Text) (h : ChartTransferHeader) (table : Authorizations)
    (e : Option TransferError) (a : Authorization)
    → All (IsConsent cs) table
    → (consume_valid session_id h table e).1 ≡ accepted a
    → IsAccepted cs session_id h a
unfolding consume_valid
consume_valid-IsAccepted cs session_id h table (some e) a v ok = absurd (ground (arith, ok))
consume_valid-IsAccepted cs session_id h table none a v ok =
    match_header-IsAccepted cs session_id h (find_authorization (session_id, h.request_id) table) a
      (find-IsFound cs (session_id, h.request_id) table a v) ok

IsAccepted-in_order :
    (cs : List TransferCall) (session_id : Text) (h : ChartTransferHeader) (a : Authorization)
    → IsAccepted (rev_onto cs []) session_id h a
    → IsAccepted cs session_id h a
IsAccepted-in_order cs session_id h a v = record {
  given = ordered (IsGiven-rev_onto session_id a cs [] v.given);
  same = v.same;
  confirmed = v.confirmed;
}
  where
    ordered : IsGiven session_id a cs ⊎ IsGiven session_id a [] → IsGiven session_id a cs
    ordered (inl g) = g
    ordered (inr g) = elim g [ ]

-- A second stream with the same request, of whatever else it is, in the table that the first one left.
consume_again :
    (session_id : Text) (h k : ChartTransferHeader) (table : Authorizations) (a b : Authorization)
    → (consume_incoming_transfer_authorization session_id h table).1 ≡ accepted a
    → (consume_incoming_transfer_authorization session_id
        (record k { request_id = h.request_id })
        (consume_incoming_transfer_authorization session_id h table).0).1
      ≢ accepted b
unfolding consume_incoming_transfer_authorization consume_valid match_header
consume_again session_id h k table a b ok =
    ground (arith, ok, find-remove (session_id, h.request_id) table)

-- After any history of consents and streams, a stream that is accepted is of a session that consented to
-- exactly its header in one of the calls, with executable content only if that was confirmed then; and a
-- second stream of the session under the same request is not accepted.
pub consume-IsAccepted :
    (cs : List TransferCall) (session_id : Text) (h k : ChartTransferHeader) (a b : Authorization)
    → (consume_incoming_transfer_authorization session_id h (table_after_all cs [])).1 ≡ accepted a
    → IsAccepted cs session_id h a
      × ((consume_incoming_transfer_authorization session_id
            (record k { request_id = h.request_id })
            (consume_incoming_transfer_authorization session_id h (table_after_all cs [])).0).1
          ≢ accepted b)
unfolding consume_incoming_transfer_authorization
consume-IsAccepted cs session_id h k a b ok = (
  IsAccepted-in_order cs session_id h a (
      consume_valid-IsAccepted (rev_onto cs []) session_id h (table_after_all cs [])
        (header_error h) a (table_after_all-All cs [] [] tt) ok),
  consume_again session_id h k (table_after_all cs []) a b ok,
)
