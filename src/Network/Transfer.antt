-- ===== src/Network/Transfer.antt =====
-- companion/src/network.rs: the consent to incoming chart archives. One authorization lets one stream
-- of one session in. QUIC streams are not modelled.
pub mod Consent
use beatblock_online.Base.{
  ℕ, ◌*◌, Bool, true, false, not, ◌&&◌, ◌||◌, Option, none, some, List, [], ◌∷◌, if◌then◌else◌, ltb,
  leb, ◌==◌, all, any, is_empty, is_some, length, Text, text_eq, utf8_len,
}

pub record ChartTransferHeader : Type 0 where
  pub request_id : Text
  pub name : Text
  pub size : ℕ
  pub archive_sha256 : Text
  pub chart_hash : Text
  pub contains_executable_content : Bool

abbrev pub bool_eq : Bool → Bool → Bool
bool_eq true b = b
bool_eq false b = not b

unfoldable pub header_eq : ChartTransferHeader → ChartTransferHeader → Bool
header_eq h k =
    text_eq h.request_id k.request_id
    && text_eq h.name k.name
    && h.size == k.size
    && text_eq h.archive_sha256 k.archive_sha256
    && text_eq h.chart_hash k.chart_hash
    && bool_eq h.contains_executable_content k.contains_executable_content

pub data TransferError : Type 0 where
  bad_request_id bad_name bad_size bad_digest : TransferError
  unconfirmed already_authorized unsolicited other_metadata : TransferError

abbrev pub max_transfer_bytes : ℕ
max_transfer_bytes = 1024 * 1024 * 1024

-- The bytes of a text that is not ASCII are no digits, and neither are its code points.
unfoldable pub is_sha256_hex : Text → Bool
unfolding utf8_len
is_sha256_hex value =
    utf8_len value == 64 && all (λ c. (leb 48 c && leb c 57) || (leb 97 c && leb c 102)) value

-- `ChartTransferHeader::validate`: the error, if there is one
unfoldable pub header_error : ChartTransferHeader → Option TransferError
unfolding is_sha256_hex
header_error h =
    if is_empty h.request_id || ltb 80 (length h.request_id)
    then some bad_request_id
    else if is_empty h.name || ltb 256 (length h.name)
    then some bad_name
    else if h.size == 0 || ltb max_transfer_bytes h.size
    then some bad_size
    else if not (is_sha256_hex h.archive_sha256) || not (is_sha256_hex h.chart_hash)
    then some bad_digest
    else none

pub record Authorization : Type 0 where
  pub header : ChartTransferHeader
  pub executable_content_confirmed : Bool

-- A session and a request.
abbrev pub TransferKey : Type 0
TransferKey = Text × Text

abbrev pub Authorizations : Type 0
Authorizations = List (TransferKey × Authorization)

unfoldable pub key_eq : TransferKey → TransferKey → Bool
key_eq (s, r) (t, q) = text_eq s t && text_eq r q

unfoldable pub find_authorization : TransferKey → Authorizations → Option Authorization
unfolding key_eq
find_authorization k [] = none
find_authorization k ((j, a) ∷ rest) =
    let later = find_authorization k rest in if key_eq j k then some a else later

unfoldable pub remove_authorization : TransferKey → Authorizations → Authorizations
unfolding key_eq
remove_authorization k [] = []
remove_authorization k ((j, a) ∷ rest) =
    let later = remove_authorization k rest in if key_eq j k then later else (j, a) ∷ later

abbrev pub or_else : {A : Type 0} → Option A → Option A → Option A
or_else none b = b
or_else (some a) b = some a

abbrev pub error_if : Bool → TransferError → Option TransferError
error_if true e = some e
error_if false e = none

-- The first reason to refuse an authorization.
unfoldable pub authorize_error :
    Text → ChartTransferHeader → Bool → Authorizations → Option TransferError
unfolding header_error find_authorization
authorize_error session_id h confirmed table = or_else (header_error h) (
    or_else (error_if (h.contains_executable_content && not confirmed) unconfirmed)
      (error_if (is_some (find_authorization (session_id, h.request_id) table)) already_authorized))

abbrev pub authorized :
    Text
    → ChartTransferHeader
    → Bool
    → Authorizations
    → Option TransferError
    → Authorizations × Option TransferError
authorized session_id h confirmed table (some e) = (table, some e)
authorized session_id h confirmed table none = (
  ((session_id, h.request_id), record { header = h; executable_content_confirmed = confirmed })
      ∷ table,
  none,
)

-- `NetworkHub::authorize_incoming_chart_transfer`: the table, and the error if there is one
unfoldable pub authorize_incoming_chart_transfer :
    Text → ChartTransferHeader → Bool → Authorizations → Authorizations × Option TransferError
unfolding authorize_error
authorize_incoming_chart_transfer session_id h confirmed table =
    authorized session_id h confirmed table (authorize_error session_id h confirmed table)

pub data Consumed : Type 0 where
  accepted : Authorization → Consumed
  refused : TransferError → Consumed

unfoldable pub match_header : ChartTransferHeader → Option Authorization → Consumed
unfolding header_eq
match_header h none = refused unsolicited
match_header h (some a) = if header_eq a.header h then accepted a else refused other_metadata

unfoldable pub consume_valid :
    Text → ChartTransferHeader → Authorizations → Option TransferError → Authorizations × Consumed
unfolding find_authorization remove_authorization match_header
consume_valid session_id h table (some e) = (table, refused e)
consume_valid session_id h table none = (
  remove_authorization (session_id, h.request_id) table,
  match_header h (find_authorization (session_id, h.request_id) table),
)

-- `consume_incoming_transfer_authorization`
unfoldable pub consume_incoming_transfer_authorization :
    Text → ChartTransferHeader → Authorizations → Authorizations × Consumed
unfolding consume_valid header_error
consume_incoming_transfer_authorization session_id h table =
    consume_valid session_id h table (header_error h)

-- The calls that change the table, with `clear_incoming_chart_transfers`.
pub data TransferCall : Type 0 where
  authorize : Text → ChartTransferHeader → Bool → TransferCall
  consume : Text → ChartTransferHeader → TransferCall
  clear : TransferCall

unfoldable pub table_after : TransferCall → Authorizations → Authorizations
unfolding authorize_incoming_chart_transfer consume_incoming_transfer_authorization
table_after (authorize session_id h confirmed) table =
    (authorize_incoming_chart_transfer session_id h confirmed table).0
table_after (consume session_id h) table =
    (consume_incoming_transfer_authorization session_id h table).0
table_after clear table = []

unfoldable pub table_after_all : List TransferCall → Authorizations → Authorizations
unfolding table_after
table_after_all [] table = table
table_after_all (c ∷ cs) table = table_after_all cs (table_after c table)
