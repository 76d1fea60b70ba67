-- ===== src/Auth/Sessions.antt =====
-- internal/services/session_service.go: the sessions, without the tokens that name them. A text is the
-- list of its bytes.
pub mod Ended
use asdl_hub.Prelude.{
  ℕ, ◌+◌, ◌-◌, ◌*◌, String, Bool, true, false, ◌&&◌, ◌||◌, not, Option, none, some, List, [], ◌∷◌,
  ◌++◌, ltb, ◌==◌, if◌then◌else◌, is_some, length, take, select, first, update, any, stable_sort,
}
use asdl_hub.Models.{Ident, Time, Text, minute, hour}
use asdl_hub.Deploy.Markers.{codes, strip_prefix}
use asdl_hub.Auth.LoginLimiter.{text_eq}
use asdl_hub.Auth.Users.{User, Session, Accounts, other_sessions, delete_sessions}

abbrev pub session_life : Time
session_life = 24 * hour

abbrev pub remembered_session_life : Time
remembered_session_life = 30 * (24 * hour)

abbrev pub session_touch_every : Time
session_touch_every = 5 * minute

-- Client is who is asking.
pub record Client : Type 0 where
  pub ip : Text
  pub user_agent : Text

pub record SessionOptions : Type 0 where
  pub client : Client
  pub remember : Bool
  pub method : String

-- TokenErrors.
pub data TokenError : Type 0 where
  token_invalid token_expired token_revoked token_too_old signed_out other_device unknown_user :
      TokenError

abbrev pub has_prefix : Text → Text → Bool
has_prefix s p = is_some (strip_prefix p s)

unfoldable pub contains : Text → Text → Bool
contains [] m = has_prefix [] m
contains (c ∷ s) m = has_prefix (c ∷ s) m || contains s m

-- The name of the first marker that a text contains.
unfoldable pub first_named : Text → Text → List (Text × Text) → Text
first_named default ua [] = default
first_named default ua ((marker, name) ∷ rest) =
    let later = first_named default ua rest in if contains ua marker then name else later

abbrev browsers : List (Text × Text)
browsers =
    (codes "Edg", codes "Edge")
    ∷ (codes "OPR/", codes "Opera")
    ∷ (codes "SamsungBrowser/", codes "Samsung Internet")
    ∷ (codes "Firefox/", codes "Firefox")
    ∷ (codes "FxiOS/", codes "Firefox")
    ∷ (codes "CriOS/", codes "Chrome")
    ∷ (codes "Chrome/", codes "Chrome")
    ∷ (codes "Safari/", codes "Safari")
    ∷ []

abbrev systems : List (Text × Text)
systems =
    (codes "iPhone", codes "iOS")
    ∷ (codes "iPad", codes "iPadOS")
    ∷ (codes "Android", codes "Android")
    ∷ (codes "CrOS", codes "ChromeOS")
    ∷ (codes "Windows", codes "Windows")
    ∷ (codes "Macintosh", codes "macOS")
    ∷ (codes "Linux", codes "Linux")
    ∷ []

unfoldable pub device_name : Text → Text
device_name ua =
    if has_prefix ua (codes "asdl-hub-cli")
    then codes "asdl-hub command line"
    else first_named (codes "Unknown browser") ua browsers
      ++ codes " on "
      ++ first_named (codes "unknown OS") ua systems

abbrev pub life_of : Bool → Time
life_of remember = if remember then remembered_session_life else session_life

-- The row of a new session; `hash` is the hash of its token.
abbrev pub new_session : Ident → Text → User → SessionOptions → Time → Session
new_session sid hash user opts now = record {
  id = sid;
  user_id = user.id;
  token = hash;
  ip = opts.client.ip;
  user_agent = take 255 opts.client.user_agent;
  device = device_name opts.client.user_agent;
  method = opts.method;
  remember = opts.remember;
  last_ip = opts.client.ip;
  last_used_at = now;
  expires_at = now + life_of opts.remember;
  created_at = now;
}

abbrev pub has_sid : Ident → Session → Bool
has_sid sid s = s.id == sid

-- The new row is stored, and the sessions that have run out go.
unfoldable pub store_session : Session → Time → Accounts → Accounts
store_session s now a =
    delete_sessions (λ r. ltb r.expires_at now) (record a { sessions = a.sessions ++ s ∷ [] })

abbrev pub touched : Time → Client → Session → Session
touched now client s = record s { last_used_at = now; last_ip = client.ip }

abbrev pub due_touch : Time → Client → Session → Bool
due_touch now client s =
    ltb session_touch_every (now - s.last_used_at) || not (text_eq s.last_ip client.ip)

-- What becomes of the session that was found, if one was.
unfoldable pub check_found :
    Time → Ident → Ident → Client → Accounts → Option Session → Option TokenError × Accounts
check_found now sid user_id client a none = (some signed_out, a)
check_found now sid user_id client a (some s) =
    if not (s.user_id == user_id) || ltb s.expires_at now
    then (some signed_out, a)
    else if not (text_eq (device_name client.user_agent) s.device)
    then (some other_device, delete_sessions (has_sid sid) a)
    else if due_touch now client s
    then (none, record a { sessions = update (has_sid sid) (touched now client) a.sessions })
    else (none, a)

unfoldable pub check_session :
    Time → Ident → Ident → Client → Accounts → Option TokenError × Accounts
check_session now sid user_id client a =
    check_found now sid user_id client a (first (has_sid sid) a.sessions)

-- The rows of ListSessions in the order of the table; the last use orders them.
unfoldable pub list_sessions : Ident → Time → Accounts → List Session
list_sessions user_id now a =
    stable_sort (λ s t. ltb t.last_used_at s.last_used_at)
      (select (λ s. s.user_id == user_id && ltb now s.expires_at) a.sessions)

abbrev owned : Ident → Ident → Session → Bool
owned sid user_id s = s.id == sid && s.user_id == user_id

-- Whether there was such a session, and the tables without it.
unfoldable pub revoke_session : Ident → Ident → Accounts → Bool × Accounts
revoke_session user_id sid a =
    if any (owned sid user_id) a.sessions
    then (true, delete_sessions (owned sid user_id) a)
    else (false, a)

-- How many sessions were ended; an empty `keep` keeps none.
unfoldable pub revoke_other_sessions : Ident → Ident → Accounts → ℕ × Accounts
revoke_other_sessions user_id keep a = (
  length (select (other_sessions user_id keep) a.sessions),
  delete_sessions (other_sessions user_id keep) a,
)
