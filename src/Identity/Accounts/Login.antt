-- ===== src/Identity/Accounts/Login.antt =====
-- `login` of app/identity/local-auth.ts. `verify` is `argon2.verify`, false where that throws, and
-- `sign` is `jwt.sign` on the payload of a subject.
pub mod Laws
use Prim.Native.Char.{Char, code}
use bnpi_pats_api.Base.{
  ℕ, ◌-◌, String, Option, none, some, Bool, true, false, not, ◌&&◌, ◌||◌, ◌==◌, ltb, leb, str_eq,
  find, is_some, if◌then◌else◌,
}
use bnpi_pats_api.Base.Text
use bnpi_pats_api.Identity.Accounts.{
  Accounts, Subject, Credential, has_id, has_username, belongs_to, is_enabled, find_by_id,
}
use bnpi_pats_api.Floor.{update_many}

-- `[a-z0-9]` and `[a-z0-9._-]`
abbrev pub is_initial : Char → Bool
is_initial c = leb b'a' (code c) && leb (code c) b'z' || leb b'0' (code c) && leb (code c) b'9'

abbrev pub is_name_char : Char → Bool
is_name_char c = is_initial c || code c == b'.' || code c == b'_' || code c == b'-'

abbrev pub is_name : String → Bool
is_name String.[] = true
is_name (String.◌∷◌ c s) = is_name_char c && is_name s

-- `/^[a-z0-9][a-z0-9._-]{2,127}$/`
unfoldable pub is_username : String → Bool
is_username String.[] = false
is_username (String.◌∷◌ c s) =
    is_initial c && is_name s && leb 2 (Text.length s) && leb (Text.length s) 127

unfoldable pub normalize_username : String → Option String
normalize_username username =
    let normalized = Text.lower (Text.trim username) in
    if is_username normalized then some normalized else none

abbrev pub has_at : String → Bool
has_at String.[] = false
has_at (String.◌∷◌ c s) = code c == b'@' || has_at s

unfoldable pub normalize_email : String → Option String
normalize_email identifier =
    let normalized = Text.lower (Text.trim identifier) in
    if Text.is_empty normalized || ltb 254 (Text.length normalized) || not (has_at normalized)
    then none
    else some normalized

-- `findByUsername`
abbrev pub find_by_username : Accounts → String → Option Credential
find_by_username s username = find (has_username username) s.credentials

abbrev same_email : String → Option String → Bool
same_email email none = false
same_email email (some snapshot) = str_eq (Text.lower snapshot) (Text.lower email)

abbrev email_of : Option Subject → Option String
email_of none = none
email_of (some u) = u.email_snapshot

-- `findByEmail`: the first credential of a subject with that email, in the order of the table.
abbrev pub find_by_email : Accounts → String → Option Credential
find_by_email s email =
    find (λ c. same_email email (email_of (find_by_id s c.subject_id))) s.credentials

-- The credential that an identifier names, by the form of the identifier.
unfoldable pub find_credential : Accounts → String → Option Credential
find_credential s identifier =
    if has_at identifier
    then elim (normalize_email identifier) [ none ↦ none | some email ↦ find_by_email s email ]
    else elim (normalize_username identifier) [
      | none ↦ none
      | some username ↦ find_by_username s username
    ]

abbrev pub out_of_bounds : String → Bool
out_of_bounds password = Text.is_empty password || ltb 1024 (Text.length password)

-- The subject that a login finds, active and with that password.
unfoldable pub signed_in : (String → String → Bool) → String → String → Accounts → Option Subject
signed_in verify identifier password s =
    if out_of_bounds password then none else elim (find_credential s identifier) [
      | none ↦ none
      | some c ↦
          if not (verify c.password_hash password) then none else elim (find_by_id s c.subject_id) [
            | none ↦ none
            | some u ↦ if is_enabled u.status then some u else none
          ]
    ]

abbrev logged_in : String → Credential → Credential
logged_in now c = record c { last_login_at = some now }

-- `markLogin`
unfoldable pub mark_login : String → String → Accounts → Accounts
mark_login id now s = record s {
  credentials = update_many (belongs_to id) (logged_in now) s.credentials;
}

-- The access token, if any, and the tables afterwards.
unfoldable pub login :
    (String → String → Bool)
    → (String → String)
    → String
    → String
    → String
    → Accounts
    → Option String × Accounts
login verify sign now identifier password s = elim (signed_in verify identifier password s) [
  | none ↦ (none, s)
  | some u ↦ (some (sign u.id), mark_login u.id now s)
]
