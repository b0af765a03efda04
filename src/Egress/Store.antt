-- ===== src/Egress/Store.antt =====
-- internal/egress/store.go: the allowlist, kept in memory and in the settings table, and the log of
-- connection attempts.
pub mod Allowed
pub mod Updates
mod Tests
use appx.Base.{
  ℕ, ◌+◌, Bool, true, false, not, ◌&&◌, ◌||◌, Option, none, some, List, [], ◌∷◌, ◌++◌, map,
  if◌then◌else◌, ltb, length, take, drop, filter,
}
use appx.Text.{Text, codes, text_eq, has_byte, has_suffix, trim_suffix}
use appx.Text.Int.{ℤ, print_int}
use appx.Egress.Glob.{star, wildcard_host_match}

abbrev pub default_allowlist : List Text
default_allowlist = map codes (
    "api.anthropic.com:443" ∷ "api.openai.com:443" ∷ "proxy.golang.org:443" ∷ "sum.golang.org:443"
    ∷ "registry.npmjs.org:443" ∷ "bedrock-runtime.*.amazonaws.com:443" ∷ [])

pub record LogEntry : Type 0 where
  pub id : ℕ
  pub destination : Text
  pub port : ℤ
  pub allowed : Bool
  pub timestamp : ℕ

-- The settings row: missing (or not readable), holding text that is no list, or holding a list.
pub data Saved : Type 0 where
  missing : Saved
  garbled : Saved
  entries : List Text → Saved

-- `allowlist` holds the keys of the map, all of which map to true; `log` is newest first.
pub record Store : Type 0 where
  pub allowlist : List Text
  pub saved : Saved
  pub log : List LogEntry
  pub next_id : ℕ

unfoldable pub member : Text → List Text → Bool
unfolding text_eq
member entry [] = false
member entry (e ∷ es) = text_eq e entry || member entry es

-- Building the map from a list keeps each key once.
unfoldable pub load : List Text → List Text
unfolding member
load [] = []
load (e ∷ es) = if member e es then load es else e ∷ load es

unfoldable pub reload_allowlist : Saved → List Text
reload_allowlist missing = load default_allowlist
reload_allowlist garbled = load default_allowlist
reload_allowlist (entries es) = load es

unfoldable pub new_store : Saved → List LogEntry → ℕ → Store
new_store saved log next_id = record {
  allowlist = reload_allowlist saved;
  saved = saved;
  log = log;
  next_id = next_id;
}

-- The two keys of IsAllowed: "host:port" and ":port".
unfoldable pub port_suffix : ℤ → Text
port_suffix port = b':' ∷ print_int port

unfoldable pub key : Text → ℤ → Text
key host port = host ++ port_suffix port

unfoldable pub wildcard_entry : Text → ℤ → Text → Bool
wildcard_entry host port entry =
    if not (has_byte star entry) || not (has_suffix entry (port_suffix port))
    then false
    else wildcard_host_match (trim_suffix entry (port_suffix port)) host

unfoldable pub any_entry : (Text → Bool) → List Text → Bool
any_entry test [] = false
any_entry test (e ∷ es) = test e || any_entry test es

unfoldable pub is_allowed : List Text → Text → ℤ → Bool
is_allowed allowlist host port =
    if member (key host port) allowlist
    then true
    else any_entry (wildcard_entry host port) allowlist

-- Each database call takes whether it succeeds. The result is the returned error's absence.
unfoldable pub set_allowlist : Bool → List Text → Store → Bool × Store
set_allowlist db_ok es s =
    if db_ok then (true, record s { saved = entries es; allowlist = load es }) else (false, s)

unfoldable pub add_to_allowlist : Bool → Text → ℤ → Store → Bool × Store
add_to_allowlist db_ok host port s =
    if member (key host port) s.allowlist
    then (true, s)
    else set_allowlist db_ok (key host port ∷ s.allowlist)
        (record s { allowlist = key host port ∷ s.allowlist })

unfoldable pub log_entry : Bool → Text → ℤ → Bool → ℕ → Store → Bool × Store
log_entry db_ok destination port allowed now s =
    if db_ok
    then (
      true,
      record s {
        log =
            (record {
              id = s.next_id;
              destination = destination;
              port = port;
              allowed = allowed;
              timestamp = now;
            })
            ∷ s.log;
        next_id = s.next_id + 1;
      },
    )
    else (false, s)

-- ORDER BY id DESC LIMIT ? OFFSET ?, with the total; `none` is an error.
pub list_log : Bool → ℕ → ℕ → Store → Option (List LogEntry × ℕ)
list_log db_ok limit offset s =
    if db_ok then some (take limit (drop offset s.log), length s.log) else none

-- The keys of the map: Go gives them in an order of its own.
unfoldable pub get_allowlist : Store → List Text
get_allowlist s = s.allowlist

pub prune_log : Bool → ℕ → ℕ → Store → Bool × Store
prune_log db_ok max_age now s =
    if db_ok
    then (true, record s { log = filter (λ e. not (ltb (e.timestamp + max_age) now)) s.log })
    else (false, s)
