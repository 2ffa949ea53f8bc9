-- ===== src/Config/Store.antt =====
-- internal/config/config.go: the configuration file and the store of the settings in force.
pub mod Saving
pub mod Reload
pub mod Restart
use proxygate.Prelude.{
  String, Bool, true, false, ◌&&◌, ◌||◌, not, List, [], ◌∷◌, Option, none, some, Result, ok, err,
  str_eq, concat, codes, if◌then◌else◌,
}
use proxygate.Text.{trim_space, has_prefix}
use proxygate.Config.{
  Config, Parsers, ◌and_then◌, require, within, quoted, validate, default_config, Socks5Settings,
  Web,
}

-- Go's `filepath` (`join` and `relative` are seen from the directory of the configuration file) and
-- `encoding/json`: the members of an object, and a document read into the settings, with whether
-- data follow it.
pub record Platform : Type 0 where
  pub parsers : Parsers
  pub is_abs : String → Bool
  pub join : String → String
  pub relative : String → Option String
  pub members : String → Result String (String → Option String)
  pub encode : Config → Result String String
  pub decode : String → Result String (Config × Bool)

-- The configuration file and its temporary sibling.
pub record Disk : Type 0 where
  pub file : Option String
  pub temporary : Option String

-- `Store`, with the disk that it writes.
pub record Store : Type 0 where
  pub settings : Config
  pub stored : Disk

abbrev pub with_database : Config → String → Config
with_database c path = record c { database_path = path }

-- A database path that is not absolute lies beside the configuration file.
unfoldable pub resolve : Platform → Config → Config
resolve h c = if h.is_abs c.database_path then c else with_database c (h.join c.database_path)

-- The path that `Save` writes: relative, unless it leaves the directory.
stays_inside : String → Bool
stays_inside path = not (str_eq path "..") && not (has_prefix (codes "../") (codes path))

encoded_path : String → Option String → String
encoded_path path none = path
encoded_path path (some inside) = if stays_inside inside then inside else path

unfoldable pub encoded_value : Platform → Config → Config
unfolding encoded_path stays_inside
encoded_value h c = with_database c (encoded_path c.database_path (h.relative c.database_path))

-- What the operating system answers in one `Save`. A write that fails leaves some text, or none.
pub record Faults : Type 0 where
  pub make_directory : Option String
  pub write : Option (String × Option String)
  pub rename : Option String
  pub remove : Option String

abbrev with_disk : Store → Option String → Option String → Store
with_disk s file temporary = record s { stored = record { file = file; temporary = temporary } }

-- `os.Rename` and the steps after it.
rename : Option String → Option String → Config → String → Store → Option String × Store
rename none removed value text s =
    (none, record { settings = value; stored = record { file = some text; temporary = none } })
rename (some e) none value text s = (some e, with_disk s s.stored.file none)
rename (some e) (some left) value text s = (some e, with_disk s s.stored.file (some text))

-- `os.WriteFile` of the temporary file.
write : Faults → Config → String → Option (String × Option String) → Store → Option String × Store
unfolding rename
write f value text (some (e, partial)) s = (some e, with_disk s s.stored.file partial)
write f value text none s = rename f.rename f.remove value text s

encode : Faults → Config → Result String String → Store → Option String × Store
unfolding write
encode f value (err e) s = (some e, s)
encode f value (ok text) s = write f value (concat (text ∷ "\n" ∷ [])) f.write s

make_directory : Platform → Faults → Config → Option String → Store → Option String × Store
unfolding encode
make_directory h f value (some e) s = (some e, s)
make_directory h f value none s = encode f value (h.encode (encoded_value h value)) s

save_valid : Platform → Faults → Config → Option String → Store → Option String × Store
unfolding make_directory
save_valid h f value (some e) s = (some e, s)
save_valid h f value none s = make_directory h f value f.make_directory s

-- `Save`: its error, and the store after it.
unfoldable pub save : Platform → Faults → Config → Store → Option String × Store
unfolding save_valid
save h f value s = save_valid h f (resolve h value) (validate h.parsers (resolve h value)) s

-- `requireJSONFields`
require_member : String → String → Option String → Option String
require_member object name none =
    some (concat (object ∷ " is missing required field " ∷ quoted name ∷ []))
require_member object name (some raw) = none

require_json_fields : (String → Option String) → String → List String → Option String
unfolding require_member
require_json_fields fields object [] = none
require_json_fields fields object (name ∷ names) =
    require_member object name (fields name) and_then require_json_fields fields object names

abbrev config_fields : List String
config_fields =
    "sourceUrl" ∷ "refreshInterval" ∷ "filterExpression" ∷ "selectionMode"
    ∷ "followRankingOnRefresh" ∷ "socks5" ∷ "monitor" ∷ "web" ∷ "databasePath" ∷ "dnsServers"
    ∷ "speedTestUrl" ∷ "speedTestTimeout" ∷ "protocolPriority" ∷ "connectTimeout"
    ∷ "vpnGateUsername" ∷ "vpnGatePassword" ∷ "vpnGatePreSharedKey" ∷ []

-- The nested objects, in the order that the source lists them: Go's is any order.
abbrev nested_fields : List (String × List String)
nested_fields =
    ("socks5", "listenAddress" ∷ "username" ∷ "password" ∷ [])
    ∷ ("monitor", "url" ∷ "interval" ∷ "timeout" ∷ [])
    ∷ ("web", "listenAddress" ∷ "username" ∷ "passwordHash" ∷ "sessionSecret" ∷ [])
    ∷ []

require_nested : String → List String → Result String (String → Option String) → Option String
require_nested name required (err e) = some (concat (name ∷ " must be an object" ∷ []))
require_nested name required (ok nested) = require_json_fields nested name required

-- `fields[name]`, the empty text where there is none.
abbrev raw_member : Option String → String
raw_member none = ""
raw_member (some raw) = raw

require_all_nested :
    Platform → (String → Option String) → List (String × List String) → Option String
unfolding require_nested
require_all_nested h fields [] = none
require_all_nested h fields ((name, required) ∷ rest) =
    require_nested name required (h.members (raw_member (fields name)))
    and_then require_all_nested h fields rest

require_members : Platform → Result String (String → Option String) → Option String
unfolding require_json_fields require_all_nested
require_members h (err e) = some e
require_members h (ok fields) =
    require_json_fields fields "config" config_fields
    and_then require_all_nested h fields nested_fields

-- `requireCurrentConfigFields`
unfoldable pub require_current_config_fields : Platform → String → Option String
unfolding require_members
require_current_config_fields h text = require_members h (h.members text)

-- `applyEnvironmentOverrides`, for the environment.
abbrev override : String → String → String
override set value = if str_eq set "" then value else set

unfoldable pub apply_environment_overrides : (String → String) → Config → Config
apply_environment_overrides getenv c = record c {
  web = record c.web {
    listen_address =
        override (trim_space (getenv "PROXYGATE_WEB_LISTEN_ADDRESS")) c.web.listen_address;
  };
  socks5 = record c.socks5 {
    listen_address =
        override (trim_space (getenv "PROXYGATE_SOCKS5_LISTEN_ADDRESS")) c.socks5.listen_address;
  };
  database_path = override (trim_space (getenv "PROXYGATE_DATABASE_PATH")) c.database_path;
}

-- `os.ReadFile` of the configuration file.
pub data Read : Type 0 where
  found : String → Read
  missing : Read
  read_error : String → Read

check_decoded : Result String (Config × Bool) → Result String Config
check_decoded (err e) = err (concat ("decode config: " ∷ e ∷ []))
check_decoded (ok (value, true)) = err "decode config: trailing JSON data"
check_decoded (ok (value, false)) = ok value

decode_found : Platform → String → Option String → Result String Config
unfolding check_decoded
decode_found h text (some e) = err (concat ("decode config: " ∷ e ∷ []))
decode_found h text none = check_decoded (h.decode text)

-- The settings that `load` starts from: those of the file, or the defaults.
read_config : Platform → Config → Read → Result String Config
unfolding decode_found
read_config h defaults (found text) = decode_found h text (require_current_config_fields h text)
read_config h defaults missing = ok defaults
read_config h defaults (read_error e) = err (concat ("read config: " ∷ e ∷ []))

abbrev file_of : Read → Option String
file_of (found text) = some text
file_of missing = none
file_of (read_error e) = none

-- The end of `load`: the file of a first run is written.
saved_store : Option String × Store → Result String Store
saved_store (none, s) = ok s
saved_store (some e, s) = err e

finish : Platform → Faults → Read → Store → Result String Store
unfolding saved_store
finish h f missing s = saved_store (save h f s.settings s)
finish h f (found text) s = ok s
finish h f (read_error e) s = ok s

validated : Platform → Faults → Read → Option String → Config → Option String → Result String Store
unfolding finish
validated h f r temporary value (some e) = err (concat ("validate config: " ∷ e ∷ []))
validated h f r temporary value none =
    finish h f r
      (record { settings = value; stored = record { file = file_of r; temporary = temporary } })

-- The settings with the environment's, and the database's place.
unfoldable pub settle : Platform → (String → String) → Config → Config
settle h getenv value = resolve h (apply_environment_overrides getenv value)

load_value :
    Platform
    → Faults
    → (String → String)
    → Read
    → Option String
    → Result String Config
    → Result String Store
unfolding validated
load_value h f getenv r temporary (err e) = err e
load_value h f getenv r temporary (ok value) =
    validated h f r temporary (settle h getenv value) (validate h.parsers (settle h getenv value))

-- `load`, for the defaults that it would generate, what it reads, and the temporary file that stands
-- beside it.
unfoldable pub load :
    Platform → Faults → (String → String) → Config → Read → Option String → Result String Store
unfolding read_config load_value
load h f getenv defaults r temporary = load_value h f getenv r temporary (read_config h defaults r)
