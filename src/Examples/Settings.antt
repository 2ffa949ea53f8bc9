-- ===== src/Examples/Settings.antt =====
-- A configuration file, and the runs of the theorems on it.
use proxygate.Prelude.{
  String, true, false, List, [], ◌∷◌, Option, none, some, Result, ok, err, ◌≡◌, refl, inl, arith,
  subst, if◌then◌else◌, str_eq, concat,
}
use proxygate.Prelude.Int.{pos}
use proxygate.Config.{Config, Parsers, default_config, validate}
use proxygate.Config.Validity.{IsValid}
use proxygate.Config.Acceptance.{validate-IsValid}
use proxygate.Config.Store.{
  Platform, Faults, Store, save, resolve, settle, load, missing, encoded_value,
  apply_environment_overrides,
}
use proxygate.Config.Store.Saving.{IsAtomic, save-IsAtomic}
use proxygate.Config.Store.Reload.{IsSettled, HasFields}
use proxygate.Config.Store.Restart.{IsReadable, IsReloaded, save-IsReloaded, load-IsReloaded}

abbrev pub parsers : Parsers
parsers = record {
  request_uri = λ url. some ("https", "host");
  duration = λ value. ok (pos 1000000000);
  split_host_port =
      λ address. if str_eq address "8.8.8.8:53" then ok ("8.8.8.8", "53") else ok ("1.1.1.1", "53");
  ipv4_literal = λ host. true;
}

abbrev pub first : Config
first = default_config "$2a$hash" "secret"

abbrev placed : Config
placed = record first { database_path = "/etc/proxygate/data/proxygate.db" }

-- A platform on which the settings are written as one text.
abbrev pub platform : Platform
platform = record {
  parsers = parsers;
  is_abs = λ path. str_eq path "/etc/proxygate/data/proxygate.db";
  join = λ path. "/etc/proxygate/data/proxygate.db";
  relative = λ path. some "data/proxygate.db";
  members = λ text. ok (λ name. some "{}");
  encode = λ c. ok "{…}";
  decode = λ text. ok (first, false);
}

abbrev pub no_faults : Faults
no_faults = record { make_directory = none; write = none; rename = none; remove = none }

abbrev pub empty_store : Store
empty_store = record { settings = first; stored = record { file = none; temporary = none } }

abbrev no_environment : String → String
no_environment name = ""

validate-IsValid_example : IsValid parsers first
unfolding validate proxygate.Config.◌and_then◌ proxygate.Config.require proxygate.Config.is_http
    proxygate.Config.within proxygate.Config.positive_duration proxygate.Config.validate_socks5
    proxygate.Config.idle_timeout_duration proxygate.Config.duration_or
    proxygate.Config.half_close_timeout_duration proxygate.Config.validate_web
    proxygate.Config.validate_monitor proxygate.Text.trim_space proxygate.Config.validate_dns
    proxygate.Text.atoi proxygate.Text.signed proxygate.Prelude.has_text
    proxygate.Config.validate_speed_test proxygate.Config.dns_host
    proxygate.Config.is_http_with_host proxygate.Config.quoted proxygate.Config.validate_protocols
    proxygate.Config.validate_vpn_gate proxygate.Text.contains_newline
validate-IsValid_example = (validate-IsValid parsers first).0 refl

save-IsAtomic_example :
    IsAtomic platform
      (resolve platform first)
      empty_store
      (save platform no_faults first empty_store)
save-IsAtomic_example = save-IsAtomic platform no_faults first empty_store

all_present : (names : List String) → HasFields (λ name. some "{}") names
all_present [] = tt
all_present (name ∷ names) = (("{}", refl), all_present names)

relative_text :
    (r : String)
    → ◌≡◌ {A = Option String} (some "data/proxygate.db") (some r)
    → platform.is_abs r ≡ false
relative_text r e =
    let same : "data/proxygate.db" ≡ r = ground (arith, e) in
    subst (λ path. platform.is_abs path ≡ false) same refl

first-IsReadable : IsReadable platform placed
unfolding encoded_value proxygate.Text.has_prefix
first-IsReadable = record {
  document = λ text e. record {
    fields = λ name. some "{}";
    object = refl;
    top = search all_present;
    nested = (
      (_, refl, search all_present),
      ((_, refl, search all_present), ((_, refl, search all_present), tt)),
    );
    reads = refl;
  };
  path = record {
    absolute = refl;
    relative_is_relative = λ r e. relative_text r e;
    join_relative = λ r e. refl;
  };
}

first-IsSettled : IsSettled platform no_environment placed
unfolding proxygate.Text.trim_space
first-IsSettled = record { web = refl; socks5 = refl; database = inl refl }

placed-saves : (save platform no_faults placed empty_store).0 ≡ none
unfolding save resolve validate proxygate.Config.◌and_then◌ proxygate.Config.require
    proxygate.Config.is_http proxygate.Config.within proxygate.Config.positive_duration
    proxygate.Config.validate_socks5 proxygate.Config.idle_timeout_duration
    proxygate.Config.duration_or proxygate.Config.half_close_timeout_duration
    proxygate.Config.validate_web proxygate.Config.validate_monitor proxygate.Text.trim_space
    proxygate.Config.validate_dns proxygate.Text.atoi proxygate.Text.signed
    proxygate.Prelude.has_text proxygate.Config.validate_speed_test proxygate.Config.dns_host
    proxygate.Config.is_http_with_host proxygate.Config.quoted proxygate.Config.validate_protocols
    proxygate.Config.validate_vpn_gate proxygate.Text.contains_newline
placed-saves = refl

save-IsReloaded_example :
    IsReloaded platform no_environment (save platform no_faults placed empty_store).1
unfolding resolve
save-IsReloaded_example =
    save-IsReloaded platform no_faults no_environment placed empty_store first-IsReadable
      first-IsSettled placed-saves

first-loads :
    load platform no_faults no_environment first missing none
    ≡ ok (save platform no_faults placed empty_store).1
unfolding load save resolve settle apply_environment_overrides validate proxygate.Config.◌and_then◌
    proxygate.Config.require proxygate.Config.is_http proxygate.Config.within
    proxygate.Config.positive_duration proxygate.Config.validate_socks5
    proxygate.Config.idle_timeout_duration proxygate.Config.duration_or
    proxygate.Config.half_close_timeout_duration proxygate.Config.validate_web
    proxygate.Config.validate_monitor proxygate.Text.trim_space proxygate.Config.validate_dns
    proxygate.Text.atoi proxygate.Text.signed proxygate.Prelude.has_text
    proxygate.Config.validate_speed_test proxygate.Config.dns_host
    proxygate.Config.is_http_with_host proxygate.Config.quoted proxygate.Config.validate_protocols
    proxygate.Config.validate_vpn_gate proxygate.Text.contains_newline
first-loads = refl

load-IsReloaded_example :
    IsReloaded platform no_environment (save platform no_faults placed empty_store).1
unfolding settle resolve apply_environment_overrides proxygate.Text.trim_space
load-IsReloaded_example =
    load-IsReloaded platform no_faults no_environment first none
      (save platform no_faults placed empty_store).1 first-IsReadable first-loads
