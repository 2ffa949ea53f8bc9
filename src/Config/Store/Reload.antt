-- ===== src/Config/Store/Reload.antt =====
-- What `load` makes of the file that `Save` wrote.
use proxygate.Prelude.{
  String, Bool, true, false, List, [], ◌∷◌, Option, none, some, ok, ◌≡◌, ◌⊎◌, inl, inr, refl, ap,
  ◌∙◌, All, arith, Bool-cases, str_eq, eq_iff, if◌then◌else◌,
}
use proxygate.Text.{trim_space}
use proxygate.Config.{Config, validate, ◌and_then◌}
use proxygate.Config.Validity.{IsValid}
use proxygate.Config.Acceptance.{validate-IsValid}
use proxygate.Config.Store.{
  Platform, Faults, found, resolve, encoded_value, encoded_path, with_database, stays_inside, load,
  load_value, read_config, decode_found, check_decoded, validated, finish, settle, override,
  apply_environment_overrides, require_current_config_fields, require_members, require_json_fields,
  require_all_nested, require_nested, require_member, config_fields, nested_fields, raw_member,
}

abbrev pub HasFields : (String → Option String) → List String → Type 0
HasFields fields names = All (λ name. (raw : String) × (fields name ≡ some raw)) names

abbrev pub HasNested : Platform → (String → Option String) → List (String × List String) → Type 0
HasNested h fields objects =
    All
      (λ object.
        (nested : String → Option String) × (h.members (raw_member (fields object.0)) ≡ ok nested)
        × HasFields nested object.1)
      objects

-- A text that `encoding/json` reads as the settings, every member of theirs in it.
pub record IsDocument (h : Platform) (c : Config) (text : String) : Type 0 where
  pub fields : String → Option String
  pub object : h.members text ≡ ok fields
  pub top : HasFields fields config_fields
  pub nested : HasNested h fields nested_fields
  pub reads : h.decode text ≡ ok (c, false)

-- An absolute database path that `filepath` finds again from the relative one.
pub record IsDatabasePath (h : Platform) (path : String) : Type 0 where
  pub absolute : h.is_abs path ≡ true
  pub relative_is_relative : (r : String) → h.relative path ≡ some r → h.is_abs r ≡ false
  pub join_relative : (r : String) → h.relative path ≡ some r → h.join r ≡ path

-- The environment sets nothing, or what the settings already say.
pub record IsSettled (h : Platform) (getenv : String → String) (c : Config) : Type 0 where
  pub web :
      override (trim_space (getenv "PROXYGATE_WEB_LISTEN_ADDRESS")) c.web.listen_address
      ≡ c.web.listen_address
  pub socks5 :
      override (trim_space (getenv "PROXYGATE_SOCKS5_LISTEN_ADDRESS")) c.socks5.listen_address
      ≡ c.socks5.listen_address
  pub database :
      (trim_space (getenv "PROXYGATE_DATABASE_PATH") ≡ "")
      ⊎ (resolve h (with_database c (trim_space (getenv "PROXYGATE_DATABASE_PATH"))) ≡ c)

fields-none :
    (fields : String → Option String) (object : String) (names : List String)
    → HasFields fields names
    → require_json_fields fields object names ≡ none
unfolding require_json_fields require_member ◌and_then◌
fields-none fields object [] has = refl
fields-none fields object (name ∷ names) has =
    ground (arith, has.0.1, fields-none fields object names has.1)

nested-none :
    (h : Platform) (fields : String → Option String) (objects : List (String × List String))
    → HasNested h fields objects
    → require_all_nested h fields objects ≡ none
unfolding require_all_nested require_nested ◌and_then◌
nested-none h fields [] has = refl
nested-none h fields ((name, required) ∷ objects) has =
    let there : require_json_fields has.0.0 name required ≡ none =
      fields-none has.0.0 name required has.0.2 in
    ground (arith, has.0.1, there, nested-none h fields objects has.1)

members-none :
    (h : Platform) (c : Config) (text : String)
    → IsDocument h c text
    → require_current_config_fields h text ≡ none
unfolding require_current_config_fields require_members ◌and_then◌
members-none h c text d =
    let top : require_json_fields d.fields "config" config_fields ≡ none =
      fields-none d.fields "config" config_fields d.top in
    ground (arith, d.object, top, nested-none h d.fields nested_fields d.nested)

read-IsDocument :
    (h : Platform) (defaults c : Config) (text : String)
    → IsDocument h c text
    → read_config h defaults (found text) ≡ ok c
unfolding read_config decode_found check_decoded
read-IsDocument h defaults c text d = ground (arith, members-none h c text d, d.reads)

-- Relative or not, the written path leads back.
resolve_encoded :
    (h : Platform) (c : Config)
    → IsDatabasePath h c.database_path
    → resolve h (encoded_value h c) ≡ c
unfolding resolve encoded_value
resolve_encoded h c p = back (h.relative c.database_path) refl
  where
    kept : (b : Bool) → b ≡ true → (if b then c else with_database c (h.join c.database_path)) ≡ c
    kept true e = refl
    kept false e = absurd (ground (arith, e))

    joined :
        (r : String) (b : Bool)
        → b ≡ false
        → h.join r ≡ c.database_path
        → (if b then with_database c r else with_database c (h.join r)) ≡ c
    joined r false e j = ap (with_database c) j
    joined r true e j = absurd (ground (arith, e))

    inside :
        (r : String) (b : Bool)
        → h.relative c.database_path ≡ some r
        → (let path = if b then r else c.database_path in
            if h.is_abs path then with_database c path else with_database c (h.join path))
          ≡ c
    inside r true e = joined r (h.is_abs r) (p.relative_is_relative r e) (p.join_relative r e)
    inside r false e = kept (h.is_abs c.database_path) p.absolute

    back :
        (o : Option String)
        → h.relative c.database_path ≡ o
        → (let path = encoded_path c.database_path o in
            if h.is_abs path then with_database c path else with_database c (h.join path))
          ≡ c
    back none e = kept (h.is_abs c.database_path) p.absolute
    back (some r) e = inside r (stays_inside r) e

-- The settings with three of their texts.
abbrev rebuild : Config → String → String → String → Config
rebuild c web_address socks5_address path = record c {
  web = record c.web { listen_address = web_address };
  socks5 = record c.socks5 { listen_address = socks5_address };
  database_path = path;
}

pub override_blank : (set value : String) → str_eq set "" ≡ true → override set value ≡ value
override_blank set value e = ground (arith, e)

pub override_set : (set value : String) → str_eq set "" ≡ false → override set value ≡ set
override_set set value e = ground (arith, e)

-- The settings in force come back from the ones written.
settle-encoded :
    (h : Platform) (getenv : String → String) (c : Config)
    → IsDatabasePath h c.database_path
    → IsSettled h getenv c
    → settle h getenv (encoded_value h c) ≡ c
unfolding settle apply_environment_overrides encoded_value
settle-encoded h getenv c p n =
    let set : String = trim_space (getenv "PROXYGATE_DATABASE_PATH") in
    let written : String = encoded_path c.database_path (h.relative c.database_path) in
    let addresses : settle h getenv (encoded_value h c)
        ≡ resolve h (with_database c (override set written)) =
      λ i. resolve h (rebuild c (n.web i) (n.socks5 i) (override set written)) in
    let kept : str_eq set "" ≡ true → resolve h (with_database c (override set written)) ≡ c = λ e.
      ap (λ path. resolve h (with_database c path)) (override_blank set written e)
      ∙ resolve_encoded h c p in
    addresses ∙ elim (Bool-cases (str_eq set "")) [
      | inl e ↦ kept e
      | inr e ↦ elim n.database [
        | inl blank ↦ absurd (ground (arith, e, (eq_iff set "").1 blank))
        | inr same ↦
            ap (λ path. resolve h (with_database c path)) (override_set set written e) ∙ same
      ]
    ]

pub load-IsDocument :
    (h : Platform) (f : Faults) (getenv : String → String) (defaults c : Config) (text : String)
    (temporary : Option String)
    → IsDocument h (encoded_value h c) text
    → IsDatabasePath h c.database_path
    → IsSettled h getenv c
    → IsValid h.parsers c
    → load h f getenv defaults (found text) temporary
      ≡ ok (record { settings = c; stored = record { file = some text; temporary = temporary } })
unfolding load load_value validated finish
load-IsDocument h f getenv defaults c text temporary d p n v =
    ap (load_value h f getenv (found text) temporary)
      (read-IsDocument h defaults (encoded_value h c) text d)
    ∙ ap (λ value. validated h f (found text) temporary value (validate h.parsers value))
        (settle-encoded h getenv c p n)
    ∙ ap (validated h f (found text) temporary c) ((validate-IsValid h.parsers c).1 v)
