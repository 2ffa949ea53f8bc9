-- ===== src/Config/Store/Restart.antt =====
-- The file that a save or a first start leaves, read by the next start.
use proxygate.Prelude.{
  String, Bool, true, false, [], ◌∷◌, Option, none, some, ok, ◌≡◌, inl, inr, refl, ap, sym, ◌∙◌,
  concat, arith, Bool-cases, str_eq, eq_iff, if◌then◌else◌, subst,
}
use proxygate.Text.{trim_space}
use proxygate.Config.{Config, validate}
use proxygate.Config.Store.{
  Platform, Faults, Store, found, missing, resolve, encoded_value, save, with_database, load,
  load_value, read_config, validated, finish, saved_store, settle, override,
  apply_environment_overrides,
}
use proxygate.Config.Store.Saving.{IsSaved, save-IsAtomic}
use proxygate.Config.Store.Reload.{
  IsDocument, IsDatabasePath, IsSettled, load-IsDocument, override_set,
}

-- What `encoding/json` and `filepath` promise for the settings.
pub record IsReadable (h : Platform) (c : Config) : Type 0 where
  pub document :
      (text : String)
      → h.encode (encoded_value h c) ≡ ok text
      → IsDocument h (encoded_value h c) (concat (text ∷ "\n" ∷ []))
  pub path : IsDatabasePath h c.database_path

-- The file of a store from which `load` makes that store, without a write.
pub record IsReloaded (h : Platform) (getenv : String → String) (s : Store) : Type 0 where
  pub text : String
  pub on_disk : s.stored.file ≡ some text
  pub loads :
      (f : Faults) (defaults : Config)
      → load h f getenv defaults (found text) s.stored.temporary ≡ ok s

saved-IsReloaded :
    (h : Platform) (getenv : String → String) (c : Config) (t : Store)
    → IsReadable h c
    → IsSettled h getenv c
    → IsSaved h c t
    → IsReloaded h getenv t
saved-IsReloaded h getenv c t r n saved = record {
  text = concat (saved.text ∷ "\n" ∷ []);
  on_disk = saved.on_disk;
  loads = λ f defaults.
      load-IsDocument h f getenv defaults c (concat (saved.text ∷ "\n" ∷ [])) t.stored.temporary
        (r.document saved.text saved.encoded) r.path n saved.valid
      ∙ (λ i. ok (record {
        settings = (sym saved.in_force) i;
        stored = record { file = (sym saved.on_disk) i; temporary = t.stored.temporary };
      }));
}

-- If `encoding/json` reads back what it wrote, `filepath` finds the database's path again, and the
-- environment sets nothing but what the settings say, then after a successful `Save` the next start
-- loads exactly the settings that are in force, without a write.
pub save-IsReloaded :
    (h : Platform) (f : Faults) (getenv : String → String) (value : Config) (s : Store)
    → IsReadable h (resolve h value)
    → IsSettled h getenv (resolve h value)
    → (save h f value s).0 ≡ none
    → IsReloaded h getenv (save h f value s).1
save-IsReloaded h f getenv value s r n e = elim (save-IsAtomic h f value s) [
  | inl done ↦ saved-IsReloaded h getenv (resolve h value) (save h f value s).1 r n done.1
  | inr u ↦ absurd (ground (arith, e, u.failed))
]

override_twice : (set value : String) → override set (override set value) ≡ override set value
override_twice set value = twice (str_eq set "")
  where
    twice :
        (b : Bool) → (if b then (if b then value else set) else set) ≡ (if b then value else set)
    twice true = refl
    twice false = refl

resolve_again :
    (h : Platform) (c : Config)
    → resolve h (with_database (resolve h c) c.database_path) ≡ resolve h c
unfolding resolve
resolve_again h c = again (h.is_abs c.database_path)
  where
    again :
        (b : Bool)
        → (let there : Config = if b then c else with_database c (h.join c.database_path) in
            if b
            then with_database there c.database_path
            else with_database there (h.join c.database_path))
          ≡ (if b then c else with_database c (h.join c.database_path))
    again true = refl
    again false = refl

-- A text that the database's path has no part in stays overridden.
same_override :
    (h : Platform) (c : Config) (text : Config → String)
    → ((path : String) → text (with_database c path) ≡ text c)
    → (set : String) → override set (text c) ≡ text c
    → override set (text (resolve h c)) ≡ text (resolve h c)
unfolding resolve
same_override h c text apart set e = same (h.is_abs c.database_path)
  where
    same :
        (b : Bool)
        → (let there : Config = if b then c else with_database c (h.join c.database_path) in
            override set (text there) ≡ text there)
    same true = e
    same false = subst (λ t. override set t ≡ t) (sym (apart (h.join c.database_path))) e

-- What the environment has set, it sets again.
settle-IsSettled :
    (h : Platform) (getenv : String → String) (value : Config)
    → IsSettled h getenv (settle h getenv value)
unfolding settle apply_environment_overrides
settle-IsSettled h getenv value =
    let c : Config = apply_environment_overrides getenv value in
    let set : String = trim_space (getenv "PROXYGATE_DATABASE_PATH") in
    let web_set : String = trim_space (getenv "PROXYGATE_WEB_LISTEN_ADDRESS") in
    let socks5_set : String = trim_space (getenv "PROXYGATE_SOCKS5_LISTEN_ADDRESS") in
    record {
      web =
          same_override h c (λ d. d.web.listen_address) (λ path. refl) web_set
            (override_twice web_set value.web.listen_address);
      socks5 =
          same_override h c (λ d. d.socks5.listen_address) (λ path. refl) socks5_set
            (override_twice socks5_set value.socks5.listen_address);
      database = elim (Bool-cases (str_eq set "")) [
        | inl e ↦ inl ((eq_iff set "").0 e)
        | inr e ↦ inr (
            ap (λ path. resolve h (with_database (resolve h c) path))
              (sym (override_set set value.database_path e))
            ∙ resolve_again h c)
      ];
    }

resolve_absolute : (h : Platform) (c : Config) → h.is_abs c.database_path ≡ true → resolve h c ≡ c
unfolding resolve
resolve_absolute h c e = ground (arith, e)

stored_store :
    (r : Option String × Store) (s : Store) → saved_store r ≡ ok s → (r.0 ≡ none) × (r.1 ≡ s)
unfolding saved_store
stored_store (none, t) s e = (refl, ground (arith, e))
stored_store (some reason, t) s e = absurd (ground (arith, e))

first_store :
    (h : Platform) (f : Faults) (c : Config) (temporary checked : Option String) (s : Store)
    → validated h f missing temporary c checked ≡ ok s
    → (t : Store) × ((save h f c t).0 ≡ none) × ((save h f c t).1 ≡ s)
unfolding validated finish
first_store h f c temporary (some reason) s e = absurd (ground (arith, e))
first_store h f c temporary none s e =
    let t : Store = record {
      settings = c;
      stored = record { file = none; temporary = temporary };
    } in
    let r = stored_store (save h f c t) s e in (t, r.0, r.1)

-- If `encoding/json` reads back what it wrote and `filepath` finds the database's path again, a first
-- start that succeeds leaves a file from which the next start, in the same environment, loads exactly
-- the settings that the first one used, without a write.
pub load-IsReloaded :
    (h : Platform) (f : Faults) (getenv : String → String) (defaults : Config)
    (temporary : Option String) (s : Store)
    → IsReadable h (settle h getenv defaults)
    → load h f getenv defaults missing temporary ≡ ok s
    → IsReloaded h getenv s
unfolding load read_config load_value
load-IsReloaded h f getenv defaults temporary s r e =
    let c : Config = settle h getenv defaults in
    let first = first_store h f c temporary (validate h.parsers c) s e in
    let same : resolve h c ≡ c = resolve_absolute h c r.path.absolute in
    subst (IsReloaded h getenv) first.2 (
      save-IsReloaded h f getenv c first.0 (subst (IsReadable h) (sym same) r)
        (subst (IsSettled h getenv) (sym same) (settle-IsSettled h getenv defaults)) first.1)
