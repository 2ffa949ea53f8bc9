-- ===== src/Config/Store/Saving.antt =====
-- What `Save` leaves in the file and in memory.
use proxygate.Prelude.{
  String, [], ◌∷◌, Option, none, some, Result, ok, err, ◌≡◌, ◌⊎◌, inl, inr, refl, concat,
}
use proxygate.Config.{Config, validate}
use proxygate.Config.Validity.{IsValid}
use proxygate.Config.Acceptance.{validate-IsValid}
use proxygate.Config.Store.{
  Platform, Faults, Store, resolve, encoded_value, save, save_valid, make_directory, encode, write,
  rename,
}

-- A save that took effect: the file holds the encoding of the settings in force.
pub record IsSaved (h : Platform) (value : Config) (t : Store) : Type 0 where
  pub text : String
  pub in_force : t.settings ≡ value
  pub valid : IsValid h.parsers value
  pub encoded : h.encode (encoded_value h value) ≡ ok text
  pub on_disk : t.stored.file ≡ some (concat (text ∷ "\n" ∷ []))
  pub tidy : t.stored.temporary ≡ none

-- A save that failed left the settings and the file as they were.
pub record IsUntouched (s : Store) (result : Option String × Store) : Type 0 where
  pub reason : String
  pub failed : result.0 ≡ some reason
  pub same_settings : result.1.settings ≡ s.settings
  pub same_file : result.1.stored.file ≡ s.stored.file

abbrev pub IsAtomic : Platform → Config → Store → Option String × Store → Type 0
IsAtomic h value s result = ((result.0 ≡ none) × IsSaved h value result.1) ⊎ IsUntouched s result

module _ (h : Platform) (f : Faults) (value : Config) (s : Store) where
  refused : (e : String) → IsAtomic h value s (some e, s)
  refused e = inr (record { reason = e; failed = refl; same_settings = refl; same_file = refl })

  rename-IsAtomic :
      (renamed removed : Option String) (text : String)
      → IsValid h.parsers value
      → h.encode (encoded_value h value) ≡ ok text
      → IsAtomic h value s (rename renamed removed value (concat (text ∷ "\n" ∷ [])) s)
  unfolding rename
  rename-IsAtomic none removed text valid encoded = inl (
    refl,
    record {
      text = text;
      in_force = refl;
      valid = valid;
      encoded = encoded;
      on_disk = refl;
      tidy = refl;
    },
  )
  rename-IsAtomic (some e) none text valid encoded =
      inr (record { reason = e; failed = refl; same_settings = refl; same_file = refl })
  rename-IsAtomic (some e) (some left) text valid encoded =
      inr (record { reason = e; failed = refl; same_settings = refl; same_file = refl })

  write-IsAtomic :
      (written : Option (String × Option String)) (text : String)
      → IsValid h.parsers value
      → h.encode (encoded_value h value) ≡ ok text
      → IsAtomic h value s (write f value (concat (text ∷ "\n" ∷ [])) written s)
  unfolding write
  write-IsAtomic (some (e, partial)) text valid encoded =
      inr (record { reason = e; failed = refl; same_settings = refl; same_file = refl })
  write-IsAtomic none text valid encoded = rename-IsAtomic f.rename f.remove text valid encoded

  encode-IsAtomic :
      (encoded : Result String String)
      → IsValid h.parsers value
      → h.encode (encoded_value h value) ≡ encoded
      → IsAtomic h value s (encode f value encoded s)
  unfolding encode
  encode-IsAtomic (err e) valid eq = refused e
  encode-IsAtomic (ok text) valid eq = write-IsAtomic f.write text valid eq

  make_directory-IsAtomic :
      (made : Option String)
      → IsValid h.parsers value
      → IsAtomic h value s (make_directory h f value made s)
  unfolding make_directory
  make_directory-IsAtomic (some e) valid = refused e
  make_directory-IsAtomic none valid = encode-IsAtomic (h.encode (encoded_value h value)) valid refl

  save_valid-IsAtomic :
      (checked : Option String)
      → validate h.parsers value ≡ checked
      → IsAtomic h value s (save_valid h f value checked s)
  unfolding save_valid
  save_valid-IsAtomic (some e) eq = refused e
  save_valid-IsAtomic none eq =
      make_directory-IsAtomic f.make_directory ((validate-IsValid h.parsers value).0 eq)

-- `Save`, whatever the operating system answers, takes effect as a whole or not at all: without an
-- error, the settings in force are the ones given, with the database's path made absolute, they are
-- valid, the file holds their encoding and the temporary file is gone; with an error, the settings in
-- force and the file are what they were.
pub save-IsAtomic :
    (h : Platform) (f : Faults) (value : Config) (s : Store)
    → IsAtomic h (resolve h value) s (save h f value s)
unfolding save
save-IsAtomic h f value s =
    save_valid-IsAtomic h f (resolve h value) s (validate h.parsers (resolve h value)) refl
