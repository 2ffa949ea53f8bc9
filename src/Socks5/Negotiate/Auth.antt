-- ===== src/Socks5/Negotiate/Auth.antt =====
-- Who gets past the greeting.
use proxygate.Prelude.{
  ℕ, suc, ◌-◌, ◌≡◌, ◌≢◌, refl, ◌∙◌, true, false, [], ◌∷◌, ◌++◌, arith, Bytes, length, ok, err,
  bytes_eq, bytes_eq_refl, bytes_eq_sound, contains, ◌==◌,
}
use proxygate.Socks5.Conn.{
  Conn, ◌>>=◌, write, stop_if, version, method_password, method_rejected, no_acceptable_method,
}
use proxygate.Socks5.Conn.Laws.{
  read_full-ok, stop_if-ok, stop_if-elim, read_full-elim, one_byte, two_bytes,
}
use proxygate.Socks5.Negotiate.{
  check_secret, authenticate, answer_methods, wanted_method, negotiate,
}

-- RFC 1929's request: the user name and the password, each behind its length.
abbrev pub auth_request : Bytes → Bytes → Bytes → Bytes
auth_request user secret rest = 1 ∷ length user ∷ (user ++ (length secret ∷ (secret ++ rest)))

-- RFC 1928's greeting.
abbrev pub greeting : Bytes → Bytes → Bytes
greeting methods rest = version ∷ length methods ∷ (methods ++ rest)

check_secret_accepts :
    (user secret rest out : Bytes) (w : ℕ)
    → check_secret user secret user secret
        (record { input = rest; output = out; writes_left = suc w })
      ≡ (ok tt, record { input = rest; output = out ++ (1 ∷ 0 ∷ []); writes_left = w })
unfolding check_secret write ◌>>=◌ stop_if
check_secret_accepts user secret rest out w = rw (bytes_eq_refl user, bytes_eq_refl secret)

authenticate_accepts :
    (user secret rest out : Bytes) (w : ℕ)
    → user ≢ []
    → authenticate user secret
        (record { input = auth_request user secret rest; output = out; writes_left = suc w })
      ≡ (ok tt, record { input = rest; output = out ++ (1 ∷ 0 ∷ []); writes_left = w })
unfolding authenticate
authenticate_accepts [] secret rest out w h = absurd (h refl)
authenticate_accepts (u ∷ us) secret rest out w h =
    read_full-ok (1 ∷ length (u ∷ us) ∷ []) _ out (suc w) _
    ∙ stop_if-ok _ _ _ _ (ground arith)
    ∙ read_full-ok (u ∷ us) _ out (suc w) _
    ∙ read_full-ok (length secret ∷ []) _ out (suc w) _
    ∙ read_full-ok secret rest out (suc w) _
    ∙ check_secret_accepts (u ∷ us) secret rest out w

check_secret_sound :
    (user secret u s : Bytes) (c c' : Conn)
    → check_secret user secret u s c ≡ (ok tt, c')
    → (u ≡ user) × (s ≡ secret) × (c'.input ≡ c.input)
unfolding check_secret write ◌>>=◌ stop_if
check_secret_sound user secret u s c c' h =
    ground (arith, bytes_eq_sound u user, bytes_eq_sound s secret)

authenticate_sound :
    (user secret : Bytes) (c c' : Conn)
    → authenticate user secret c ≡ (ok tt, c')
    → c.input ≡ auth_request user secret c'.input
unfolding authenticate
authenticate_sound user secret c c' h = read_full-elim 2 _ c h λ header r1 e1 n1 h1.
    stop_if-elim _ _ _ _ h1 λ t h2. read_full-elim _ _ _ h2 λ u r2 e2 n2 h3.
      read_full-elim 1 _ _ h3 λ size r3 e3 n3 h4. read_full-elim _ _ _ h4 λ s r4 e4 n4 h5. ground (
        arith,
        two_bytes header n1,
        one_byte size n3,
        check_secret_sound user secret u s (record c { input = r4 }) c' h5,
      )

contains-nonempty : (b : ℕ) (xs : Bytes) → contains b xs ≡ true → (length xs == 0) ≡ false
unfolding contains
contains-nonempty b [] h = cc
contains-nonempty b (x ∷ xs) h = ground arith

answer_methods_accepts :
    (user secret methods rest out : Bytes) (w : ℕ)
    → user ≢ []
    → contains method_password methods ≡ true
    → answer_methods user secret methods
        (record { input = auth_request user secret rest; output = out; writes_left = suc (suc w) })
      ≡ (
        ok tt,
        record {
          input = rest;
          output = (out ++ (version ∷ method_password ∷ [])) ++ (1 ∷ 0 ∷ []);
          writes_left = w;
        },
      )
unfolding answer_methods bytes_eq ◌>>=◌ stop_if write
answer_methods_accepts [] secret methods rest out w h offered = absurd (h refl)
answer_methods_accepts (u ∷ us) secret methods rest out w h offered =
    rw offered (authenticate_accepts (u ∷ us) secret rest _ w h)

answer_methods_sound :
    (user secret methods : Bytes) (c c' : Conn)
    → user ≢ []
    → answer_methods user secret methods c ≡ (ok tt, c')
    → (contains method_password methods ≡ true) × (c.input ≡ auth_request user secret c'.input)
unfolding answer_methods bytes_eq ◌>>=◌ stop_if write
answer_methods_sound [] secret methods c c' h e = absurd (h refl)
answer_methods_sound (u ∷ us) secret methods c c' h e = ground (
  arith,
  authenticate_sound (u ∷ us) secret
      (record c {
        output = c.output ++ (version ∷ method_password ∷ []);
        writes_left = c.writes_left - 1;
      })
      c',
)

-- With a user name set, a client that offers the password method and sends the configured
-- credentials gets through: it is answered 5 2 and 1 0, and nothing behind its messages is read.
pub negotiate_accepts :
    (user secret methods rest out : Bytes) (w : ℕ)
    → user ≢ []
    → contains method_password methods ≡ true
    → negotiate user secret (record {
      input = greeting methods (auth_request user secret rest);
      output = out;
      writes_left = suc (suc w);
    })
      ≡ (
        ok tt,
        record {
          input = rest;
          output = (out ++ (version ∷ method_password ∷ [])) ++ (1 ∷ 0 ∷ []);
          writes_left = w;
        },
      )
unfolding negotiate
negotiate_accepts user secret methods rest out w h offered =
    read_full-ok (version ∷ length methods ∷ []) _ out (suc (suc w)) _
    ∙ stop_if-ok _ _ _ _ (contains-nonempty method_password methods offered)
    ∙ read_full-ok methods _ out (suc (suc w)) _
    ∙ answer_methods_accepts user secret methods rest out w h offered

-- With a user name set, nobody gets through without having sent exactly the configured user name
-- and password, in the form of RFC 1929, behind a greeting that offers the password method.
pub negotiate_sound :
    (user secret : Bytes) (c c' : Conn)
    → user ≢ []
    → negotiate user secret c ≡ (ok tt, c')
    → (methods : Bytes) × (c.input ≡ greeting methods (auth_request user secret c'.input))
      × (contains method_password methods ≡ true)
unfolding negotiate
negotiate_sound user secret c c' h e = read_full-elim 2 _ c e λ header r1 e1 n1 h1.
    stop_if-elim _ _ _ _ h1 λ t h2. read_full-elim _ _ _ h2 λ methods r2 e2 n2 h3.
      let (offered, sent) =
        answer_methods_sound user secret methods (record c { input = r2 }) c' h h3 in
      (methods, ground (arith, two_bytes header n1), offered)

answer_methods_refuses :
    (user secret methods : Bytes) (c : Conn) {w : ℕ}
    → contains (wanted_method user) methods ≡ false
    → c.writes_left ≡ suc w
    → answer_methods user secret methods c ≡ (
      err no_acceptable_method,
      record {
        input = c.input;
        output = c.output ++ (version ∷ method_rejected ∷ []);
        writes_left = w;
      },
    )
unfolding answer_methods ◌>>=◌ stop_if write
answer_methods_refuses user secret methods c h k = ground arith

-- A client that does not offer the one method in force (the password method if a user name is set,
-- no authentication otherwise) is answered 5 255 and refused.
pub negotiate_refuses :
    (user secret methods rest out : Bytes) (w : ℕ)
    → methods ≢ []
    → contains (wanted_method user) methods ≡ false
    → negotiate user secret
        (record { input = greeting methods rest; output = out; writes_left = suc w })
      ≡ (
        err no_acceptable_method,
        record { input = rest; output = out ++ (version ∷ method_rejected ∷ []); writes_left = w },
      )
unfolding negotiate
negotiate_refuses user secret [] rest out w h missing = absurd (h refl)
negotiate_refuses user secret (m ∷ ms) rest out w h missing =
    read_full-ok (version ∷ length (m ∷ ms) ∷ []) _ out (suc w) _
    ∙ stop_if-ok _ _ _ _ (ground arith)
    ∙ read_full-ok (m ∷ ms) rest out (suc w) _
    ∙ answer_methods_refuses user secret (m ∷ ms) _ missing refl
