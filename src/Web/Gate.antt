-- ===== src/Web/Gate.antt =====
-- What a request without a session can do.
use proxygate.Prelude.{false, Bytes, ◌≡◌, refl, Bool-cases, ◌⊎◌, inl, inr}
use proxygate.Web.{Site, Outside, Request, answer, problem, is_open, serve}
use proxygate.Web.Session.{verify_session}
use proxygate.Web.Session.Genuine.{IsGenuine, verify_session-IsGenuine}

abbrev pub IsAllowed : Outside → Bytes → Request → Site → Type 0
IsAllowed o cookie request s =
    (serve o cookie request s ≡ (answer 401 (problem "authentication required"), s))
    ⊎ IsGenuine o.crypto s.settings.settings o.now cookie

-- A request to any route but those of the version and the login is answered with 401, without a change,
-- a cookie or a task, unless its cookie is a user name and a time in the future, signed with the
-- secret in force, and the user is the one of the settings in force.
pub serve-IsAllowed :
    (o : Outside) (cookie : Bytes) (request : Request) (s : Site)
    → is_open request ≡ false
    → IsAllowed o cookie request s
unfolding serve
serve-IsAllowed o cookie request s closed =
    elim (Bool-cases (verify_session o.crypto s.settings.settings cookie o.now)) [
      | inl e ↦ inr (verify_session-IsGenuine o.crypto s.settings.settings cookie o.now e)
      | inr e ↦ inl (rw (closed, e) refl)
    ]
