-- ===== src/Examples/WebSessions.antt =====
-- Sessions and requests of the web interface.
use proxygate.Prelude.{
  ◌+◌, ◌-◌, ◌≤◌, true, false, ◌&&◌, not, [], ◌∷◌, none, some, ok, ◌≡◌, refl, ap, Bytes, codes,
  contains, ltb, arith, str_eq,
}
use proxygate.Config.{Config}
use proxygate.Vpn.State.{text}
use proxygate.Vpn.Routing.{active_ip}
use proxygate.Web.{
  Site, Outside, Request, get_config, put_config, handle, serve, is_open, nodes_page,
  bounded_integer, save_settings,
}
use proxygate.Web.Session.{Crypto, sign_session, verify_session}
use proxygate.Web.Session.Tokens.{IsCodec, verify_session-sign_session}
use proxygate.Web.Gate.{IsAllowed, serve-IsAllowed}
use proxygate.Web.Page.{IsPage, nodes_page-IsPage}
use proxygate.Web.Saving.{IsAnswered, save_settings-IsAnswered}
use proxygate.Examples.Data.{tokyo, idle_world}
use proxygate.Examples.Settings.{first, platform, no_faults, empty_store}
use proxygate.Examples.NodeLists.{idle_refresher}

abbrev shift_back : Bytes → Bytes
shift_back [] = []
shift_back (b ∷ bs) = (b - 47) ∷ shift_back bs

abbrev shift : Bytes → Bytes
shift [] = []
shift (b ∷ bs) = (b + 47) ∷ shift bs

-- A codec whose letters come after the dot.
abbrev crypto : Crypto
crypto = record {
  mac = λ secret message. 7 ∷ message;
  encode = shift;
  decode = λ letters. some (shift_back letters);
}

shift-back : (bs : Bytes) → shift_back (shift bs) ≡ bs
shift-back [] = refl
shift-back (b ∷ bs) = let same : b + 47 - 47 ≡ b = omega arith in λ i. same i ∷ shift-back bs i

no_dot_shift : (bs : Bytes) → contains 46 (shift bs) ≡ false
unfolding contains
no_dot_shift [] = refl
no_dot_shift (b ∷ bs) = ground (arith, no_dot_shift bs)

crypto-IsCodec : IsCodec crypto
crypto-IsCodec = record { decode-encode = λ bs. ap some (shift-back bs); no_dot = no_dot_shift }

verify_session-sign_session_example :
    verify_session crypto first (sign_session crypto first 1000) 999
    ≡ (not (contains 124 (codes first.web.username)) && ltb 999 1000)
verify_session-sign_session_example =
    verify_session-sign_session crypto first 1000 999 crypto-IsCodec (omega arith)

abbrev barred : Config
barred = record first { web = record first.web { username = "a|b" } }

-- A user name with a bar is locked out.
barred_out : verify_session crypto barred (sign_session crypto barred 1000) 999 ≡ false
unfolding contains
barred_out = verify_session-sign_session crypto barred 1000 999 crypto-IsCodec (omega arith)

abbrev outside : Outside
outside = record {
  crypto = crypto;
  platform = platform;
  faults = no_faults;
  matches_hash = λ hash password. str_eq password "secret";
  hash = λ password. ok "$2a$new";
  filter_error = λ expression. none;
  drivers = "sstp" ∷ [];
  store_error = λ e. text "store";
  failure_error = λ e. text "refresh";
  queue_error = λ e. "queue";
  now = 100;
  restart_full = false;
}

abbrev site : Site
site = record {
  settings = empty_store;
  world = idle_world;
  refresher = idle_refresher;
  tests = record {
    jobs = λ ip. none;
    next_job_id = 0;
    queue = [];
    current = none;
    is_alive = true;
    is_reading = true;
  };
  restarting = false;
  restart_sent = false;
}

serve-IsAllowed_example : IsAllowed outside [] get_config site
unfolding is_open
serve-IsAllowed_example = serve-IsAllowed outside [] get_config site refl

save_settings-IsAnswered_example :
    IsAnswered outside first "new password" site
      (save_settings outside (ok (first, "new password")) site)
save_settings-IsAnswered_example = save_settings-IsAnswered outside first "new password" site

first_page : nodes_page (codes "10") (codes "0") site ≡ ok (tokyo ∷ [])
unfolding nodes_page proxygate.Web.page proxygate.Store.nodes proxygate.Web.with_active
    bounded_integer proxygate.Text.atoi proxygate.Text.signed active_ip
first_page = refl

nodes_page-IsPage_example :
    (1 ≤ bounded_integer (codes "10") 100 1 500)
    × (bounded_integer (codes "10") 100 1 500 ≤ 500)
    × IsPage site.world.database
        (active_ip site.world.manager)
        (bounded_integer (codes "10") 100 1 500)
        (bounded_integer (codes "0") 0 0 1000000)
        (tokyo ∷ [])
nodes_page-IsPage_example = nodes_page-IsPage (codes "10") (codes "0") site (tokyo ∷ []) first_page
