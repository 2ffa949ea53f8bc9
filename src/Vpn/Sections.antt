-- ===== src/Vpn/Sections.antt =====
-- The critical sections of internal/vpn/manager.go: what each method does to the shared state
-- between taking and releasing `m.mu`, with the calls on what only that section holds afterwards.
use proxygate.Prelude.{
  ℕ, suc, String, Bool, true, false, ◌&&◌, ◌||◌, not, ◌∷◌, Option, none, some, str_eq, ◌==◌,
  if◌then◌else◌,
}
use proxygate.Model.{Node}
use proxygate.Store.{Database, delete_node_if_stale, mark_failure}
use proxygate.Vpn.State.{
  Selection, auto, manual, State, connecting, connected, failed, direct, Error, text, Manager,
  World, bump, close_session, cancel, database_after, set_selection_metadata,
}

abbrev pub is_set {ℓ} : {A : Type ℓ} → Option A → Bool
is_set none = false
is_set (some a) = true

-- `m.session == expected`
abbrev pub is_session : Option ℕ → Option ℕ → Bool
is_session none none = true
is_session none (some t) = false
is_session (some s) none = false
is_session (some s) (some t) = s == t

-- `setState`
unfoldable pub set_state : State → Option Error → World → World
set_state state error w = record w {
  manager = record w.manager { state = state; last_err = error };
}

-- `SetLastHealth`
unfoldable pub set_last_health : ℕ → World → World
set_last_health now w = record w { manager = record w.manager { last_health = now } }

-- `setAutomatic`
unfoldable pub set_automatic : World → World
set_automatic w = record w {
  manager = record w.manager { selection = auto; manual_ip = ""; manual_protocol = "" };
  database = set_selection_metadata auto "" "" w.database;
}

-- `SetDirectMode(true)`
unfoldable pub enter_direct : World → World
enter_direct w =
    let m = w.manager in
    close_session m.session (
      cancel m.cancel_automatic (
        cancel m.cancel_connect (record w {
          manager = record m {
            session = none;
            direct_mode = true;
            connection_paused = true;
            state = direct;
            last_err = none;
            generation = bump m.generation;
            cancel_connect = none;
            cancel_automatic = none;
            connect_attempt = bump m.connect_attempt;
            connecting_ip = "";
          };
        })))

unfoldable pub set_direct_on : World → World
unfolding enter_direct
set_direct_on w = if w.manager.connection_paused then w else enter_direct w

-- The section of `SetDirectMode(false)`; the flag is false if nothing was paused.
unfoldable pub set_direct_off : World → World × Bool
set_direct_off w = if not w.manager.connection_paused then (w, false) else (
  record w {
    manager = record w.manager { connection_paused = false; state = connecting; last_err = none };
  },
  true,
)

-- The section of `startCandidate`: the new context and the number of the attempt.
unfoldable pub begin_candidate : String → World → World × ℕ × ℕ
begin_candidate ip w =
    let m = w.manager in
    let context = w.next_context in
    let attempt = bump m.connect_attempt in
    (
      cancel m.cancel_connect (
          cancel m.cancel_automatic (record w {
            next_context = suc context;
            manager = record m {
              connection_paused = false;
              cancel_automatic = none;
              cancel_connect = some context;
              connect_attempt = attempt;
              connecting_ip = ip;
              state = connecting;
              last_err = none;
            };
          })),
      context,
      attempt,
    )

-- The first section of `switchAutomatic`: none if connections are paused, else the new context.
unfoldable pub begin_automatic : World → World × Option ℕ
begin_automatic w =
    let context = w.next_context in
    if w.manager.connection_paused
    then (record w { next_context = suc context; cancelled = context ∷ w.cancelled }, none)
    else (
      record w {
        next_context = suc context;
        manager = record w.manager { cancel_automatic = some context };
      },
      some context,
    )

-- What `switchAutomatic` defers.
unfoldable pub end_automatic : ℕ → World → World
end_automatic context w =
    cancel (some context) (record w { manager = record w.manager { cancel_automatic = none } })

-- The section of `install`.
abbrev removed_if_stale : String → String → Database → Database
removed_if_stale old_ip ip db =
    if not (str_eq old_ip "") && not (str_eq old_ip ip)
    then database_after db (delete_node_if_stale db old_ip)
    else db

abbrev manual_of : Selection → String → String
manual_of manual s = s
manual_of auto s = ""

unfoldable pub install_now : ℕ → Node → String → Selection → String → World → World
install_now session node protocol selection forced w =
    let m = w.manager in
    close_session m.session (record w {
      manager = record m {
        session = some session;
        node = node;
        protocol = protocol;
        selection = selection;
        direct_mode = false;
        manual_ip = manual_of selection node.ip;
        manual_protocol = manual_of selection forced;
        state = connected;
        last_err = none;
        generation = bump m.generation;
      };
      database = removed_if_stale m.node.ip node.ip w.database;
    })

unfoldable pub is_stale_install : ℕ → World → Bool
is_stale_install expected w =
    w.manager.connection_paused
    || (not (expected == 0) && not (w.manager.connect_attempt == expected))

unfoldable pub install : ℕ → Node → String → Selection → ℕ → String → World → World × Bool
unfolding install_now is_stale_install
install session node protocol selection expected forced w =
    if is_stale_install expected w
    then (w, false)
    else (install_now session node protocol selection forced w, true)

-- What `install` writes after its section.
unfoldable pub save_selection : Selection → String → String → World → World
save_selection selection ip forced w = record w {
  database =
      set_selection_metadata selection (manual_of selection ip) (manual_of selection forced)
        w.database;
}

-- `isConnectAttempt`
unfoldable pub is_connect_attempt : ℕ → World → Bool
is_connect_attempt attempt w = w.manager.connect_attempt == attempt

-- `isGeneration`
unfoldable pub is_generation : ℕ → World → Bool
is_generation value w = w.manager.generation == value

abbrev after_error : Option Error → Manager → Manager
after_error none m = m
after_error (some e) m = record m {
  state = if is_set m.session then connected else failed;
  last_err = some e;
}

-- `finishConnectAttempt`
unfoldable pub finish_connect_attempt : ℕ → Option Error → World → World × Bool
finish_connect_attempt attempt error w =
    if not (w.manager.connect_attempt == attempt) then (w, false) else (
      record w {
        manager =
            after_error error (record w.manager { connecting_ip = ""; cancel_connect = none });
      },
      true,
    )

-- The section of `failover`: none if it is about another session or connections are paused, else
-- the address of the failed node. `expected` is none for `Failover`.
abbrev pub is_other_session : Option ℕ → Option ℕ → Bool
is_other_session expected current = is_set expected && not (is_session current expected)

abbrev fall_back : Bool → Manager → Manager
fall_back true m = record m {
  session = none;
  direct_mode = true;
  state = connecting;
  generation = bump m.generation;
}
fall_back false m = m

abbrev dropped : Bool → Option ℕ → Option ℕ
dropped true s = s
dropped false s = none

unfoldable pub begin_failover : Bool → Option ℕ → Error → World → World × Option String
begin_failover fallback_to_direct expected cause w =
    let m = w.manager in
    if is_other_session expected m.session || m.connection_paused then (w, none) else (
      close_session (dropped fallback_to_direct m.session) (record w {
        manager = record (fall_back fallback_to_direct m) {
          selection = auto;
          manual_ip = "";
          manual_protocol = "";
          last_err = some cause;
        };
      }),
      some m.node.ip,
    )

-- `failover` after its section, up to `switchAutomatic`.
abbrev pub error_text : Error → String
error_text Error.canceled = "context canceled"
error_text Error.deadline_exceeded = "context deadline exceeded"
error_text (text s) = s

unfoldable pub record_failover : ℕ → String → Error → World → World
record_failover now failed_ip cause w = record w {
  database = set_selection_metadata auto "" "" (
      if not (str_eq failed_ip "")
      then database_after w.database (mark_failure w.database now failed_ip (error_text cause))
      else w.database);
}

-- The first two sections of `Close`.
unfoldable pub begin_close : World → World
begin_close w =
    let m = w.manager in
    close_session m.session (
      cancel m.cancel_automatic (
        cancel m.cancel_connect (record w {
          manager = record m {
            closing = true;
            session = none;
            generation = bump m.generation;
            cancel_connect = none;
            cancel_automatic = none;
            connect_attempt = bump m.connect_attempt;
            connecting_ip = "";
          };
        })))

-- The last section of `Close`, once every asynchronous task is done; `first` is the session that
-- the earlier section closed.
abbrev pub unless_first : Option ℕ → Option ℕ → Option ℕ
unless_first first late = if is_session late first then none else late

unfoldable pub end_close : Option ℕ → World → World
end_close first w =
    let m = w.manager in
    close_session (unless_first first m.session)
      (record w { manager = record m { session = none; generation = bump m.generation } })
