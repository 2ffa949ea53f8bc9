-- ===== src/Vpn/Routing/Tunnel.antt =====
-- Traffic stays in the tunnel unless the manager is in direct mode.
use proxygate.Prelude.{
  ℕ, String, Bool, true, false, List, [], ◌∷◌, Option, none, some, Result, ok, err, ◌≡◌, inl, inr,
  refl, Bool-cases, if◌then◌else◌,
}
use proxygate.Vpn.State.{Error, Manager}
use proxygate.Vpn.Routing.{
  Outlet, host_network, session_call, refused, session_lookup, Names, dial_resolved, dial_host,
  dial_split, dial_session_ipv4, is_tcp, dial_active, dial_context, listen_active, listen_packet,
  resolve_active, resolve_ipv4,
}

-- The host's own network is used in direct mode only, and a session only if it is the active one, for
-- a lookup too, and for what is done with its answer, whatever it is.
pub IsContained : Manager → Outlet → Type 0
IsContained m (host_network network address) = m.direct_mode ≡ true
IsContained m (session_call session network address) =
    (m.direct_mode ≡ false) × (m.session ≡ some session)
IsContained m (refused e) = m.direct_mode ≡ false
IsContained m (session_lookup session host next) =
    (m.direct_mode ≡ false)
    × ((m.session ≡ some session)
        × ((answer : Result Error (List String)) → IsContained m (next answer)))

module _ (s : Names) (session : ℕ) (m : Manager) (d : m.direct_mode ≡ false)
    (e : m.session ≡ some session) where
  dial_resolved-IsContained :
      (host port : String) (r : Result Error (List String))
      → IsContained m (dial_resolved s session host port r)
  unfolding dial_resolved IsContained
  dial_resolved-IsContained host port (err x) = d
  dial_resolved-IsContained host port (ok []) = d
  dial_resolved-IsContained host port (ok (a ∷ rest)) = (d, e)

  dial_host-IsContained :
      (address host port : String) (literal : Option Bool)
      → IsContained m (dial_host s session address host port literal)
  unfolding dial_host IsContained
  dial_host-IsContained address host port (some true) = (d, e)
  dial_host-IsContained address host port (some false) = d
  dial_host-IsContained address host port none =
      (d, (e, λ answer. dial_resolved-IsContained host port answer))

  dial_split-IsContained :
      (address : String) (r : Result Error (String × String))
      → IsContained m (dial_split s session address r)
  unfolding dial_split IsContained
  dial_split-IsContained address (err x) = d
  dial_split-IsContained address (ok (host, port)) =
      dial_host-IsContained address host port (s.ip_literal host)

dial_active-IsContained :
    (active : Option ℕ) (s : Names) (network address : String) (m : Manager)
    → m.direct_mode ≡ false
    → m.session ≡ active
    → IsContained m (dial_active active s network address)
unfolding dial_active dial_session_ipv4 IsContained
dial_active-IsContained none s network address m d e = d
dial_active-IsContained (some session) s network address m d e =
    elim (Bool-cases (is_tcp network)) [
      | inl t ↦ rw t (dial_split-IsContained s session m d e address (s.split_host_port address))
      | inr t ↦ rw t (d, e)
    ]

listen_active-IsContained :
    (active : Option ℕ) (s : Names) (network address : String) (m : Manager)
    → m.direct_mode ≡ false
    → m.session ≡ active
    → IsContained m (listen_active active s network address)
unfolding listen_active IsContained
listen_active-IsContained none s network address m d e = d
listen_active-IsContained (some session) s network address m d e =
    elim (Bool-cases (s.has_datagrams session)) [ inl t ↦ rw t (d, e) | inr t ↦ rw t d ]

resolve_active-IsContained :
    (active : Option ℕ) (host : String) (m : Manager)
    → m.direct_mode ≡ false
    → m.session ≡ active
    → IsContained m (resolve_active active host)
unfolding resolve_active IsContained
resolve_active-IsContained none host m d e = d
resolve_active-IsContained (some session) host m d e = (d, e)

choose-IsContained :
    (m : Manager) (network address : String) (tunnel : Outlet)
    → (m.direct_mode ≡ false → IsContained m tunnel)
    → IsContained m (if m.direct_mode then host_network network address else tunnel)
unfolding IsContained
choose-IsContained m network address tunnel h = go m.direct_mode refl
  where
    go :
        (b : Bool)
        → m.direct_mode ≡ b
        → IsContained m (if b then host_network network address else tunnel)
    go true e = e
    go false e = h e

-- Nothing that the proxy dials, listens on or resolves leaves the tunnel: unless the manager is in
-- direct mode, each call is made through the active VPN session, or refused if there is none. So is
-- the lookup of a name that is dialed over TCP, and the dial that follows any answer of it.
pub dial_context-IsContained :
    (s : Names) (network address host : String) (m : Manager)
    → IsContained m (dial_context s network address m)
      × IsContained m (listen_packet s network address m)
      × IsContained m (resolve_ipv4 host m)
unfolding dial_context listen_packet resolve_ipv4
dial_context-IsContained s network address host m = (
  choose-IsContained m network address (dial_active m.session s network address)
      λ d. dial_active-IsContained m.session s network address m d refl,
  choose-IsContained m network address (listen_active m.session s network address)
      λ d. listen_active-IsContained m.session s network address m d refl,
  choose-IsContained m "ip4" host (resolve_active m.session host)
      λ d. resolve_active-IsContained m.session host m d refl,
)
