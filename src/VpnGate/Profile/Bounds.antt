-- ===== src/VpnGate/Profile/Bounds.antt =====
-- The port and the protocols that a profile gives.
use proxygate.Prelude.{
  ℕ, String, Bool, true, false, ◌&&◌, List, [], ◌∷◌, Option, none, some, Bytes, ◌≡◌, ◌≤◌, refl,
  arith, All, bytes_eq, codes, has_text, leb, Bool-cases, inl, inr, if◌then◌else◌,
}
use proxygate.Prelude.Int.{ℤ, pos, negsuc}
use proxygate.Config.{valid_protocols}
use proxygate.Config.Validity.{IsDistinct}
use proxygate.Text.{atoi}
use proxygate.VpnGate.Profile.{
  port_number, port_line, remote_line, or_port, detect_from, detect_port, detect_protocols,
  with_tcp, seen, words_of, lines_of,
}

abbrev pub IsPort : ℕ → Type 0
IsPort p = (1 ≤ p) × (p ≤ 65535)

abbrev IsPortOrNone : Option ℕ → Type 0
IsPortOrNone none = Unit {0}
IsPortOrNone (some p) = IsPort p

port_number-IsPort : (o : Option ℤ) → IsPortOrNone (port_number o)
unfolding port_number
port_number-IsPort none = tt
port_number-IsPort (some (negsuc n)) = tt
port_number-IsPort (some (pos n)) = elim (Bool-cases (leb 1 n && leb n 65535)) [
  | inl e ↦ rw e (ground (arith, e), ground (arith, e))
  | inr e ↦ rw e tt
]

port_if-IsPort : (b : Bool) (o : Option ℤ) → IsPortOrNone (if b then port_number o else none)
port_if-IsPort true o = port_number-IsPort o
port_if-IsPort false o = tt

port_line-IsPort : (words : List Bytes) → IsPortOrNone (port_line words)
unfolding port_line
port_line-IsPort [] = tt
port_line-IsPort (word ∷ []) = tt
port_line-IsPort (word ∷ value ∷ more) = port_if-IsPort (bytes_eq word (codes "port")) (atoi value)

remote_line-IsPort : (words : List Bytes) → IsPortOrNone (remote_line words)
unfolding remote_line
remote_line-IsPort [] = tt
remote_line-IsPort (word ∷ []) = tt
remote_line-IsPort (word ∷ host ∷ []) = tt
remote_line-IsPort (word ∷ host ∷ value ∷ more) =
    port_if-IsPort (bytes_eq word (codes "remote")) (atoi value)

or_port-IsPort : (p : ℕ) (o : Option ℕ) → IsPort p → IsPortOrNone o → IsPort (or_port p o)
or_port-IsPort p none h k = h
or_port-IsPort p (some q) h k = k

detect_from-IsPort : (p : ℕ) (lines : List (List Bytes)) → IsPort p → IsPort (detect_from p lines)
unfolding detect_from
detect_from-IsPort p [] h = h
detect_from-IsPort p (words ∷ lines) h =
    let later : ℕ = detect_from (or_port p (remote_line words)) lines in
    or_port-IsPort later (port_line words)
      (detect_from-IsPort (or_port p (remote_line words)) lines
        (or_port-IsPort p (remote_line words) h (remote_line-IsPort words)))
      (port_line-IsPort words)

pub detect_port-IsPort : (profile : String) → IsPort (detect_port profile)
unfolding detect_port
detect_port-IsPort profile =
    detect_from-IsPort 443 (words_of (lines_of profile)) (omega arith, omega arith)

-- Protocols that the settings know, none twice.
abbrev pub IsKnown : List String → Type 0
IsKnown protocols =
    All (λ protocol. has_text protocol valid_protocols ≡ true) protocols × IsDistinct protocols

IsKnown-protocols :
    (udp tcp : Bool) → IsKnown (if udp then "openvpn_udp" ∷ with_tcp tcp else with_tcp tcp)
unfolding has_text
IsKnown-protocols true true =
    ((refl, (refl, (refl, (refl, (refl, tt))))), (refl, (refl, (refl, (refl, (refl, tt))))))
IsKnown-protocols true false =
    ((refl, (refl, (refl, (refl, tt)))), (refl, (refl, (refl, (refl, tt)))))
IsKnown-protocols false true =
    ((refl, (refl, (refl, (refl, tt)))), (refl, (refl, (refl, (refl, tt)))))
IsKnown-protocols false false = ((refl, (refl, (refl, tt))), (refl, (refl, (refl, tt))))

pub detect_protocols-IsKnown : (profile : String) → IsKnown (detect_protocols profile)
unfolding detect_protocols
detect_protocols-IsKnown profile =
    let lines = words_of (lines_of profile) in
    IsKnown-protocols (seen (codes "udp") lines) (seen (codes "tcp") lines)
