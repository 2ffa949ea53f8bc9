-- ===== src/Config/Loops.antt =====
-- The loops of `Validate` over the DNS servers and the protocols.
use proxygate.Prelude.{
  ℕ, String, true, false, not, List, [], ◌∷◌, Option, none, some, Result, ok, err, ◌≡◌, ◌≤◌, ◌↔◌,
  refl, ap, sym, ◌∙◌, All, codes, str_eq, has_text, arith, both, chain, test-&&, test-not,
  test-str_eq,
}
use proxygate.Prelude.Int.{ℤ, pos, negsuc}
use proxygate.Text.{atoi}
use proxygate.Config.{Parsers, dns_host, validate_dns, validate_protocols, valid_protocols, is_port}
use proxygate.Config.Validity.{IsDnsServer, IsDistinct}
use proxygate.Config.Steps.{◌then◌, requires}

port_range :
    (o : Option ℤ) → (is_port o ≡ true) ↔ ((n : ℕ) × (o ≡ some (pos n)) × (1 ≤ n) × (n ≤ 65535))
port_range none = (λ h. absurd (ground (arith, h)), λ h. absurd (ground (arith, h.1)))
port_range (some (negsuc n)) = (λ h. absurd (ground (arith, h)), λ h. absurd (ground (arith, h.1)))
port_range (some (pos n)) =
    (λ h. (n, refl, ground (arith, h), ground (arith, h)), λ h. ground (arith, h.1, h.2, h.3))

-- The same answer of the splitter, with the two tests that follow it.
split_server :
    (p : Parsers) (server : String) (r : Result String (String × String))
    → p.split_host_port server ≡ r
    → (dns_host p server r ≡ none) ↔ IsDnsServer p server
unfolding dns_host
split_server p server (err e) eq =
    (λ h. absurd (ground (arith, h)), λ h. absurd (ground (arith, eq, h.address)))
split_server p server (ok (host, port)) eq =
    let tests : (dns_host p server (ok (host, port)) ≡ none) ↔ (
        (p.ipv4_literal host ≡ true)
        × ((n : ℕ) × (atoi (codes port) ≡ some (pos n)) × (1 ≤ n) × (n ≤ 65535))) =
      requires _ (λ h. h, λ h. h) then requires _ (port_range (atoi (codes port))) in
    (
      λ h.
          let r = tests.0 h in
          record {
            host = host;
            port = port;
            number = r.1.0;
            address = eq;
            literal = r.0;
            port_number = r.1.1;
            port_range = (r.1.2, r.1.3);
          },
      λ h.
          let same : ◌≡◌ {A = String × String} (h.host, h.port) (host, port) =
            ground (arith, sym h.address ∙ eq) in
          tests.1 (
            ap (λ q. p.ipv4_literal q.0) (sym same) ∙ h.literal,
            (
              h.number,
              ap (λ q. atoi (codes q.1)) (sym same) ∙ h.port_number,
              h.port_range.0,
              h.port_range.1,
            ),
          ),
    )

abbrev IsUnseen : List String → List String → Type 0
IsUnseen seen xs = All (λ x. has_text x seen ≡ false) xs

different_sym : (s t : String) → str_eq s t ≡ false → str_eq t s ≡ false
different_sym s t h = (test-str_eq t s).1 (λ e. (test-str_eq s t).0 h (sym e))

-- A text joins the seen ones: it stands nowhere in what follows.
IsUnseen-cons :
    (q : String) (seen xs : List String)
    → IsUnseen (q ∷ seen) xs ↔ ((has_text q xs ≡ false) × IsUnseen seen xs)
unfolding has_text
IsUnseen-cons q seen [] = (λ h. (refl, tt), λ h. tt)
IsUnseen-cons q seen (x ∷ xs) =
    let rest = IsUnseen-cons q seen xs in
    (
      λ h.
          let d : str_eq x q ≡ false = different_sym q x (ground (arith, h.0)) in
          (ground (arith, d, (rest.0 h.1).0), (ground (arith, h.0), (rest.0 h.1).1)),
      λ h.
          let d : str_eq q x ≡ false = different_sym x q (ground (arith, h.0)) in
          (ground (arith, d, h.1.0), rest.1 (ground (arith, h.0), h.1.1)),
    )

none_seen : (xs : List String) → IsUnseen [] xs
unfolding has_text
none_seen [] = tt
none_seen (x ∷ xs) = (refl, none_seen xs)

module _ (P : String → Type 0) where
  -- What the loop knows of the texts that follow.
  abbrev IsAccepted : List String → List String → Type 0
  IsAccepted seen xs = All P xs × (IsDistinct xs × IsUnseen seen xs)

  accept_cons :
      (q : String) (seen xs : List String)
      → ((P q × (has_text q seen ≡ false)) × IsAccepted (q ∷ seen) xs) ↔ IsAccepted seen (q ∷ xs)
  accept_cons q seen xs =
      let u = IsUnseen-cons q seen xs in
      (
        λ h. let v = u.0 h.1.1.1 in ((h.0.0, h.1.0), ((v.0, h.1.1.0), (h.0.1, v.1))),
        λ h. ((h.0.0, h.1.1.0), (h.0.1, (h.1.0.1, u.1 (h.1.0.0, h.1.1.1)))),
      )

  from_none : (xs : List String) → IsAccepted [] xs ↔ (All P xs × IsDistinct xs)
  from_none xs = (λ h. (h.0, h.1.0), λ h. (h.0, (h.1, none_seen xs)))

module _ {A B C : Type 0} where
  regroup : (A × (B × C)) ↔ ((A × B) × C)
  regroup = (λ h. ((h.0, h.1.0), h.1.1), λ h. (h.0.0, (h.0.1, h.1)))

dns_loop :
    (p : Parsers) (seen servers : List String)
    → (validate_dns p seen servers ≡ none) ↔ IsAccepted (IsDnsServer p) seen servers
unfolding validate_dns
dns_loop p seen [] = (λ h. (tt, (tt, tt)), λ h. refl)
dns_loop p seen (server ∷ servers) =
    chain
      (chain
        (split_server p server (p.split_host_port server) refl
          then requires _ (test-not (has_text server seen))
          then dns_loop p (server ∷ seen) servers)
        regroup)
      (accept_cons (IsDnsServer p) server seen servers)

protocol_loop :
    (seen protocols : List String)
    → (validate_protocols seen protocols ≡ none)
      ↔ IsAccepted (λ x. has_text x valid_protocols ≡ true) seen protocols
unfolding validate_protocols
protocol_loop seen [] = (λ h. (tt, (tt, tt)), λ h. refl)
protocol_loop seen (protocol ∷ protocols) =
    let known = has_text protocol valid_protocols in
    chain
      (requires _ (
          chain (test-&& known (not (has_text protocol seen)))
            (both (λ h. h, λ h. h) (test-not (has_text protocol seen))))
        then protocol_loop (protocol ∷ seen) protocols)
      (accept_cons (λ x. has_text x valid_protocols ≡ true) protocol seen protocols)

pub dns-IsDnsServer :
    (p : Parsers) (servers : List String)
    → (validate_dns p [] servers ≡ none) ↔ (All (IsDnsServer p) servers × IsDistinct servers)
dns-IsDnsServer p servers = chain (dns_loop p [] servers) (from_none (IsDnsServer p) servers)

pub protocols-IsDistinct :
    (protocols : List String)
    → (validate_protocols [] protocols ≡ none)
      ↔ (All (λ x. has_text x valid_protocols ≡ true) protocols × IsDistinct protocols)
protocols-IsDistinct protocols =
    chain (protocol_loop [] protocols)
      (from_none (λ x. has_text x valid_protocols ≡ true) protocols)
