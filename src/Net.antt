-- ===== src/Net.antt =====
-- The parts of Go's `net` and `strconv` that internal/socks5/server.go computes with. An address is
-- a `net.IP`: a byte slice of length 4 or 16, and anything else is no address.
pub mod Laws
use proxygate.Prelude.{
  ℕ, zero, suc, ◌+◌, ◌-◌, ◌*◌, ◌/◌, ◌%◌, Bool, ◌&&◌, List, [], ◌∷◌, ◌++◌, Option, none, some, Bytes,
  length, take, drop, bytes_eq, contains, ltb, leb, ◌==◌, if◌then◌else◌,
}

abbrev pub v4_in_v6_prefix : Bytes
v4_in_v6_prefix = 0 ∷ 0 ∷ 0 ∷ 0 ∷ 0 ∷ 0 ∷ 0 ∷ 0 ∷ 0 ∷ 0 ∷ 255 ∷ 255 ∷ []

-- `IP.To4`
unfoldable pub to4 : Bytes → Option Bytes
to4 ip =
    if length ip == 4
    then some ip
    else if length ip == 16 && bytes_eq (take 12 ip) v4_in_v6_prefix
    then some (drop 12 ip)
    else none

-- `IP.To16`
unfoldable pub to16 : Bytes → Option Bytes
to16 ip =
    if length ip == 4
    then some (v4_in_v6_prefix ++ ip)
    else if length ip == 16
    then some ip
    else none

-- `strconv.Itoa` for a number of at most twenty digits.
digits_from : ℕ → ℕ → Bytes
digits_from zero n = []
digits_from (suc fuel) n =
    let front = digits_from fuel (n / 10) in
    if ltb n 10 then (48 + n) ∷ [] else front ++ (48 + n % 10) ∷ []

unfoldable pub itoa : ℕ → Bytes
unfolding digits_from
itoa n = digits_from 20 n

abbrev hex_digit : ℕ → ℕ
hex_digit d = if ltb d 10 then 48 + d else 87 + d

-- The hexadecimal digits of a 16-bit group, without leading zeros.
hex_from : ℕ → ℕ → Bytes
hex_from zero n = []
hex_from (suc fuel) n =
    let front = hex_from fuel (n / 16) in
    if ltb n 16 then hex_digit n ∷ [] else front ++ hex_digit (n % 16) ∷ []

groups : Bytes → List ℕ
groups (a ∷ b ∷ rest) = (a * 256 + b) ∷ groups rest
groups _ = []

zero_run : List ℕ → ℕ
zero_run [] = 0
zero_run (g ∷ gs) = if g == 0 then suc (zero_run gs) else 0

-- The first longest run of at least two zero groups, as its start and its end; 255, 255 is none.
longest_run : ℕ → List ℕ → ℕ × ℕ → ℕ × ℕ
longest_run i [] best = best
longest_run i (g ∷ gs) (start, stop) =
    let run = zero_run (g ∷ gs) in
    longest_run (i + 1) gs
      (if leb 2 run && ltb (stop - start) run then (i, i + run) else (start, stop))

join_groups : List ℕ → Bytes
join_groups [] = []
join_groups (g ∷ []) = hex_from 4 g
join_groups (g ∷ h ∷ gs) = hex_from 4 g ++ (b':' ∷ join_groups (h ∷ gs))

abbrev shorten : List ℕ → ℕ × ℕ → Bytes
shorten gs (start, stop) =
    if start == 255
    then join_groups gs
    else join_groups (take start gs) ++ (b':' ∷ b':' ∷ join_groups (drop stop gs))

dotted : Bytes → Bytes
dotted [] = []
dotted (a ∷ []) = itoa a
dotted (a ∷ b ∷ rest) = itoa a ++ (b'.' ∷ dotted (b ∷ rest))

-- `IP.String` of an address of 4 or 16 bytes, by what `To4` gives.
text_for : Option Bytes → Bytes → Bytes
text_for (some v4) ip = dotted v4
text_for none ip = shorten (groups ip) (longest_run 0 (groups ip) (255, 255))

unfoldable pub ip_string : Bytes → Bytes
unfolding text_for dotted itoa groups longest_run zero_run join_groups hex_from bytes_eq
ip_string ip = text_for (to4 ip) ip

-- `net.JoinHostPort`
unfoldable pub join_host_port : Bytes → Bytes → Bytes
unfolding contains
join_host_port host port =
    if contains b':' host then (b'[' ∷ host) ++ (b']' ∷ b':' ∷ port) else host ++ (b':' ∷ port)

-- `binary.BigEndian.AppendUint16(nil, uint16(port))`
abbrev pub put_uint16 : ℕ → Bytes
put_uint16 port = (port % 65536 / 256) ∷ (port % 256) ∷ []

-- `binary.BigEndian.Uint16`
abbrev pub get_uint16 : Bytes → ℕ
get_uint16 (hi ∷ lo ∷ rest) = hi * 256 + lo
get_uint16 _ = 0
