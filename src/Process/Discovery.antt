-- ===== src/Process/Discovery.antt =====
-- internal/discovery/mdns.go: the hub is advertised on the local network, on the port of the HTTP
-- address. zeroconf is a parameter.
use Prim.Native.Char.{code}
use Prim.Native.String
use text.Mathlib.TextLemmas.{nil-append, cons-append}
use manisa_app.Prelude.{
  ℕ, zero, suc, ◌+◌, ◌-◌, ◌≤◌, ◌<◌, ◌^◌, ◌≡◌, refl, ap, ◌∙◌, String, Bool, false, ◌&&◌, ◌||◌,
  Option, none, some, List, [], ◌∷◌, ℤ, pos, negsuc, inl, inr, nat_eq, ltb, ◌==◌, arith,
  if◌then◌else◌,
}
use manisa_app.Domain.Error.{Result, ok, err, message, wrapped, wrap}
use manisa_app.Application.World.{Result-cases}
use manisa_app.Text.Trim.{trim_space}
use manisa_app.Text.Split.{split, Avoids, split_of_Avoids, split-append}
use manisa_app.Text.Number.{
  parse_uint, format_uint, parse_uint-format_uint, format_uint-Avoids, format_uint-Avoids_above,
}

abbrev pub service_type : String
service_type = "_manisa._tcp"

-- how many characters have a code
unfoldable pub count : ℕ → String → ℕ
count c String.[] = 0
count c (String.◌∷◌ d s) = let rest = count c s in if nat_eq (code d) c then suc rest else rest

abbrev pub starts_with : ℕ → String → Bool
starts_with c String.[] = false
starts_with c (String.◌∷◌ d s) = nat_eq (code d) c

abbrev pub ends_with : ℕ → String → Bool
ends_with c String.[] = false
ends_with c (String.◌∷◌ d String.[]) = nat_eq (code d) c
ends_with c (String.◌∷◌ d s) = ends_with c s

abbrev pub last_two : List String → Option (String × String)
last_two [] = none
last_two (a ∷ []) = none
last_two (a ∷ b ∷ []) = some (a, b)
last_two (a ∷ rest) = last_two rest

-- net.SplitHostPort between brackets, `[host]:port`, by the parts between colons: the one bracket
-- closes in front of the last colon.
abbrev pub bracketed_port : Option (String × String) → Result String
bracketed_port none = err (message "missing port in address")
bracketed_port (some (host, port)) =
    if ends_with b']' host then ok port else err (message "too many colons in address")

-- net.SplitHostPort without brackets
abbrev pub plain_port : List String → Result String
plain_port (host ∷ port ∷ []) = ok port
plain_port _ = err (message "missing port or too many colons in address")

-- net.SplitHostPort, for the port only
unfoldable pub split_port : String → Result String
split_port addr =
    let parts = split b':' addr in
    if starts_with b'[' addr
    then (if nat_eq (count b'[' addr) 1 && nat_eq (count b']' addr) 1
        then bracketed_port (last_two parts)
        else err (message "bracket in address"))
    else if nat_eq (count b'[' addr) 0 && nat_eq (count b']' addr) 0
    then plain_port parts
    else err (message "bracket in address")

abbrev pub negated : ℕ → ℤ
negated zero = pos 0
negated (suc n) = negsuc n

abbrev pub at_most : ℕ → (ℕ → ℤ) → Option ℕ → Option ℤ
at_most limit f none = none
at_most limit f (some n) = if ltb limit n then none else some (f n)

-- strconv.Atoi, where an int has 64 bits
unfoldable pub atoi : String → Option ℤ
atoi String.[] = none
atoi (String.◌∷◌ c s) =
    if nat_eq (code c) b'-'
    then at_most (2 ^ 63) negated (parse_uint 64 s)
    else if nat_eq (code c) b'+'
    then at_most (2 ^ 63 - 1) pos (parse_uint 64 s)
    else at_most (2 ^ 63 - 1) pos (parse_uint 64 (String.◌∷◌ c s))

abbrev pub in_range : Option ℤ → Result ℕ
in_range (some (pos n)) = if ltb n 1 || ltb 65535 n then err (message "invalid HTTP port") else ok n
in_range _ = err (message "invalid HTTP port")

-- portFromAddr
unfoldable pub port_from_addr : String → Result ℕ
port_from_addr addr = elim (split_port addr) [
  | err e ↦ err (wrapped "parse HTTP address for mDNS" e)
  | ok text ↦ in_range (atoi text)
]

-- the arguments of zeroconf.Register
pub record Registration : Type 0 where
  pub instance_name : String
  pub service : String
  pub domain : String
  pub port : ℕ
  pub text : List String

abbrev pub instance_of : String → String
instance_of hostname =
    let trimmed = trim_space hostname in
    if trimmed == "" then "Manisa Hub" else String.◌++◌ (String.◌++◌ "Manisa Hub" " ") trimmed

abbrev pub registration : String → ℕ → Registration
registration hostname port = record {
  instance_name = instance_of hostname;
  service = service_type;
  domain = "local.";
  port = port;
  text = "api=1" ∷ "local_first=1" ∷ "path=/api/v1" ∷ "events=/api/v1/events" ∷ [];
}

-- Start, for what zeroconf.Register answers; `hostname` is empty if there is none. The result is the
-- server of the advertiser.
unfoldable pub start : {A : Type 0} → (Registration → Result A) → String → String → Result A
start register hostname addr = elim (port_from_addr addr) [
  | err e ↦ err e
  | ok port ↦ wrap "advertise Manisa hub over mDNS" (register (registration hostname port))
]

count_of_Avoids : (c : ℕ) (s : String) → Avoids c s → count c s ≡ 0
unfolding count
count_of_Avoids c String.[] h = refl
count_of_Avoids c (String.◌∷◌ d s) h = ground (arith, count_of_Avoids c s h.1)

count-append : (c : ℕ) (s t : String) → count c (String.◌++◌ s t) ≡ count c s + count c t
unfolding count
count-append c String.[] t = rw nil-append (omega arith)
count-append c (String.◌∷◌ d s) t = rw cons-append (ground (arith, count-append c s t))

starts_with-append :
    (c : ℕ) (s t : String)
    → Avoids c s
    → starts_with c t ≡ false
    → starts_with c (String.◌++◌ s t) ≡ false
starts_with-append c String.[] t h e = rw nil-append e
starts_with-append c (String.◌∷◌ d s) t h e = rw cons-append (ground arith)

atoi_of_Avoids :
    (s : String) (n : ℕ)
    → Avoids b'-' s
    → Avoids b'+' s
    → parse_uint 64 s ≡ some n
    → n < 2 ^ 63
    → atoi s ≡ some (pos n)
unfolding atoi
atoi_of_Avoids String.[] n minus plus read h = unfold parse_uint in cc
atoi_of_Avoids (String.◌∷◌ c s) n minus plus read h = rw read (ground arith)

-- what a host needs to stand in front of a colon without brackets
abbrev pub IsHost : String → Type 0
IsHost host = Avoids b':' host × Avoids b'[' host × Avoids b']' host

abbrev address : String → ℕ → String
address host port = String.◌++◌ host (String.◌∷◌ ":" (format_uint port))

no_bracket :
    (c : ℕ) (host : String) (port : ℕ) → Avoids c host → 58 < c → count c (address host port) ≡ 0
no_bracket c host port h above =
    let digits =
      count_of_Avoids c (format_uint port) (format_uint-Avoids_above port c (omega arith)) in
    let colon : count c (String.◌∷◌ ":" (format_uint port)) ≡ 0 =
      unfold count in ground (arith, digits) in
    omega (arith, count-append c host (String.◌∷◌ ":" (format_uint port)), count_of_Avoids c host h)

split_port-address :
    (host : String) (port : ℕ)
    → IsHost host
    → split_port (address host port) ≡ ok (format_uint port)
unfolding split_port
split_port-address host port (colon, opening, closing) =
    let parts =
      split-append ":" host (format_uint port) colon
      ∙ ap (λ ws. host ∷ ws)
          (split_of_Avoids b':' (format_uint port)
            (format_uint-Avoids_above port b':' (omega arith))) in
    let plain = starts_with-append b'[' host (String.◌∷◌ ":" (format_uint port)) opening refl in
    rw
      (
        plain,
        no_bracket b'[' host port opening (omega arith),
        no_bracket b']' host port closing (omega arith),
        parts,
      )
      refl

in_range_bounds : (o : Option ℤ) (n : ℕ) → in_range o ≡ ok n → (1 ≤ n) × (n ≤ 65535)
in_range_bounds none n h = cc
in_range_bounds (some (negsuc m)) n h = cc
in_range_bounds (some (pos m)) n h = ground arith

-- A port that `portFromAddr` accepts is one from 1 to 65535.
pub port_from_addr_range :
    (addr : String) (n : ℕ) → port_from_addr addr ≡ ok n → (1 ≤ n) × (n ≤ 65535)
unfolding port_from_addr
port_from_addr_range addr n h = elim (Result-cases (split_port addr)) [
  | inr (e, failed) ↦ ground arith
  | inl (text, found) ↦ in_range_bounds (atoi text) n (ground arith)
]

-- Where the HTTP address is a host that needs no brackets, a colon and a port from 1 to 65535,
-- `Start` asks zeroconf to register that port, under the hub's name, and gives back what it answers.
pub start-address :
    {A : Type 0} (register : Registration → Result A) (hostname host : String) (port : ℕ)
    → IsHost host
    → 1 ≤ port
    → port ≤ 65535
    → start register hostname (String.◌++◌ host (String.◌∷◌ ":" (format_uint port)))
      ≡ wrap "advertise Manisa hub over mDNS" (register (registration hostname port))
unfolding start port_from_addr
start-address register hostname host port h lo hi =
    let read =
      atoi_of_Avoids (format_uint port) port (format_uint-Avoids port b'-' (omega arith))
        (format_uint-Avoids port b'+' (omega arith)) (parse_uint-format_uint 64 port (omega arith))
        (omega arith) in
    let within : (ltb port 1 || ltb 65535 port) ≡ false = ground arith in
    rw (start, port_from_addr, split_port-address host port h, read, within) refl
