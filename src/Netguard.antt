-- ===== src/Netguard.antt =====
-- core/netguard.py. An address is its number; what the module ipaddress says of it beyond that is the
-- record `Tables`, and urllib's and the resolver's results are arguments.
pub mod Blocked
use Prim.Native.Nat.{◌^◌}
use text.Mathlib.Text.{◌==◌ as str_eq}
use py_runner.Prelude.{
  ℕ, zero, suc, ◌+◌, ◌*◌, ◌/◌, ◌%◌, String, Bool, true, false, not, ◌&&◌, ◌||◌, Option, none, some,
  List, [], ◌∷◌, length, ltb, leb, ◌==◌, if◌then◌else◌,
}
use py_runner.Filters.Grammar.{codes}

pub data Address : Type 0 where
  ipv4 ipv6 : ℕ → Address

-- The properties of the module ipaddress that the guard reads.
pub record Tables : Type 0 where
  pub is_link_local : Address → Bool
  pub is_loopback : Address → Bool
  pub is_private : Address → Bool
  pub is_reserved : Address → Bool

-- `is_unspecified`: 0.0.0.0 and ::
abbrev pub is_unspecified : Address → Bool
is_unspecified (ipv4 n) = n == 0
is_unspecified (ipv6 n) = n == 0

-- an IPv4 address of its four bytes
abbrev pub of_bytes : ℕ → ℕ → ℕ → ℕ → ℕ
of_bytes a b c d = a * 2 ^ 24 + b * 2 ^ 16 + c * 2 ^ 8 + d

-- `ip in net for net in ALWAYS_BLOCKED_NETWORKS`: 169.254.0.0/16, fe80::/10, fd00:ec2::254/128
abbrev pub always_blocked : Address → Bool
always_blocked (ipv4 n) = n / 2 ^ 16 == 169 * 2 ^ 8 + 254
always_blocked (ipv6 n) = n / 2 ^ 118 == 1018 || n == 64768 * 2 ^ 112 + 3778 * 2 ^ 96 + 596

-- `ipv4_mapped`: ::ffff:0:0/96 is the IPv4 address
abbrev pub unmapped : Address → Address
unmapped (ipv4 n) = ipv4 n
unmapped (ipv6 n) = if n / 2 ^ 32 == 65535 then ipv4 (n % 2 ^ 32) else ipv6 n

-- the messages of a refusal
pub data Refusal : Type 0 where
  no_hostname unspecified_name localhost invalid_url : Refusal
  unspecified link_local loopback private reserved : Address → Refusal

pub data Verdict : Type 0 where
  safe : Verdict
  refused : Refusal → Verdict

module _ (tables : Tables) where
  -- `_check_ip` after the mapping; `given` is the address as it is named in the message
  abbrev pub check_address : Bool → Address → Address → Verdict
  check_address allow_private given ip =
      if is_unspecified ip
      then refused (unspecified given)
      else if tables.is_link_local ip || always_blocked ip
      then refused (link_local given)
      else if allow_private
      then safe
      else if tables.is_loopback ip
      then refused (loopback given)
      else if tables.is_private ip
      then refused (private given)
      else if tables.is_reserved ip
      then refused (reserved given)
      else safe

  -- `_check_ip`
  unfoldable pub check_ip : Bool → Address → Verdict
  check_ip allow_private ip = check_address allow_private ip (unmapped ip)

  -- the loop over the resolver's addresses
  unfoldable pub check_all : Bool → List Address → Verdict
  unfolding check_ip
  check_all allow_private [] = safe
  check_all allow_private (ip ∷ rest) =
      let more = check_all allow_private rest in
      elim (check_ip allow_private ip) [ safe ↦ more | refused why ↦ refused why ]

abbrev same_codes : List ℕ → List ℕ → Bool
same_codes [] [] = true
same_codes (a ∷ xs) (b ∷ ys) = a == b && same_codes xs ys
same_codes _ _ = false

-- `xs.endswith(ys)`
abbrev ends_with : List ℕ → List ℕ → Bool
ends_with [] ys = same_codes [] ys
ends_with (x ∷ xs) ys = same_codes (x ∷ xs) ys || ends_with xs ys

-- `host in _UNSPECIFIED_NAMES`
abbrev pub is_unspecified_name : String → Bool
is_unspecified_name host = str_eq host "0.0.0.0" || str_eq host "::" || str_eq host "[::]"

abbrev pub is_localhost : String → Bool
is_localhost host =
    str_eq host "localhost"
    || str_eq host "localhost.localdomain"
    || ends_with (codes host) (codes ".localhost")

-- what `socket.getaddrinfo` does: a gaierror, another exception, or addresses
pub data Resolved : Type 0 where
  unresolved fails : Resolved
  resolved : List Address → Resolved

-- what `urlparse(url).hostname` gives, in lower case
pub data Parsed : Type 0 where
  raises : Parsed
  no_host : Parsed
  host : String → Parsed

-- `is_safe_endpoint_url` on a URL that is not empty
abbrev pub decide_host : Tables → (String → Resolved) → Bool → Parsed → Verdict
decide_host tables resolve allow_private raises = refused invalid_url
decide_host tables resolve allow_private no_host = refused no_hostname
decide_host tables resolve allow_private (host name) =
    if is_unspecified_name name
    then refused unspecified_name
    else if is_localhost name
    then (if allow_private then safe else refused localhost)
    else elim (resolve name) [
      | unresolved ↦ safe
      | fails ↦ refused invalid_url
      | resolved addresses ↦ check_all tables allow_private addresses
    ]

-- `is_safe_endpoint_url`: an empty URL is one that is not set
unfoldable pub is_safe_endpoint_url :
    Tables → (String → Parsed) → (String → Resolved) → Bool → String → Verdict
unfolding check_all
is_safe_endpoint_url tables urlparse resolve allow_private url =
    if str_eq url "" then safe else decide_host tables resolve allow_private (urlparse url)
