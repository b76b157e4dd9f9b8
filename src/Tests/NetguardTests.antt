-- ===== src/Tests/NetguardTests.antt =====
-- core/netguard.py at concrete addresses.
use text.Mathlib.Text.{◌==◌ as str_eq}
use Prim.Native.Nat.{◌^◌}
use py_runner.Prelude.{
  ◌||◌, ℕ, ◌≡◌, refl, ◌+◌, ◌*◌, ◌/◌, String, Bool, true, false, List, [], ◌∷◌, all, ◌==◌,
}
use py_runner.Netguard.{
  Resolved, resolved, Address, ipv4, ipv6, Tables, of_bytes, Parsed, host, is_safe_endpoint_url,
}
use py_runner.Netguard.Blocked.{
  is_let_through, is_accepted, is_harmless, is_safe_endpoint_url-harmless,
}

-- 127.0.0.0/8, 10.0.0.0/8 and 240.0.0.0/4 stand for ipaddress's tables
abbrev first_byte : ℕ → Address → Bool
first_byte b (ipv4 n) = n / 2 ^ 24 == b
first_byte b (ipv6 n) = false

abbrev tables : Tables
tables = record {
  is_link_local = λ a. false;
  is_loopback = first_byte 127;
  is_private = first_byte 10;
  is_reserved = first_byte 240;
}

-- a public address, and the metadata service as an IPv4-mapped address
abbrev addresses : List Address
addresses = ipv4 (of_bytes 93 184 216 34) ∷ ipv6 (65535 * 2 ^ 32 + of_bytes 169 254 169 254) ∷ []

abbrev a_host : String → Parsed
a_host url = host "metadata.example"

abbrev resolve : String → Resolved
resolve name = resolved addresses

metadata_refused : all (is_harmless tables true) addresses ≡ false
metadata_refused = refl

is_safe_endpoint_url-harmless_example :
    is_accepted (is_safe_endpoint_url tables a_host resolve true "http://metadata.example") ≡ (
      str_eq "http://metadata.example" ""
      || is_let_through tables true resolve (a_host "http://metadata.example"))
is_safe_endpoint_url-harmless_example =
    is_safe_endpoint_url-harmless tables a_host resolve true "http://metadata.example"
