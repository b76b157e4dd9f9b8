-- ===== src/Netguard/Blocked.antt =====
-- Which URLs the guard lets through.
use text.Mathlib.Text.{◌==◌ as str_eq}
use py_runner.Prelude.{
  Bool-cases, inl, inr, if◌then◌else◌, ◌≡◌, refl, ◌∙◌, String, Bool, true, false, not, ◌&&◌, ◌||◌,
  List, [], ◌∷◌, all, arith,
}
use py_runner.Netguard.{
  Resolved, unresolved, fails, resolved, raises, no_host, invalid_url, decide_host, Address, Tables,
  is_unspecified, always_blocked, unmapped, Verdict, safe, refused, Parsed, host, check_address,
  check_ip, check_all, is_unspecified_name, is_localhost, is_safe_endpoint_url,
}

abbrev pub is_accepted : Verdict → Bool
is_accepted safe = true
is_accepted (refused why) = false

module _ (tables : Tables) where
  -- An address that the operator's own hosts may have, and its IPv4 address if it is mapped: never
  -- an unspecified one or one of the blocked networks, and no internal one unless it is allowed.
  abbrev pub is_harmless : Bool → Address → Bool
  is_harmless allow_private given =
      let ip = unmapped given in
      not (is_unspecified ip || always_blocked ip || tables.is_link_local ip)
      && (allow_private
          || not (tables.is_loopback ip || tables.is_private ip || tables.is_reserved ip))

  check_address-harmless :
      (allow_private : Bool) (given ip : Address)
      → is_accepted (check_address tables allow_private given ip) ≡ (
          not (is_unspecified ip || always_blocked ip || tables.is_link_local ip)
          && (allow_private
              || not (tables.is_loopback ip || tables.is_private ip || tables.is_reserved ip)))
  check_address-harmless allow_private given ip = ground arith

  accepted_first :
      (v : Verdict) (more : Verdict)
      → is_accepted (elim v [ safe ↦ more | refused why ↦ refused why ])
        ≡ (is_accepted v && is_accepted more)
  accepted_first safe more = refl
  accepted_first (refused why) more = refl

  check_all-harmless :
      (allow_private : Bool) (ips : List Address)
      → is_accepted (check_all tables allow_private ips) ≡ all (is_harmless allow_private) ips
  unfolding check_all check_ip
  check_all-harmless allow_private [] = refl
  check_all-harmless allow_private (ip ∷ rest) =
      accepted_first (check_ip tables allow_private ip) (check_all tables allow_private rest)
      ∙ rw
          (
            check_address-harmless allow_private ip (unmapped ip),
            check_all-harmless allow_private rest,
          )
          refl

  accepted_addresses :
      (allow_private : Bool) (found : Resolved)
      → is_accepted (elim found [
        | unresolved ↦ safe
        | fails ↦ refused invalid_url
        | resolved ips ↦ check_all tables allow_private ips
      ])
        ≡ elim found [
          | unresolved ↦ true
          | fails ↦ false
          | resolved ips ↦ all (is_harmless allow_private) ips
        ]
  accepted_addresses allow_private unresolved = refl
  accepted_addresses allow_private fails = refl
  accepted_addresses allow_private (resolved ips) = check_all-harmless allow_private ips

  -- What the guard lets through for a parsed URL: a localhost name as the flag says, a name that does
  -- not resolve, and a name all of whose addresses are harmless.
  abbrev pub is_let_through : Bool → (String → Resolved) → Parsed → Bool
  is_let_through allow_private resolve raises = false
  is_let_through allow_private resolve no_host = false
  is_let_through allow_private resolve (host name) =
      not (is_unspecified_name name)
      && (if is_localhost name then allow_private else elim (resolve name) [
        | unresolved ↦ true
        | fails ↦ false
        | resolved ips ↦ all (is_harmless allow_private) ips
      ])

  decide_host-through :
      (resolve : String → Resolved) (allow_private : Bool) (parsed : Parsed)
      → is_accepted (decide_host tables resolve allow_private parsed)
        ≡ is_let_through allow_private resolve parsed
  decide_host-through resolve allow_private raises = refl
  decide_host-through resolve allow_private no_host = refl
  decide_host-through resolve allow_private (host name) =
      elim (Bool-cases (is_unspecified_name name)) [
        | inl t ↦ rw t refl
        | inr f ↦ elim (Bool-cases (is_localhost name)) [
          | inl l ↦ rw (f, l) (ground arith)
          | inr away ↦ rw (f, away) (accepted_addresses allow_private (resolve name))
        ]
      ]

  -- A URL is let through exactly in these cases: it is empty; its host is a localhost name and private
  -- networks are allowed; its host, which is not an unspecified or localhost name, does not resolve,
  -- or all its addresses are harmless. An address of the blocked networks, also as an IPv4-mapped IPv6
  -- address, is never harmless, and an internal one only if private networks are allowed.
  pub is_safe_endpoint_url-harmless :
      (urlparse : String → Parsed) (resolve : String → Resolved) (allow_private : Bool)
      (url : String)
      → is_accepted (is_safe_endpoint_url tables urlparse resolve allow_private url)
        ≡ (str_eq url "" || is_let_through allow_private resolve (urlparse url))
  unfolding is_safe_endpoint_url
  is_safe_endpoint_url-harmless urlparse resolve allow_private url =
      elim (Bool-cases (str_eq url "")) [
        | inl t ↦ rw t refl
        | inr f ↦ rw f (decide_host-through resolve allow_private (urlparse url))
      ]
