-- ===== src/RateLimit/ClientIp.antt =====
-- core/ratelimit.py: the address that limits per client are keyed by. A text is its code points.
pub mod Forged
use py_runner.Prelude.{
  ℕ, zero, suc, ◌-◌, Bool, true, false, ◌&&◌, ◌||◌, Option, none, some, List, [], ◌∷◌, map, keep,
  length, any, ℤ, pos, negsuc, if◌then◌else◌, leb, ◌==◌,
}

abbrev pub Text : Type 0
Text = List ℕ

-- the code points that `str.strip` removes
abbrev pub is_space : ℕ → Bool
is_space c =
    (leb 9 c && leb c 13)
    || (leb 28 c && leb c 32)
    || (leb 8192 c && leb c 8202)
    || any (λ d. c == d) (133 ∷ 160 ∷ 5760 ∷ 8232 ∷ 8233 ∷ 8239 ∷ 8287 ∷ 12288 ∷ [])

abbrev pub lstrip : Text → Text
lstrip [] = []
lstrip (c ∷ cs) = let rest = lstrip cs in if is_space c then rest else c ∷ cs

abbrev pub strip_before : ℕ → Text → Text
strip_before c [] = if is_space c then [] else c ∷ []
strip_before c (d ∷ ds) = c ∷ d ∷ ds

abbrev pub rstrip : Text → Text
rstrip [] = []
rstrip (c ∷ cs) = strip_before c (rstrip cs)

abbrev pub strip : Text → Text
strip t = rstrip (lstrip t)

abbrev pub onto_first : ℕ → List Text → List Text
onto_first c [] = (c ∷ []) ∷ []
onto_first c (p ∷ ps) = (c ∷ p) ∷ ps

-- `str.split` at one code point
abbrev pub split : ℕ → Text → List Text
split sep [] = [] ∷ []
split sep (c ∷ cs) = let rest = split sep cs in if c == sep then [] ∷ rest else onto_first c rest

abbrev pub is_nonempty : Text → Bool
is_nonempty [] = false
is_nonempty (c ∷ cs) = true

abbrev pub comma : ℕ
comma = 44

-- `[p.strip() for p in header.split(",") if p.strip()]`
abbrev pub parts_of : Text → List Text
parts_of header = keep is_nonempty (map strip (split comma header))

abbrev pub or_empty : Option Text → Text
or_empty none = []
or_empty (some t) = t

abbrev pub item : ℕ → List Text → Option Text
item n [] = none
item zero (p ∷ ps) = some p
item (suc n) (p ∷ ps) = item n ps

-- the entries of `request.META` that are read
pub record Meta : Type 0 where
  pub http_x_forwarded_for : Option Text
  pub remote_addr : Option Text

-- "unknown"
abbrev pub unknown : Text
unknown = 117 ∷ 110 ∷ 107 ∷ 110 ∷ 111 ∷ 119 ∷ 110 ∷ []

abbrev pub direct_peer : Meta → Text
direct_peer meta =
    let addr = or_empty (meta.remote_addr) in if is_nonempty addr then addr else unknown

abbrev pub at_depth : ℕ → Meta → Text
at_depth depth meta =
    let parts = parts_of (or_empty (meta.http_x_forwarded_for)) in
    if leb depth (length parts)
    then or_empty (item (length parts - depth) parts)
    else direct_peer meta

-- `client_ip`, with the setting RATELIMIT_TRUSTED_PROXY_DEPTH
unfoldable pub client_ip : ℤ → Meta → Text
client_ip (negsuc n) meta = direct_peer meta
client_ip (pos zero) meta = direct_peer meta
client_ip (pos (suc n)) meta = at_depth (suc n) meta
