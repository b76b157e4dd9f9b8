-- ===== src/RateLimit/ClientIp/Forged.antt =====
-- What a caller writes into X-Forwarded-For does not change the address.
use py_runner.Prelude.{
  ℕ, zero, suc, ◌-◌, ◌≡◌, refl, ap, ◌∙◌, true, Option, none, some, List, [], ◌∷◌, ◌++◌, map, keep,
  length, length-append, All, pos, ◌==◌, ==_refl, Bool-cases, inl, inr, leb, le→leb, arith,
}
use py_runner.RateLimit.ClientIp.{
  Text, strip, split, is_nonempty, comma, parts_of, or_empty, item, Meta, client_ip,
}

split-cons : (sep : ℕ) (t : Text) → (p : Text) × (ps : List Text) × (split sep t ≡ p ∷ ps)
split-cons sep [] = ([], [], refl)
split-cons sep (c ∷ cs) =
    let (p, ps, e) = split-cons sep cs in
    elim (Bool-cases (c == sep)) [
      | inl h ↦ ([], split sep cs, rw h refl)
      | inr h ↦ (c ∷ p, ps, rw (h, e) refl)
    ]

-- text at a separator splits on both sides of it
split-append : (sep : ℕ) (s t : Text) → split sep (s ++ sep ∷ t) ≡ split sep s ++ split sep t
split-append sep [] t = rw (==_refl sep) refl
split-append sep (c ∷ cs) t =
    let (p, ps, e) = split-cons sep cs in
    elim (Bool-cases (c == sep)) [
      | inl h ↦ rw (h, split-append sep cs t) refl
      | inr h ↦ rw (h, split-append sep cs t, e) refl
    ]

map-append : (xs ys : List Text) → map strip (xs ++ ys) ≡ map strip xs ++ map strip ys
map-append [] ys = refl
map-append (x ∷ xs) ys = ap (λ t. strip x ∷ t) (map-append xs ys)

keep-append :
    (xs ys : List Text) → keep is_nonempty (xs ++ ys) ≡ keep is_nonempty xs ++ keep is_nonempty ys
keep-append [] ys = refl
keep-append ([] ∷ xs) ys = keep-append xs ys
keep-append ((c ∷ cs) ∷ xs) ys = ap (λ t. (c ∷ cs) ∷ t) (keep-append xs ys)

parts_of-append : (s t : Text) → parts_of (s ++ comma ∷ t) ≡ parts_of s ++ parts_of t
parts_of-append s t =
    rw (split-append comma s t, map-append (split comma s) (split comma t))
      (keep-append (map strip (split comma s)) (map strip (split comma t)))

parts_of-space : (t : Text) → parts_of (32 ∷ t) ≡ parts_of t
parts_of-space t = let (p, ps, e) = split-cons comma t in rw e refl

-- the header after a proxy has appended the address of its peer
abbrev pub forward : Option Text → Text → Text
forward none addr = addr
forward (some header) addr = header ++ comma ∷ 32 ∷ addr

-- the header after the proxies, the outermost first
abbrev pub through : Option Text → List Text → Option Text
through header [] = header
through header (addr ∷ addrs) = through (some (forward header addr)) addrs

-- an address stands for itself in a header
abbrev pub IsEntry : Text → Type 0
IsEntry addr = parts_of addr ≡ addr ∷ []

-- all addresses that proxies append to one header
append_assoc : (xs : List Text) (y : Text) (ys : List Text) → (xs ++ y ∷ []) ++ ys ≡ xs ++ y ∷ ys
append_assoc [] y ys = refl
append_assoc (x ∷ xs) y ys = ap (λ t. x ∷ t) (append_assoc xs y ys)

parts_of-forward :
    (header : Option Text) (addr : Text)
    → IsEntry addr
    → parts_of (forward header addr) ≡ parts_of (or_empty header) ++ addr ∷ []
parts_of-forward none addr entry = entry
parts_of-forward (some header) addr entry =
    parts_of-append header (32 ∷ addr) ∙ rw (parts_of-space addr, entry) refl

-- the entries of a header after the proxies
parts_of-through :
    (header : Option Text) (addr : Text) (addrs : List Text)
    → All IsEntry (addr ∷ addrs)
    → parts_of (or_empty (through header (addr ∷ addrs)))
      ≡ parts_of (or_empty header) ++ addr ∷ addrs
parts_of-through header addr [] (entry, none_left) = parts_of-forward header addr entry
parts_of-through header addr (next ∷ addrs) (entry, entries) =
    parts_of-through (some (forward header addr)) next addrs entries
    ∙ rw (parts_of-forward header addr entry)
        (append_assoc (parts_of (or_empty header)) addr (next ∷ addrs))

item-append :
    (n : ℕ) (xs : List Text) (y : Text) (ys : List Text)
    → n ≡ length xs
    → item n (xs ++ y ∷ ys) ≡ some y
item-append zero [] y ys h = refl
item-append zero (x ∷ xs) y ys h = absurd (omega arith)
item-append (suc n) [] y ys h = absurd (omega arith)
item-append (suc n) (x ∷ xs) y ys h = item-append n xs y ys (omega arith)

enough :
    (xs : List Text) (y : Text) (ys : List Text)
    → leb (suc (length ys)) (length (xs ++ y ∷ ys)) ≡ true
enough xs y ys =
    le→leb (suc (length ys)) (length (xs ++ y ∷ ys)) (omega (arith, length-append xs (y ∷ ys)))

-- Behind as many proxies as the setting says, each of which appends the address of its peer to the
-- header, the address is the one that the outermost proxy appended, whatever header the caller sent.
pub client_ip-through :
    (header : Option Text) (addr : Text) (addrs : List Text) (meta : Meta)
    → All IsEntry (addr ∷ addrs)
    → meta.http_x_forwarded_for ≡ through header (addr ∷ addrs)
    → client_ip (pos (length (addr ∷ addrs))) meta ≡ addr
unfolding client_ip
client_ip-through header addr addrs meta entries sent =
    let forged = parts_of (or_empty header) in
    rw
      (
        sent,
        parts_of-through header addr addrs entries,
        enough forged addr addrs,
        item-append (length (forged ++ addr ∷ addrs) - suc (length addrs)) forged addr addrs
            (omega (arith, length-append forged (addr ∷ addrs))),
      )
      refl
