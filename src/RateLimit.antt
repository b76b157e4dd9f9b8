-- ===== src/RateLimit.antt =====
-- core/ratelimit.py: fixed windows over the shared cache. The cache key `{key}:{bucket}` is the pair
-- of its parts. Entries are never culled here but for the race that `culled` names; their lifetime
-- outlasts their window.
pub mod Window
pub mod ClientIp
use Prim.Native.String.{String}
use text.Mathlib.Text.{◌==◌ as str_eq}
use py_runner.Prelude.{
  ℕ, suc, ◌+◌, ◌-◌, ◌/◌, ◌%◌, Bool, true, false, ◌&&◌, Option, none, some, List, [], ◌∷◌,
  if◌then◌else◌, ltb, ◌==◌,
}

abbrev pub Cache : Type 0
Cache = String → ℕ → Option ℕ

abbrev pub put : String → ℕ → ℕ → Cache → Cache
put key bucket n cache k b = if str_eq key k && bucket == b then some n else cache k b

-- `cache.add`, which keeps a value that is there
abbrev pub add : String → ℕ → ℕ → Cache → Cache
add key bucket n cache = elim (cache key bucket) [ none ↦ put key bucket n cache | some m ↦ cache ]

abbrev pub or_zero : Option ℕ → ℕ
or_zero none = 0
or_zero (some n) = n

-- `rate_limit_exceeded`; `culled` is the race in which `incr` finds no key
unfoldable pub rate_limit_exceeded : String → ℕ → ℕ → Bool → ℕ → Cache → Cache × Bool
rate_limit_exceeded key limit window_seconds culled now cache =
    let bucket = now / window_seconds in
    let added = add key bucket 0 cache in
    let count = if culled then 1 else or_zero (added key bucket) + 1 in
    (put key bucket count added, ltb limit count)

-- `rate_limit_over`
unfoldable pub rate_limit_over : String → ℕ → ℕ → ℕ → Cache → Bool
rate_limit_over key limit window_seconds now cache =
    ltb limit (or_zero (cache key (now / window_seconds)))

-- `seconds_to_window_reset`, at a whole second
unfoldable pub seconds_to_window_reset : ℕ → ℕ → ℕ
seconds_to_window_reset window_seconds now =
    let left = window_seconds - now % window_seconds in if ltb left 1 then 1 else left

-- hits at the given times, none of them culled, with their answers
unfoldable pub hits : String → ℕ → ℕ → List ℕ → Cache → Cache × List Bool
hits key limit window_seconds [] cache = (cache, [])
hits key limit window_seconds (now ∷ later) cache =
    let (cache', over) = rate_limit_exceeded key limit window_seconds false now cache in
    let (last, answers) = hits key limit window_seconds later cache' in (last, over ∷ answers)
