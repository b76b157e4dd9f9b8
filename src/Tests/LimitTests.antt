-- ===== src/Tests/LimitTests.antt =====
-- core/services/retention_service.py and core/ratelimit.py at concrete inputs.
use py_runner.RateLimit.ClientIp.Forged.{through, client_ip-through}
use py_runner.RateLimit.ClientIp.{Text, Meta, client_ip}
use py_runner.Prelude.{
  pos, negsuc, some, ℕ, ◌+◌, ◌*◌, ◌<◌, ◌≤◌, ◌≡◌, ◌≢◌, ◌⊎◌, inl, refl, none, [], ◌∷◌, arith,
}
use py_runner.Retention.{
  Row, Settings, Script, seconds_per_day, get_runs_to_delete_for_script, is_kept, newest_first,
  insert_newest,
}
use py_runner.Retention.Newest.{In, at_least_as_new, get_runs_to_delete_for_script-old}
use py_runner.RateLimit.{Cache, hits}
use py_runner.RateLimit.Window.{count_at, budget, hits-budget}

abbrev settings : Settings
settings = record { retention_days = 0; retention_count = 1 }

abbrev old_run : Row
old_run = record { key = 1; created_at = 10 }

abbrev script : Script
script = record {
  days_override = none;
  count_override = none;
  runs = old_run ∷ record { key = 2; created_at = 20 } ∷ [];
}

get_runs_to_delete_for_script-old_example :
    In old_run script.runs
    × ((◌≢◌ {A = ℕ} 0 0) ⊎ (◌≢◌ {A = ℕ} 1 0))
    × (◌≢◌ {A = ℕ} 0 0 → 10 + 0 * seconds_per_day < 100)
    × (◌≢◌ {A = ℕ} 1 0 → 1 ≤ at_least_as_new old_run script.runs)
unfolding get_runs_to_delete_for_script is_kept newest_first insert_newest
get_runs_to_delete_for_script-old_example =
    get_runs_to_delete_for_script-old settings 100 script none none old_run (inl refl)

abbrev fresh : Cache
fresh k b = none

hits-budget_example :
    ((hits "login" 2 60 (61 ∷ 70 ∷ 119 ∷ []) fresh).1 ≡ budget 2 0 (61 ∷ 70 ∷ 119 ∷ []))
    × (count_at "login" 1 (hits "login" 2 60 (61 ∷ 70 ∷ 119 ∷ []) fresh).0 ≡ 0 + 3)
hits-budget_example = hits-budget "login" 2 60 1 (61 ∷ 70 ∷ 119 ∷ []) fresh (omega arith)

-- the addresses ::1 and 8::, and a header that a caller made up
abbrev caller : Text
caller = 58 ∷ 58 ∷ 49 ∷ []

abbrev inner_proxy : Text
inner_proxy = 56 ∷ 58 ∷ 58 ∷ []

abbrev made_up : Text
made_up = 54 ∷ 58 ∷ 44 ∷ 32 ∷ 44 ∷ 55 ∷ []

abbrev proxied : Meta
proxied = record {
  http_x_forwarded_for = through (some made_up) (caller ∷ inner_proxy ∷ []);
  remote_addr = some (57 ∷ []);
}

client_ip-through_example : client_ip (pos 2) proxied ≡ caller
client_ip-through_example =
    client_ip-through (some made_up) caller (inner_proxy ∷ []) proxied (refl, (refl, tt)) refl

-- too few entries, and no proxy trusted
client_ip_fallback :
    (client_ip (pos 5) proxied ≡ 57 ∷ []) × (client_ip (negsuc 0) proxied ≡ 57 ∷ [])
unfolding client_ip
client_ip_fallback = (refl, refl)
