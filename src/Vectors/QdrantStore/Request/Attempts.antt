-- ===== src/Vectors/QdrantStore/Request/Attempts.antt =====
-- Which attempts a request makes.
use py_runner.Prelude.{
  ℕ, zero, suc, ◌+◌, ◌<◌, ◌≤◌, ◌≡◌, refl, sym, ◌∙◌, Bool, true, false, ◌||◌, List, [], ◌∷◌, length,
  leb, ◌==◌, arith,
}
use py_runner.Vectors.Slices.{take}
use py_runner.Vectors.QdrantStore.Request.{
  Reply, unreachable, answered, retry_backoff, try_once, attempts_from, request,
}

module _ {N : Type 0} where
  -- no answer, status 429 or a status from 500 on
  abbrev pub is_transient : Reply N → Bool
  is_transient unreachable = true
  is_transient (answered response) = response.status_code == 429 || leb 500 response.status_code

  try_once-transient :
      (allow_404 : Bool) (reply : Reply N) → (try_once allow_404 reply).1 ≡ is_transient reply
  try_once-transient allow_404 unreachable = refl
  try_once-transient allow_404 (answered response) = ground arith

module _ {N : Type 0} (allow_404 : Bool) (session : ℕ → Reply N) where
  at_zero : (n : ℕ) → n + 0 ≡ n
  at_zero n = omega arith

  later : (n j : ℕ) → n + 1 + j ≡ n + suc j
  later n j = omega arith

  one_more : (i : ℕ) → i + 1 + 1 ≡ suc i + 1
  one_more i = omega arith

  from_zero : (i : ℕ) → 0 + i ≡ i
  from_zero i = omega arith

  attempts_from-settled :
      (i n : ℕ) (delays : List ℕ)
      → i ≤ length delays
      → ((j : ℕ) → j < i → is_transient (session (n + j)) ≡ true)
      → (i < length delays → is_transient (session (n + i)) ≡ false)
      → attempts_from allow_404 session n delays ≡ record {
        result = (try_once allow_404 (session (n + i))).0;
        delays = take i delays;
        attempts = i + 1;
      }
  unfolding attempts_from
  attempts_from-settled zero n [] within failed settled = rw (at_zero n) refl
  attempts_from-settled (suc i) n [] within failed settled = absurd (omega (arith, within))
  attempts_from-settled zero n (delay ∷ rest) within failed settled =
      let done : is_transient (session n) ≡ false = rw (sym (at_zero n)) (settled (omega arith)) in
      rw (try_once-transient allow_404 (session n) ∙ done, at_zero n) refl
  attempts_from-settled (suc i) n (delay ∷ rest) within failed settled =
      let again : is_transient (session n) ≡ true = rw (sym (at_zero n)) (failed 0 (omega arith)) in
      let more =
        attempts_from-settled i (n + 1) rest (omega (arith, within))
          (λ j lt. rw (later n j) (failed (suc j) (omega (arith, lt))))
          (λ lt. rw (later n i) (settled (omega (arith, lt)))) in
      rw (try_once-transient allow_404 (session n) ∙ again, more, later n i) (rw (one_more i) refl)

  -- A request is tried until an attempt is answered with a status other than 429 and below 500, at
  -- most four times. It gives what that attempt, or else the fourth, brought, and has waited once
  -- before each of the further attempts, for the next of the delays.
  pub request-settled :
      (i : ℕ)
      → i ≤ 3
      → ((j : ℕ) → j < i → is_transient (session j) ≡ true)
      → (i < 3 → is_transient (session i) ≡ false)
      → request allow_404 session ≡ record {
        result = (try_once allow_404 (session i)).0;
        delays = take i retry_backoff;
        attempts = i + 1;
      }
  unfolding request
  request-settled i within failed settled =
      let found =
        attempts_from-settled i 0 retry_backoff within (λ j lt. rw (from_zero j) (failed j lt))
          (λ lt. rw (from_zero i) (settled lt)) in
      rw (from_zero i) at found
