-- ===== src/Throttle/Client/Attempts.antt =====
-- How many requests a query makes, and how it ends.
use win_back_ai.Throttle.Client.{
  graphql, conclude, go_on, sleep, ClientEnv, ClientState, Outcome, Reply, Verdict, network_error,
  unauthorized, too_many, other_status, not_json, answer, retry, finish, success, token_revoked,
  rate_limited, api_error, throttled, other_errors, no_errors, attempts, judge, send,
}
use win_back_ai.Base.{
  Bool-cases, inl, inr, ◌∙◌, ap, ◌≤◌, if◌then◌else◌, suc, zero, ◌+◌, arith, some, none, ℕ, Bool,
  ◌≡◌, true, false, refl,
}

abbrev pub is_retryable : Reply → Bool
is_retryable network_error = true
is_retryable (too_many h) = true
is_retryable other_status = true
is_retryable (answer t throttled d) = true
is_retryable r = false

-- What the last reply says.
abbrev pub outcome_of : Reply → Outcome
outcome_of unauthorized = token_revoked
outcome_of (too_many h) = rate_limited
outcome_of (answer t throttled d) = rate_limited
outcome_of (answer t no_errors true) = success
outcome_of r = api_error

abbrev pub is_unauthorized : Reply → Bool
is_unauthorized unauthorized = true
is_unauthorized r = false

-- The number of replies from an attempt on that are retryable, before the first one that is not, `left` at most.
unfoldable pub retries : (ℕ → Reply) → ℕ → ℕ → ℕ
retries reply zero attempt = 0
retries reply (suc left) attempt =
    let more = retries reply left (attempt + 1) in
    if is_retryable (reply attempt) then more + 1 else 0

-- A verdict goes on just for a retryable reply, and else ends as the reply says.
abbrev IsFair : ClientState → Reply → Verdict × ClientState → Type 0
IsFair s r (retry ms e, s') =
    (is_retryable r ≡ true)
    × (e ≡ outcome_of r)
    × (s'.sent ≡ s.sent)
    × (s'.revoked ≡ s.revoked)
    × (is_unauthorized r ≡ false)
IsFair s r (finish o, s') =
    (is_retryable r ≡ false)
    × (o ≡ outcome_of r)
    × (s'.sent ≡ s.sent)
    × (s'.revoked ≡ (if is_unauthorized r then true else s.revoked))

judge-IsFair :
    (env : ClientEnv) (attempt : ℕ) (r : Reply) (s : ClientState)
    → IsFair s r (judge env attempt r s)
unfolding judge
judge-IsFair env attempt network_error s = (refl, refl, refl, refl, refl)
judge-IsFair env attempt unauthorized s = (refl, refl, refl, refl)
judge-IsFair env attempt (too_many h) s = (refl, refl, refl, refl, refl)
judge-IsFair env attempt other_status s = (refl, refl, refl, refl, refl)
judge-IsFair env attempt not_json s = (refl, refl, refl, refl)
judge-IsFair env attempt (answer none throttled d) s = (refl, refl, refl, refl, refl)
judge-IsFair env attempt (answer (some t) throttled d) s = (refl, refl, refl, refl, refl)
judge-IsFair env attempt (answer none other_errors d) s = (refl, refl, refl, refl)
judge-IsFair env attempt (answer (some t) other_errors d) s = (refl, refl, refl, refl)
judge-IsFair env attempt (answer none no_errors true) s = (refl, refl, refl, refl)
judge-IsFair env attempt (answer (some t) no_errors true) s = (refl, refl, refl, refl)
judge-IsFair env attempt (answer none no_errors false) s = (refl, refl, refl, refl)
judge-IsFair env attempt (answer (some t) no_errors false) s = (refl, refl, refl, refl)

-- The end of a query with this last reply and this many requests.
abbrev Ends : Reply → ℕ → Bool → Outcome × ClientState → Type 0
Ends r n revoked (o, t) =
    (o ≡ outcome_of r) × (t.sent ≡ n) × (t.revoked ≡ (if is_unauthorized r then true else revoked))

concluded :
    (r : Reply) (s : ClientState) (p : Verdict × ClientState)
    → IsFair s r p
    → Ends r s.sent s.revoked (conclude p)
concluded r s (retry ms e, s') f = (f.1, f.2, rw f.4 f.3)
concluded r s (finish o, s') f = (f.1, f.2, f.3)

continued :
    (r r' : Reply) (s : ClientState) (n : ℕ) (next : ClientState → Outcome × ClientState)
    (p : Verdict × ClientState)
    → IsFair s r p
    → ((t : ClientState) → t.sent ≡ s.sent → t.revoked ≡ s.revoked → Ends r' n s.revoked (next t))
    → Ends
        (if is_retryable r then r' else r)
        (if is_retryable r then n else s.sent)
        s.revoked
        (go_on next p)
continued r r' s n next (retry ms e, s') f h = rw f.0 (h (sleep ms s') f.2 f.3)
continued r r' s n next (finish o, s') f h = rw f.0 (f.1, f.2, f.3)

attempts_lem :
    (env : ClientEnv) (left attempt : ℕ) (s : ClientState)
    → Ends
        (env.reply (attempt + retries env.reply left attempt))
        (s.sent + retries env.reply left attempt + 1)
        s.revoked
        (attempts env left attempt s)
unfolding attempts retries send
attempts_lem env zero attempt s =
    let same : attempt + 0 ≡ attempt = omega arith in
    let one : s.sent + 0 + 1 ≡ s.sent + 1 = omega arith in
    rw (same, one)
      (concluded (env.reply attempt) (send env attempt s)
        (judge env attempt (env.reply attempt) (send env attempt s))
        (judge-IsFair env attempt (env.reply attempt) (send env attempt s)))
attempts_lem env (suc left) attempt s = elim (Bool-cases (is_retryable (env.reply attempt))) [
  | inl e ↦ rw (e, further, more) (rw e at (step (λ t. attempts_lem env left (attempt + 1) t)))
  | inr e ↦
      let same : attempt + 0 ≡ attempt = omega arith in
      let one : s.sent + 0 + 1 ≡ s.sent + 1 = omega arith in
      rw (e, same, one) (rw e at (step (λ t. attempts_lem env left (attempt + 1) t)))
]
  where
    k : ℕ
    k = retries env.reply left (attempt + 1)

    further : attempt + (k + 1) ≡ attempt + 1 + k
    further = omega arith

    more : s.sent + (k + 1) + 1 ≡ s.sent + 1 + k + 1
    more = omega arith

    step :
        ((t : ClientState)
          → Ends
              (env.reply (attempt + 1 + k))
              (t.sent + k + 1)
              t.revoked
              (attempts env left (attempt + 1) t))
        → Ends
            (if is_retryable (env.reply attempt)
              then env.reply (attempt + 1 + k)
              else env.reply attempt)
            (if is_retryable (env.reply attempt) then s.sent + 1 + k + 1 else s.sent + 1)
            s.revoked
            (attempts env (suc left) attempt s)
    step all =
        continued (env.reply attempt) (env.reply (attempt + 1 + k)) (send env attempt s)
          (s.sent + 1 + k + 1) (λ t. attempts env left (attempt + 1) t)
          (judge env attempt (env.reply attempt) (send env attempt s))
          (judge-IsFair env attempt (env.reply attempt) (send env attempt s))
          (λ t a b.
            let ih = all t in
            (
              ih.0,
              ih.1 ∙ ap (λ n. n + k + 1) a,
              ih.2 ∙ ap (λ v. if is_unauthorized (env.reply (attempt + 1 + k)) then true else v) b,
            ))

retries-le : (reply : ℕ → Reply) (left attempt : ℕ) → retries reply left attempt ≤ left
unfolding retries
retries-le reply zero attempt = omega arith
retries-le reply (suc left) attempt = ground (arith, retries-le reply left (attempt + 1))

-- A query of a merchant with a usable token ends: it makes one request more than it has retryable replies before the
-- first other one, and never more than one above the limit of retries. Retryable are network errors, throttled answers
-- and every status outside 2xx but 401, so 4xx too. How the query ends is what the last of these replies says, and the
-- token is marked as revoked just if that reply is a 401 or it was so before.
pub graphql_ends :
    (env : ClientEnv) (max_retries : ℕ) (s : ClientState)
    → ((graphql env max_retries true s).1.sent ≡ s.sent + retries env.reply max_retries 0 + 1)
      × (retries env.reply max_retries 0 ≤ max_retries)
      × ((graphql env max_retries true s).0
          ≡ outcome_of (env.reply (retries env.reply max_retries 0)))
      × ((graphql env max_retries true s).1.revoked ≡ (
          if is_unauthorized (env.reply (retries env.reply max_retries 0))
          then true
          else s.revoked))
unfolding graphql
graphql_ends env max_retries s =
    let ends = attempts_lem env max_retries 0 s in
    let first : 0 + retries env.reply max_retries 0 ≡ retries env.reply max_retries 0 =
      omega arith in
    (ends.1, retries-le env.reply max_retries 0, rw first at ends.0, rw first at ends.2)
