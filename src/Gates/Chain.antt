-- ===== src/Gates/Chain.antt =====
-- The six gates of apps/drainer/src/dispatch/gate-chain.ts, each described by itself, and the chain.
use win_back_ai.Base.{ℕ, ◌≡◌, Bool, true, false, not, ◌||◌, Option, some, arith, ltb, leb, ◌↔◌}
use win_back_ai.Store.{Store}
use win_back_ai.Gates.{
  Runtime, DispatchContext, SendWindow, TerminalGate, suppression, consent, freshness, frequency,
  TransientGate, quiet_hours, quota, GateOutcome, suppressed, deferred, passed, is_suppressed,
  is_subscribed, has_qualifying_order_since, count_sent_since, cooldown_since,
  is_within_send_window, over_quota, run_gate_chain,
}
use win_back_ai.Completion.{get_quota_usage, utc_midnight}

-- Whether a gate would stop this target, whatever the other gates say.
pub terminal_hits : TerminalGate → ℕ → DispatchContext → Store → Bool
terminal_hits suppression now ctx s = is_suppressed ctx.customer_id s.suppressions
terminal_hits consent now ctx s = not (is_subscribed ctx.consent_state)
terminal_hits freshness now ctx s =
    has_qualifying_order_since ctx.customer_id ctx.generation_created_at s.orders
terminal_hits frequency now ctx s =
    ltb 0 (count_sent_since ctx.customer_id (cooldown_since ctx now) s.messages)
    || leb ctx.max_daily_sends_per_customer
        (count_sent_since ctx.customer_id (utc_midnight now) s.messages)

pub transient_hits : TransientGate → Runtime → ℕ → DispatchContext → SendWindow → Store → Bool
transient_hits quiet_hours rt now ctx w s = not w.in_window
transient_hits quota rt now ctx w s = over_quota ctx (get_quota_usage rt.first_of_month now s)

-- The terminal gates before a given one.
abbrev before : TerminalGate → TerminalGate → Bool
before suppression consent = true
before suppression freshness = true
before suppression frequency = true
before consent freshness = true
before consent frequency = true
before freshness frequency = true
before _ _ = false

-- What an outcome claims about the gates.
abbrev pub Explains : Runtime → ℕ → DispatchContext → SendWindow → Store → GateOutcome → Type 0
Explains rt now ctx w s (suppressed g) =
    (terminal_hits g now ctx s ≡ true)
    × ((e : TerminalGate) → before e g ≡ true → terminal_hits e now ctx s ≡ false)
Explains rt now ctx w s (deferred quiet_hours) =
    ((e : TerminalGate) → terminal_hits e now ctx s ≡ false)
    × (transient_hits quiet_hours rt now ctx w s ≡ true)
Explains rt now ctx w s (deferred quota) =
    ((e : TerminalGate) → terminal_hits e now ctx s ≡ false)
    × (transient_hits quiet_hours rt now ctx w s ≡ false)
    × (transient_hits quota rt now ctx w s ≡ true)
Explains rt now ctx w s passed =
    ((e : TerminalGate) → terminal_hits e now ctx s ≡ false)
    × ((q : TransientGate) → transient_hits q rt now ctx w s ≡ false)

abbrev pub window_of : Runtime → ℕ → DispatchContext → Option SendWindow
window_of rt now ctx =
    is_within_send_window rt ctx.timezone ctx.send_time_start_hour ctx.send_time_end_hour now

module _ (rt : Runtime) (now : ℕ) (ctx : DispatchContext) (s : Store) (w : SendWindow) where
  chain-Explains :
      window_of rt now ctx ≡ some w
      → (o : GateOutcome) → run_gate_chain rt now ctx s ≡ some o
      → Explains rt now ctx w s o
  unfolding run_gate_chain terminal_hits transient_hits
  chain-Explains h (suppressed suppression) e = (ground arith, λ g p. ground arith)
  chain-Explains h (suppressed consent) e = (ground arith, λ g p. ground arith)
  chain-Explains h (suppressed freshness) e = (ground arith, λ g p. ground arith)
  chain-Explains h (suppressed frequency) e = (ground arith, λ g p. ground arith)
  chain-Explains h (deferred quiet_hours) e = (λ g. ground arith, ground arith)
  chain-Explains h (deferred quota) e = (λ g. ground arith, ground arith, ground arith)
  chain-Explains h passed e = (λ g. ground arith, λ g. ground arith)

  explained_runs :
      window_of rt now ctx ≡ some w
      → (o : GateOutcome) → Explains rt now ctx w s o
      → run_gate_chain rt now ctx s ≡ some o
  unfolding run_gate_chain terminal_hits transient_hits
  explained_runs h (suppressed suppression) e = ground arith
  explained_runs h (suppressed consent) e = ground (arith, e.1 suppression)
  explained_runs h (suppressed freshness) e = ground (arith, e.1 suppression, e.1 consent)
  explained_runs h (suppressed frequency) e =
      ground (arith, e.1 suppression, e.1 consent, e.1 freshness)
  explained_runs h (deferred quiet_hours) e =
      ground (arith, e.0 suppression, e.0 consent, e.0 freshness, e.0 frequency)
  explained_runs h (deferred quota) e =
      ground (arith, e.0 suppression, e.0 consent, e.0 freshness, e.0 frequency)
  explained_runs h passed e = ground (
    arith,
    e.0 suppression,
    e.0 consent,
    e.0 freshness,
    e.0 frequency,
    e.1 quiet_hours,
    e.1 quota,
  )

  -- Where the send window is known, the chain's outcome is exactly the one that the six gates
  -- explain: a target is suppressed by the first terminal gate that hits, whatever the transient
  -- gates say; it is deferred only if no terminal gate hits, by the quiet hours before the quota;
  -- and it passes exactly if no gate hits.
  pub gate_chain_exact :
      window_of rt now ctx ≡ some w
      → (o : GateOutcome) → (run_gate_chain rt now ctx s ≡ some o) ↔ Explains rt now ctx w s o
  gate_chain_exact h o = (chain-Explains h o, explained_runs h o)
