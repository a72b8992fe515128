-- ===== src/Worker/AtMostOnce.antt =====
-- Sequences of passes of apps/drainer/src/workers/dispatch.worker.ts, and how often the provider
-- accepts an e-mail for one message in them.
use win_back_ai.Store.{Store}
use win_back_ai.Gates.{Runtime}
use win_back_ai.Worker.{Job, PassEnv, ack_lost, process_campaign_dispatch_job}
use win_back_ai.Worker.Stages.{charge, lock_of, Pays-process}
use win_back_ai.Base.{List, ℕ, All, [], ◌∷◌, ◌≢◌, ◌+◌, ◌≤◌, arith}

-- The passes of a worker, one after the other: a retried job is one more pass.
unfoldable pub run_passes : Runtime → List (PassEnv × Job) → Store → Store
run_passes rt [] s = s
run_passes rt ((env, job) ∷ passes) s =
    run_passes rt passes (process_campaign_dispatch_job rt env job s).store

-- How many e-mails the provider accepts for message `j` in these passes.
unfoldable pub accepted_for : Runtime → ℕ → List (PassEnv × Job) → Store → ℕ
accepted_for rt j [] s = 0
accepted_for rt j ((env, job) ∷ passes) s =
    let p = process_campaign_dispatch_job rt env job s in
    charge job j p + accepted_for rt j passes p.store

-- No answer of the provider is lost after it accepted an e-mail.
abbrev pub NoAckLost : PassEnv × Job → Type 0
NoAckLost (env, job) = env.reply ≢ ack_lost

accepted-le-lock :
    (rt : Runtime) (j : ℕ) (passes : List (PassEnv × Job)) (s : Store)
    → All NoAckLost passes
    → accepted_for rt j passes s + lock_of j s ≤ lock_of j (run_passes rt passes s)
unfolding run_passes accepted_for
accepted-le-lock rt j [] s clean = omega arith
accepted-le-lock rt j ((env, job) ∷ passes) s clean =
    let p = process_campaign_dispatch_job rt env job s in
    omega (arith, accepted-le-lock rt j passes p.store clean.1, Pays-process env job j clean.0 rt s)

-- From any state of the tables and over any sequence of passes, with crashes and database faults
-- anywhere, the provider accepts at most one e-mail for a message, provided that it loses no
-- acknowledgement; and none at all if the message's target is already sending, sent, suppressed or
-- failed.
pub sends_at_most_once :
    (rt : Runtime) (j : ℕ) (passes : List (PassEnv × Job)) (s : Store)
    → All NoAckLost passes
    → accepted_for rt j passes s + lock_of j s ≤ 1
sends_at_most_once rt j passes s clean = ground (arith, accepted-le-lock rt j passes s clean)
