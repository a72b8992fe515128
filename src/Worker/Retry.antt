-- ===== src/Worker/Retry.antt =====
-- The retries of the completion transaction within a pass.
-- apps/drainer/src/workers/dispatch.worker.ts
use win_back_ai.Store.{Store}
use win_back_ai.Completion.{SentArgs, mark_sent_with_quota}
use win_back_ai.Completion.Once.{mark_sent_idem}
use win_back_ai.Worker.{TxFault, rolled_back, complete}
use win_back_ai.Base.{Bool, ℕ, true, ◌≡◌, false, if◌then◌else◌, suc, ◌&&◌, ◌+◌, zero, arith, refl}

abbrev is_rolled_back : TxFault → Bool
is_rolled_back rolled_back = true
is_rolled_back _ = false

-- Every one of the next `n` attempts rolls back.
pub all_rolled_back : ℕ → ℕ → (ℕ → TxFault) → Bool
all_rolled_back zero i fault = true
all_rolled_back (suc n) i fault = is_rolled_back (fault i) && all_rolled_back n (i + 1) fault

-- However the attempts go, also where commits are made whose answers are lost, the loop leaves what
-- one completion leaves, unless every attempt rolls back: then it leaves the tables as they were.
-- So no retry counts an e-mail of the quota twice or logs it twice.
pub completes_once :
    (a : SentArgs) (n i : ℕ) (fault : ℕ → TxFault) (s : Store)
    → (complete n i fault a s).0
      ≡ (if all_rolled_back n i fault then s else (mark_sent_with_quota a s).1)
unfolding complete all_rolled_back
completes_once a zero i fault s = refl
completes_once a (suc n) i fault s = ground (
  arith,
  mark_sent_idem a s,
  completes_once a n (i + 1) fault s,
  completes_once a n (i + 1) fault (mark_sent_with_quota a s).1,
)
