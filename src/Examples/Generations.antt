-- ===== src/Examples/Generations.antt =====
-- A merchant whose customers 1 and 2 fall dormant, and the jobs of their generations.
use win_back_ai.Store.{Band}
use win_back_ai.Generation.Runs.{job, handle, start}
use win_back_ai.Generation.{
  Model, estimate_cost_microcents, provider_cost_rates, Provider, spend_key, sum_month_spend,
  Generation, generation_key, completed_with,
}
use win_back_ai.Base.{
  ℕ, count_if, find_by, ◌*◌, IsUnique, length, some, true, ◌+◌, ◌∷◌, ◌≡◌, [], arith, false, ◌≤◌,
  ◌↔◌, refl, ◌<◌,
}
use win_back_ai.Generation.Handler.{
  AiConfig, AiSettings, GenerationDb, HandlerEnv, StateEvent, check_spend, new_generation,
  BillingStatus, monthly_cap_exceeded, new_draft, handle_customer_state_changed,
}
use win_back_ai.Generation.Job.{
  JobEnv, process_ai_generate_job, generated, completed_job, already_terminal, lost_race,
}
use win_back_ai.Generation.Hourly.{handle_all, hourly_cap_bound}
use win_back_ai.Generation.Completed.{IsCompletion}
use win_back_ai.Generation.Costs.{exact_cost, microcents_per_cent, cost_bounds, spend_check_exact}
use win_back_ai.Generation.Once.{job_completes, double_pickup}
use win_back_ai.Generation.Echo.{IsEchoed, drafts_echo}
use win_back_ai.Generation.Finished.{finished_stays}

abbrev hour : ℕ
hour = 480000

abbrev midday : ℕ
midday = 480000 * 3600000

abbrev settings : AiSettings
settings = record {
  monthly_ai_spend_cap_cents = 1000;
  hourly_generation_cap = 1;
  ai_tone_is_valid = true;
  winback_discount_enabled = true;
  winback_discount_percent = 10;
}

abbrev config : AiConfig
config = record {
  ai_provider = Provider.openai;
  ai_model = Model.gpt_4_1_mini;
  ai_max_tokens = 400;
}

abbrev env_at : ℕ → ℕ → HandlerEnv
env_at minute x = record {
  now = midday + minute * 60000;
  fresh_id = x;
  month_start = λ t. 479000 * 3600000;
  config = config;
  redis_is_up = true;
  queue_is_up = true;
}

abbrev falls : ℕ → StateEvent
falls x = record {
  event_id = x;
  customer_id = x;
  old_state = Band.at_risk;
  new_state = Band.dormant;
}

abbrev empty : GenerationDb
empty = record {
  billing = some BillingStatus.active;
  merchant_exists = true;
  settings = some settings;
  recipients = record { id = 1; is_deleted = false } ∷ record { id = 2; is_deleted = false } ∷ [];
  counters = [];
  buckets = record { date = 478992 * 3600000; spent_microcents = 500; generation_count = 1 } ∷ [];
  generations = [];
  drafts = [];
  jobs = [];
  audit = [];
}

-- After the event of customer 1.
abbrev first_env : HandlerEnv
first_env = env_at 3 71

abbrev waiting : GenerationDb
waiting = record empty {
  generations = new_generation first_env (falls 1) settings ∷ [];
  drafts = new_draft first_env (falls 1) ∷ [];
}

abbrev job_env : ℕ → (GenerationDb → GenerationDb) → JobEnv
job_env minute meanwhile = record {
  picked_at = midday + minute * 60000;
  completed_at = midday + minute * 60000 + 2000;
  config = config;
  reply = generated "Come back" 300 100;
  code = "WB-1";
  minted = true;
  substitute = λ text code percent. text;
  meanwhile = meanwhile;
}

abbrev quiet : JobEnv
quiet = job_env 4 (λ db. db)

cost_bounds_example :
    (c : ℕ) × (c' : ℕ) × (estimate_cost_microcents Provider.openai Model.gpt_4_1_mini 300 100
      ≡ some c)
    × (estimate_cost_microcents Provider.openai Model.gpt_4_1_mini 500 400 ≡ some c')
    × (c ≤ c')
    × (c * 1000000
        ≤ exact_cost (record { input_per_1m = 40000000; output_per_1m = 160000000 }) 300 100)
    × (exact_cost (record { input_per_1m = 40000000; output_per_1m = 160000000 }) 300 100
        < (c + 2) * 1000000)
unfolding provider_cost_rates
cost_bounds_example =
    cost_bounds Provider.openai Model.gpt_4_1_mini 300 100 500 400 refl (omega arith) (omega arith)

spend_check_exact_example :
    ((check_spend first_env (falls 1) settings empty).1 ≡ monthly_cap_exceeded) ↔ (
      settings.monthly_ai_spend_cap_cents * microcents_per_cent
      < 10 * (sum_month_spend first_env.month_start first_env.now empty.buckets + 84000))
unfolding estimate_cost_microcents provider_cost_rates
spend_check_exact_example = spend_check_exact first_env (falls 1) settings empty 84000 refl

hourly_cap_bound_example :
    length (handle_all ((env_at 3 71, falls 1) ∷ (env_at 9 72, falls 2) ∷ []) empty).generations
    ≤ length empty.generations + settings.hourly_generation_cap
unfolding find_by
hourly_cap_bound_example =
    hourly_cap_bound 480000 settings ((env_at 3 71, falls 1) ∷ (env_at 9 72, falls 2) ∷ []) empty
      refl refl (refl, (refl, tt))

waiting-IsUnique : IsUnique spend_key waiting.buckets
unfolding count_if
waiting-IsUnique x = ground arith

job_completes_example :
    ((process_ai_generate_job quiet 71 waiting).1 ≡ completed_job)
    × IsCompletion quiet 71 0
        (new_generation first_env (falls 1) settings)
        (some 10)
        "Come back"
        28000
        waiting
        (process_ai_generate_job quiet 71 waiting).0
    × (process_ai_generate_job
          (job_env 6 (λ db. db))
          71
          (process_ai_generate_job quiet 71 waiting).0
        ≡ ((process_ai_generate_job quiet 71 waiting).0, already_terminal))
unfolding find_by estimate_cost_microcents provider_cost_rates
job_completes_example =
    job_completes quiet 71 0 waiting {content = "Come back"} {i = 300} {o = 100}
      (job_env 6 (λ db. db)) refl (refl, omega arith, refl, refl, refl) refl refl waiting-IsUnique

-- A second worker whose provider answers after the first worker is done.
abbrev late : JobEnv
late = job_env 5 (λ db. (process_ai_generate_job quiet 71 db).0)

double_pickup_example :
    process_ai_generate_job late 71 waiting
    ≡ ((process_ai_generate_job quiet 71 waiting).0, lost_race)
unfolding find_by estimate_cost_microcents provider_cost_rates
double_pickup_example =
    double_pickup quiet late 71 waiting "Come back" "Come back" 300 100 28000 300 100 28000 refl
      (refl, omega arith, refl, refl, refl) refl (refl, omega arith, refl, refl, refl) refl
      waiting-IsUnique

abbrev finished : Generation
finished =
    completed_with "Come back" 28000 (some "WB-1") (new_generation first_env (falls 1) settings)

abbrev settled : GenerationDb
settled = record waiting { generations = finished ∷ [] }

finished_stays_example :
    find_by generation_key 71
      (process_ai_generate_job late 71
        (handle_customer_state_changed (env_at 9 72) (falls 2) settled).0).0.generations
    ≡ some finished
unfolding find_by
finished_stays_example =
    finished_stays 71 {g = finished} refl settled _
      (job _ late 71 (handle settled (env_at 9 72) (falls 2) start) (job _ quiet 71 start start))
      refl

drafts_echo_example :
    IsEchoed
      (process_ai_generate_job late 71
        (handle_customer_state_changed first_env (falls 1) empty).0).0
unfolding find_by
drafts_echo_example =
    drafts_echo empty _
      (job _ late 71 (handle empty first_env (falls 1) start) (job _ quiet 71 start start))
      (λ y. refl)
