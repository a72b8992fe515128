-- ===== src/Generation/Hourly.antt =====
-- The hourly cap on generations, over the runs of the handler within an hour.
use Prim.Native.Nat.{min}
use mathlib.Core.Path.{subst}
use win_back_ai.Base.{
  ℕ, List, Option, ◌≡◌, arith, length, some, [], find_by, ◌++◌, ◌+◌, ◌∷◌, ◌≤◌, refl, ◌*◌,
  length-append, if_either, none, All, ◌/◌, suc, sym, if◌then◌else◌, ltb, updated_or,
  find_by-upsert_by, ◌∙◌, ap, ==_iff,
}
use win_back_ai.Generation.Handler.{
  AiSettings, GenerationDb, check_spend, create_generation, HandlerEnd, HandlerEnv, generate_for,
  StateEvent, handle_customer_state_changed, new_generation, check_estimate, check_rate,
  check_settings, unknown_model, estimated_input_tokens,
}
use win_back_ai.Generation.{
  Counter, counter_key, count_of, hour_bucket_ms, incr_with_ttl, increment_and_check,
  estimate_cost_microcents, new_counter,
}

-- The runs of the handler for the events of one merchant, one after another.
unfoldable pub handle_all : List (HandlerEnv × StateEvent) → GenerationDb → GenerationDb
handle_all [] db = db
handle_all ((env, e) ∷ rs) db = handle_all rs (handle_customer_state_changed env e db).0

-- The settings and the counters stay, and at most one generation is added.
abbrev IsOneMore : GenerationDb → GenerationDb × HandlerEnd → Type 0
IsOneMore db (db', k) =
    (db'.settings ≡ db.settings)
    × (db'.counters ≡ db.counters)
    × (length db'.generations ≤ length db.generations + 1)

IsOneMore-same : (db : GenerationDb) (k : HandlerEnd) → IsOneMore db (db, k)
IsOneMore-same db k = (refl, refl, omega arith)

IsOneMore-create_generation :
    (env : HandlerEnv) (e : StateEvent) (st : AiSettings) (db : GenerationDb)
    → IsOneMore db (create_generation env e st db)
unfolding create_generation
IsOneMore-create_generation env e st db =
    if_either (IsOneMore db) env.queue_is_up _ _ (λ h. (refl, refl, more)) (λ h. (refl, refl, more))
  where
    more : length (db.generations ++ new_generation env e st ∷ []) ≤ length db.generations + 1
    more = omega (arith, length-append db.generations (new_generation env e st ∷ []))

IsOneMore-generate_for :
    (env : HandlerEnv) (e : StateEvent) (st : AiSettings) (db : GenerationDb)
    → IsOneMore db (generate_for env e st db)
unfolding generate_for
IsOneMore-generate_for env e st db = ground (arith, IsOneMore-create_generation env e st db)

IsOneMore-check_estimate :
    (env : HandlerEnv) (e : StateEvent) (st : AiSettings) (db : GenerationDb) (o : Option ℕ)
    → IsOneMore db (check_estimate env e st db o)
unfolding check_estimate
IsOneMore-check_estimate env e st db none = IsOneMore-same db unknown_model
IsOneMore-check_estimate env e st db (some estimate) =
    ground (arith, IsOneMore-generate_for env e st db)

-- The counter of the hour lives to its end.
abbrev IsLive : ℕ → Option Counter → Type 0
IsLive hour none = Unit
IsLive hour (some c) = (hour + 1) * hour_bucket_ms ≤ c.expires_at

-- After some runs within the hour, with `n` generations before them.
abbrev IsWithin : ℕ → AiSettings → ℕ → GenerationDb → Type 0
IsWithin hour st n db =
    (db.settings ≡ some st)
    × IsLive hour (find_by counter_key hour db.counters)
    × (length db.generations
        ≤ n + min (count_of (find_by counter_key hour db.counters)) st.hourly_generation_cap)

module _ (hour : ℕ) (st : AiSettings) (n : ℕ) where
  -- The counter of the hour after another call.
  counted :
      (now : ℕ) (cs : List Counter)
      → now / hour_bucket_ms ≡ hour
      → IsLive hour (find_by counter_key hour cs)
      → IsLive hour (find_by counter_key hour (incr_with_ttl now (now / hour_bucket_ms) cs))
        × (count_of (find_by counter_key hour (incr_with_ttl now (now / hour_bucket_ms) cs))
            ≡ suc (count_of (find_by counter_key hour cs)))
  unfolding incr_with_ttl
  counted now cs e l =
      subst (λ o. IsLive hour o × (count_of o ≡ suc (count_of (find_by counter_key hour cs))))
        (sym found_counter) (go (find_by counter_key hour cs) l)
    where
      bumped : Counter → Counter
      bumped c =
          if ltb now c.expires_at
          then record c { count = c.count + 1 }
          else new_counter now (now / hour_bucket_ms)

      found_counter :
          find_by counter_key hour (incr_with_ttl now (now / hour_bucket_ms) cs)
          ≡ some (
              updated_or bumped
                (new_counter now (now / hour_bucket_ms))
                (find_by counter_key hour cs))
      found_counter =
          find_by-upsert_by counter_key (now / hour_bucket_ms) hour bumped
            (new_counter now (now / hour_bucket_ms)) cs (λ c q. ground (arith, q)) refl
          ∙ ap
              (λ b.
                if b
                then some (
                    updated_or bumped (new_counter now (now / hour_bucket_ms))
                      (find_by counter_key hour cs))
                else find_by counter_key hour cs)
              ((==_iff (now / hour_bucket_ms) hour).1 e)

      go :
          (o : Option Counter)
          → IsLive hour o
          → IsLive hour (some (updated_or bumped (new_counter now (now / hour_bucket_ms)) o))
            × (count_of (some (updated_or bumped (new_counter now (now / hour_bucket_ms)) o))
                ≡ suc (count_of o))
      go none l = (omega arith, refl)
      go (some c) l = ground (arith, l, e)

  IsWithin-check_rate :
      (env : HandlerEnv) (e : StateEvent) (db : GenerationDb)
      → env.now / hour_bucket_ms ≡ hour
      → IsWithin hour st n db
      → IsWithin hour st n (check_rate env e st db).0
  unfolding check_rate increment_and_check check_spend
  IsWithin-check_rate env e db h w = ground (
    arith,
    w,
    counted env.now db.counters h w.1,
    IsOneMore-check_estimate env e st
        (record db { counters = incr_with_ttl env.now (env.now / hour_bucket_ms) db.counters })
        (estimate_cost_microcents env.config.ai_provider env.config.ai_model estimated_input_tokens
          env.config.ai_max_tokens),
  )

  IsWithin-handle :
      (env : HandlerEnv) (e : StateEvent) (db : GenerationDb)
      → env.now / hour_bucket_ms ≡ hour
      → IsWithin hour st n db
      → IsWithin hour st n (handle_customer_state_changed env e db).0
  unfolding handle_customer_state_changed
  IsWithin-handle env e db h w = ground (arith, w, settings)
    where
      settings : IsWithin hour st n (check_settings env e db db.settings).0
      settings =
          subst (λ o. IsWithin hour st n (check_settings env e db o).0) (sym w.0)
            (IsWithin-check_rate env e db h w)

  IsWithin-handle_all :
      (rs : List (HandlerEnv × StateEvent)) (db : GenerationDb)
      → All (λ r. r.0.now / hour_bucket_ms ≡ hour) rs
      → IsWithin hour st n db
      → IsWithin hour st n (handle_all rs db)
  unfolding handle_all
  IsWithin-handle_all [] db h w = w
  IsWithin-handle_all ((env, e) ∷ rs) db h w =
      IsWithin-handle_all rs _ h.1 (IsWithin-handle env e db h.0 w)

-- However many events are handled within an hour, from tables with settings and without a counter of that hour, at most as many
-- generations are created as the hourly cap of the settings allows.
pub hourly_cap_bound :
    (hour : ℕ) (st : AiSettings) (rs : List (HandlerEnv × StateEvent)) (db : GenerationDb)
    → db.settings ≡ some st
    → find_by counter_key hour db.counters ≡ none
    → All (λ r. r.0.now / hour_bucket_ms ≡ hour) rs
    → length (handle_all rs db).generations ≤ length db.generations + st.hourly_generation_cap
hourly_cap_bound hour st rs db e k h = omega (arith, within.2)
  where
    within : IsWithin hour st (length db.generations) (handle_all rs db)
    within =
        IsWithin-handle_all hour st (length db.generations) rs db h
          (e, subst (λ o. IsLive hour o) (sym k) tt, omega arith)
