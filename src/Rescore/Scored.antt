-- ===== src/Rescore/Scored.antt =====
-- What a run over some customers writes: the score and the state of each of them, and of no other.
use win_back_ai.Store.{Band, band_code}
use win_back_ai.Rescore.{
  ScoredCustomer, ScoreDb, customer_id, Snapshot, same_band, write_score, ResolvedScore,
  resolve_member, with_state, upsert_score, score_key, score_row, ScoreRow,
}
use mathlib.Core.Path.{subst}
use win_back_ai.Base.{
  ◌==◌, ℕ, ◌≡◌, refl, true, find_by, rows_of, sym, ◌≤◌, Bool-cases, ap, filter, some, ◌∙◌, ==_iff,
  if◌then◌else◌, inl, ltb, inr, filter-update_by, rows_of-update_by, arith, List, All, IsStrict,
  or_else, find_by-upsert_by, mapped, ◌∷◌, [], ◌⊎◌, false, find_by-update_by, Option, ◌<◌,
  find_by-below, All_mono, updated_or, none, Bool, IsUnique, rest, passing, IsStrict-rest,
  IsUnique-rest, find_by-rest,
}
use win_back_ai.Rescore.Passes.{Pass, run_rows, begin}
use win_back_ai.Rescore.Pages.{IsLocal, IsHeldBy}
use mathlib.Core.Option

band_of_code : ℕ → Band
band_of_code n =
    if n == 0
    then Band.active
    else if n == 1
    then Band.warm
    else if n == 2
    then Band.at_risk
    else if n == 3
    then Band.dormant
    else if n == 4
    then Band.lost
    else Band.insufficient_data

band_of_code-band_code : (b : Band) → band_of_code (band_code b) ≡ b
unfolding band_of_code
band_of_code-band_code Band.active = refl
band_of_code-band_code Band.warm = refl
band_of_code-band_code Band.at_risk = refl
band_of_code-band_code Band.dormant = refl
band_of_code-band_code Band.lost = refl
band_of_code-band_code Band.insufficient_data = refl

pub same_band-eq : (a b : Band) → same_band a b ≡ true → a ≡ b
same_band-eq a b h =
    sym (band_of_code-band_code a)
    ∙ ap band_of_code ((==_iff (band_code a) (band_code b)).0 h)
    ∙ band_of_code-band_code b

-- A step that writes the tables of customers and scores as `write_score` does.
pub record IsScoring (s : Snapshot) (step : ScoredCustomer → Pass → Pass) : Type 0 where
  pub writes_customers :
      (c : ScoredCustomer) (p : Pass)
      → (step c p).db.customers ≡ (write_score s.now c (resolve_member s c) p.db).customers
  pub writes_scores :
      (c : ScoredCustomer) (p : Pass)
      → (step c p).db.scores ≡ (write_score s.now c (resolve_member s c) p.db).scores

pub write_score-rows :
    (now x : ℕ) (c : ScoredCustomer) (r : ResolvedScore) (db : ScoreDb)
    → rows_of customer_id x (write_score now c r db).customers ≡ rows_of customer_id x db.customers
unfolding write_score
write_score-rows now x c r db = elim (Bool-cases (same_band c.state r.new_state)) [
  | inl e ↦ rw e refl
  | inr e ↦
      rw e (rows_of-update_by customer_id c.id (with_state r.new_state) x db.customers (λ a e. e))
]

pub write_score-behind :
    (now k : ℕ) (c : ScoredCustomer) (r : ResolvedScore) (db : ScoreDb)
    → c.id ≤ k
    → filter (λ d. ltb k d.id) (write_score now c r db).customers
      ≡ filter (λ d. ltb k d.id) db.customers
unfolding write_score
write_score-behind now k c r db h = elim (Bool-cases (same_band c.state r.new_state)) [
  | inl e ↦ rw e refl
  | inr e ↦ rw e (
      filter-update_by customer_id (λ d. ltb k d.id) c.id (with_state r.new_state) db.customers
        (λ a q. (ground arith, ground arith)))
]

pub find_by-write_score :
    (now x : ℕ) (c : ScoredCustomer) (r : ResolvedScore) (db : ScoreDb)
    → find_by customer_id c.id db.customers ≡ some c
    → find_by customer_id x (write_score now c r db).customers
      ≡ (if c.id == x then some (with_state r.new_state c) else find_by customer_id x db.customers)
unfolding write_score
find_by-write_score now x c r db e = elim (Bool-cases (same_band c.state r.new_state)) [
  | inl q ↦ rw q (kept (same_band-eq c.state r.new_state q) (Bool-cases (c.id == x)))
  | inr q ↦
      rw (q, find_by-update_by customer_id c.id x (with_state r.new_state) db.customers (λ a. refl))
        (moved (Bool-cases (c.id == x)))
]
  where
    here : (c.id == x) ≡ true → find_by customer_id x db.customers ≡ some c
    here q = subst (λ i. find_by customer_id i db.customers ≡ some c) ((==_iff c.id x).0 q) e

    kept :
        c.state ≡ r.new_state
        → ((c.id == x) ≡ true) ⊎ ((c.id == x) ≡ false)
        → find_by customer_id x db.customers ≡ (
            if c.id == x
            then some (with_state r.new_state c)
            else find_by customer_id x db.customers)
    kept b (inl i) = rw i (here i ∙ ap (λ z. some (with_state z c)) b)
    kept b (inr i) = rw i refl

    moved :
        ((c.id == x) ≡ true) ⊎ ((c.id == x) ≡ false)
        → (if c.id == x
            then mapped (with_state r.new_state) (find_by customer_id x db.customers)
            else find_by customer_id x db.customers)
          ≡ (if c.id == x
              then some (with_state r.new_state c)
              else find_by customer_id x db.customers)
    moved (inl i) = rw i (ap (mapped (with_state r.new_state)) (here i))
    moved (inr i) = rw i refl

pub find_by-scores :
    (now x : ℕ) (c : ScoredCustomer) (r : ResolvedScore) (db : ScoreDb)
    → find_by score_key x (write_score now c r db).scores
      ≡ (if c.id == x then some (score_row now c r) else find_by score_key x db.scores)
unfolding write_score upsert_score
find_by-scores now x c r db =
    find_by-upsert_by score_key c.id x (λ old. score_row now c r) (score_row now c r) db.scores
      (λ a e. refl) refl
    ∙ ap (λ v. if c.id == x then some v else find_by score_key x db.scores)
        (same (find_by score_key x db.scores))
  where
    same :
        (o : Option ScoreRow)
        → updated_or (λ old. score_row now c r) (score_row now c r) o ≡ score_row now c r
    same none = refl
    same (some a) = refl

lt→neq : (a b : ℕ) → a < b → (a == b) ≡ false
lt→neq a b h = ground arith

-- The first row decides for its own id, the others for theirs.
first_case {ℓ} :
    {B : Type ℓ} (f : ScoredCustomer → B) (c : ScoredCustomer) (x : ℕ) (cs : List ScoredCustomer)
    (o : Option B)
    → All (λ d. c.id < d.id) cs
    → or_else (Option.map f (find_by customer_id x cs)) (if c.id == x then some (f c) else o)
      ≡ or_else (Option.map f (if c.id == x then some c else find_by customer_id x cs)) o
first_case f c x cs o l = elim (Bool-cases (c.id == x)) [
  | inl q ↦
      rw
        (
          q,
          find_by-below customer_id x cs (
              All_mono (λ d. x < d.id) cs (λ d k. subst (λ i. i < d.id) ((==_iff c.id x).0 q) k) l),
        )
        refl
  | inr q ↦ rw q refl
]

module _ (s : Snapshot) (step : ScoredCustomer → Pass → Pass) (h : IsScoring s step) where
  step-customers :
      (x : ℕ) (c : ScoredCustomer) (p : Pass)
      → find_by customer_id c.id p.db.customers ≡ some c
      → find_by customer_id x (step c p).db.customers ≡ (
          if c.id == x
          then some (with_state (resolve_member s c).new_state c)
          else find_by customer_id x p.db.customers)
  step-customers x c p e =
      ap (find_by customer_id x) (h.writes_customers c p)
      ∙ find_by-write_score s.now x c (resolve_member s c) p.db e

  step-scores :
      (x : ℕ) (c : ScoredCustomer) (p : Pass)
      → find_by score_key x (step c p).db.scores ≡ (
          if c.id == x
          then some (score_row s.now c (resolve_member s c))
          else find_by score_key x p.db.scores)
  step-scores x c p =
      ap (find_by score_key x) (h.writes_scores c p)
      ∙ find_by-scores s.now x c (resolve_member s c) p.db

  IsHeldBy-step :
      (c : ScoredCustomer) (p : Pass) (cs : List ScoredCustomer)
      → find_by customer_id c.id p.db.customers ≡ some c
      → All (λ d. c.id < d.id) cs
      → IsHeldBy p.db.customers cs
      → IsHeldBy (step c p).db.customers cs
  IsHeldBy-step c p [] e l k = tt
  IsHeldBy-step c p (d ∷ cs) e l k = (
    step-customers d.id c p e
        ∙ ap
            (λ b.
              if b
              then some (with_state (resolve_member s c).new_state c)
              else find_by customer_id d.id p.db.customers)
            (lt→neq c.id d.id l.0)
        ∙ k.0,
    IsHeldBy-step c p cs e l.1 k.1,
  )

  pub run_rows-customers :
      (x : ℕ) (cs : List ScoredCustomer) (p : Pass)
      → IsStrict customer_id cs
      → IsHeldBy p.db.customers cs
      → find_by customer_id x (run_rows step cs p).db.customers
        ≡ or_else
            (Option.map
              (λ c. with_state (resolve_member s c).new_state c)
              (find_by customer_id x cs))
            (find_by customer_id x p.db.customers)
  unfolding run_rows find_by
  run_rows-customers x [] p d e = refl
  run_rows-customers x (c ∷ cs) p d e =
      run_rows-customers x cs (step c p) d.1 (IsHeldBy-step c p cs e.0 d.0 e.1)
      ∙ ap
          (or_else (
            Option.map (λ a. with_state (resolve_member s a).new_state a)
              (find_by customer_id x cs)))
          (step-customers x c p e.0)
      ∙ first_case (λ a. with_state (resolve_member s a).new_state a) c x cs
          (find_by customer_id x p.db.customers) d.0

  pub run_rows-scores :
      (x : ℕ) (cs : List ScoredCustomer) (p : Pass)
      → IsStrict customer_id cs
      → find_by score_key x (run_rows step cs p).db.scores
        ≡ or_else
            (Option.map (λ c. score_row s.now c (resolve_member s c)) (find_by customer_id x cs))
            (find_by score_key x p.db.scores)
  unfolding run_rows find_by
  run_rows-scores x [] p d = refl
  run_rows-scores x (c ∷ cs) p d =
      run_rows-scores x cs (step c p) d.1
      ∙ ap
          (or_else
            (Option.map (λ a. score_row s.now a (resolve_member s a)) (find_by customer_id x cs)))
          (step-scores x c p)
      ∙ first_case (λ a. score_row s.now a (resolve_member s a)) c x cs
          (find_by score_key x p.db.scores) d.0

unfoldable pub IsScoring-IsLocal :
    (s : Snapshot) (step : ScoredCustomer → Pass → Pass) → IsScoring s step → IsLocal step
IsScoring-IsLocal s step h = record {
  same_ids = λ x c p.
      ap (rows_of customer_id x) (h.writes_customers c p)
      ∙ write_score-rows s.now x c (resolve_member s c) p.db;
  same_behind = λ k c p l.
      ap (filter (λ d. ltb k d.id)) (h.writes_customers c p)
      ∙ write_score-behind s.now k c (resolve_member s c) p.db l;
  after = λ c. with_state (resolve_member s c).new_state c;
  rows_after = run_rows-customers s step h;
}

-- The customer after a pass over those that a test keeps.
abbrev pub customer_after :
    (ScoredCustomer → Bool) → Snapshot → Option ScoredCustomer → Option ScoredCustomer
customer_after keep s none = none
customer_after keep s (some c) =
    some (if keep c then with_state (resolve_member s c).new_state c else c)

-- The score after the pass.
abbrev pub score_after :
    (ScoredCustomer → Bool) → Snapshot → Option ScoredCustomer → Option ScoreRow → Option ScoreRow
score_after keep s none old = old
score_after keep s (some c) old =
    if keep c then some (score_row s.now c (resolve_member s c)) else old

-- The customer with the id `x` is scored between the two states of the tables, if the test keeps it.
abbrev pub IsRescored : (ScoredCustomer → Bool) → Snapshot → ℕ → ScoreDb → ScoreDb → Type 0
IsRescored keep s x db db' =
    (find_by customer_id x db'.customers
      ≡ customer_after keep s (find_by customer_id x db.customers))
    × (find_by score_key x db'.scores
        ≡ score_after keep s (find_by customer_id x db.customers) (find_by score_key x db.scores))

pub run_rows-IsRescored :
    (keep : ScoredCustomer → Bool) (s : Snapshot) (step : ScoredCustomer → Pass → Pass) (x : ℕ)
    (db : ScoreDb)
    → IsScoring s step
    → IsUnique customer_id db.customers
    → IsRescored keep s x db (run_rows step (rest customer_id keep none db.customers) (begin db)).db
run_rows-IsRescored keep s step x db h u = (
  run_rows-customers s step h x _ (begin db) (IsStrict-rest customer_id keep none db.customers u)
        (IsUnique-rest customer_id keep db.customers u)
      ∙ ap
          (λ o.
            or_else (Option.map (λ c. with_state (resolve_member s c).new_state c) o)
              (find_by customer_id x db.customers))
          (find_by-rest customer_id keep x db.customers u)
      ∙ customers (find_by customer_id x db.customers),
  run_rows-scores s step h x _ (begin db) (IsStrict-rest customer_id keep none db.customers u)
      ∙ ap
          (λ o.
            or_else (Option.map (λ c. score_row s.now c (resolve_member s c)) o)
              (find_by score_key x db.scores))
          (find_by-rest customer_id keep x db.customers u)
      ∙ scores (find_by customer_id x db.customers),
)
  where
    customers :
        (o : Option ScoredCustomer)
        → or_else (Option.map (λ c. with_state (resolve_member s c).new_state c) (passing keep o)) o
          ≡ customer_after keep s o
    customers none = refl
    customers (some c) = by_cases (keep c)
      where
        by_cases :
            (b : Bool)
            → or_else
                (Option.map
                  (λ c. with_state (resolve_member s c).new_state c)
                  (if b then some c else none))
                (some c)
              ≡ some (if b then with_state (resolve_member s c).new_state c else c)
        by_cases true = refl
        by_cases false = refl

    scores :
        (o : Option ScoredCustomer)
        → or_else
            (Option.map (λ c. score_row s.now c (resolve_member s c)) (passing keep o))
            (find_by score_key x db.scores)
          ≡ score_after keep s o (find_by score_key x db.scores)
    scores none = refl
    scores (some c) = by_cases (keep c)
      where
        by_cases :
            (b : Bool)
            → or_else
                (Option.map
                  (λ c. score_row s.now c (resolve_member s c))
                  (if b then some c else none))
                (find_by score_key x db.scores)
              ≡ (if b
                  then some (score_row s.now c (resolve_member s c))
                  else find_by score_key x db.scores)
        by_cases true = refl
        by_cases false = refl
