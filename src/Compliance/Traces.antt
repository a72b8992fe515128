-- ===== src/Compliance/Traces.antt =====
-- The rows of the tenant tables after the redaction of a customer.
use win_back_ai.Compliance.{
  TenantTable, TenantRow, delete_children, delete_many, has_message_in, is_of_customer, Rows,
  change_rows, customer_redact_child_tables, unlink, without,
}
use win_back_ai.Base.{
  ℕ, Bool, List, ◌≡◌, ◌≢◌, ◌∷◌, [], not, ◌&&◌, ◌||◌, ◌==◌, filter, filter-filter, filter-ext, map,
  true, false, refl, ◌∙◌, Bool-cases, inl, inr, All, All_keep,
}

-- The tables with a column for the customer.
abbrev pub has_customer_column : TenantTable → Bool
has_customer_column TenantTable.order = true
has_customer_column TenantTable.campaign_target = true
has_customer_column TenantTable.message = true
has_customer_column TenantTable.ai_generation = true
has_customer_column TenantTable.customer_score = true
has_customer_column TenantTable.suppression = true
has_customer_column t = false

-- The row of this table belongs to a message of the list.
abbrev pub belongs_to : TenantTable → List TenantRow → TenantRow → Bool
belongs_to TenantTable.campaign_target gone r = has_message_in gone r
belongs_to TenantTable.message_event gone r = has_message_in gone r
belongs_to t gone r = false

pub none_left : (p : TenantRow → Bool) (rs : List TenantRow) → All (λ r. p r ≡ false) (without p rs)
unfolding filter
none_left p [] = tt
none_left p (r ∷ rs) = elim (Bool-cases (p r)) [
  | inl e ↦ rw e (none_left p rs)
  | inr e ↦ rw e ((e, none_left p rs))
]

unlinked :
    (m x : ℕ) (rs : List TenantRow)
    → All (λ r. is_of_customer m x r ≡ false) (map (unlink (is_of_customer m x)) rs)
unlinked m x [] = tt
unlinked m x (r ∷ rs) = elim (Bool-cases (is_of_customer m x r)) [
  | inl e ↦ rw e ((cut (r.merchant_id == m), unlinked m x rs))
  | inr e ↦ rw e ((e, unlinked m x rs))
]
  where
    cut : (b : Bool) → (b && false) ≡ false
    cut true = refl
    cut false = refl

-- The rows that a deletion does not pick stand as they were.
still_there :
    (p l : TenantRow → Bool) (rs : List TenantRow)
    → filter (λ r. not (p r || l r)) (without p rs) ≡ filter (λ r. not (p r || l r)) rs
still_there p l rs =
    filter-filter (λ r. not (p r || l r)) (λ r. not (p r)) rs
    ∙ filter-ext _ (λ r. not (p r || l r)) rs (λ r. outer (p r) (l r))
  where
    outer : (b c : Bool) → (not b && not (b || c)) ≡ not (b || c)
    outer true c = refl
    outer false c = refl

still_there_linked :
    (p l : TenantRow → Bool) (rs : List TenantRow)
    → filter (λ r. not (p r || l r)) (without l rs) ≡ filter (λ r. not (p r || l r)) rs
still_there_linked p l rs =
    filter-filter (λ r. not (p r || l r)) (λ r. not (l r)) rs
    ∙ filter-ext _ (λ r. not (p r || l r)) rs (λ r. outer (p r) (l r))
  where
    outer : (b c : Bool) → (not c && not (b || c)) ≡ not (b || c)
    outer true true = refl
    outer true false = refl
    outer false true = refl
    outer false false = refl

-- The tables after the deletion of the children.
module _ (m x : ℕ) (rows : Rows) where
  abbrev pub cleaned : Rows
  cleaned =
      delete_children customer_redact_child_tables (is_of_customer m x)
        (change_rows TenantTable.order (map (unlink (is_of_customer m x))) rows)

  pub children_gone :
      (t : TenantTable)
      → has_customer_column t ≡ true
      → All (λ r. is_of_customer m x r ≡ false) (cleaned t)
  unfolding delete_children delete_many
  children_gone TenantTable.order h = unlinked m x (rows TenantTable.order)
  children_gone TenantTable.campaign_target h =
      All_keep (λ (r : TenantRow). r.id) (λ r. is_of_customer m x r ≡ false) _ _
        (none_left (is_of_customer m x) (rows TenantTable.campaign_target))
  children_gone TenantTable.message h = none_left (is_of_customer m x) (rows TenantTable.message)
  children_gone TenantTable.ai_generation h =
      none_left (is_of_customer m x) (rows TenantTable.ai_generation)
  children_gone TenantTable.customer_score h =
      none_left (is_of_customer m x) (rows TenantTable.customer_score)
  children_gone TenantTable.suppression h =
      none_left (is_of_customer m x) (rows TenantTable.suppression)
  children_gone t h = cc

  abbrev pub gone_messages : List TenantRow
  gone_messages = filter (is_of_customer m x) (rows TenantTable.message)

  abbrev pub is_other : TenantTable → TenantRow → Bool
  is_other t r = not (is_of_customer m x r || belongs_to t gone_messages r)

  pub children_kept :
      (t : TenantTable)
      → t ≢ TenantTable.order
      → filter (is_other t) (cleaned t) ≡ filter (is_other t) (rows t)
  unfolding delete_children delete_many
  children_kept TenantTable.order h = absurd (h refl)
  children_kept TenantTable.campaign_target h =
      still_there_linked (is_of_customer m x) (has_message_in gone_messages)
        (without (is_of_customer m x) (rows TenantTable.campaign_target))
      ∙ still_there (is_of_customer m x) (has_message_in gone_messages)
          (rows TenantTable.campaign_target)
  children_kept TenantTable.message_event h =
      still_there_linked (is_of_customer m x) (has_message_in gone_messages)
        (rows TenantTable.message_event)
  children_kept TenantTable.message h =
      still_there (is_of_customer m x) (λ r. false) (rows TenantTable.message)
  children_kept TenantTable.ai_generation h =
      still_there (is_of_customer m x) (λ r. false) (rows TenantTable.ai_generation)
  children_kept TenantTable.customer_score h =
      still_there (is_of_customer m x) (λ r. false) (rows TenantTable.customer_score)
  children_kept TenantTable.suppression h =
      still_there (is_of_customer m x) (λ r. false) (rows TenantTable.suppression)
  children_kept t h = refl
