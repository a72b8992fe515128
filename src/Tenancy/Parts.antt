-- ===== src/Tenancy/Parts.antt =====
-- A change of rows that goes on or is refused, carried to the parts of a write.
use win_back_ai.Base.{
  Bool, List, Option, false, true, ◌≡◌, ◌∷◌, [], some, none, refl, map, mapped, if◌then◌else◌, ◌∙◌,
  ap,
}
use win_back_ai.Tenancy.{
  Guarded, passed, refused, and_then, DataRow, DataLike, one_row, row_list, map_rows, map_data,
  in_part, TenantError,
}

-- Refused where the test holds, and else the value.
abbrev pub unless : {A : Type 0} → Bool → TenantError → A → Guarded A
unless b e a = if b then refused e else passed a

-- Either of two.
abbrev pub either : Bool → Bool → Bool
either true b = true
either false b = b

-- A guarded step and what follows it.
pub followed :
    {A B : Type 0} (b c : Bool) (e : TenantError) (a : A) (d : B) (k : A → Guarded B)
    (g : Guarded A)
    → g ≡ unless b e a
    → k a ≡ unless c e d
    → and_then g k ≡ unless (either b c) e d
followed b c e a d k g h l = ap (λ x. and_then x k) h ∙ go b
  where
    go : (b : Bool) → and_then (unless b e a) k ≡ unless (either b c) e d
    go true = refl
    go false = l

unfoldable pub some_row : (DataRow → Bool) → List DataRow → Bool
some_row p [] = false
some_row p (r ∷ rs) = either (p r) (some_row p rs)

unfoldable pub some_data : (DataRow → Bool) → DataLike → Bool
unfolding some_row
some_data p (one_row r) = p r
some_data p (row_list rs) = some_row p rs

-- Every row is changed.
abbrev pub each_row_of : (DataRow → DataRow) → DataLike → DataLike
each_row_of g (one_row r) = one_row (g r)
each_row_of g (row_list rs) = row_list (map g rs)

-- A test on a part that may be absent.
abbrev pub is_given : {A : Type 0} → (A → Bool) → Option A → Bool
is_given p none = false
is_given p (some a) = p a

pub either-false : (b : Bool) → either b false ≡ b
either-false true = refl
either-false false = refl

module _ (bad : DataRow → Bool) (e : TenantError) (g : DataRow → DataRow)
    (f : DataRow → Guarded DataRow) (h : (r : DataRow) → f r ≡ unless (bad r) e (g r)) where
  each_row : (rs : List DataRow) → map_rows f rs ≡ unless (some_row bad rs) e (map g rs)
  unfolding some_row map_rows
  each_row [] = refl
  each_row (r ∷ rs) = followed (bad r) (some_row bad rs) e (g r) (g r ∷ map g rs) _ (f r) (h r) (
      followed (some_row bad rs) false e (map g rs) (g r ∷ map g rs) _ (map_rows f rs) (each_row rs)
        refl
      ∙ ap (λ b. unless b e (g r ∷ map g rs)) (either-false (some_row bad rs)))

  pub each_data : (d : DataLike) → map_data f d ≡ unless (some_data bad d) e (each_row_of g d)
  unfolding map_data some_data
  each_data (one_row r) =
      followed (bad r) false e (g r) (one_row (g r)) _ (f r) (h r) refl
      ∙ ap (λ b. unless b e (one_row (g r))) (either-false (bad r))
  each_data (row_list rs) =
      followed (some_row bad rs) false e (map g rs) (row_list (map g rs)) _ (map_rows f rs)
        (each_row rs) refl
      ∙ ap (λ b. unless b e (row_list (map g rs))) (either-false (some_row bad rs))

module _ {A : Type 0} (bad : A → Bool) (e : TenantError) (g : A → A) (f : A → Guarded A)
    (h : (a : A) → f a ≡ unless (bad a) e (g a)) where
  pub each_part : (x : Option A) → in_part f x ≡ unless (is_given bad x) e (mapped g x)
  each_part none = refl
  each_part (some a) =
      followed (bad a) false e (g a) (some (g a)) _ (f a) (h a) refl
      ∙ ap (λ b. unless b e (some (g a))) (either-false (bad a))
