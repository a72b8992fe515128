-- ===== src/Orders/Lines.antt =====
-- The loop of upsertFromWebhook over line items with different ids: it leaves every one of them written.
use mathlib.Core.Path.{subst}
use win_back_ai.Gid.{wrap}
use win_back_ai.Orders.{LineItem, LineRow, LineFields, OrderBody, OrderDb, ◌>>=◌}
use win_back_ai.Orders.Writes.{is_line, set_line, new_line, line_fields, upsert_lines, upsert_where}
use win_back_ai.Orders.Settled.{IsWrite, IsSettled, upsert-IsSettled, upsert_settled, upsert_other}
use win_back_ai.Base.{ℕ, List, Option, none, some, [], ◌∷◌, ◌≡◌, refl, sym, ap, ◌∙◌, arith}

line-IsWrite : (o g : ℕ) (f : LineFields) → IsWrite (is_line o g) (set_line f) (new_line o g f)
line-IsWrite o g f = record {
  keeps = λ a. refl;
  repeats = λ a. refl;
  on_new = refl;
  picks_new = ground arith;
}

-- No two line items have one id.
abbrev pub HasId : ℕ → LineItem → Type 0
HasId g i = wrap i.id ≡ some g

unfoldable pub IsAbsent : ℕ → List LineItem → Type 0
IsAbsent g [] = Unit
IsAbsent g (i ∷ is) = ¬ HasId g i × IsAbsent g is

unfoldable pub HasUniqueIds : List LineItem → Type 0
unfolding IsAbsent
HasUniqueIds [] = Unit
HasUniqueIds (i ∷ is) = ((g : ℕ) → HasId g i → IsAbsent g is) × HasUniqueIds is

pub some_injective : {A : Type 0} {a b : A} → some a ≡ some b → a ≡ b
some_injective h = cc

-- What a chain that succeeds has gone through.
pub bind_some :
    {A B : Type 0} (m : Option A) (k : A → Option B) (b : B)
    → (m >>= k) ≡ some b
    → (a : A) × (m ≡ some a) × (k a ≡ some b)
bind_some none k b e = absurd (ground (arith, e))
bind_some (some a) k b e = (a, refl, e)

-- Each line item has been written.
unfoldable pub AreSettled : ℕ → OrderBody → OrderDb → List LineItem → List LineRow → Type 0
AreSettled o b db [] t = Unit
AreSettled o b db (i ∷ is) t =
    ((g : ℕ) × (f : LineFields) × HasId g i
      × (line_fields b db i ≡ some f)
      × IsSettled (is_line o g) (set_line f) t)
    × AreSettled o b db is t

pub lines_settled :
    (o : ℕ) (b : OrderBody) (db db' : OrderDb)
    → ((i : LineItem) → line_fields b db' i ≡ line_fields b db i)
    → (is : List LineItem) (t : List LineRow) → AreSettled o b db is t
    → upsert_lines o b db' is t ≡ some t
unfolding AreSettled upsert_lines
lines_settled o b db db' same [] t h = refl
lines_settled o b db db' same (i ∷ is) t ((g, f, e, k, s), h) =
    rw (e, same i, k, upsert_settled (line-IsWrite o g f) t s)
      (lines_settled o b db db' same is t h)

other_line :
    (o g j : ℕ) (f u : LineFields) (t : List LineRow)
    → ¬ (g ≡ j)
    → IsSettled (is_line o g) (set_line f) t
    → IsSettled
        (is_line o g)
        (set_line f)
        (upsert_where (is_line o j) (set_line u) (new_line o j u) t)
other_line o g j f u t n s =
    upsert_other (λ a e. grind (arith, n, e)) (λ a. refl) (λ a. refl) (grind (arith, n)) t s

-- A line item that is written, and those after it.
line_step :
    (o : ℕ) (b : OrderBody) (db : OrderDb) (i : LineItem)
    → (is : List LineItem) (t t' : List LineRow) → upsert_lines o b db (i ∷ is) t ≡ some t'
    → (g : ℕ) × (f : LineFields) × HasId g i
      × (line_fields b db i ≡ some f)
      × (upsert_lines o b db is (upsert_where (is_line o g) (set_line f) (new_line o g f) t)
          ≡ some t')
unfolding upsert_lines
line_step o b db i is t t' e =
    let (g, h, e1) = bind_some (wrap i.id) _ t' e in
    let (f, k, e2) = bind_some (line_fields b db i) _ t' e1 in (g, f, h, k, e2)

lines_keep :
    (o : ℕ) (b : OrderBody) (db : OrderDb) (g : ℕ) (f : LineFields)
    → (is : List LineItem) (t t' : List LineRow) → IsAbsent g is
    → IsSettled (is_line o g) (set_line f) t
    → upsert_lines o b db is t ≡ some t'
    → IsSettled (is_line o g) (set_line f) t'
unfolding upsert_lines IsAbsent
lines_keep o b db g f [] t t' n s e =
    subst (IsSettled (is_line o g) (set_line f)) (some_injective e) s
lines_keep o b db g f (i ∷ is) t t' (n, ns) s e =
    let (j, u, h, k, r) = line_step o b db i is t t' e in
    lines_keep o b db g f is _ t' ns (other_line o g j f u t (λ q. n (h ∙ ap some (sym q))) s) r

pub lines-AreSettled :
    (o : ℕ) (b : OrderBody) (db : OrderDb) (is : List LineItem) (t t' : List LineRow)
    → HasUniqueIds is
    → upsert_lines o b db is t ≡ some t'
    → AreSettled o b db is t'
unfolding upsert_lines HasUniqueIds AreSettled
lines-AreSettled o b db [] t t' u e = tt
lines-AreSettled o b db (i ∷ is) t t' (n, u) e =
    let (g, f, h, k, r) = line_step o b db i is t t' e in
    (
      (
        g,
        f,
        h,
        k,
        lines_keep o b db g f is _ t' (n g h) (upsert-IsSettled (line-IsWrite o g f) t) r,
      ),
      lines-AreSettled o b db is _ t' u r,
    )
