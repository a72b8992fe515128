-- ===== src/Examples/Lifecycles.antt =====
-- A shop that is uninstalled, installed again, and gets the same uninstall a second time.
use win_back_ai.Merchants.{Merchant, new_merchant}
use win_back_ai.Merchants.Lifecycle.{
  Step, install, uninstall, run, IsMarked, lifecycle_exact, after_install, first_uninstall,
}
use win_back_ai.Base.{List, some, [], ◌∷◌, find_by, refl}

abbrev merchant : Merchant
merchant = new_merchant 1 7 100

abbrev steps : List Step
steps = uninstall 1 200 ∷ install 2 7 300 ∷ uninstall 1 400 ∷ []

lifecycle_exact_example : IsMarked 7 1 (some 400) (run steps (merchant ∷ []))
unfolding after_install first_uninstall find_by
lifecycle_exact_example = lifecycle_exact 7 steps (merchant ∷ []) merchant refl
