-- ===== src/Smart/Floats.antt =====
-- Python's floats, as router/smart.py uses them: the operations are arguments, and of the order only
-- what holds of finite floats is assumed.
use local_engine_router.Common.{ℕ, ◌≡◌, Bool, true, false}

pub record Floats : Type 1 where
  pub F : Type 0
  pub lt : F → F → Bool
  pub add : F → F → F
  pub sub : F → F → F
  pub mul : F → F → F
  pub div : F → F → F
  pub log10 : F → F
  -- the float nearest to a quotient of whole numbers, for the literals
  pub ratio : ℕ → ℕ → F
  pub lt_asym : (a b : F) → lt a b ≡ true → lt b a ≡ false
  -- "not less" is transitive
  pub le_trans : (a b c : F) → lt b a ≡ false → lt c b ≡ false → lt c a ≡ false
