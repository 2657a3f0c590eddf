-- ===== src/Manager/Accounting.antt =====
-- The in-flight counts of router/engines.py, `EngineManager`.
use mathlib.Core.Option.{some-injective}
use local_engine_router.Common.{◌≡◌, String, some, arith, count, count-erase, eq_iff, subst, sym}
use local_engine_router.Manager.Step.{
  System, Job, Phase, Action, advance, release_served, counting, count_returns, counted,
}
use local_engine_router.Manager.Frame.{SameCounts, enter_lock-SameCounts, advance-SameCounts}
use local_engine_router.Manager.Reach.{Reach, Reach-keeps, Move, releases, enters, advances}

-- Each count is the number of requests that `acquire` has let in and that are not released.
abbrev pub Counts : System → Type 0
Counts s = (k : String) → s.manager.inflight k ≡ count k s.served

Counts-SameCounts : {s u : System} → SameCounts s u → Counts s → Counts u
Counts-SameCounts h c k = ground (arith, c k)

release-Counts : (s u : System) (k : String) → release_served s k ≡ some u → Counts s → Counts u
unfolding release_served
release-Counts s u k e c j = ground (arith, c j, c k, count-erase j k s.served, eq_iff k j)

count_returns-Counts : (s : System) (j : Job) → Counts s → Counts (count_returns s j)
unfolding count_returns
count_returns-Counts s j c k = ground (arith, c k, c j.target, eq_iff j.target k)

advance-Counts :
    (s u : System) (ph : Phase) (a : Action) → advance s ph a ≡ some u → Counts s → Counts u
unfolding advance
advance-Counts s u (counting j) counted e c =
    subst Counts (some-injective _ _ e) (count_returns-Counts s j c)
advance-Counts s u ph a e c = Counts-SameCounts (advance-SameCounts s u ph a e (cc)) c

Move-Counts : (s u : System) (a : Action) → Move s u a → Counts s → Counts u
Move-Counts s u _ (releases k e) c = release-Counts s u k e c
Move-Counts s u _ (enters j free known e) c =
    subst Counts (sym e) (Counts-SameCounts (enter_lock-SameCounts s j) c)
Move-Counts s u a (advances ph held e) c = advance-Counts s u ph a e c

-- In every reachable state the in-flight count of each engine is the number of its requests that
-- were let in and not released, if it is so at the start.
pub Reach-Counts : {s u : System} → Counts s → Reach s u → Counts u
Reach-Counts c r = Reach-keeps Counts Move-Counts c r
