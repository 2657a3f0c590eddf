-- ===== src/Manager/Examples.antt =====
-- A swap from engine "a" to engine "b" that a request for "b" asks for, and its failure, as the
-- swap machine runs them.
pub mod Calls
use mathlib.Core.Option.{some-injective}
use local_engine_router.Common.{
  subst, suc, ◌≡◌, ◌≢◌, refl, arith, String, none, some, true, false, [], ◌∷◌, ◌==◌, elem, eq_iff,
  length, ◌+◌, ◌*◌, ◌/◌,
}
use local_engine_router.Metrics.{Metrics, Histogram}
use local_engine_router.Manager.State.{Manager, count_request}
use local_engine_router.Manager.Step.{
  System, Job, Phase, Action, step, advance, enter_lock, enter, drained, freed, settled, started,
  raises, counted, swap_loop, swap_begun, go_free, free_returns, settle_returns, start_returns,
  fail_swap, ensure_model_loaded, swap_finished, settle_recorded, gpu_freed, count_returns,
  draining, freeing, settling, starting, probing, load_draining, loading, counting,
}
use local_engine_router.Manager.Reach.{Reach, here, next, ReachBy, start_here, then_next}
use local_engine_router.Manager.Exclusion.{OneHolder, ActiveHolds}
use local_engine_router.Manager.Safety.{IsStart, Reach-OneHolder, acquire_serves}
use local_engine_router.Manager.Accounting.{Counts, Reach-Counts}
use local_engine_router.Manager.Report.{IsReported, Reach-IsReported}
use local_engine_router.Manager.Failure.{Failed, Swapped, raises-Failed, started-Swapped}
use local_engine_router.Manager.Patience.{
  IsPatient, RequestsLive, ActiveUp, patient-RequestsLive, patient-OneEngine,
}
use local_engine_router.Manager.Termination.{Answers, drive, enter_lock-frees}
use local_engine_router.Manager.Settle.{settle, first_steady, settle-first_steady}
use local_engine_router.Manager.Mirror.{Mirror, Reach-Mirror}

abbrev pub no_samples : Histogram
no_samples = record { bounds = 1000 ∷ 5000 ∷ []; counts = 0 ∷ 0 ∷ []; sum = 0; count = 0 }

abbrev pub metrics_a : Metrics
metrics_a = record {
  swap_duration = no_samples;
  memory_settle = no_samples;
  in_flight_at_swap = no_samples;
  swap_total = [];
  active = some "a";
}

abbrev pub manager_a : Manager
manager_a = record {
  engines = "a" ∷ "b" ∷ [];
  loads = λ k. false;
  discover_enabled = true;
  disk_ok = true;
  cents = λ d. d / 10 * 10;
  wall = λ n. 1700000000 + n;
  active_engine = some "a";
  inflight = λ k. 0;
  last_swap = none;
  swap_seconds = λ k. none;
  metrics = metrics_a;
  bg_tasks = [];
  state_file = some (record { active_engine = some "a"; last_swap = none });
}

-- Engine "a" is up and active; nothing is in flight.
abbrev pub at_a : System
at_a = record { manager = manager_a; holder = none; served = []; gpu = λ k. "a" == k }

abbrev pub job_b : Job
job_b = record { target = "b"; model = some "m"; counts = true }

abbrev pub and_then : System → Action → System
and_then s a = elim (step s a) [ none ↦ s | some u ↦ u ]

abbrev pub entered : System
entered = and_then at_a (enter job_b)

abbrev pub after_drain : System
after_drain = and_then entered drained

abbrev pub after_free : System
after_free = and_then after_drain freed

abbrev pub after_settle : System
after_settle = and_then after_free (settled 1500)

abbrev pub after_start : System
after_start = and_then after_settle (started 4000)

abbrev pub at_b : System
at_b = and_then after_start counted

to_start : Reach at_a after_settle
unfolding step swap_loop swap_begun go_free free_returns settle_returns
to_start =
    next (next (next (next here (enter job_b) refl) drained refl) freed refl) (settled 1500) refl

to_count : Reach at_a after_start
unfolding step swap_loop swap_begun go_free free_returns settle_returns start_returns
    ensure_model_loaded swap_finished settle_recorded gpu_freed
to_count = next to_start (started 4000) refl

counts_b : step after_start counted ≡ some at_b
unfolding step swap_loop swap_begun go_free free_returns settle_returns start_returns
    ensure_model_loaded swap_finished settle_recorded gpu_freed
counts_b = refl

pub to_b : Reach at_a at_b
to_b = next to_count counted counts_b

patiently_to_b : ReachBy IsPatient at_a at_b
unfolding step swap_loop swap_begun go_free free_returns settle_returns start_returns
    ensure_model_loaded swap_finished settle_recorded gpu_freed
patiently_to_b =
    then_next
      (then_next
        (then_next
          (then_next
            (then_next (then_next start_here (enter job_b) (λ e. cc) refl) drained (λ e. cc) refl)
            freed (λ e. cc) refl)
          (settled 1500) (λ e. cc) refl)
        (started 4000) (λ e. cc) refl)
      counted (λ e. cc) refl

pub at_a-IsStart : IsStart at_a
at_a-IsStart = record {
  free = refl;
  one = λ x y hx hy gx gy. ground (arith, eq_iff "a" x, eq_iff "a" y);
  active_holds = λ a h. (
    subst (λ x. elem x ("a" ∷ "b" ∷ []) ≡ true) (some-injective _ _ h) refl,
    λ x e g. ground (arith, eq_iff "a" x),
  );
}

at_a-Counts : Counts at_a
at_a-Counts k = refl

at_a-RequestsLive : RequestsLive at_a
at_a-RequestsLive x n = absurd (n refl)

at_a-ActiveUp : ActiveUp at_a
at_a-ActiveUp a h = ground (arith, eq_iff "a" a)

at_a-Mirror : Mirror at_a
at_a-Mirror = record { gauge = refl; saved = λ ok. refl }

-- Whatever is awaited raises.
-- The start of "b" fails.
abbrev not_started : System
not_started = and_then after_settle (raises 4000)

to_failure : Reach at_a not_started
unfolding step swap_loop swap_begun go_free free_returns settle_returns
to_failure = next to_start (raises 4000) refl

Reach-IsReported_example : IsReported not_started
Reach-IsReported_example = Reach-IsReported (record { told = tt }) to_failure

failure_told :
    (not_started.manager.active_engine ≡ none)
    × (not_started.manager.last_swap
        ≡ some (record {
          from_key = some "a";
          to_key = "b";
          duration = 4000;
          succeeded = false;
          at = 1700000000;
        }))
unfolding step swap_loop swap_begun go_free free_returns settle_returns fail_swap settle_recorded
    gpu_freed
failure_told = (refl, refl)

abbrev raise_all : System → Phase → Action
raise_all s ph = raises 0

raise_all-Answers : Answers raise_all
unfolding advance
raise_all-Answers s (draining j prev k ks) = (_, refl)
raise_all-Answers s (freeing j prev k ks) = (_, refl)
raise_all-Answers s (settling j prev) = (_, refl)
raise_all-Answers s (starting j prev) = (_, refl)
raise_all-Answers s (probing j m) = (_, refl)
raise_all-Answers s (load_draining j m) = (_, refl)
raise_all-Answers s (loading j m) = (_, refl)
raise_all-Answers s (counting j) = (_, refl)

swap-OneHolder_example : OneHolder at_b × ActiveHolds at_b
swap-OneHolder_example = Reach-OneHolder at_a-IsStart to_b

acquire_serves_example :
    (at_b.manager.active_engine ≡ some "b")
    × (at_b.manager.inflight "b" ≡ suc (after_start.manager.inflight "b"))
    × (at_b.holder ≡ none)
    × ((x : String) → elem x at_b.manager.engines ≡ true → at_b.gpu x ≡ true → x ≡ "b")
unfolding step swap_loop swap_begun go_free free_returns settle_returns start_returns
    ensure_model_loaded swap_finished settle_recorded gpu_freed
acquire_serves_example = acquire_serves job_b at_a-IsStart to_count refl counts_b

swap-Counts_example : Counts at_b
swap-Counts_example = Reach-Counts at_a-Counts to_b

swap-RequestsLive_example : RequestsLive at_b
swap-RequestsLive_example = patient-RequestsLive refl at_a-RequestsLive at_a-ActiveUp patiently_to_b

swap-Mirror_example : Mirror at_b
swap-Mirror_example = Reach-Mirror at_a-Mirror to_b

b_one : at_b.manager.inflight "b" ≡ 1
unfolding step swap_loop swap_begun go_free free_returns settle_returns start_returns
    ensure_model_loaded swap_finished settle_recorded gpu_freed count_returns count_request
b_one = refl

b_busy : at_b.manager.inflight "b" ≢ 0
b_busy e = omega (arith, b_one, e)

swap-OneEngine_example :
    (job_b.target ≡ job_b.target) × ((a : String) → at_b.manager.active_engine ≡ some a → "b" ≡ a)
unfolding step swap_loop swap_begun go_free free_returns settle_returns start_returns
    ensure_model_loaded swap_finished settle_recorded gpu_freed count_returns
swap-OneEngine_example =
    patient-OneEngine at_a-IsStart at_a-RequestsLive at_a-ActiveUp patiently_to_b "b" "b" refl refl
      b_busy b_busy

enter_lock-frees_example :
    (drive raise_all (6 + 2 * length at_a.manager.engines) (enter_lock at_a job_b)).holder ≡ none
enter_lock-frees_example = enter_lock-frees raise_all at_a job_b raise_all-Answers

-- Memory rises by 8 GB, then stays.
settle-first_steady_example :
    settle none 0 (some 1000000 ∷ some 9000000 ∷ some 9000100 ∷ some 9000150 ∷ [])
    ≡ first_steady (some 1000000 ∷ some 9000000 ∷ some 9000100 ∷ some 9000150 ∷ [])
settle-first_steady_example =
    settle-first_steady (some 1000000 ∷ some 9000000 ∷ some 9000100 ∷ some 9000150 ∷ [])
