-- ===== src/Manager/Startup.antt =====
-- router/engines.py, `EngineManager.startup`: which engine it takes as active. What each engine answers
-- to `is_ready`, or whether it lists a loaded model, is an argument.
use local_engine_router.Common.{
  ◌≡◌, ◌≢◌, ◌∙◌, sym, subst, ap, refl, String, Option, none, some, Bool, true, false, not, ◌&&◌,
  List, [], ◌∷◌, elem, Dict, eq_iff, arith, if◌then◌else◌, Bool-cases, Option-cases, inl, inr,
}
use local_engine_router.Routing.{Kind, ds4, generic_process, api_swap}
use local_engine_router.Manager.State.{Manager, set_active, persist}
use local_engine_router.Manager.Step.{System}
use local_engine_router.Manager.Exclusion.{OneHolder}
use local_engine_router.Manager.Safety.{IsStart}

-- isinstance(engine, (Ds4Engine, GenericProcessEngine))
abbrev pub is_process : Kind → Bool
is_process ds4 = true
is_process generic_process = true
is_process api_swap = false

-- The first process engine that is ready
unfoldable pub first_ready : (String → Bool) → Dict Kind → Option String
first_ready ready [] = none
first_ready ready ((k, kind) ∷ es) =
    let rest = first_ready ready es in if is_process kind && ready k then some k else rest

-- The first API-swap engine with a model loaded
unfoldable pub first_loaded : (String → Bool) → Dict Kind → Option String
first_loaded loaded [] = none
first_loaded loaded ((k, kind) ∷ es) =
    let rest = first_loaded loaded es in if not (is_process kind) && loaded k then some k else rest

or_second : Option String → Option String → Option String
or_second none b = b
or_second (some a) b = some a

unfoldable pub detect : (ready loaded : String → Bool) → Dict Kind → Option String
unfolding first_ready first_loaded or_second
detect ready loaded es = or_second (first_ready ready es) (first_loaded loaded es)

-- startup; the refresh of the catalog is left out
unfoldable pub startup : (ready loaded : String → Bool) → Dict Kind → Manager → Manager
unfolding detect set_active persist
startup ready loaded es m = persist (set_active m (detect ready loaded es))

abbrev pub keys_in : Dict Kind → List String
keys_in [] = []
keys_in ((k, kind) ∷ es) = k ∷ keys_in es

-- An engine of the table holds the GPU just when it answers so.
abbrev pub IsFaithful : (String → Bool) → (ready loaded : String → Bool) → Dict Kind → Type 0
IsFaithful gpu ready loaded [] = Unit
IsFaithful gpu ready loaded ((k, kind) ∷ es) =
    (gpu k ≡ (if is_process kind then ready k else loaded k)) × IsFaithful gpu ready loaded es

first_ready-holds :
    (gpu ready loaded : String → Bool) (es : Dict Kind) (a : String)
    → IsFaithful gpu ready loaded es
    → first_ready ready es ≡ some a
    → (elem a (keys_in es) ≡ true) × (gpu a ≡ true)
unfolding first_ready
first_ready-holds gpu ready loaded [] a f e = absurd (ground arith)
first_ready-holds gpu ready loaded ((k, kind) ∷ es) a f e =
    ground (arith, f.0, eq_iff k a, first_ready-holds gpu ready loaded es a f.1)

first_loaded-holds :
    (gpu ready loaded : String → Bool) (es : Dict Kind) (a : String)
    → IsFaithful gpu ready loaded es
    → first_loaded loaded es ≡ some a
    → (elem a (keys_in es) ≡ true) × (gpu a ≡ true)
unfolding first_loaded
first_loaded-holds gpu ready loaded [] a f e = absurd (ground arith)
first_loaded-holds gpu ready loaded ((k, kind) ∷ es) a f e =
    ground (arith, f.0, eq_iff k a, first_loaded-holds gpu ready loaded es a f.1)

missed :
    (gpu ready loaded : String → Bool) (es : Dict Kind) (k : String)
    → IsFaithful gpu ready loaded es
    → first_ready ready es ≡ none
    → first_loaded loaded es ≡ none
    → elem k (keys_in es) ≡ true
    → gpu k ≡ false
unfolding first_ready first_loaded
missed gpu ready loaded [] k f a b e = absurd (ground arith)
missed gpu ready loaded ((j, kind) ∷ es) k f a b e =
    ground (arith, f.0, eq_iff j k, missed gpu ready loaded es k f.1)

detect-holds :
    (gpu ready loaded : String → Bool) (es : Dict Kind) (a : String)
    → IsFaithful gpu ready loaded es
    → detect ready loaded es ≡ some a
    → (elem a (keys_in es) ≡ true) × (gpu a ≡ true)
unfolding detect or_second
detect-holds gpu ready loaded es a f e =
    ground
      (arith, first_ready-holds gpu ready loaded es a f, first_loaded-holds gpu ready loaded es a f)

detect-finds :
    (gpu ready loaded : String → Bool) (es : Dict Kind) (k : String)
    → IsFaithful gpu ready loaded es
    → elem k (keys_in es) ≡ true
    → gpu k ≡ true
    → detect ready loaded es ≢ none
unfolding detect or_second
detect-finds gpu ready loaded es k f e g = λ n. ground (arith, missed gpu ready loaded es k f)

startup-parts :
    (ready loaded : String → Bool) (es : Dict Kind) (m : Manager)
    → ((startup ready loaded es m).engines ≡ m.engines)
      × ((startup ready loaded es m).active_engine ≡ detect ready loaded es)
unfolding startup set_active persist
startup-parts ready loaded es m = elim (Bool-cases m.disk_ok) [
  | inl y ↦ rw y (refl, refl)
  | inr n ↦ rw n (refl, refl)
]

-- At most one of the engines holds the GPU.
abbrev OneAmong : (String → Bool) → List String → Type 0
OneAmong gpu ks =
    (x y : String) → elem x ks ≡ true → elem y ks ≡ true → gpu x ≡ true → gpu y ≡ true → x ≡ y

-- The system when requests are first taken
abbrev pub started_system : Manager → (String → Bool) → System
started_system m gpu = record { manager = m; holder = none; served = []; gpu = gpu }

-- The engine found is in the table and holds the GPU.
active-holds :
    (gpu ready loaded : String → Bool) (es : Dict Kind) (m : Manager) (a : String)
    → m.engines ≡ keys_in es
    → IsFaithful gpu ready loaded es
    → (startup ready loaded es m).active_engine ≡ some a
    → (elem a m.engines ≡ true) × (gpu a ≡ true)
active-holds gpu ready loaded es m a table f e =
    let (known, holds) =
      detect-holds gpu ready loaded es a f (sym (startup-parts ready loaded es m).1 ∙ e) in
    (subst (λ ks. elem a ks ≡ true) (sym table) known, holds)

-- If engines answer truly whether they hold the GPU, and at most one does, then `startup` finds it: the
-- system begins in a state from which the swap machine keeps one holder, and where an engine of the
-- table holds the GPU it is the active one.
pub startup-IsStart :
    (gpu ready loaded : String → Bool) (es : Dict Kind) (m : Manager)
    → m.engines ≡ keys_in es
    → IsFaithful gpu ready loaded es
    → OneHolder (started_system m gpu)
    → IsStart (started_system (startup ready loaded es m) gpu)
      × ((k : String)
          → elem k m.engines ≡ true
          → gpu k ≡ true
          → (startup ready loaded es m).active_engine ≡ some k)
startup-IsStart gpu ready loaded es m table f one =
    let parts = startup-parts ready loaded es m in
    (
      record {
        free = refl;
        one = subst (OneAmong gpu) (sym parts.0) one;
        active_holds = λ a e.
            let (known, holds) = active-holds gpu ready loaded es m a table f e in
            (
              subst (λ ks. elem a ks ≡ true) (sym parts.0) known,
              λ x there g. one x a (subst (λ ks. elem x ks ≡ true) parts.0 there) known g holds,
            );
      },
      λ k known holds. elim (Option-cases (detect ready loaded es)) [
        | inl n ↦ absurd (
            detect-finds gpu ready loaded es k f (subst (λ ks. elem k ks ≡ true) table known) holds
              n)
        | inr (a, e) ↦
            let (there, also) = active-holds gpu ready loaded es m a table f (parts.1 ∙ e) in
            parts.1 ∙ e ∙ ap some (one a k there known also holds)
      ],
    )
