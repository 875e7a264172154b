-- ===== src/Collector/Ledger/Rules.antt =====
-- The helpers of the engine keep every property of the log and the local variables that their own
-- writes keep.
use offline_reels.Base.{ℕ, Option, none, some, String, List, ◌∷◌, ◌≡◌}
use offline_reels.Action.{pure, raise}
use offline_reels.Action.Keeps.{
  Keeps, keeps_rules, Keeps-try_except, Keeps-pure, Keeps-test, Keeps-raise, Keeps-option,
}
use offline_reels.Collector.Ports.{Ports, Port, Call, Locals}
use offline_reels.Collector.Calls.{
  Engine, call, note, get, set, unless_exception, swallow, unless_type_error, record_event,
  deadline_expired, require_deadline, raise_if_cancel_requested, cleanup_temporary, safe_fail_run,
  safe_cancel_run, summarize, is_exception, is_type_error, note_set,
}
use offline_reels.Collector.Ledger.{On}
use offline_reels.Domain.Statuses.{CollectionRunStatus}
use offline_reels.Action.Lands.{Lands, Lands-kept, Lands-mono}

module _ {ℓ} {W : Type 0} {P : List Call → Locals → Type ℓ} where
  pub Keeps-call : {A : Type 0} (port : Port W A) → Keeps (On P) (call port)
  unfolding call
  Keeps-call port = record { keeps = λ s p. record { holds = p.holds } }

  pub Keeps-get : {A : Type 0} (f : Locals → A) → Keeps (On {W = W} P) (get f)
  unfolding get
  Keeps-get f = record { keeps = λ s p. record { holds = p.holds } }

  pub Keeps-set :
      (f : Locals → Locals)
      → ((log : List Call) (l : Locals) → P log l → P log (f l))
      → Keeps (On {W = W} P) (set f)
  unfolding set
  Keeps-set f h = record { keeps = λ s p. record { holds = h s.log s.locals p.holds } }

  pub Keeps-note :
      (c : Call)
      → ((log : List Call) (l : Locals) → P log l → P (c ∷ log) l)
      → Keeps (On {W = W} P) (note c)
  unfolding note
  Keeps-note c h = record { keeps = λ s p. record { holds = h s.log s.locals p.holds } }

  pub Keeps-unless_exception :
      {A : Type 0} (m other : Engine W A)
      → Keeps (On P) m
      → Keeps (On P) other
      → Keeps (On P) (unless_exception m other)
  unfolding unless_exception
  Keeps-unless_exception m other km ko =
      Keeps-try_except m _ km λ e. Keeps-test (is_exception e) other (raise e) ko (Keeps-raise e)

  pub Keeps-swallow : (m : Engine W (Unit {0})) → Keeps (On P) m → Keeps (On P) (swallow m)
  unfolding swallow
  Keeps-swallow m km = Keeps-unless_exception m (pure tt) km (Keeps-pure tt)

  pub Keeps-unless_type_error :
      {A : Type 0} (m other : Engine W A)
      → Keeps (On P) m
      → Keeps (On P) other
      → Keeps (On P) (unless_type_error m other)
  unfolding unless_type_error
  Keeps-unless_type_error m other km ko =
      Keeps-try_except m _ km λ e. Keeps-test (is_type_error e) other (raise e) ko (Keeps-raise e)

pub ruleset engine_rules = (
  keeps_rules, Keeps-call, Keeps-get, Keeps-set, Keeps-note, Keeps-unless_exception, Keeps-swallow,
  Keeps-unless_type_error,
)

-- What does not depend on the state stays.
pub Keeps-given {ℓ} :
    {W A : Type 0} {P : List Call → Locals → Type ℓ} {X : Type 0} {m : Engine W A}
    → Keeps (On P) m
    → Keeps (On (λ log l. P log l × X)) m
Keeps-given k = record {
  keeps = λ s p. record { holds = ((k.keeps s (record { holds = p.holds.0 })).holds, p.holds.1) };
}

-- What keeps `P` gets from `P` to `P`, and to what `P` implies where it raises.
pub Lands-same {ℓ} :
    {W : Type 0} {P T : List Call → Locals → Type ℓ} {A : Type 0} {m : Engine W A}
    → Keeps (On P) m
    → ((log : List Call) (l : Locals) → P log l → T log l)
    → Lands (On P) m (λ _. On P) (On T)
Lands-same k up = Lands-kept k (λ a s p. p) (λ s p. record { holds = up s.log s.locals p.holds })

-- What is read is known afterwards.
pub Lands-get {ℓ} :
    {W : Type 0} {P T : List Call → Locals → Type ℓ} {A : Type 0} (f : Locals → A)
    → Lands (On {W = W} P) (get f) (λ a. On (λ log l. P log l × (f l ≡ a))) (On T)
unfolding get
Lands-get f = record { lands = λ s p. record { holds = (p.holds, λ i. f s.locals) } }

pub Lands-from {ℓ} :
    {W A : Type 0} {P P' T : List Call → Locals → Type ℓ} {R : A → List Call → Locals → Type ℓ}
    {m : Engine W A}
    → ((log : List Call) (l : Locals) → P' log l → P log l)
    → Lands (On P) m (λ a. On (R a)) (On T)
    → Lands (On P') m (λ a. On (R a)) (On T)
Lands-from up h =
    Lands-mono (λ s p. record { holds = up s.log s.locals p.holds }) (λ a s r. r) (λ s t. t) h

pub Lands-up {ℓ} :
    {W A : Type 0} {P T T' : List Call → Locals → Type ℓ} {R : A → List Call → Locals → Type ℓ}
    {m : Engine W A}
    → ((log : List Call) (l : Locals) → T log l → T' log l)
    → Lands (On P) m (λ a. On (R a)) (On T)
    → Lands (On P) m (λ a. On (R a)) (On T')
Lands-up up h =
    Lands-mono (λ s p. p) (λ a s r. r) (λ s t. record { holds = up s.log s.locals t.holds }) h

pub Lands-note {ℓ} :
    {W : Type 0} {P R T : List Call → Locals → Type ℓ} (c : Call)
    → ((log : List Call) (l : Locals) → P log l → R (c ∷ log) l)
    → Lands (On {W = W} P) (note c) (λ _. On R) (On T)
unfolding note
Lands-note c h = record { lands = λ s p. record { holds = h s.log s.locals p.holds } }

pub Lands-set {ℓ} :
    {W : Type 0} {P R T : List Call → Locals → Type ℓ} (f : Locals → Locals)
    → ((log : List Call) (l : Locals) → P log l → R log (f l))
    → Lands (On {W = W} P) (set f) (λ _. On R) (On T)
unfolding set
Lands-set f h = record { lands = λ s p. record { holds = h s.log s.locals p.holds } }

pub Lands-note_set {ℓ} :
    {W : Type 0} {P R T : List Call → Locals → Type ℓ} (c : Call) (f : Locals → Locals)
    → ((log : List Call) (l : Locals) → P log l → R (c ∷ log) (f l))
    → Lands (On {W = W} P) (note_set c f) (λ _. On R) (On T)
unfolding note_set
Lands-note_set c f h = record { lands = λ s p. record { holds = h s.log s.locals p.holds } }

module _ {ℓ} {W : Type 0} {P : List Call → Locals → Type ℓ} (ports : Ports W) where
  pub Keeps-record_event :
      (position : ℕ) (event : String) → Keeps (On P) (record_event ports position event)
  unfolding record_event
  Keeps-record_event position event = search engine_rules depth 9

  pub Keeps-deadline_expired :
      (deadline : Option ℕ) → Keeps (On P) (deadline_expired ports deadline)
  unfolding deadline_expired
  Keeps-deadline_expired none = search engine_rules
  Keeps-deadline_expired (some d) = search engine_rules

  pub Keeps-require_deadline :
      (deadline : Option ℕ) → Keeps (On P) (require_deadline ports deadline)
  unfolding require_deadline
  Keeps-require_deadline deadline = search (engine_rules, Keeps-deadline_expired)

  pub Keeps-raise_if_cancel_requested :
      (run_id : ℕ) → Keeps (On P) (raise_if_cancel_requested ports run_id)
  unfolding raise_if_cancel_requested
  Keeps-raise_if_cancel_requested run_id =
      Keeps-option ports.cancellation_requested (pure tt) _ (Keeps-pure tt)
        λ probe. search engine_rules

  pub Keeps-cleanup_temporary : (path : String) → Keeps (On P) (cleanup_temporary ports path)
  unfolding cleanup_temporary
  Keeps-cleanup_temporary path = search engine_rules

  pub Keeps-summarize :
      (run_id target : ℕ) (reason : Option String) (status : CollectionRunStatus)
      → Keeps (On P) (summarize ports run_id target reason status)
  unfolding summarize
  Keeps-summarize run_id target reason status = search engine_rules depth 9

-- The calls that leave a property of the log as it is.
pub record IsQuiet {ℓ} (P : List Call → Locals → Type ℓ) : Type ℓ where
  pub advanced : (log : List Call) (l : Locals) → P log l → P (Call.advanced ∷ log) l
  pub closed : (log : List Call) (l : Locals) → P log l → P (Call.closed ∷ log) l
  pub completed : (log : List Call) (l : Locals) → P log l → P (Call.completed ∷ log) l
  pub run_failed :
      (reason : String) (log : List Call) (l : Locals)
      → P log l
      → P (Call.run_failed reason ∷ log) l
  pub run_cancelled : (log : List Call) (l : Locals) → P log l → P (Call.run_cancelled ∷ log) l

module _ {ℓ} {W : Type 0} {P : List Call → Locals → Type ℓ} (ports : Ports W)
    (quiet : IsQuiet P) where
  pub Keeps-safe_fail_run :
      (run_id : ℕ) (reason : String) → Keeps (On P) (safe_fail_run ports run_id reason)
  unfolding safe_fail_run
  Keeps-safe_fail_run run_id reason = search (engine_rules, quiet.run_failed) depth 9

  pub Keeps-safe_cancel_run : (run_id : ℕ) → Keeps (On P) (safe_cancel_run ports run_id)
  unfolding safe_cancel_run
  Keeps-safe_cancel_run run_id = search (engine_rules, quiet.run_cancelled) depth 9

pub ruleset helper_rules = (
  engine_rules, Keeps-record_event, Keeps-deadline_expired, Keeps-require_deadline,
  Keeps-raise_if_cancel_requested, Keeps-cleanup_temporary, Keeps-summarize, Keeps-safe_fail_run,
  Keeps-safe_cancel_run,
)
