-- ===== src/Process.antt =====
-- A process between its transactions: a server, a Worker or the Watchdog calls the repositories and
-- services outside, one call after another. Each call of a repository is one transaction; before it,
-- other processes make any history of transactions. A call raises or returns.
pub mod Triples
pub mod Keeps
pub mod Total
use ktb4_15th_ai.Prelude.{ℕ, suc, ◌+◌, Bool, Option, none, some, List, [], ◌∷◌, if◌then◌else◌}
use ktb4_15th_ai.Payload.{Result, ok, err, bad_input, database}
use ktb4_15th_ai.Store.{Db, Clock, Op}
use ktb4_15th_ai.Limiter.Slot.{Limits}
use ktb4_15th_ai.History.{Command, run}

-- What is raised: `ValueError`, a `VirtualFittingError` (an error of the database is one), or another
-- exception.
pub data Failure : Type 0 where
  value_error fitting_error other_error : Failure

-- How a piece of code ends; `unfinished` where a loop has used up its fuel.
pub data Ended (A : Type 0) : Type 0 where
  done : A → Ended A
  raised : Failure → Ended A
  unfinished : Ended A

-- The settings, and what the process meets at each of its calls: the clock of the transaction, what other
-- processes do before it, and the time that the call takes.
pub record Env : Type 0 where
  pub limits : Limits
  pub is_printable : ℕ → Bool
  pub clock : ℕ → Clock
  pub others : ℕ → List (Command × Clock)
  pub lapse : ℕ → ℕ

-- The tables, the reading of the monotonic clock, the number of the next call, and the calls of services
-- outside that matter, the last one first.
pub record World (E : Type 0) : Type 0 where
  pub db : Db
  pub now : ℕ
  pub moment : ℕ
  pub trace : List E

abbrev pub Proc : Type 0 → Type 0 → Type 0
Proc E A = World E → Ended A × World E

module _ {E : Type 0} where
  unfoldable pub pure : {A : Type 0} → A → Proc E A
  pure a w = (done a, w)

  unfoldable pub throw : {A : Type 0} → Failure → Proc E A
  throw f w = (raised f, w)

  -- The fuel of a loop has run out.
  unfoldable pub exhausted : {A : Type 0} → Proc E A
  exhausted w = (unfinished, w)

  abbrev pub and_then : {A B : Type 0} → (A → Proc E B) → Ended A × World E → Ended B × World E
  and_then f (done a, w) = f a w
  and_then f (raised e, w) = (raised e, w)
  and_then f (unfinished, w) = (unfinished, w)

  infixl 5 ◌>>=◌ ◌>>◌
  unfoldable pub ◌>>=◌ : {A B : Type 0} → Proc E A → (A → Proc E B) → Proc E B
  ◌>>=◌ m f w = and_then f (m w)

  abbrev pub ◌>>◌ : {B : Type 0} → Proc E (Unit {0}) → Proc E B → Proc E B
  m >> k = m >>= λ _. k

  abbrev pub handled : {A : Type 0} → (Failure → Proc E A) → Ended A × World E → Ended A × World E
  handled h (done a, w) = (done a, w)
  handled h (raised e, w) = h e w
  handled h (unfinished, w) = (unfinished, w)

  -- `try: m except: h`, where `h` raises again what it does not handle.
  unfoldable pub catch : {A : Type 0} → Proc E A → (Failure → Proc E A) → Proc E A
  catch m h w = handled h (m w)

  abbrev pub restored : {A : Type 0} → Ended A → Ended (Unit {0}) × World E → Ended A × World E
  restored r (done _, w) = (r, w)
  restored r (raised e, w) = (raised e, w)
  restored r (unfinished, w) = (unfinished, w)

  abbrev pub ended_with : {A : Type 0} → Proc E (Unit {0}) → Ended A × World E → Ended A × World E
  ended_with last (r, w) = restored r (last w)

  -- `try: m finally: last`.
  unfoldable pub finally : {A : Type 0} → Proc E A → Proc E (Unit {0}) → Proc E A
  finally m last w = ended_with last (m w)

  -- What code raises that needs a value and finds `None`.
  unfoldable pub need : {A : Type 0} → Option A → Proc E A
  unfolding throw pure
  need none = throw other_error
  need (some a) = pure a

  unfoldable pub emit : E → Proc E (Unit {0})
  emit event w = (done tt, record w { trace = event ∷ w.trace })

  unfoldable pub read_clock : Proc E ℕ
  read_clock w = (done w.now, w)

  unfoldable pub tables : Proc E Db
  tables w = (done w.db, w)

  module _ (e : Env) where
    -- The world when the next call begins.
    abbrev pub moved : World E → World E
    moved w = record w { now = w.now + e.lapse w.moment; moment = suc w.moment }

    -- A call outside, which answers as it does at that moment.
    unfoldable pub ask : {A : Type 0} → (ℕ → A) → Proc E A
    ask answer w = (done (answer w.moment), moved w)

    -- `time.sleep`, which takes at least this long.
    unfoldable pub sleep : ℕ → Proc E (Unit {0})
    sleep d w = (done tt, record (moved w) { now = w.now + e.lapse w.moment + d })

    abbrev pub committed : {A : Type 0} → World E → Result A × Db → Ended A × World E
    committed w (ok a, db) = (done a, record (moved w) { db = db })
    committed w (err bad_input, db) = (raised value_error, record (moved w) { db = db })
    committed w (err database, db) = (raised fitting_error, record (moved w) { db = db })

    -- The tables when the next transaction begins.
    unfoldable pub meanwhile : World E → Db
    unfolding run
    meanwhile w = run e.limits e.is_printable (e.others w.moment) w.db

    -- A call of a repository.
    unfoldable pub call : {A : Type 0} → Op A → Proc E A
    unfolding meanwhile
    call op w = committed w (op (e.clock w.moment) (meanwhile w))
