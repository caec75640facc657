-- ===== src/Bridge/Forwarder.antt =====
-- `InterruptForwarder` of src/ggsql_bridge.cpp: the thread that hands an interruption of the outer query
-- on to the inner connection, together with the queries and the destructor.
use ggsql_duckdb.Prelude.{Bool, true, false, not, ◌&&◌, List, [], ◌∷◌, if◌then◌else◌}

-- Where the thread is in `Run`: before the lock, at the test of `stopped`, at the read of the outer
-- connection, at `inner.Interrupt()`, in `wait_for`, or at its end. It holds the lock from the test
-- to the wait.
pub data Phase : Type 0 where
  locking testing reading interrupting waiting ended : Phase

-- The destructor: not called, at `worker.join()`, or done.
pub data Destructor : Type 0 where
  alive joining destroyed : Destructor

-- `outer` and `inner` are the flags of the two connections, and `running` whether a query runs on the
-- inner one.
pub record State : Type 0 where
  pub phase : Phase
  pub destructor : Destructor
  pub stopped : Bool
  pub outer : Bool
  pub inner : Bool
  pub running : Bool

abbrev pub start : State
start = record {
  phase = locking;
  destructor = alive;
  stopped = false;
  outer = false;
  inner = false;
  running = false;
}

-- What can happen next: the thread goes on, also out of a wait whose time is over; the user
-- interrupts; a query starts or ends; the destructor is called, or its join returns.
pub data Action : Type 0 where
  works interrupts starts_query ends_query stops joins : Action

-- The thread has the lock.
abbrev pub holds_lock : Phase → Bool
holds_lock testing = true
holds_lock reading = true
holds_lock interrupting = true
holds_lock _ = false

-- One step of `Run`.
abbrev pub work : Phase → State → State
work locking s = record s { phase = testing }
work testing s = record s { phase = if s.stopped then ended else reading }
work reading s = record s { phase = if s.outer then interrupting else waiting }
work interrupting s = record s { phase = waiting; inner = true }
work waiting s = record s { phase = testing }
work ended s = s

abbrev pub is_alive : Destructor → Bool
is_alive alive = true
is_alive _ = false

abbrev pub is_joining : Destructor → Bool
is_joining joining = true
is_joining _ = false

abbrev pub has_ended : Phase → Bool
has_ended ended = true
has_ended _ = false

-- An action that is not possible changes nothing: the destructor waits for the lock and for the
-- thread, and is called when no query runs.
unfoldable pub act : Action → State → State
act works s = work s.phase s
act interrupts s = record s { outer = true }
act starts_query s = if is_alive s.destructor then record s { running = true; inner = false } else s
act ends_query s = record s { running = false }
act stops s =
    if is_alive s.destructor && (not s.running && not (holds_lock s.phase))
    then record s { stopped = true; destructor = joining }
    else s
act joins s =
    if is_joining s.destructor && has_ended s.phase then record s { destructor = destroyed } else s

unfoldable pub act_all : List Action → State → State
act_all [] s = s
act_all (a ∷ rest) s = act_all rest (act a s)
