-- ===== src/Server/Registry.antt =====
-- The state of rust/src/server.rs and `register_plot`.
use ggsql_duckdb.Prelude.{
  ℕ, ◌-◌, Bool, true, false, Option, none, some, List, [], ◌∷◌, ◌++◌, ltb, text_eq, codes,
  if◌then◌else◌,
}

abbrev pub Text : Type 0
Text = List ℕ

abbrev pub Bytes : Type 0
Bytes = List ℕ

-- `HashMap<String, Vec<u8>>`
abbrev pub Plots : Type 0
Plots = List (Text × Bytes)

unfoldable pub lookup : Text → Plots → Option Bytes
lookup id [] = none
lookup id ((key, hep) ∷ plots) = if text_eq key id then some hep else lookup id plots

unfoldable pub insert : Text → Bytes → Plots → Plots
insert id hep [] = (id, hep) ∷ []
insert id hep ((key, old) ∷ plots) =
    if text_eq key id then (key, hep) ∷ plots else (key, old) ∷ insert id hep plots

-- A `Mutex` between two critical sections. It is poisoned when a thread panicked in one.
pub record Mutex (A : Type 0) : Type 0 where
  pub value : A
  pub poisoned : Bool

abbrev pub lock : {A : Type 0} → Mutex A → Option A
lock m = if m.poisoned then none else some m.value

pub record State : Type 0 where
  pub plots : Mutex Plots
  pub latest : Mutex (Option Text)
  -- the time of the last poll, in milliseconds
  pub last_poll : Mutex (Option ℕ)

pub record ServerHandle : Type 0 where
  pub base_url : Text
  pub state : State

pub record Registered : Type 0 where
  pub plot_url : Text
  pub open_url : Text
  pub should_open : Bool

pub data ServerError : Type 0 where
  bind_failed non_ip_address spawn_failed plots_poisoned latest_poisoned : ServerError

pub data Result (A : Type 0) : Type 0 where
  ok : A → Result A
  err : ServerError → Result A

-- What the world gives to one call: the address of the socket that `Server::http` binds, if it
-- does and if it is an IP address, whether the thread can be spawned, the new id, and the time.
pub record Call : Type 0 where
  pub binds : Option (Option (Text × Text))
  pub spawns : Bool
  pub id : Text
  pub now : ℕ

abbrev pub unlocked : {A : Type 0} → A → Mutex A
unlocked a = record { value = a; poisoned = false }

abbrev pub fresh_state : State
fresh_state = record { plots = unlocked []; latest = unlocked none; last_poll = unlocked none }

unfoldable pub start_server : Call → Result ServerHandle
start_server call = elim call.binds [
  | none ↦ err bind_failed
  | some none ↦ err non_ip_address
  | some (some (ip, port)) ↦
      if call.spawns
      then ok (record {
        base_url = codes "http://" ++ (ip ++ (codes ":" ++ port));
        state = fresh_state;
      })
      else err spawn_failed
]

-- `TAB_ALIVE_WINDOW`
abbrev pub tab_alive_window : ℕ
tab_alive_window = 5000

-- `t.elapsed() > TAB_ALIVE_WINDOW`, or no poll that can be read
abbrev pub is_stale : Option (Option ℕ) → ℕ → Bool
is_stale none now = true
is_stale (some none) now = true
is_stale (some (some t)) now = ltb tab_alive_window (now - t)

-- The first two critical sections: `none` is the error of a poisoned lock.
abbrev pub store : Text → Bytes → State → Option State
store id hep s = elim (lock s.plots) [
  | none ↦ none
  | some plots ↦ some (record s { plots = unlocked (insert id hep plots) })
]

abbrev pub announce : Text → State → Option State
announce id s = elim (lock s.latest) [
  | none ↦ none
  | some _ ↦ some (record s { latest = unlocked (some id) })
]

abbrev pub registered : ServerHandle → Call → Registered
registered h call = record {
  plot_url = h.base_url ++ (codes "/#plot/" ++ call.id);
  open_url = h.base_url ++ codes "/";
  should_open = is_stale (lock h.state.last_poll) call.now;
}

-- `register_plot`, with the server running
unfoldable pub register_with : Call → Bytes → ServerHandle → Result Registered × ServerHandle
register_with call hep h = elim (store call.id hep h.state) [
  | none ↦ (err plots_poisoned, h)
  | some s ↦ elim (announce call.id s) [
    | none ↦ (err latest_poisoned, record h { state = s })
    | some t ↦ let g : ServerHandle = record h { state = t } in (ok (registered g call), g)
  ]
]

-- `SERVER.get_or_try_init(start_server)?`: a start that fails is tried again by the next call.
abbrev pub running : Call → Option ServerHandle → Result ServerHandle
running call none = start_server call
running call (some h) = ok h

unfoldable pub register_plot :
    Call → Bytes → Option ServerHandle → Result Registered × Option ServerHandle
register_plot call hep server = elim (running call server) [
  | err e ↦ (err e, server)
  | ok h ↦ let (r, g) = register_with call hep h in (r, some g)
]
