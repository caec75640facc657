-- ===== src/Bridge/Forwarded.antt =====
-- Every interleaving of the thread of `InterruptForwarder` (src/ggsql_bridge.cpp) with the queries, the
-- user and the destructor.
use ggsql_duckdb.Prelude.{
  ℕ, zero, suc, ◌≤◌, ◌≡◌, ◌≢◌, refl, sym, ◌∙◌, true, false, List, [], ◌∷◌, if◌then◌else◌, ◌⊎◌, inl,
  inr, arith,
}
use ggsql_duckdb.Bridge.Forwarder.{
  Phase, locking, testing, reading, interrupting, waiting, ended, destroyed, State, Action, works,
  interrupts, starts_query, ends_query, stops, joins, work, act, act_all, is_alive,
}

-- What holds at all times: the inner connection is interrupted only if the outer one was; `stopped`
-- is set by the destructor alone, which runs when no query does; and the destructor is done only
-- when the thread has ended.
pub record IsForwarder (s : State) : Type 0 where
  pub inner : s.inner ≡ true → s.outer ≡ true
  pub stopped : s.stopped ≡ (if is_alive s.destructor then false else true)
  pub idle : s.stopped ≡ true → s.running ≡ false
  pub set_out : s.phase ≡ interrupting → s.outer ≡ true
  pub done : s.destructor ≡ destroyed → s.phase ≡ ended
  pub over : s.phase ≡ ended → s.stopped ≡ true

work-IsForwarder : (p : Phase) (s : State) → s.phase ≡ p → IsForwarder s → IsForwarder (work p s)
work-IsForwarder locking s e v = ground arith
work-IsForwarder testing s e v = ground arith
work-IsForwarder reading s e v = ground arith
work-IsForwarder interrupting s e v = ground arith
work-IsForwarder waiting s e v = ground arith
work-IsForwarder ended s e v = v

act-IsForwarder : (a : Action) (s : State) → IsForwarder s → IsForwarder (act a s)
unfolding act
act-IsForwarder works s v = work-IsForwarder s.phase s refl v
act-IsForwarder interrupts s v = ground arith
act-IsForwarder starts_query s v = ground arith
act-IsForwarder ends_query s v = ground arith
act-IsForwarder stops s v = ground arith
act-IsForwarder joins s v = ground arith

-- In every interleaving: the inner connection is interrupted only if the outer one was, the destructor
-- runs when no query does, and it returns only when the thread has ended, so that the thread never
-- uses a connection that is gone.
pub act_all-IsForwarder :
    (actions : List Action) (s : State) → IsForwarder s → IsForwarder (act_all actions s)
unfolding act_all
act_all-IsForwarder [] s v = v
act_all-IsForwarder (a ∷ rest) s v = act_all-IsForwarder rest (act a s) (act-IsForwarder a s v)

-- The steps of the thread.
abbrev pub steps : List Action → ℕ
steps [] = 0
steps (works ∷ rest) = suc (steps rest)
steps (a ∷ rest) = steps rest

-- No query starts, and the destructor is not called.
abbrev pub IsQuiet : List Action → Type 0
IsQuiet [] = Unit
IsQuiet (starts_query ∷ rest) = ⊥
IsQuiet (stops ∷ rest) = ⊥
IsQuiet (a ∷ rest) = IsQuiet rest

-- The steps that the thread needs at most until it has interrupted the inner connection.
abbrev distance : Phase → ℕ
distance locking = 4
distance testing = 3
distance reading = 2
distance interrupting = 1
distance waiting = 4
distance ended = 0

-- The inner connection is interrupted, or will be within some steps.
abbrev Within : ℕ → State → Type 0
Within n s = (s.inner ≡ true) ⊎ (distance s.phase ≤ n)

-- The outer query is interrupted, and the inner connection is, or will be within `n` steps.
record Awaits (n : ℕ) (s : State) : Type 0 where
  outer : s.outer ≡ true
  going : s.stopped ≡ false
  living : s.phase ≢ ended
  near : Within n s

work-Awaits : (p : Phase) (s : State) (n : ℕ) → s.phase ≡ p → Awaits (suc n) s → Awaits n (work p s)
work-Awaits locking s n e v = ground arith
work-Awaits testing s n e v = ground arith
work-Awaits reading s n e v = ground arith
work-Awaits interrupting s n e v = ground arith
work-Awaits waiting s n e v = ground arith
work-Awaits ended s n e v = absurd (v.living e)

Awaits-zero : (s : State) → Awaits 0 s → s.inner ≡ true
Awaits-zero s v = ground arith

Awaits-suc : (s : State) → Awaits 0 s → Awaits 1 s
Awaits-suc s v = record {
  outer = v.outer;
  going = v.going;
  living = v.living;
  near = inl (Awaits-zero s v);
}

act_all-Awaits :
    (actions : List Action) (s : State) (n : ℕ)
    → IsQuiet actions
    → n ≤ steps actions
    → Awaits n s
    → (act_all actions s).inner ≡ true
unfolding act_all act
act_all-Awaits [] s zero q h v = ground arith
act_all-Awaits [] s (suc n) q h v = absurd (omega arith)
act_all-Awaits (works ∷ rest) s zero q h v =
    act_all-Awaits rest (work s.phase s) zero q (omega arith)
      (work-Awaits s.phase s zero refl (Awaits-suc s v))
act_all-Awaits (works ∷ rest) s (suc n) q h v =
    act_all-Awaits rest (work s.phase s) n q (omega arith) (work-Awaits s.phase s n refl v)
act_all-Awaits (interrupts ∷ rest) s n q h v = act_all-Awaits rest _ n q h (ground arith)
act_all-Awaits (ends_query ∷ rest) s n q h v = act_all-Awaits rest _ n q h (ground arith)
act_all-Awaits (joins ∷ rest) s n q h v = act_all-Awaits rest _ n q h (ground arith)
act_all-Awaits (starts_query ∷ rest) s n q h v = absurd q
act_all-Awaits (stops ∷ rest) s n q h v = absurd q

distance-le : (p : Phase) → distance p ≤ 4
distance-le locking = omega arith
distance-le testing = omega arith
distance-le reading = omega arith
distance-le interrupting = omega arith
distance-le waiting = omega arith
distance-le ended = omega arith

-- An interruption arrives: once the outer query is interrupted, four steps of the thread are enough to
-- interrupt the inner connection, wherever the thread is and whatever else happens, as long as no
-- other query starts and the destructor is not called.
pub act_all-inner :
    (actions : List Action) (s : State)
    → IsForwarder s
    → s.outer ≡ true
    → s.stopped ≡ false
    → IsQuiet actions
    → 4 ≤ steps actions
    → (act_all actions s).inner ≡ true
act_all-inner actions s v outer going q h = act_all-Awaits actions s 4 q h (record {
  outer = outer;
  going = going;
  living = λ e. true_not_false (sym (v.over e) ∙ going);
  near = inr (distance-le s.phase);
})
  where
    true_not_false : true ≡ false → ⊥
    true_not_false e = cc
