-- ===== src/Bridge/Joined.antt =====
-- The thread of `InterruptForwarder` (src/ggsql_bridge.cpp) ends when its destructor is called.
use ggsql_duckdb.Prelude.{ℕ, zero, suc, ◌≤◌, ◌≡◌, ◌≢◌, refl, true, List, [], ◌∷◌, arith}
use ggsql_duckdb.Bridge.Forwarder.{
  Phase, locking, testing, reading, interrupting, waiting, ended, State, Action, works, interrupts,
  starts_query, ends_query, stops, joins, work, act, act_all,
}
use ggsql_duckdb.Bridge.Forwarded.{steps}

-- The steps that the thread needs at most until it ends, after `stopped` is set.
abbrev remaining : Phase → ℕ
remaining locking = 2
remaining testing = 1
remaining reading = 4
remaining interrupting = 3
remaining waiting = 2
remaining ended = 0

work-remaining :
    (p : Phase) (s : State) (n : ℕ)
    → s.phase ≡ p
    → s.stopped ≡ true
    → remaining p ≤ suc n
    → (remaining (work p s).phase ≤ n) × ((work p s).stopped ≡ true)
work-remaining locking s n q e h = ground arith
work-remaining testing s n q e h = ground arith
work-remaining reading s n q e h = ground arith
work-remaining interrupting s n q e h = ground arith
work-remaining waiting s n q e h = ground arith
work-remaining ended s n q e h = rw q (omega arith, e)

ended_of_none : (p : Phase) → remaining p ≤ 0 → p ≡ ended
ended_of_none locking h = absurd (omega arith)
ended_of_none testing h = absurd (omega arith)
ended_of_none reading h = absurd (omega arith)
ended_of_none interrupting h = absurd (omega arith)
ended_of_none waiting h = absurd (omega arith)
ended_of_none ended h = refl

-- Every action but a step of the thread leaves the thread where it is.
other-phase :
    (a : Action) (s : State)
    → a ≢ works
    → s.stopped ≡ true
    → ((act a s).phase ≡ s.phase) × ((act a s).stopped ≡ true)
unfolding act
other-phase works s n e = absurd (n refl)
other-phase interrupts s n e = (refl, e)
other-phase starts_query s n e = ground arith
other-phase ends_query s n e = (refl, e)
other-phase stops s n e = ground arith
other-phase joins s n e = ground arith

act_all-remaining :
    (actions : List Action) (s : State) (n : ℕ)
    → s.stopped ≡ true
    → remaining s.phase ≤ n
    → n ≤ steps actions
    → (act_all actions s).phase ≡ ended
unfolding act_all
act_all-remaining [] s n e h k = ended_of_none s.phase (omega arith)
act_all-remaining (works ∷ rest) s zero e h k =
    let (r, t) = work-remaining s.phase s zero refl e (omega arith) in
    act_all-remaining rest (act works s) zero (unfold act in t) (unfold act in r) (omega arith)
act_all-remaining (works ∷ rest) s (suc n) e h k =
    let (r, t) = work-remaining s.phase s n refl e h in
    act_all-remaining rest (act works s) n (unfold act in t) (unfold act in r) (omega arith)
act_all-remaining (interrupts ∷ rest) s n e h k =
    let (p, t) = other-phase interrupts s (λ q. cc) e in
    act_all-remaining rest (act interrupts s) n t (rw p h) k
act_all-remaining (starts_query ∷ rest) s n e h k =
    let (p, t) = other-phase starts_query s (λ q. cc) e in
    act_all-remaining rest (act starts_query s) n t (rw p h) k
act_all-remaining (ends_query ∷ rest) s n e h k =
    let (p, t) = other-phase ends_query s (λ q. cc) e in
    act_all-remaining rest (act ends_query s) n t (rw p h) k
act_all-remaining (stops ∷ rest) s n e h k =
    let (p, t) = other-phase stops s (λ q. cc) e in
    act_all-remaining rest (act stops s) n t (rw p h) k
act_all-remaining (joins ∷ rest) s n e h k =
    let (p, t) = other-phase joins s (λ q. cc) e in
    act_all-remaining rest (act joins s) n t (rw p h) k

remaining-le : (p : Phase) → remaining p ≤ 4
remaining-le locking = omega arith
remaining-le testing = omega arith
remaining-le reading = omega arith
remaining-le interrupting = omega arith
remaining-le waiting = omega arith
remaining-le ended = omega arith

-- Once the destructor has set `stopped`, the thread ends within four of its steps, wherever it is and
-- whatever else happens in between, so that the join returns.
pub act_all-ended :
    (actions : List Action) (s : State)
    → s.stopped ≡ true
    → 4 ≤ steps actions
    → (act_all actions s).phase ≡ ended
act_all-ended actions s e h = act_all-remaining actions s 4 e (remaining-le s.phase) h
