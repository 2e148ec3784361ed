-- ===== src/Coordinator/Lifecycle/Accepting.antt =====
-- The loop that accepts connections (src/coordinator.cpp).
use wirebone_cpp.Prelude.{
  ℕ, ◌≡◌, ◌⊎◌, inl, inr, true, false, none, some, List, [], ◌∷◌, ◌++◌, All, Bool-cases,
  Option-cases,
}
use wirebone_cpp.Coordinator.Lifecycle.{Turn, accept_loop}

-- The connections that `accept` gives over rounds, whether or not the loop reaches them.
abbrev pub all_accepted : List Turn → List ℕ
all_accepted [] = []
all_accepted (t ∷ ts) = elim t.accepted [ none ↦ all_accepted ts | some fd ↦ fd ∷ all_accepted ts ]

-- A round before the coordinator is stopped.
abbrev pub IsRunning : Turn → Type 0
IsRunning t = (t.stop_before ≡ false) × (t.stop_after ≡ false)

-- A round that begins after the stop, or was waiting in `accept` on the socket that the stop closed.
abbrev pub IsStopped : Turn → Type 0
IsStopped t = (t.stop_before ≡ true) ⊎ ((t.accepted ≡ none) × (t.stop_after ≡ true))

stopped_now : (t : Turn) (ts : List Turn) → IsStopped t → accept_loop (t ∷ ts) ≡ ([], true)
unfolding accept_loop
stopped_now t ts (inl h) = rw h
stopped_now t ts (inr (h, k)) = elim (Bool-cases t.stop_before) [
  | inl b ↦ rw b
  | inr b ↦ rw (b, h, k)
]

-- Until the coordinator is stopped each connection that is accepted is handed to a thread of its own, in the
-- order in which they came, also where `accept` fails in between; and the first round that finds it
-- stopped ends the loop, whatever would have come behind it.
pub accept_loop_lem :
    (before : List Turn) (t : Turn) (later : List Turn)
    → All IsRunning before
    → IsStopped t
    → accept_loop (before ++ t ∷ later) ≡ (all_accepted before, true)
unfolding accept_loop
accept_loop_lem [] t later h k = stopped_now t later k
accept_loop_lem (b ∷ bs) t later ((before, after), h) k =
    let rest = accept_loop_lem bs t later h k in
    elim (Option-cases b.accepted) [
      | inl e ↦ rw (before, e, after, rest)
      | inr (fd, e) ↦ rw (before, e, rest)
    ]
