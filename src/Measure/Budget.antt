-- ===== src/Measure/Budget.antt =====
-- crates/darcbench-modules/src/network_transfer.rs: the transfer allowance that the streams of a
-- download share. Each access to the atomic is a step, so a list of steps is an interleaving.
use darcbench.Base.{
  ℕ, ◌+◌, ◌-◌, ◌%◌, ◌^◌, zero, suc, Bool, not, ◌&&◌, Option, none, some, List, [], ◌∷◌,
  if◌then◌else◌, ltb, leb, ◌==◌, nat_eq,
}
pub mod Ceiling

-- A stream: the call of `reserve` it is in, with the bytes asked for and the value it has read, and
-- what it was granted and did not return.
pub record Thread : Type 0 where
  pub reserving : Option (ℕ × ℕ)
  pub held : ℕ

pub record Budget : Type 0 where
  pub spent : ℕ
  pub threads : List Thread

-- `load`; one turn of the compare-and-swap loop, which may fail for no reason; `refund`
pub data Action : Type 0 where
  begin : ℕ → Action
  attempt : Bool → Action
  refund : ℕ → Action

abbrev pub min : ℕ → ℕ → ℕ
min a b = if leb a b then a else b

-- One turn of the loop of `reserve`, that has read `current` and asks for `bytes`.
unfoldable pub reserve_turn : ℕ → Bool → ℕ × ℕ → ℕ → ℕ → ℕ × Thread
reserve_turn ceiling spurious (bytes, current) held spent =
    let granted = min bytes (ceiling - current) in
    if granted == 0
    then (spent, record { reserving = none; held = held })
    else if not spurious && spent == current
    then ((current + granted) % 2 ^ 64, record { reserving = none; held = held + granted })
    else (spent, record { reserving = some (bytes, spent); held = held })

-- A stream returns at most what it holds, and only between two reservations; any other action does not
-- apply and changes nothing.
unfoldable pub act : ℕ → Action → Option (ℕ × ℕ) → ℕ → ℕ → ℕ × Thread
act ceiling (begin bytes) none held spent =
    (spent, record { reserving = some (bytes, spent); held = held })
act ceiling (attempt spurious) (some r) held spent = reserve_turn ceiling spurious r held spent
act ceiling (refund bytes) none held spent =
    if leb bytes held
    then ((spent + 2 ^ 64 - bytes) % 2 ^ 64, record { reserving = none; held = held - bytes })
    else (spent, record { reserving = none; held = held })
act ceiling _ r held spent = (spent, record { reserving = r; held = held })

cons_thread : Thread → ℕ × List Thread → ℕ × List Thread
cons_thread t (spent, ts) = (spent, t ∷ ts)

head_thread : List Thread → ℕ × Thread → ℕ × List Thread
head_thread ts (spent, t) = (spent, t ∷ ts)

-- The stream with the given index acts.
unfoldable pub act_at : ℕ → ℕ → Action → ℕ → List Thread → ℕ × List Thread
unfolding cons_thread head_thread
act_at ceiling i a spent [] = (spent, [])
act_at ceiling zero a spent (t ∷ ts) = head_thread ts (act ceiling a t.reserving t.held spent)
act_at ceiling (suc i) a spent (t ∷ ts) = cons_thread t (act_at ceiling i a spent ts)

budget_of : ℕ × List Thread → Budget
budget_of (spent, ts) = record { spent = spent; threads = ts }

unfoldable pub run : ℕ → List (ℕ × Action) → Budget → Budget
unfolding budget_of
run ceiling [] b = b
run ceiling ((i, a) ∷ steps) b =
    run ceiling steps (budget_of (act_at ceiling i a b.spent b.threads))

idle_threads : ℕ → List Thread
idle_threads zero = []
idle_threads (suc n) = record { reserving = none; held = 0 } ∷ idle_threads n

-- `Budget::new`, and the streams that share it
unfoldable pub new : ℕ → Budget
unfolding idle_threads
new streams = record { spent = 0; threads = idle_threads streams }

unfoldable pub exhausted : ℕ → Budget → Bool
exhausted ceiling b = leb ceiling b.spent
