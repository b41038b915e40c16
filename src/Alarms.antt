-- ===== src/Alarms.antt =====
-- crates/oxinit/src/timer.rs, the two heaps of deadlines. A heap is the list of its entries, the
-- soonest first; entries of one moment, whose order a `BinaryHeap` leaves open, stay in the order in
-- which they came. The timerfds that wake the loop are the kernel's, and are not modelled.
pub mod Firing
mod Tests
use oxinit.Prelude.{
  ℕ, ◌+◌, ◌≤◌, ◌<◌, ◌≡◌, Bool, true, false, List, [], ◌∷◌, ◌++◌, map, leb, if◌then◌else◌, keep, not,
}
use oxinit.Text.{Text}

pub data Alarm : Type 0 where
  restart : (unit : Text) → Alarm
  watchdog_check : (unit : Text) → Alarm
  stop_timeout : (unit : Text) → Alarm
  timer_elapsed : (unit : Text) → Alarm
  start_timeout : (unit : Text) → Alarm

pub record Entry : Type 0 where
  pub due : ℕ
  pub alarm : Alarm

unfoldable pub push : Entry → List Entry → List Entry
push e [] = e ∷ []
push e (f ∷ heap) = let rest = push e heap in if leb f.due e.due then f ∷ rest else e ∷ f ∷ heap

-- Pop while the soonest entry is due.
unfoldable pub expired : ℕ → List Entry → List Alarm × List Entry
expired now [] = ([], [])
expired now (e ∷ heap) =
    let (fired, later) = expired now heap in
    if leb e.due now then (e.alarm ∷ fired, later) else ([], e ∷ heap)
