-- ===== src/Alarms/Firing.antt =====
-- Which alarms fire: crates/oxinit/src/timer.rs.
use oxinit.Prelude.{ℕ, ◌≡◌, ◌==◌, Bool, true, List, [], ◌∷◌, leb, all, keep, not, ◌&&◌}
use oxinit.Alarms.{Entry, push}

-- Entries that come one after the other.
unfoldable pub pushes : List Entry → List Entry → List Entry
pushes [] heap = heap
pushes (e ∷ es) heap = pushes es (push e heap)

abbrev pub is_due : ℕ → Entry → Bool
is_due now e = leb e.due now

abbrev pub is_later : ℕ → Entry → Bool
is_later now e = not (leb e.due now)

abbrev pub not_before : ℕ → List Entry → Bool
not_before t h = all (λ f. leb t f.due) h

abbrev pub is_sorted : List Entry → Bool
is_sorted [] = true
is_sorted (e ∷ h) = not_before e.due h && is_sorted h

abbrev pub is_at : ℕ → Entry → Bool
is_at t e = e.due == t

-- The same entries, the soonest first, and those of one moment in the order of their coming.
pub record IsSorting (es sorted : List Entry) : Type 0 where
  pub soonest_first : is_sorted sorted ≡ true
  pub same : (t : ℕ) → keep (is_at t) sorted ≡ keep (is_at t) es
