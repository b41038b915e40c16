-- ===== src/Shipper/Serve.antt =====
-- crates/oxlogd/src/main.rs: the loop over the pipes of the services, `serve`, with `accept`, `drain` and
-- `drain_all`. What `poll`, a read and a message of oxinit say are parameters or values of a wake-up,
-- and so is the writing of one record.
pub mod Rounds
mod Tests
use oxinit.Prelude.{
  ℕ, suc, ◌≡◌, Bool, true, false, not, Option, none, some, List, [], ◌∷◌, ◌++◌, reverse, length,
  ltb, if◌then◌else◌, Outcome, ok, err, map_or, zero,
}
use oxinit.Text.{Text}
use oxinit.Log.{push, flush}

-- The pipe of one service; the splitter is the partial line that it holds back.
pub record Source : Type 0 where
  pub fd : ℕ
  pub unit : Text
  pub splitter : List ℕ

-- What a read of a pipe gives; `interrupted` stands for EINTR and EAGAIN.
pub data Read : Type 0 where
  end_of_file interrupted broken : Read
  chunk : (bytes : List ℕ) → Read

pub data Accepted : Type 0 where
  source closed : Accepted

-- A message of oxinit: none any more, one that cannot be received, one without a descriptor, or a unit
-- with the read end of its pipe.
pub data Arrival : Type 0 where
  hung_up unreceived no_descriptor : Arrival
  announced : (fd : ℕ) (unit : Text) → Arrival

-- One return of `poll`: which descriptors are ready, the socket first, what reading each of them gives
-- and what has arrived at the socket.
pub data Wake : Type 0 where
  interrupted failed : Wake
  ready : (flags : List Bool) (reads : ℕ → Read) (arrival : Arrival) → Wake

-- `ready.get(index) == Some(&true)`.
unfoldable pub is_ready : ℕ → List Bool → Bool
is_ready n [] = false
is_ready zero (b ∷ bs) = b
is_ready (suc n) (b ∷ bs) = is_ready n bs

module _ {ℓ} {A : Type ℓ} where
  unfoldable pub remove_at : ℕ → List A → List A
  remove_at n [] = []
  remove_at zero (x ∷ xs) = xs
  remove_at (suc n) (x ∷ xs) = x ∷ remove_at n xs

  unfoldable pub remove_each : List ℕ → List A → List A
  remove_each [] xs = xs
  remove_each (n ∷ ns) xs = remove_each ns (if ltb n (length xs) then remove_at n xs else xs)

abbrev pub note_closed : Bool → ℕ → List ℕ → List ℕ
note_closed true index gone = gone
note_closed false index gone = index ∷ gone

-- `W` is what the records go to.
module _ {ℓ} {W : Type ℓ} (write : Text → List ℕ → W → W) where
  unfoldable pub write_each : Text → List (List ℕ) → W → W
  write_each unit [] w = w
  write_each unit (line ∷ lines) w = write_each unit lines (write unit line w)

  abbrev pub write_last : Text → Option (List ℕ) → W → W
  write_last unit none w = w
  write_last unit (some line) w = write unit line w

  unfoldable pub drain : Source → Read → W → Source × W × Bool
  drain s end_of_file w =
      (record s { splitter = [] }, write_last s.unit (flush s.splitter) w, false)
  drain s interrupted w = (s, w, true)
  drain s broken w = (s, w, false)
  drain s (chunk bytes) w = (
    record s { splitter = (push s.splitter bytes).partial },
    write_each s.unit (push s.splitter bytes).emitted w,
    true,
  )

  -- The loop over the sources from a place on, with the places of those that closed.
  unfoldable pub drain_ready :
      List Bool → (ℕ → Read) → ℕ → List Source → W → List Source × List ℕ × W
  drain_ready flags reads index [] w = ([], [], w)
  drain_ready flags reads index (s ∷ ss) w =
      let (s', w', alive) =
        if is_ready (suc index) flags then drain s (reads s.fd) w else (s, w, true) in
      let (rest, gone, w'') = drain_ready flags reads (suc index) ss w' in
      (s' ∷ rest, note_closed alive index gone, w'')

  unfoldable pub drain_sources : List Bool → (ℕ → Read) → List Source → W → List Source × W
  drain_sources flags reads ss w =
      let (sources, gone, w') = drain_ready flags reads 0 ss w in
      (remove_each (reverse gone) sources, w')

  unfoldable pub accept : Arrival → List Source → Outcome (Unit {0}) (List Source × Accepted)
  accept hung_up ss = ok (ss, closed)
  accept unreceived ss = err tt
  accept no_descriptor ss = ok (ss, source)
  accept (announced fd unit) ss =
      ok (ss ++ record { fd = fd; unit = unit; splitter = [] } ∷ [], source)

  -- Everything still buffered.
  unfoldable pub drain_all : List Source → W → W
  drain_all [] w = w
  drain_all (s ∷ ss) w = drain_all ss (write_last s.unit (flush s.splitter) w)

  -- One round: the sources that stay, if there are to be more rounds.
  unfoldable pub round : Wake → List Source → W → Outcome (Unit {0}) (Option (List Source)) × W
  round interrupted ss w = (ok (some ss), w)
  round failed ss w = (err tt, w)
  round (ready flags reads arrival) ss w =
      let (drained, w') = drain_sources flags reads ss w in
      if is_ready 0 flags
      then elim (accept arrival drained) [
        | err e ↦ (err e, w')
        | ok (sources, found) ↦ elim found [
          | source ↦ (ok (some sources), w')
          | closed ↦ (ok none, drain_all sources w')
        ]
      ]
      else (ok (some drained), w')

  abbrev after_round :
      (List Source → W → Outcome (Unit {0}) (Option (List Source)) × W)
      → Outcome (Unit {0}) (Option (List Source)) × W
      → Outcome (Unit {0}) (Option (List Source)) × W
  after_round again (err e, w) = (err e, w)
  after_round again (ok none, w) = (ok none, w)
  after_round again (ok (some sources), w) = again sources w

  -- The loop, over the wake-ups that there are; where they end before it does, it is still waiting.
  unfoldable pub serve : List Wake → List Source → W → Outcome (Unit {0}) (Option (List Source)) × W
  serve [] ss w = (ok (some ss), w)
  serve (wake ∷ wakes) ss w = after_round (serve wakes) (round wake ss w)
