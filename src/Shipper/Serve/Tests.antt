-- ===== src/Shipper/Serve/Tests.antt =====
-- A round with two pipes, one of which ends.
use oxinit.Prelude.{ℕ, ◌≡◌, refl, Bool, true, none, List, [], ◌∷◌, ◌++◌, ok, if◌then◌else◌, ◌==◌}
use oxinit.Text.{Text, codes}
use oxinit.Text.Chars.{split_once}
use oxinit.Log.{push, take_lines, flush}
use oxinit.Shipper.Serve.{
  Source, Read, end_of_file, chunk, ready, is_ready, remove_at, remove_each, write_each, drain,
  drain_ready, drain_sources, accept, round, serve, hung_up, drain_all,
}
use oxinit.Shipper.Serve.Rounds.{staying, records_in, written, drain_sources-staying}

abbrev keep_record : Text → List ℕ → List (Text × List ℕ) → List (Text × List ℕ)
keep_record unit line w = w ++ (unit, line) ∷ []

abbrev two_pipes : List Source
two_pipes =
    record { fd = 4; unit = codes "sshd"; splitter = codes "by" }
    ∷ record { fd = 5; unit = codes "cron"; splitter = codes "ru" }
    ∷ []

abbrev reads : ℕ → Read
reads fd = if fd == 4 then end_of_file else chunk (codes "n\nne")

abbrev flags : List Bool
flags = true ∷ true ∷ true ∷ []

program : Unit {0}
unfolding is_ready remove_at remove_each write_each drain drain_ready drain_sources accept round
    serve drain_all push take_lines flush split_once
program = tt

drained : drain_sources keep_record flags reads two_pipes [] ≡ (
  record { fd = 5; unit = codes "cron"; splitter = codes "ne" } ∷ [],
  (codes "sshd", codes "by") ∷ (codes "cron", codes "run") ∷ [],
)
unfolding program
drained = refl

drain_sources-staying_example :
    drain_sources keep_record flags reads two_pipes []
    ≡ (staying flags reads 0 two_pipes, written keep_record (records_in flags reads 0 two_pipes) [])
drain_sources-staying_example = drain_sources-staying keep_record flags reads two_pipes []

-- oxinit closes the socket: what is left is written, and the loop ends.
ended : serve keep_record (ready flags reads hung_up ∷ []) two_pipes [] ≡ (
  ok none,
  (codes "sshd", codes "by") ∷ (codes "cron", codes "run") ∷ (codes "cron", codes "ne") ∷ [],
)
unfolding program
ended = refl
