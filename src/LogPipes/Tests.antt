-- ===== src/LogPipes/Tests.antt =====
-- A shipper that goes and comes back.
use oxinit.Prelude.{◌≡◌, refl, true, some, List, [], ◌∷◌, All}
use oxinit.Text.{Text, codes, str_eq}
use oxinit.LogPipes.{
  Logs, Offer, bound, offer, offer_all, accept, disconnect, hold, pipe, on_shipper, on_shipper_gone,
  still_connected,
}
use oxinit.LogPipes.Happenings.{
  Happening, arrive, readable, start, happen, happen_all, held_for, last_started, IsUnique,
  IsOffered,
}
use oxinit.LogPipes.Offered.{happen_all-IsOffered}

abbrev an_hour : List Happening
an_hour =
    start (codes "sshd") (some (10, 11))
    ∷ arrive (some 3) true
    ∷ start (codes "cron") (some (12, 13))
    ∷ start (codes "sshd") (some (14, 15))
    ∷ readable (some 0)
    ∷ arrive (some 4) true
    ∷ arrive (some 5) true
    ∷ []

program : Unit {0}
unfolding happen_all happen on_shipper on_shipper_gone accept still_connected disconnect offer_all
    offer pipe hold str_eq
program = tt

offered_again :
    (happen_all an_hour (bound 2, [])).1
    ≡ record { shipper = 4; unit = codes "cron"; read = 12 }
      ∷ record { shipper = 4; unit = codes "sshd"; read = 14 }
      ∷ []
unfolding program
offered_again = refl

abbrev at_the_end : Logs × List Offer
at_the_end = happen_all an_hour (bound 2, [])

happen_all-IsOffered_example :
    ((unit : Text) → held_for unit at_the_end.0.held ≡ last_started unit an_hour)
    × IsUnique at_the_end.0.held
    × All (IsOffered at_the_end.0.shipper at_the_end.1) at_the_end.0.held
happen_all-IsOffered_example = happen_all-IsOffered 2 an_hour
