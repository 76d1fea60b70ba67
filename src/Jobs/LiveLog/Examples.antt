-- ===== src/Jobs/LiveLog/Examples.antt =====
-- An agent that sends four bytes and then, after a lost answer, the last three of six.
use asdl_hub.Prelude.{ℕ, ◌≡◌, refl, List, [], ◌∷◌, arith}
use asdl_hub.Jobs.LiveLog.{empty_log, append_log}
use asdl_hub.Jobs.LiveLog.Output.{Tracks, send_all, furthest, send_all-Tracks}

abbrev output : List ℕ
output = 10 ∷ 11 ∷ 12 ∷ 13 ∷ 14 ∷ 15 ∷ []

abbrev resent : List (ℕ × ℕ)
resent = (0, 4) ∷ (0, 4) ∷ (3, 3) ∷ []

resent_once : (send_all output resent empty_log).buf ≡ output
unfolding append_log
resent_once = refl

empty-Tracks : Tracks output empty_log
empty-Tracks = record { seen = omega arith; holds = refl }

send_all-Tracks_example :
    Tracks output (send_all output resent empty_log)
    × ((send_all output resent empty_log).total ≡ furthest 0 resent)
send_all-Tracks_example = send_all-Tracks output resent empty_log empty-Tracks refl (omega arith)
