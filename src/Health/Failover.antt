-- ===== src/Health/Failover.antt =====
-- A failover that was queued keeps the checker from starting another.
use asdl_hub.Prelude.{Option, List, [], ◌∷◌}
use asdl_hub.Prelude.GoMap.{nat_key}
use asdl_hub.Models.{Time, Node, Project}
use asdl_hub.Hub.{Hub}
use asdl_hub.Health.{Checker, Round}
use asdl_hub.Health.Rounds.{answered, not_answered, recover_one}

-- What a later round does with one app: the app answered, it did not, or it is one of the failed apps that are
-- looked at again.
pub data LaterCheck : Type 0 where
  answers misses revisits : LaterCheck

module _ (target : Time → Project → Hub → Option Node) where
  abbrev pub check_again : LaterCheck → Round → Project → Checker → Checker
  check_again answers w p s = answered w p s
  check_again misses w p s = not_answered target w p s
  check_again revisits w p s = recover_one target w p s

  unfoldable pub check_on : List (LaterCheck × Round × Project) → Checker → Checker
  check_on [] s = s
  check_on ((c, w, p) ∷ rest) s = check_on rest (check_again c w p s)
