-- ===== src/Deploy/Ports/Free.antt =====
-- The port that a deploy prefers is one that nobody else has on the node.
use asdl_hub.Prelude.{ℕ, List, leb, select}

abbrev from : ℕ → List ℕ → List ℕ
from port used = select (λ u. leb port u) used
