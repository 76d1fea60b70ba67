-- ===== src/Deploy/Markers/Examples.antt =====
-- A deploy that prints a line and then its port.
use asdl_hub.Prelude.{◌≡◌, some, ◌∷◌, ◌++◌, arith}
use asdl_hub.Deploy.Markers.{codes, port_marker, colon, parse_port_marker}
use asdl_hub.Deploy.Markers.Printed.{parse_port_marker_printed}

parse_port_marker_printed_example :
    parse_port_marker
      (codes "pulling" ++ (10 ∷ (port_marker ++ (codes "20005" ++ (colon ∷ codes "3000")))))
    ≡ some (codes "20005" ++ (colon ∷ codes "3000"))
parse_port_marker_printed_example =
    parse_port_marker_printed (codes "pulling") 50 51 (codes "0005") (codes "000") (ground arith)
      (ground arith)
