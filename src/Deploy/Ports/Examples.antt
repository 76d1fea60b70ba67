-- ===== src/Deploy/Ports/Examples.antt =====
-- Another app has port 20000 of the node, and a container that the Hub did not start has 20001.
use asdl_hub.Prelude.{◌≡◌, refl, some, [], ◌∷◌}
use asdl_hub.Samples.{sample_node, sample_project}
use asdl_hub.Models.{Node, NodeContainer, Project}
use asdl_hub.Auth.LoginLimiter.{trim_space}
use asdl_hub.Deploy.Markers.{codes, strip_prefix, some_of, span, read_base}
use asdl_hub.Deploy.Ports.{
  parse_port_mapping, published_ports, published_here, port_pair, after_address, digits_up_to,
}

abbrev neighbour : Project
neighbour = record sample_project { id = 6; name = 98 ∷ []; ports = codes "20000:3000" ∷ [] }

abbrev foreign : NodeContainer
foreign = record {
  name = codes "db";
  state = "running";
  ports = codes "0.0.0.0:20001->5432/tcp";
  project_id = 0;
}

abbrev node : Node
node = record sample_node { containers = foreign ∷ [] }

mapping_parsed : parse_port_mapping (codes " 127.0.0.1:08080:80/tcp ") ≡ some (8080, 80)
unfolding parse_port_mapping port_pair after_address digits_up_to strip_prefix some_of span
    read_base trim_space
mapping_parsed = refl

published :
    published_ports (codes "0.0.0.0:20005->3000/tcp, [::]:20005->3000/tcp") ≡ 20005 ∷ 20005 ∷ []
unfolding published_ports published_here strip_prefix some_of span read_base
published = refl
