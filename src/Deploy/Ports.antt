-- ===== src/Deploy/Ports.antt =====
-- internal/models/validation.go (ParsePortMapping), internal/services/placement.go (usedHostPorts,
-- fixedPortClash) and internal/services/deployer.go (preferredHostPort): which port of a node an app gets.
-- The set of used ports is the list of its elements.
pub mod Free
mod Examples
use asdl_hub.Prelude.{
  ℕ, zero, suc, ◌+◌, ◌-◌, ◌*◌, ◌/◌, ◌%◌, ◌≤◌, ◌<◌, min, max, String, ◌≡◌, refl, sym, ap, ◌∙◌, subst,
  fun_ext, ◌≢◌, ◌↔◌, ◌⊎◌, inl, inr, Bool, true, false, ◌&&◌, ◌||◌, not, Option, none, some, List,
  [], ◌∷◌, ◌++◌, map, append_assoc, append-nil, arith, ltb, leb, ◌==◌, if◌then◌else◌, ltb→lt,
  lt→ltb, leb→le, le→leb, ==_iff, tests, Bool-cases, Option-cases, is_some, length, take, drop,
  get_elem?, select, first, update, any, head, All, In, length-append, length-drop, length-take,
  All_of_In, first-In, first_passes, select-In, In-select, str_eq, str_eq_iff, stable_sort,
  IsSorted, insert_sorted, stable_sort-perm, In-of_stable_sort, In-stable_sort, length-stable_sort,
  stable_sort-IsSorted, In-of_update, In-update, DistinctKeys, row_unique, save_each,
  save_each-select, length-select-update, length-select-update_le,
}
use Prim.Native.Nat.{◌^◌}
use asdl_hub.Auth.LoginLimiter.{trim_space}
use asdl_hub.Models.{Ident, Text, Node, NodeContainer, Project, text_eq}
use asdl_hub.Deploy.Markers.{codes, is_digit, strip_prefix, some_of, read_base, colon, ◌>>=◌}

-- \d{1,n}
unfoldable pub digits_up_to : ℕ → Text → Option (Text × Text)
digits_up_to n s = do
  found ← some_of is_digit s
  if leb (length found.0) n then some found else none

-- (\d{1,5}):(\d{1,5})(?:/(?:tcp|udp))?$
unfoldable pub port_pair : Text → Option (Text × Text)
port_pair s = do
  host ← digits_up_to 5 s
  after ← strip_prefix (colon ∷ []) host.1
  container ← digits_up_to 5 after
  if text_eq container.1 []
        || text_eq container.1 (codes "/tcp")
        || text_eq container.1 (codes "/udp")
      then some (host.0, container.0)
      else none

-- (\d{1,3}(?:\.\d{1,3}){3}): and what follows it
unfoldable pub after_address : Text → Option Text
after_address s = do
  a ← digits_up_to 3 s
  b ← strip_prefix (46 ∷ []) a.1 >>= digits_up_to 3
  c ← strip_prefix (46 ∷ []) b.1 >>= digits_up_to 3
  d ← strip_prefix (46 ∷ []) c.1 >>= digits_up_to 3
  strip_prefix (colon ∷ []) d.1

abbrev pub is_port : ℕ → Bool
is_port n = leb 1 n && leb n 65535

abbrev atoi : Text → ℕ
atoi s = min (2 ^ 63 - 1) (read_base 10 0 s)

-- The ports as numbers; the source prints them in decimal, and its callers read them again.
unfoldable pub parse_port_mapping : Text → Option (ℕ × ℕ)
parse_port_mapping mapping = do
  ports ← elim (port_pair (trim_space mapping)) [
    | none ↦ after_address (trim_space mapping) >>= port_pair
    | some ports ↦ some ports
  ]
  if is_port (atoi ports.0) && is_port (atoi ports.1)
      then some (atoi ports.0, atoi ports.1)
      else none

-- :(\d+)-> at the front of the text
unfoldable pub published_here : Text → Option ℕ
published_here s = do
  after ← strip_prefix (colon ∷ []) s
  port ← some_of is_digit after
  rest ← strip_prefix (codes "->") port.1
  some (atoi port.0)

-- FindAllStringSubmatch: two matches cannot overlap, so every place is tried on its own.
unfoldable pub published_ports : Text → List ℕ
published_ports [] = []
published_ports (c ∷ s) =
    let rest = published_ports s in
    elim (published_here (c ∷ s)) [ none ↦ rest | some n ↦ n ∷ rest ]

unfoldable pub owns_container : NodeContainer → Project → Bool
owns_container c p =
    if not (c.project_id == 0)
    then c.project_id == p.id
    else text_eq c.name p.name || is_some (strip_prefix (p.name ++ 45 ∷ []) c.name)

unfoldable pub mapped_ports : List Text → List ℕ
mapped_ports [] = []
mapped_ports (m ∷ ms) =
    let rest = mapped_ports ms in
    elim (parse_port_mapping m) [ none ↦ rest | some ports ↦ ports.0 ∷ rest ]

unfoldable pub ports_of_projects : List Project → List ℕ
ports_of_projects [] = []
ports_of_projects (p ∷ ps) = mapped_ports p.ports ++ ports_of_projects ps

unfoldable pub ports_of_containers : Project → List NodeContainer → List ℕ
ports_of_containers p [] = []
ports_of_containers p (c ∷ cs) =
    if owns_container c p
    then ports_of_containers p cs
    else published_ports c.ports ++ ports_of_containers p cs

unfoldable pub used_host_ports : List Project → Ident → List NodeContainer → Project → List ℕ
used_host_ports projects node_id containers p =
    ports_of_projects (select (λ o. o.node_id == node_id && not (o.id == p.id)) projects)
    ++ ports_of_containers p containers

abbrev pub uses : List ℕ → ℕ → Bool
uses used port = any (λ u. u == port) used

-- The first of the fixed ports that is taken, or 0.
unfoldable pub first_clash : List ℕ → List Text → ℕ
first_clash used [] = 0
first_clash used (m ∷ ms) =
    let rest = first_clash used ms in
    elim (parse_port_mapping m) [
      | none ↦ rest
      | some ports ↦ if uses used ports.0 then ports.0 else rest
    ]

unfoldable pub fixed_port_clash : List Project → Node → Project → ℕ
fixed_port_clash projects n p =
    if p.auto_port || length p.ports == 0
    then 0
    else first_clash (used_host_ports projects n.id n.containers p) p.ports

abbrev pub first_auto_port : ℕ
first_auto_port = 20000

-- The loop of the source has no bound; `fuel` is one more than the used ports.
unfoldable pub lowest_free : ℕ → List ℕ → ℕ → ℕ
lowest_free zero used port = port
lowest_free (suc fuel) used port =
    let later = lowest_free fuel used (suc port) in if uses used port then later else port

abbrev pub if_free : List ℕ → Option (ℕ × ℕ) → Option ℕ
if_free used none = none
if_free used (some ports) = if uses used ports.0 then none else some ports.0

abbrev pub first_mapping : List Text → Option (ℕ × ℕ)
first_mapping [] = none
first_mapping (m ∷ ms) = parse_port_mapping m

-- The port that the project has on the node, if it has one there and no one else uses it.
unfoldable pub own_port : List ℕ → Ident → Project → Option ℕ
own_port used node_id p =
    if p.node_id == node_id then if_free used (first_mapping p.ports) else none

-- Of a node that is not in the table only the Hub's own records count.
abbrev pub containers_of : List Node → Ident → List NodeContainer
containers_of nodes node_id = elim (first (λ n. n.id == node_id) nodes) [
  | none ↦ []
  | some n ↦ n.containers
]

unfoldable pub preferred_host_port : List Project → List Node → Project → Ident → ℕ
preferred_host_port projects nodes p node_id =
    let used = used_host_ports projects node_id (containers_of nodes node_id) p in
    elim (own_port used node_id p) [
      | none ↦ lowest_free (suc (length used)) used first_auto_port
      | some port ↦ port
    ]
