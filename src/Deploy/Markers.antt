-- ===== src/Deploy/Markers.antt =====
-- internal/services/deploy_command.go: the lines in which a deploy reports the ports that it used. The
-- regular expressions are written out as matchers of one line.
pub mod Printed
mod Examples
use asdl_hub.Prelude.{
  ℕ, zero, suc, ◌+◌, ◌-◌, ◌*◌, ◌/◌, ◌%◌, ◌≤◌, ◌<◌, min, max, String, ◌≡◌, refl, sym, ap, ◌∙◌, subst,
  fun_ext, ◌≢◌, ◌↔◌, ◌⊎◌, inl, inr, Bool, true, false, ◌&&◌, ◌||◌, not, Option, none, some, List,
  [], ◌∷◌, ◌++◌, map, append_assoc, append-nil, arith, ltb, leb, ◌==◌, if◌then◌else◌, ltb→lt,
  lt→ltb, leb→le, le→leb, ==_iff, tests, Bool-cases, Option-cases, is_some, length, take, drop,
  get_elem?, select, first, update, any, head, All, In, length-append, length-drop, length-take,
  All_of_In, first-In, first_passes, select-In, In-select, str_eq, str_eq_iff, stable_sort,
  IsSorted, insert_sorted, stable_sort-perm, In-of_stable_sort, In-stable_sort, length-stable_sort,
  stable_sort-IsSorted, In-of_update, In-update, DistinctKeys, row_unique, save_each,
  save_each-select, length-select-update, length-select-update_le,
}
use Prim.Native.Char.{code}
use Prim.Native.Nat.{◌^◌}
use asdl_hub.Models.{Text}

-- The code points of a literal.
abbrev pub codes : String → Text
codes String.[] = []
codes (String.◌∷◌ c s) = code c ∷ codes s

abbrev pub is_digit : ℕ → Bool
is_digit c = leb 48 c && leb c 57

-- [a-z0-9-]
abbrev is_plugin_char : ℕ → Bool
is_plugin_char c = (leb 97 c && leb c 122) || is_digit c || c == 45

-- \s
abbrev is_blank : ℕ → Bool
is_blank c = c == 9 || c == 10 || c == 12 || c == 13 || c == 32

unfoldable pub all_blank : Text → Bool
all_blank [] = true
all_blank (c ∷ s) = is_blank c && all_blank s

unfoldable pub strip_prefix : Text → Text → Option Text
strip_prefix [] s = some s
strip_prefix (p ∷ ps) [] = none
strip_prefix (p ∷ ps) (c ∷ s) = let rest = strip_prefix ps s in if p == c then rest else none

-- The longest front of a text whose characters pass, and what follows it.
unfoldable pub span : (ℕ → Bool) → Text → Text × Text
span p [] = ([], [])
span p (c ∷ s) = let (front, rest) = span p s in if p c then (c ∷ front, rest) else ([], c ∷ s)

push_char : ℕ → List Text → List Text
push_char c [] = (c ∷ []) ∷ []
push_char c (l ∷ ls) = (c ∷ l) ∷ ls

unfoldable pub lines : Text → List Text
unfolding push_char
lines [] = [] ∷ []
lines (c ∷ s) = let rest = lines s in if c == 10 then [] ∷ rest else push_char c rest

nonempty : Text → Text → Option (Text × Text)
nonempty [] rest = none
nonempty (c ∷ front) rest = some (c ∷ front, rest)

-- X+ where X is a class of characters: nothing if there is none.
unfoldable pub some_of : (ℕ → Bool) → Text → Option (Text × Text)
unfolding nonempty
some_of p s = let (front, rest) = span p s in nonempty front rest

infixl 5 ◌>>=◌
abbrev pub ◌>>=◌ : {A B : Type 0} → Option A → (A → Option B) → Option B
none >>= f = none
some a >>= f = f a

abbrev pub port_marker : Text
port_marker = codes "ASDL_PORT_MAPPING="

abbrev pub plugin_port_marker : Text
plugin_port_marker = codes "ASDL_PLUGIN_PORT="

abbrev pub colon : ℕ
colon = 58

-- (?m)^ASDL_PORT_MAPPING=(\d+:\d+)\s*$
unfoldable pub port_line : Text → Option Text
port_line l = do
  after ← strip_prefix port_marker l
  host ← some_of is_digit after
  port ← strip_prefix (colon ∷ []) host.1
  container ← some_of is_digit port
  if all_blank container.1 then some (host.0 ++ (colon ∷ container.0)) else none

-- m[len(m)-1]
unfoldable pub last_some {ℓ} : {B : Type ℓ} → (Text → Option B) → List Text → Option B
last_some f [] = none
last_some f (l ∷ ls) = elim (last_some f ls) [ none ↦ f l | some b ↦ some b ]

unfoldable pub parse_port_marker : Text → Option Text
parse_port_marker logs = last_some port_line (lines logs)

-- What fmt.Sscan reads into an int: decimal, or octal after a leading 0, and 0 on overflow.
unfoldable pub read_base : ℕ → ℕ → Text → ℕ
read_base base n [] = n
read_base base n (c ∷ s) =
    let more = read_base base (base * n + (c - 48)) s in if leb (48 + base) c then n else more

unfoldable pub sscan_int : Text → ℕ
sscan_int [] = 0
sscan_int (c ∷ s) =
    let n = if c == 48 then read_base 8 0 s else read_base 10 0 (c ∷ s) in
    if leb (2 ^ 63) n then 0 else n

-- (?m)^ASDL_PLUGIN_PORT=([a-z0-9-]+):(\d+)\s*$
unfoldable pub plugin_port_line : Text → Option (Text × ℕ)
plugin_port_line l = do
  after ← strip_prefix plugin_port_marker l
  plugin ← some_of is_plugin_char after
  port ← strip_prefix (colon ∷ []) plugin.1
  number ← some_of is_digit port
  if all_blank number.1 then some (plugin.0, sscan_int number.0) else none

unfoldable pub matches {ℓ} : {B : Type ℓ} → (Text → Option B) → List Text → List B
matches f [] = []
matches f (l ∷ ls) = elim (f l) [ none ↦ matches f ls | some b ↦ b ∷ matches f ls ]

-- The map of the source as its entries in the order of the logs; a later one replaces an earlier one.
unfoldable pub parse_plugin_ports : Text → List (Text × ℕ)
parse_plugin_ports logs = matches plugin_port_line (lines logs)
