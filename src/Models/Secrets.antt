-- ===== src/Models/Secrets.antt =====
-- internal/models/secrets.go: what is shown of a secret, and how what a client sends back is merged. The
-- encryption of the columns is not modelled: in memory the values are plain.
use asdl_hub.Prelude.{
  ◌-◌, ◌≡◌, refl, ap, ◌∙◌, false, Option, none, some, List, [], ◌∷◌, ◌++◌, leb, if◌then◌else◌,
  length, take, drop, All,
}
use asdl_hub.Prelude.GoMap.{GoMap, find, put, find-put}
use asdl_hub.Models.{Text}
use asdl_hub.Deploy.Markers.{codes}
use asdl_hub.Jobs.Sweeps.{masked_value}
use asdl_hub.Auth.LoginLimiter.{text_eq, text_eq_iff}
use asdl_hub.Auth.CliLogin.{text_key}

pub record EnvVar : Type 0 where
  pub key : Text
  pub value : Text

-- SecretEnvVars.MarshalJSON: what a client receives.
unfoldable pub masked_vars : List EnvVar → List EnvVar
masked_vars [] = []
masked_vars (e ∷ es) = record e { value = masked_value } ∷ masked_vars es

unfoldable pub existing_values : List EnvVar → GoMap Text Text → GoMap Text Text
existing_values [] m = m
existing_values (e ∷ es) m = existing_values es (put e.key e.value m)

abbrev pub restored : EnvVar → Option Text → List EnvVar → List EnvVar
restored e none rest = rest
restored e (some v) rest = record e { value = v } ∷ rest

unfoldable pub merge_each : GoMap Text Text → List EnvVar → List EnvVar
merge_each m [] = []
merge_each m (e ∷ es) =
    let rest = merge_each m es in
    if text_eq e.value masked_value then restored e (find e.key m) rest else e ∷ rest

-- A masked value becomes the one that the key has; a masked key that is not known is dropped.
unfoldable pub merge_masked : List EnvVar → List EnvVar → List EnvVar
merge_masked updated current = merge_each (existing_values current []) updated

-- The ends of a token, which is a list of its bytes.
unfoldable pub mask_token : Text → Text
mask_token token =
    if leb (length token) 8
    then masked_value
    else take 4 token ++ codes "..." ++ drop (length token - 4) token

abbrev pub DistinctNames : List EnvVar → Type 0
DistinctNames [] = Unit
DistinctNames (e ∷ es) = All (λ x. text_eq x.key e.key ≡ false) es × DistinctNames es

existing-absent :
    (k : Text) (es : List EnvVar) (m : GoMap Text Text)
    → All (λ x. text_eq x.key k ≡ false) es
    → find k (existing_values es m) ≡ find k m
unfolding existing_values
existing-absent k [] m h = refl
existing-absent k (e ∷ es) m h =
    existing-absent k es (put e.key e.value m) h.1 ∙ find-put e.key k e.value m ∙ rw h.0 refl

-- A map that has the value of each variable gives them all back.
abbrev Holds : GoMap Text Text → List EnvVar → Type 0
Holds m es = All (λ e. find e.key m ≡ some e.value) es

merge_each-masked_vars :
    (m : GoMap Text Text) (es : List EnvVar) → Holds m es → merge_each m (masked_vars es) ≡ es
unfolding merge_each masked_vars
merge_each-masked_vars m [] h = refl
merge_each-masked_vars m (e ∷ es) h = rw h.0 (ap (λ r. e ∷ r) (merge_each-masked_vars m es h.1))

existing-Holds :
    (es : List EnvVar) (m : GoMap Text Text) → DistinctNames es → Holds (existing_values es m) es
unfolding existing_values
existing-Holds [] m d = tt
existing-Holds (e ∷ es) m d = (
  existing-absent e.key es (put e.key e.value m) d.0
      ∙ find-put e.key e.key e.value m
      ∙ rw ((text_eq_iff e.key e.key).1 refl) refl,
  existing-Holds es (put e.key e.value m) d.1,
)

-- A client that sends back the variables as it received them, masked, changes nothing, where no two of them
-- have one name.
pub merge-masked_vars :
    (current : List EnvVar)
    → DistinctNames current
    → merge_masked (masked_vars current) current ≡ current
unfolding merge_masked
merge-masked_vars current d =
    merge_each-masked_vars (existing_values current []) current (existing-Holds current [] d)
