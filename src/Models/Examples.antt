-- ===== src/Models/Examples.antt =====
-- Eight cores and 16 GiB: four jobs at a time. Variables that a client sends back, and a token that is shown.
use asdl_hub.Prelude.{ℕ, ◌*◌, ◌<◌, ◌≡◌, refl, List, [], ◌∷◌, arith}
use asdl_hub.Deploy.Markers.{codes}
use asdl_hub.Models.Secrets.{EnvVar, masked_vars, merge_masked, mask_token, merge-masked_vars}
use asdl_hub.Models.Capacity.{recommended_parallel_jobs, gib}

abbrev memory : ℕ
memory = 16 * gib

four_jobs : 1 < recommended_parallel_jobs 8 memory
unfolding recommended_parallel_jobs
four_jobs = omega arith

abbrev variables : List EnvVar
variables =
    record { key = codes "PORT"; value = codes "80" }
    ∷ record { key = codes "TOKEN"; value = codes "s3cret" }
    ∷ []

merge-masked_vars_example : merge_masked (masked_vars variables) variables ≡ variables
merge-masked_vars_example = merge-masked_vars variables ((refl, tt), (tt, tt))

shown_token : mask_token (codes "ghp_0123456789a1b2") ≡ codes "ghp_...a1b2"
unfolding mask_token
shown_token = refl
