-- ===== src/Tests/Reporting.antt =====
-- The theorem on the tokens of telemetry at a concrete registry.
use quinkgl_framework.Common.{
  String, ◌≡◌, refl, ◌⊎◌, true, false, some, [], ◌∷◌, arith, if◌then◌else◌, ◌==◌, nat_eq, string_eq,
  pair_eq, ok,
}
use quinkgl_framework.Common.Dict.{insert}
use quinkgl_framework.Telemetry.Tokens.{
  Registry, missing, live_from, from_file, resolve, persist, create_token,
}
use quinkgl_framework.Telemetry.Tokens.Persistence.{IsSaved, record_of, create_token-survives}

-- A hash for the examples.
abbrev hash : String → String
hash t = if t == "x" then "1" else "2"

abbrev registry : Registry
registry = record { has_path = true; records = []; all_records = []; file = missing }

registry-IsSaved : IsSaved registry
unfolding live_from
registry-IsSaved = record { stored = refl; agrees = refl; full = tt }

-- The registry with a token for the swarm "s".
abbrev created : Registry
created = persist hash (record registry {
  records = ("1", record_of hash "s" "n" "x") ∷ [];
  all_records = record_of hash "s" "n" "x" ∷ [];
})

creates : create_token hash registry "s" "n" "x" ≡ ok created
unfolding create_token insert string_eq
creates = refl

differ_hash : ◌==◌ {A = String} (hash "x") "" ≡ false
unfolding string_eq
differ_hash = refl

differ_token : ◌==◌ {A = String} "x" "" ≡ false
unfolding string_eq
differ_token = refl

create_token-survives_example :
    (loaded : Registry) × (from_file hash created.file false ≡ ok loaded)
    × IsSaved loaded
    × (resolve hash loaded (some "x") ≡ some (record_of hash "s" "n" "x"))
    × ((hash "y" ≡ hash "x") ⊎ (resolve hash loaded (some "y") ≡ resolve hash registry (some "y")))
create_token-survives_example =
    create_token-survives hash registry created "s" "n" "x" "y" registry-IsSaved
      (λ e. ground (arith, differ_hash, e)) (λ e. ground (arith, differ_token, e)) creates
