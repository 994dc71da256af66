-- ===== src/Tests/Trusting.antt =====
-- The theorems on the cache of creator keys at concrete inputs.
use quinkgl_framework.Common.{String, ◌≡◌, refl, none, List, [], ◌∷◌, nat_eq, string_eq, pair_eq}
use quinkgl_framework.Common.Dict.{Dict}
use quinkgl_framework.Trust.Tofu.{TofuEntry, TofuCache, root, cached, dump}
use quinkgl_framework.Trust.Tofu.Refinement.{
  Call, look, bind, unbind, wipe, bindings, performs, answers, performs-answers,
}
use quinkgl_framework.Trust.Tofu.Binding.{IsSynced}

abbrev entry : TofuEntry
entry = record { creator_pubkey = "k"; first_seen = "2026-01-01T00:00:00Z" }

abbrev bound : Dict String TofuEntry
bound = ("s", entry) ∷ []

-- A node that starts with an old file.
abbrev started : TofuCache
started = record { cache = none; file = root (dump bound) }

started-IsSynced : IsSynced started
unfolding cached
started-IsSynced = refl

abbrev calls : List Call
calls = look "s" ∷ bind "s" "x" "now" ∷ unbind "s" ∷ Call.restart ∷ bind "s" "x" "now" ∷ wipe ∷ []

performs-answers_example : performs started calls ≡ answers (bindings started) calls
performs-answers_example = performs-answers started calls started-IsSynced
