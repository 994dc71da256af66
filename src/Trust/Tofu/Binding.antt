-- ===== src/Trust/Tofu/Binding.antt =====
-- The key that is seen first for a swarm stays, also over restarts of the node.
use quinkgl_framework.Common.{
  String, ◌≡◌, refl, sym, ap, ◌∙◌, inl, inr, false, none, some, List, [], ◌∷◌, arith, if◌then◌else◌,
  Bool-cases, Option-cases, ◌==◌, nat_eq, string_eq, pair_eq, ok, err,
}
use quinkgl_framework.Common.Dict.{Dict, lookup, insert, lookup-insert_ne, lookup-insert_self}
use quinkgl_framework.Trust.Tofu.{
  TofuEntry, TofuCache, load_entries, load, cached, dump, flush, loaded, record_or_validate,
  tofu_conflict, from_dict, to_dict,
}

-- The file holds what the memory holds.
abbrev pub IsSynced : TofuCache → Type 0
IsSynced s = load s.file ≡ cached s

load_entries-dump : (d : Dict String TofuEntry) → load_entries (dump d) ≡ d
unfolding load_entries dump from_dict to_dict
load_entries-dump [] = refl
load_entries-dump ((swarm_id, e) ∷ d) = ap (λ t. (swarm_id, e) ∷ t) (load_entries-dump d)

-- What is written to the file is what the next start of the node reads.
pub load-flush : (d : Dict String TofuEntry) → load (flush d).file ≡ d
unfolding load flush
load-flush d = load_entries-dump d

pub flush-IsSynced : (d : Dict String TofuEntry) → IsSynced (flush d)
unfolding cached
flush-IsSynced d = load-flush d ∙ unfold flush in refl

pub cached-flush : (d : Dict String TofuEntry) → cached (flush d) ≡ d
unfolding cached flush
cached-flush d = refl

pub cached-loaded : (s : TofuCache) → cached (loaded s) ≡ cached s
unfolding cached loaded
cached-loaded s = refl

file-loaded : (s : TofuCache) → (loaded s).file ≡ s.file
unfolding loaded
file-loaded s = refl

pub loaded-IsSynced : (s : TofuCache) → IsSynced s → IsSynced (loaded s)
loaded-IsSynced s h = ap load (file-loaded s) ∙ h ∙ sym (cached-loaded s)

-- A call, or a restart: the memory is lost, the file stays.
pub data Step : Type 0 where
  call : String → String → String → Step
  restart : Step

unfoldable pub run_step : TofuCache → Step → TofuCache
run_step s (call swarm_id creator_pubkey now) = (record_or_validate s swarm_id creator_pubkey now).0
run_step s restart = record s { cache = none }

unfoldable pub run_steps : TofuCache → List Step → TofuCache
unfolding run_step
run_steps s [] = s
run_steps s (step ∷ steps) = run_steps (run_step s step) steps

-- The cache is in sync with its file, and binds a swarm to an entry.
abbrev Binds : String → TofuEntry → TofuCache → Type 0
Binds swarm_id e s = IsSynced s × (lookup swarm_id (cached s) ≡ some e)

Binds-loaded :
    (swarm_id : String) (e : TofuEntry) (s : TofuCache)
    → Binds swarm_id e s
    → Binds swarm_id e (loaded s)
Binds-loaded swarm_id e s b = (loaded-IsSynced s b.0, ap (lookup swarm_id) (cached-loaded s) ∙ b.1)

Binds-flush :
    (swarm_id i : String) (e f : TofuEntry) (s : TofuCache)
    → lookup i (cached s) ≡ none
    → Binds swarm_id e s
    → Binds swarm_id e (flush (insert i f (cached s)))
Binds-flush swarm_id i e f s new b = (
  flush-IsSynced (insert i f (cached s)),
  ap (lookup swarm_id) (cached-flush (insert i f (cached s))) ∙ elim (string_eq.dec swarm_id i) [
    | yes same ↦ absurd (ground (arith, ap (λ x. lookup x (cached s)) same, new, b.1))
    | no n ↦ lookup-insert_ne swarm_id i f (cached s) n ∙ b.1
  ],
)

Binds-call :
    (swarm_id i key now : String) (e : TofuEntry) (s : TofuCache)
    → Binds swarm_id e s
    → Binds swarm_id e (record_or_validate s i key now).0
unfolding record_or_validate
Binds-call swarm_id i key now e s b = elim (Bool-cases (i == "")) [
  | inl h ↦ rw (h, record_or_validate) b
  | inr h ↦ elim (Bool-cases (key == "")) [
    | inl k ↦ rw (h, k, record_or_validate) b
    | inr k ↦ elim (Option-cases (lookup i (cached s))) [
      | inl new ↦ rw (h, k, new, record_or_validate) (Binds-flush swarm_id i e _ s new b)
      | inr (f, old) ↦ elim (Bool-cases (f.creator_pubkey == key)) [
        | inl same ↦ rw (h, k, old, same, record_or_validate) (Binds-loaded swarm_id e s b)
        | inr other ↦ rw (h, k, old, other, record_or_validate) (Binds-loaded swarm_id e s b)
      ]
    ]
  ]
]

Binds-restart :
    (swarm_id : String) (e : TofuEntry) (s : TofuCache)
    → Binds swarm_id e s
    → Binds swarm_id e (record s { cache = none })
unfolding cached
Binds-restart swarm_id e s b = (refl, ap (lookup swarm_id) b.0 ∙ b.1)

Binds-steps :
    (swarm_id : String) (e : TofuEntry) (steps : List Step) (s : TofuCache)
    → Binds swarm_id e s
    → Binds swarm_id e (run_steps s steps)
unfolding run_steps run_step
Binds-steps swarm_id e [] s b = b
Binds-steps swarm_id e (call i key now ∷ steps) s b =
    Binds-steps swarm_id e steps _ (Binds-call swarm_id i key now e s b)
Binds-steps swarm_id e (restart ∷ steps) s b =
    Binds-steps swarm_id e steps _ (Binds-restart swarm_id e s b)

validate :
    (s : TofuCache) (swarm_id key now : String) (e : TofuEntry)
    → (swarm_id == "") ≡ false
    → (key == "") ≡ false
    → lookup swarm_id (cached s) ≡ some e
    → (record_or_validate s swarm_id key now).1
      ≡ (if e.creator_pubkey == key then ok e else err (tofu_conflict e.creator_pubkey key))
unfolding record_or_validate
validate s swarm_id key now e h k old = ground (arith, h, k, old)

-- Once a swarm is bound to a key, in a cache that its file agrees with, after any calls and
-- restarts that key is accepted with the first entry, and every other key is refused as a
-- conflict, where id and key are not empty.
pub first_key_stands :
    (s : TofuCache) (swarm_id key now : String) (e : TofuEntry) (steps : List Step)
    → IsSynced s
    → lookup swarm_id (cached s) ≡ some e
    → (swarm_id == "") ≡ false
    → (key == "") ≡ false
    → (record_or_validate (run_steps s steps) swarm_id key now).1
      ≡ (if e.creator_pubkey == key then ok e else err (tofu_conflict e.creator_pubkey key))
first_key_stands s swarm_id key now e steps sync bound h k =
    validate (run_steps s steps) swarm_id key now e h k
      (Binds-steps swarm_id e steps s (sync, bound)).1

first_use :
    (s : TofuCache) (swarm_id key now : String)
    → (swarm_id == "") ≡ false
    → (key == "") ≡ false
    → lookup swarm_id (cached s) ≡ none
    → (record_or_validate s swarm_id key now).0
      ≡ flush (insert swarm_id (record { creator_pubkey = key; first_seen = now }) (cached s))
unfolding record_or_validate
first_use s swarm_id key now h k new = ground (arith, h, k, new)

-- If a swarm is not bound, the first call for it with a key binds it, where ids and keys are not
-- empty: after any further calls and restarts, exactly that key is accepted, with the first
-- entry, and every other one is refused as a conflict.
pub trust_on_first_use :
    (s : TofuCache) (swarm_id key other now later : String) (steps : List Step)
    → lookup swarm_id (cached s) ≡ none
    → (swarm_id == "") ≡ false
    → (key == "") ≡ false
    → (other == "") ≡ false
    → (record_or_validate
        (run_steps (record_or_validate s swarm_id key now).0 steps)
        swarm_id
        other
        later).1
      ≡ (if key == other
          then ok (record { creator_pubkey = key; first_seen = now })
          else err (tofu_conflict key other))
trust_on_first_use s swarm_id key other now later steps new h k o =
    let e : TofuEntry = record { creator_pubkey = key; first_seen = now } in
    let d : Dict String TofuEntry = insert swarm_id e (cached s) in
    rw (first_use s swarm_id key now h k new) (
      first_key_stands (flush d) swarm_id other later e steps (flush-IsSynced d)
        (ap (lookup swarm_id) (cached-flush d) ∙ lookup-insert_self swarm_id e (cached s)) h o)
