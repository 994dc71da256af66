-- ===== src/Trust/Tofu/Refinement.antt =====
-- The cache of keys as a map of which each entry is written once: what TofuCache promises, without
-- its document, its order or when it is loaded.
use quinkgl_framework.Common.{
  String, ◌≡◌, refl, sym, ap, ap₂, ◌∙◌, inl, inr, Bool, true, false, Option, none, some, List, [],
  ◌∷◌, arith, if◌then◌else◌, Bool-cases, Option-cases, if-elim, ◌==◌, nat_eq, string_eq, pair_eq,
  Result, ok, err,
}
use mathlib.Core.Path.{fun_ext}
use quinkgl_framework.Trust.Tofu.Binding.{
  IsSynced, flush-IsSynced, cached-flush, loaded-IsSynced, cached-loaded,
}
use quinkgl_framework.Common.Dict.{Dict, lookup, insert, erase, has, lookup-insert, lookup-erase}
use quinkgl_framework.Trust.Tofu.{
  TofuEntry, TofuCache, TofuError, cached, loaded, flush, get, dump, load_entries,
  record_or_validate, forget, clear, empty_swarm_id, empty_pubkey, tofu_conflict, missing,
  unreadable, bad_root, root, load, Document,
}

-- The abstract state: the entry of each swarm.
abbrev pub Bindings : Type 0
Bindings = String → Option TofuEntry

abbrev pub update : String → Option TofuEntry → Bindings → Bindings
update swarm_id entry m other = if other == swarm_id then entry else m other

-- The operations, and how the abstract state answers them.
pub data Call : Type 0 where
  look : String → Call
  bind : String → String → String → Call
  unbind : String → Call
  wipe restart : Call

pub data Answer : Type 0 where
  found : Option TofuEntry → Answer
  bound : Result TofuError TofuEntry → Answer
  unbound : Bool → Answer
  done : Answer

abbrev pub is_bound : Option TofuEntry → Bool
is_bound none = false
is_bound (some _) = true

unfoldable pub bind_once :
    Bindings → String → String → String → Option TofuEntry → Bindings × Result TofuError TofuEntry
bind_once m swarm_id pubkey now none =
    let entry : TofuEntry = record { creator_pubkey = pubkey; first_seen = now } in
    (update swarm_id (some entry) m, ok entry)
bind_once m swarm_id pubkey now (some existing) = (
  m,
  if existing.creator_pubkey == pubkey
      then ok existing
      else err (tofu_conflict existing.creator_pubkey pubkey),
)

unfoldable pub answer : Bindings → Call → Bindings × Answer
unfolding bind_once
answer m (look swarm_id) = (m, found (m swarm_id))
answer m (bind swarm_id pubkey now) =
    if swarm_id == ""
    then (m, bound (err empty_swarm_id))
    else (if pubkey == ""
        then (m, bound (err empty_pubkey))
        else (let (m', r) = bind_once m swarm_id pubkey now (m swarm_id) in (m', bound r)))
answer m (unbind swarm_id) = (update swarm_id none m, unbound (is_bound (m swarm_id)))
answer m wipe = ((λ _. none), done)
answer m restart = (m, done)

-- The same call of the cache.
unfoldable pub perform : TofuCache → Call → TofuCache × Answer
unfolding get record_or_validate forget clear
perform s (look swarm_id) = let (s', r) = get s swarm_id in (s', found r)
perform s (bind swarm_id pubkey now) =
    let (s', r) = record_or_validate s swarm_id pubkey now in (s', bound r)
perform s (unbind swarm_id) = let (s', r) = forget s swarm_id in (s', unbound r)
perform s wipe = (clear s, done)
perform s restart = (record s { cache = none }, done)

abbrev pub bindings : TofuCache → Bindings
bindings s swarm_id = lookup swarm_id (cached s)

unfoldable pub answers : Bindings → List Call → List Answer
answers m [] = []
answers m (c ∷ cs) = (answer m c).1 ∷ answers (answer m c).0 cs

unfoldable pub performs : TofuCache → List Call → List Answer
performs s [] = []
performs s (c ∷ cs) = (perform s c).1 ∷ performs (perform s c).0 cs

-- The abstract view of a state with an answer.
abbrev view : TofuCache × Answer → Bindings × Answer
view (s, a) = (bindings s, a)

bindings-flush-insert :
    (s : TofuCache) (swarm_id : String) (entry : TofuEntry)
    → bindings (flush (insert swarm_id entry (cached s)))
      ≡ update swarm_id (some entry) (bindings s)
bindings-flush-insert s swarm_id entry = fun_ext (λ other.
    ap (lookup other) (cached-flush (insert swarm_id entry (cached s)))
    ∙ lookup-insert other swarm_id entry (cached s))

bindings-flush-erase :
    (s : TofuCache) (swarm_id : String)
    → bindings (flush (erase swarm_id (cached s))) ≡ update swarm_id none (bindings s)
bindings-flush-erase s swarm_id = fun_ext (λ other.
    ap (lookup other) (cached-flush (erase swarm_id (cached s)))
    ∙ lookup-erase other swarm_id (cached s))

update-absent : (m : Bindings) (swarm_id : String) → m swarm_id ≡ none → update swarm_id none m ≡ m
update-absent m swarm_id h = fun_ext (λ other. elim (string_eq.dec other swarm_id) [
  | yes q ↦ ground (arith, q, h)
  | no n ↦ ground (arith, n)
])

bindings-loaded : (s : TofuCache) → bindings (loaded s) ≡ bindings s
bindings-loaded s = ap (λ d swarm_id. lookup swarm_id d) (cached-loaded s)

cached-clear :
    (c : Option (Dict String TofuEntry)) (file : Document)
    → cached (clear (record { cache = c; file = file })) ≡ []
unfolding clear cached flush
cached-clear c missing = refl
cached-clear c unreadable = refl
cached-clear c bad_root = refl
cached-clear c (root d) = refl

clear-IsSynced :
    (c : Option (Dict String TofuEntry)) (file : Document)
    → IsSynced (clear (record { cache = c; file = file }))
unfolding clear cached flush load load_entries dump
clear-IsSynced c missing = refl
clear-IsSynced c unreadable = refl
clear-IsSynced c bad_root = refl
clear-IsSynced c (root d) = refl

-- A call of the cache and of the map.
perform-bind_named :
    (s : TofuCache) (swarm_id pubkey now : String)
    → (swarm_id == "") ≡ false
    → (pubkey == "") ≡ false
    → view (perform s (bind swarm_id pubkey now)) ≡ answer (bindings s) (bind swarm_id pubkey now)
unfolding perform answer record_or_validate bind_once
perform-bind_named s swarm_id pubkey now e f = elim (Option-cases (lookup swarm_id (cached s))) [
  | inl g ↦
      let entry : TofuEntry = record { creator_pubkey = pubkey; first_seen = now } in
      rw (e, f, g) (ap (λ m. (m, bound (ok entry))) (bindings-flush-insert s swarm_id entry))
  | inr (existing, g) ↦ elim (Bool-cases (existing.creator_pubkey == pubkey)) [
    | inl same ↦ rw (e, f, g, same) (ap (λ m. (m, bound (ok existing))) (bindings-loaded s))
    | inr other ↦
        rw (e, f, g, other)
          (ap (λ m. (m, bound (err (tofu_conflict existing.creator_pubkey pubkey))))
            (bindings-loaded s))
  ]
]

perform-bind :
    (s : TofuCache) (swarm_id pubkey now : String)
    → view (perform s (bind swarm_id pubkey now)) ≡ answer (bindings s) (bind swarm_id pubkey now)
unfolding perform answer record_or_validate
perform-bind s swarm_id pubkey now = elim (Bool-cases (swarm_id == "")) [
  | inl e ↦ rw e refl
  | inr e ↦ elim (Bool-cases (pubkey == "")) [
    | inl f ↦ rw (e, f) refl
    | inr f ↦ perform-bind_named s swarm_id pubkey now e f
  ]
]

perform-unbind :
    (s : TofuCache) (swarm_id : String)
    → view (perform s (unbind swarm_id)) ≡ answer (bindings s) (unbind swarm_id)
unfolding perform answer forget
perform-unbind s swarm_id = elim (Option-cases (lookup swarm_id (cached s))) [
  | inl g ↦ rw g (
      ap (λ m. (m, unbound false))
        (bindings-loaded s ∙ sym (update-absent (bindings s) swarm_id g)))
  | inr (existing, g) ↦ rw g (ap (λ m. (m, unbound true)) (bindings-flush-erase s swarm_id))
]

perform-answer :
    (s : TofuCache) (c : Call) → IsSynced s → view (perform s c) ≡ answer (bindings s) c
unfolding perform answer get
perform-answer s (look swarm_id) h =
    ap (λ m. (m, found (lookup swarm_id (cached s)))) (bindings-loaded s)
perform-answer s (bind swarm_id pubkey now) h = perform-bind s swarm_id pubkey now
perform-answer s (unbind swarm_id) h = perform-unbind s swarm_id
perform-answer s wipe h =
    ap (λ d. ((λ swarm_id. lookup swarm_id d), done)) (cached-clear s.cache s.file)
    ∙ (unfold lookup in refl)
perform-answer s restart h = ap (λ d. ((λ swarm_id. lookup swarm_id d), done)) (unfold cached in h)

record_or_validate-IsSynced :
    (s : TofuCache) (swarm_id pubkey now : String)
    → IsSynced s
    → IsSynced (record_or_validate s swarm_id pubkey now).0
unfolding record_or_validate
record_or_validate-IsSynced s swarm_id pubkey now h =
    let P : TofuCache × Result TofuError TofuEntry → Type 0 = (λ r. IsSynced r.0) in
    if-elim P (swarm_id == "") (λ _. h)
      (λ _.
        if-elim P (pubkey == "") (λ _. h)
          (λ _. elim (Option-cases (lookup swarm_id (cached s))) [
            | inl new ↦ rw new (flush-IsSynced _)
            | inr (existing, old) ↦ rw old (
                if-elim P (existing.creator_pubkey == pubkey) (λ _. loaded-IsSynced s h)
                  (λ _. loaded-IsSynced s h))
          ]))

perform-IsSynced : (s : TofuCache) (c : Call) → IsSynced s → IsSynced (perform s c).0
unfolding perform
perform-IsSynced s (look swarm_id) h = unfold get in loaded-IsSynced s h
perform-IsSynced s (bind swarm_id pubkey now) h =
    record_or_validate-IsSynced s swarm_id pubkey now h
perform-IsSynced s (unbind swarm_id) h =
    unfold forget in
    if-elim (λ (r : TofuCache × Bool). IsSynced r.0) (has swarm_id (cached s))
      (λ _. flush-IsSynced (erase swarm_id (cached s))) (λ _. loaded-IsSynced s h)
perform-IsSynced s wipe h = clear-IsSynced s.cache s.file
perform-IsSynced s restart h = unfold cached in refl

-- Any series of calls and restarts of a cache that its file agrees with is answered exactly as
-- by a map from swarms to entries in which a binding is made once: the cache refines that map.
pub performs-answers :
    (s : TofuCache) (cs : List Call) → IsSynced s → performs s cs ≡ answers (bindings s) cs
unfolding performs answers
performs-answers s [] h = refl
performs-answers s (c ∷ cs) h =
    let step = perform-answer s c h in
    ap₂ (λ a rest. a ∷ rest) (ap (λ r. r.1) step)
      (performs-answers (perform s c).0 cs (perform-IsSynced s c h)
        ∙ ap (λ m. answers m cs) (ap (λ r. r.0) step))
