-- ===== src/Updates/Waiting.antt =====
-- What happens to an update while its callback runs.
use quinkgl_framework.Common.{
  ℕ, String, ◌≡◌, refl, ap, ◌∙◌, Bool, true, none, List, [], ◌∷◌, arith, if-elim, Option-elim,
  nat_eq, string_eq, pair_eq,
}
use quinkgl_framework.Common.Dict.{lookup}
use quinkgl_framework.Transport.Host.{Host}
use quinkgl_framework.Transport.State.{Community, Effect, ModelUpdate, deliver}
use quinkgl_framework.Transport.Admission.{authenticate}
use quinkgl_framework.Membership.{update_seen}
use quinkgl_framework.Updates.{is_replayed, refusal, begin_update}

refusal-seen :
    (host : Host) (s : Community) (mid id : String) (p : ModelUpdate) (now : ℕ)
    → refusal host (update_seen id now s) mid p ≡ refusal host s mid p
unfolding refusal is_replayed update_seen authenticate
refusal-seen host s mid id p now =
    Option-elim (λ (c : Community). refusal host c mid p ≡ refusal host s mid p)
      (lookup id s.known_peers) (λ _. refl) (λ _ _. refl)

-- The callback is called.
abbrev pub delivery : ModelUpdate → Effect
delivery p = deliver p.sender_id p.weights_bytes p.sample_count p.round_number p.loss p.accuracy

pub begin_update-delivers :
    (host : Host) (s : Community) (mid : String) (p : ModelUpdate) (now : ℕ)
    → s.has_callback ≡ true
    → refusal host s mid p ≡ none
    → host.deserializes p.weights_bytes ≡ true
    → begin_update host s mid p now ≡ (update_seen p.sender_id now s, (delivery p ∷ [], true))
unfolding begin_update
begin_update-delivers host s mid p now callback admitted loads =
    let P : Community × (List Effect × Bool) → Type 0 =
      (λ r. r ≡ (update_seen p.sender_id now s, (delivery p ∷ [], true))) in
    Option-elim P (refusal host s mid p)
      (λ _.
        if-elim P (host.deserializes p.weights_bytes)
          (λ _.
            ap (λ es. (update_seen p.sender_id now s, (es, true)))
              (if-elim (λ (es : List Effect). es ≡ delivery p ∷ []) s.has_callback (λ _. refl)
                (λ no. absurd (ground (arith, callback, no)))))
          (λ no. absurd (ground (arith, loads, no))))
      (λ r no. absurd (ground (arith, admitted, no)))

begin_update-admitted :
    (host : Host) (s : Community) (mid : String) (p : ModelUpdate) (now : ℕ)
    → (begin_update host s mid p now).1.1 ≡ true
    → (refusal host s mid p ≡ none) × (host.deserializes p.weights_bytes ≡ true)
unfolding begin_update
begin_update-admitted host s mid p now =
    let P : Community × (List Effect × Bool) → Type 0 = (λ r.
      r.1.1 ≡ true → (refusal host s mid p ≡ none) × (host.deserializes p.weights_bytes ≡ true)) in
    Option-elim P (refusal host s mid p)
      (λ admitted.
        if-elim P (host.deserializes p.weights_bytes) (λ loads _. (admitted, loads))
          (λ _ no. absurd (ground (arith, no))))
      (λ r _ no. absurd (ground (arith, no)))

update_seen-callback :
    (s : Community) (id : String) (now : ℕ) → (update_seen id now s).has_callback ≡ s.has_callback
unfolding update_seen
update_seen-callback s id now =
    Option-elim (λ (c : Community). c.has_callback ≡ s.has_callback) (lookup id s.known_peers)
      (λ _. refl) (λ _ _. refl)

-- An update that is delivered to the callback is delivered again if it arrives a second time
-- before the callback has returned, where a callback is set.
pub begin_update-again :
    (host : Host) (s : Community) (mid : String) (p : ModelUpdate) (now later : ℕ)
    → s.has_callback ≡ true
    → (begin_update host s mid p now).1.1 ≡ true
    → ((begin_update host s mid p now).1.0 ≡ delivery p ∷ [])
      × ((begin_update host (begin_update host s mid p now).0 mid p later).1.0 ≡ delivery p ∷ [])
begin_update-again host s mid p now later callback goes =
    let (admitted, loads) = begin_update-admitted host s mid p now goes in
    let first = begin_update-delivers host s mid p now callback admitted loads in
    let second =
      begin_update-delivers host (update_seen p.sender_id now s) mid p later
        (update_seen-callback s p.sender_id now ∙ callback)
        (refusal-seen host s mid p.sender_id p now ∙ admitted) loads in
    (
      ap (λ r. r.1.0) first,
      ap (λ (c : Community). (begin_update host c mid p later).1.0) (ap (λ r. r.0) first)
          ∙ ap (λ r. r.1.0) second,
    )
