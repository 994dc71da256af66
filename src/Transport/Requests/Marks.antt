-- ===== src/Transport/Requests/Marks.antt =====
-- What a request does to a transfer that is still being sent.
use quinkgl_framework.Common.{
  ℕ, ◌≡◌, refl, ap, ◌∙◌, inl, inr, Bool, not, ◌&&◌, some, List, [], ◌∷◌, arith, ℕ_discrete,
  if◌then◌else◌, Bool-cases, contains, nat_eq, string_eq, pair_eq,
}
use quinkgl_framework.Common.Dict.{lookup, insert, has, lookup-insert}
use quinkgl_framework.Transport.State.{OutgoingTransfer}
use quinkgl_framework.Transport.Requests.{mark_due}

-- The chunk was sent, and not acknowledged.
abbrev pub is_outstanding : OutgoingTransfer → ℕ → Bool
is_outstanding t i = not (contains t.acked i) && has i t.sent_at

-- A request makes exactly the requested chunks due again that were sent and not acknowledged;
-- the sending time of every other chunk stays.
pub mark_due_sent_at :
    (i : ℕ) (is : List ℕ) (t : OutgoingTransfer)
    → lookup i (mark_due is t).sent_at
      ≡ (if contains is i && is_outstanding t i then some 0 else lookup i t.sent_at)
unfolding mark_due
mark_due_sent_at i [] t = refl
mark_due_sent_at i (j ∷ is) t = elim (Bool-cases (is_outstanding t j)) [
  | inl out ↦
      rw (out, mark_due)
        (let u : OutgoingTransfer = record t {
          sent_at = insert j 0 t.sent_at;
          attempts = insert j 0 t.attempts;
        } in
          mark_due_sent_at i is u ∙ elim (ℕ_discrete i j) [
            | yes e ↦ ground (arith, ap (is_outstanding t) e, lookup-insert i j 0 t.sent_at)
            | no n ↦ ground (arith, lookup-insert i j 0 t.sent_at)
          ])
  | inr in_ ↦
      rw (in_, mark_due)
        (mark_due_sent_at i is t ∙ elim (ℕ_discrete i j) [
          | yes e ↦ ground (arith, ap (is_outstanding t) e)
          | no n ↦ ground arith
        ])
]
