-- ===== src/Directory/Quota.antt =====
-- The limits on publishing: how many advertisements get out in a session, and in a day from one creator.
use quinkgl_framework.Common.{
  ℕ, ◌≤◌, ◌<◌, String, ◌≡◌, refl, sym, subst, ◌||◌, Option, none, some, List, [], ◌∷◌, arith, ltb,
  if-elim, ◌==◌, nat_eq, string_eq, pair_eq, length,
}
use quinkgl_framework.Common.Dict.{lookup}
use mathlib.Core.Option.{some-injective}
use quinkgl_framework.Directory.{
  SwarmAdvertisement, Crypto, verify_advertisement, SwarmDirectory, accept, history_of,
  PublishError, check_publish_quota, record_publish, finish_publish, publish_by, publish,
  new_directory, month,
}
use quinkgl_framework.Directory.Ledger.{
  Log, IsLimited, IsAccounted, check_publish_quota-IsAccounted, record_publish-IsAccounted,
  accept-IsAccounted, IsAccounted-later, check_publish_quota-room,
}

-- The clock does not go back.
abbrev pub IsChronological : ℕ → List (SwarmAdvertisement × ℕ) → Type 0
IsChronological last [] = Unit
IsChronological last ((ad, now) ∷ rest) = (last ≤ now) × IsChronological now rest

-- What a publish adds to the log.
abbrev logged : SwarmAdvertisement → ℕ → Log → Option PublishError → Log
logged ad now log none = (ad.creator_pubkey, now) ∷ log
logged ad now log (some e) = log

-- Publishes one after the other, and keeps a log of those let out.
unfoldable pub publish_all :
    Crypto → SwarmDirectory → List (SwarmAdvertisement × ℕ) → Log → SwarmDirectory × Log
publish_all crypto s [] log = (s, log)
publish_all crypto s ((ad, now) ∷ rest) log =
    let (s', refused) = publish crypto s ad now in
    publish_all crypto s' rest (logged ad now log refused)

module _ (per_creator per_session : ℕ) where
  abbrev IsFiled : SwarmAdvertisement → ℕ → Log → SwarmDirectory × Option PublishError → Type 0
  IsFiled ad now log r = IsAccounted per_creator per_session now (logged ad now log r.1) r.0

  finish_publish-IsFiled :
      (s : SwarmDirectory) (ad : SwarmAdvertisement) (creator : String) (now : ℕ) (log : Log)
      (refused : Option PublishError)
      → ad.creator_pubkey ≡ some creator
      → (refused ≡ none
          → (length (history_of s creator) < s.max_per_creator)
            × (s.session_publish_count < s.max_per_session))
      → IsAccounted per_creator per_session now log s
      → IsFiled ad now log (finish_publish s ad creator now refused)
  unfolding finish_publish
  finish_publish-IsFiled s ad creator now log (some e) by room a = a
  finish_publish-IsFiled s ad creator now log none by room a =
      subst
        (λ c.
          IsAccounted per_creator per_session now ((c, now) ∷ log)
            (accept (record_publish s creator now) ad now).0)
        (sym by)
        (accept-IsAccounted per_creator per_session (record_publish s creator now) ad now
          ((some creator, now) ∷ log)
          (record_publish-IsAccounted per_creator per_session s creator now log (room refl).0
            (room refl).1 a))

  publish_by-IsFiled :
      (s : SwarmDirectory) (ad : SwarmAdvertisement) (last now : ℕ) (log : Log)
      (creator : Option String)
      → ad.creator_pubkey ≡ creator
      → last ≤ now
      → IsAccounted per_creator per_session last log s
      → IsFiled ad now log (publish_by s ad now creator)
  unfolding publish_by
  publish_by-IsFiled s ad last now log none by le a =
      IsAccounted-later per_creator per_session s last now log le a
  publish_by-IsFiled s ad last now log (some creator) by le a =
      finish_publish-IsFiled (check_publish_quota s creator now).0 ad creator now log
        (check_publish_quota s creator now).1 by
        (check_publish_quota-room per_creator per_session s creator now)
        (check_publish_quota-IsAccounted per_creator per_session s creator last now log le a)

  publish-IsFiled :
      (crypto : Crypto) (s : SwarmDirectory) (ad : SwarmAdvertisement) (last now : ℕ) (log : Log)
      → last ≤ now
      → IsAccounted per_creator per_session last log s
      → IsFiled ad now log (publish crypto s ad now)
  unfolding publish
  publish-IsFiled crypto s ad last now log le a =
      if-elim (IsFiled ad now log) (verify_advertisement crypto ad)
        (λ _. publish_by-IsFiled s ad last now log ad.creator_pubkey refl le a)
        (λ _. IsAccounted-later per_creator per_session s last now log le a)

  publish_all-IsAccounted :
      (crypto : Crypto) (s : SwarmDirectory) (events : List (SwarmAdvertisement × ℕ)) (last : ℕ)
      (log : Log)
      → IsChronological last events
      → IsAccounted per_creator per_session last log s
      → let out = (publish_all crypto s events log).1 in
        (length out ≤ per_session) × IsLimited per_creator out
  unfolding publish_all
  publish_all-IsAccounted crypto s [] last log times a = (a.within, a.limited)
  publish_all-IsAccounted crypto s ((ad, now) ∷ rest) last log times a =
      publish_all-IsAccounted crypto (publish crypto s ad now).0 rest now
        (logged ad now log (publish crypto s ad now).1) times.1
        (publish-IsFiled crypto s ad last now log times.0 a)

fresh-IsAccounted :
    (max_cache ttl per_creator per_session : ℕ)
    → IsAccounted per_creator per_session 0 [] (record {
      max_cache = max_cache;
      default_ttl = ttl;
      max_per_creator = per_creator;
      max_per_session = per_session;
      cache = [];
      creator_history = [];
      session_publish_count = 0;
    })
unfolding lookup
fresh-IsAccounted max_cache ttl per_creator per_session = record {
  counted = λ creator w from. refl;
  total = refl;
  within = omega arith;
  limited = tt;
  session_limit = refl;
  creator_limit = refl;
}

new_directory-IsAccounted :
    (max_cache ttl per_creator per_session : ℕ) (s : SwarmDirectory)
    → new_directory max_cache ttl per_creator per_session ≡ some s
    → IsAccounted per_creator per_session 0 [] s
unfolding new_directory
new_directory-IsAccounted max_cache ttl per_creator per_session s =
    if-elim (λ (o : Option SwarmDirectory). o ≡ some s → IsAccounted per_creator per_session 0 [] s)
      (max_cache == 0 || (ttl == 0 || ltb month ttl)) (λ _ made. absurd (ground (arith, made)))
      (λ _ made.
        subst (IsAccounted per_creator per_session 0 []) (some-injective _ s made)
          (fresh-IsAccounted max_cache ttl per_creator per_session))

-- In a new directory whose clock does not go back, a session lets out at most max_per_session
-- advertisements, and at each of them the creator has had fewer than max_per_creator in the day
-- before.
pub publish_all-bounded :
    (crypto : Crypto) (max_cache ttl per_creator per_session : ℕ) (s : SwarmDirectory)
    (events : List (SwarmAdvertisement × ℕ))
    → new_directory max_cache ttl per_creator per_session ≡ some s
    → IsChronological 0 events
    → let log = (publish_all crypto s events []).1 in
      (length log ≤ per_session) × IsLimited per_creator log
publish_all-bounded crypto max_cache ttl per_creator per_session s events made times =
    publish_all-IsAccounted per_creator per_session crypto s events 0 [] times
      (new_directory-IsAccounted max_cache ttl per_creator per_session s made)
