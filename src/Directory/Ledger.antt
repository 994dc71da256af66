-- ===== src/Directory/Ledger.antt =====
-- What a directory has counted of the advertisements that it let out.
use quinkgl_framework.Common.{
  ℕ, ◌+◌, ◌-◌, ◌≤◌, ◌<◌, String, ◌≡◌, refl, sym, ap, ◌∙◌, ◌≢◌, Bool, false, ◌&&◌, Option, none,
  some, List, [], ◌∷◌, ◌++◌, arith, leb, if◌then◌else◌, if-elim, ◌==◌, nat_eq, string_eq, pair_eq,
  length, keep, length-keep-le,
}
use quinkgl_framework.Common.Dict.{insert, lookup-insert}
use quinkgl_framework.Directory.{
  SwarmAdvertisement, SwarmDirectory, accept, day, prune_history, history_of, check_publish_quota,
  record_publish, is_superseded,
}

-- The advertisements that were let out, by creator and time, the newest first.
abbrev pub Log : Type 0
Log = List (Option String × ℕ)

-- Tests one entry: from this creator, and not before a time.
abbrev pub is_recent : String → ℕ → Option String × ℕ → Bool
is_recent creator w (some c, t) = c == creator && leb w t
is_recent creator w (none, t) = false

-- How many came from a creator since a time.
abbrev pub count_since : String → ℕ → Log → ℕ
count_since creator w log = length (keep (is_recent creator w) log)

-- Each entry had fewer than n of its creator in the day before it.
abbrev pub IsLimited : ℕ → Log → Type 0
IsLimited n [] = Unit
IsLimited n ((none, t) ∷ log) = IsLimited n log
IsLimited n ((some c, t) ∷ log) = (count_since c (t - day) log < n) × IsLimited n log

module _ (per_creator per_session : ℕ) where
  -- What the directory has counted agrees with the log.
  pub record IsAccounted (last : ℕ) (log : Log) (s : SwarmDirectory) : Type 0 where
    pub counted :
        (creator : String) (w : ℕ)
        → last - day ≤ w
        → length (keep (leb w) (history_of s creator)) ≡ count_since creator w log
    pub total : s.session_publish_count ≡ length log
    pub within : length log ≤ per_session
    pub limited : IsLimited per_creator log
    pub session_limit : s.max_per_session ≡ per_session
    pub creator_limit : s.max_per_creator ≡ per_creator

  length-keep_prune :
      (w from : ℕ) (h : List ℕ)
      → from ≤ w
      → length (keep (leb w) (prune_history from h)) ≡ length (keep (leb w) h)
  unfolding prune_history
  length-keep_prune w from [] le = refl
  length-keep_prune w from (t ∷ h) le = ground (arith, length-keep_prune w from h le)

  length-keep_snoc :
      (w now : ℕ) (h : List ℕ)
      → length (keep (leb w) (h ++ now ∷ []))
        ≡ (length (keep (leb w) h) + (if leb w now then 1 else 0))
  length-keep_snoc w now [] = ground arith
  length-keep_snoc w now (t ∷ h) = ground (arith, length-keep_snoc w now h)

  -- The history of a creator after that of another, or its own, has been set.
  history_of-insert :
      (s : SwarmDirectory) (creator other : String) (h : List ℕ)
      → history_of (record s { creator_history = insert creator h s.creator_history }) other
        ≡ (if other == creator then h else history_of s other)
  history_of-insert s creator other h =
      ground (arith, lookup-insert other creator h s.creator_history)

  -- How many of a history that was set lie after a time.
  set_history-count :
      (s : SwarmDirectory) (creator other : String) (w : ℕ) (h : List ℕ) (n : ℕ)
      → (other ≡ creator → length (keep (leb w) h) ≡ n)
      → (other ≢ creator → length (keep (leb w) (history_of s other)) ≡ n)
      → length (
          keep
            (leb w)
            (history_of (record s { creator_history = insert creator h s.creator_history }) other))
        ≡ n
  set_history-count s creator other w h n same differ =
      ap (λ k. length (keep (leb w) k)) (history_of-insert s creator other h)
      ∙ elim (string_eq.dec other creator) [
        | yes q ↦ ground (arith, q, same q)
        | no r ↦ ground (arith, r, differ r)
      ]

  pub check_publish_quota-IsAccounted :
      (s : SwarmDirectory) (creator : String) (last now : ℕ) (log : Log)
      → last ≤ now
      → IsAccounted last log s
      → IsAccounted now log (check_publish_quota s creator now).0
  unfolding check_publish_quota
  check_publish_quota-IsAccounted s creator last now log le a = record {
    counted = λ other w from.
        let before = a.counted other w (omega arith) in
        set_history-count s creator other w (prune_history (now - day) (history_of s creator))
          (count_since other w log)
          (λ q.
            length-keep_prune w (now - day) (history_of s creator) from
            ∙ ap (λ c. length (keep (leb w) (history_of s c))) (sym q)
            ∙ before)
          (λ _. before);
    total = a.total;
    within = a.within;
    limited = a.limited;
    session_limit = a.session_limit;
    creator_limit = a.creator_limit;
  }

  pub record_publish-IsAccounted :
      (s : SwarmDirectory) (creator : String) (now : ℕ) (log : Log)
      → length (history_of s creator) < s.max_per_creator
      → s.session_publish_count < s.max_per_session
      → IsAccounted now log s
      → IsAccounted now ((some creator, now) ∷ log) (record_publish s creator now)
  unfolding record_publish
  record_publish-IsAccounted s creator now log few room a = record {
    counted = λ other w from.
        set_history-count s creator other w (history_of s creator ++ now ∷ [])
          (count_since other w ((some creator, now) ∷ log))
          (λ q.
            ground
              (arith, q, length-keep_snoc w now (history_of s creator), a.counted creator w from))
          (λ r. ground (arith, r, a.counted other w from));
    total = ground (arith, a.total);
    within = ground (arith, a.total, room, a.session_limit);
    limited = (
      ground (
        arith,
        few,
        a.creator_limit,
        a.counted creator (now - day) (omega arith),
        length-keep-le (leb (now - day)) (history_of s creator),
      ),
      a.limited,
    );
    session_limit = a.session_limit;
    creator_limit = a.creator_limit;
  }

  pub accept-IsAccounted :
      (s : SwarmDirectory) (ad : SwarmAdvertisement) (now : ℕ) (log : Log)
      → IsAccounted now log s
      → IsAccounted now log (accept s ad now).0
  unfolding accept
  accept-IsAccounted s ad now log a =
      if-elim (λ (r : SwarmDirectory × Bool). IsAccounted now log r.0) (is_superseded s ad now)
        (λ _. a)
        (λ _. record {
          counted = a.counted;
          total = a.total;
          within = a.within;
          limited = a.limited;
          session_limit = a.session_limit;
          creator_limit = a.creator_limit;
        })

  pub IsAccounted-later :
      (s : SwarmDirectory) (last now : ℕ) (log : Log)
      → last ≤ now
      → IsAccounted last log s
      → IsAccounted now log s
  IsAccounted-later s last now log le a = record {
    counted = λ other w from. a.counted other w (omega arith);
    total = a.total;
    within = a.within;
    limited = a.limited;
    session_limit = a.session_limit;
    creator_limit = a.creator_limit;
  }

  -- A check that passes leaves room.
  pub check_publish_quota-room :
      (s : SwarmDirectory) (creator : String) (now : ℕ)
      → (check_publish_quota s creator now).1 ≡ none
      → let s' = (check_publish_quota s creator now).0 in
        (length (history_of s' creator) < s'.max_per_creator)
        × (s'.session_publish_count < s'.max_per_session)
  unfolding check_publish_quota
  check_publish_quota-room s creator now passed =
      let set =
        history_of-insert s creator creator (prune_history (now - day) (history_of s creator)) in
      (ground (arith, passed, set), ground (arith, passed))
