-- ===== src/Repositories/Sql/History.antt =====
-- Sequences of calls through the cache of cache.go over the tables of repository.go, and the set of
-- banned bags that they keep: a call that comes back with an error of the database may not.
use mathlib.Core.Path.{fun_ext, subst, subst₂}
use mytonstorage_gateway.Common.{
  All, Bool, List, Option, [], ap, arith, none, refl, some, sym, ℕ, ◌∷◌, ◌≡◌,
}
use mytonstorage_gateway.Dict.{IsMap, lookup}
use mytonstorage_gateway.Models.{GoError, Result, err, ok}
use mytonstorage_gateway.Repositories.{
  Cached, DbBanStatus, Repository, has_ban, new_cache, note_ban, update_ban_status,
}
use mytonstorage_gateway.Repositories.Coherence.{
  IsCoherent, IsLower, IsSql, has_ban-IsCoherent, has_ban-state, has_ban_exact,
  new_cache-IsCoherent, status_entries, update_ban_status-IsCoherent, updated,
}
use mytonstorage_gateway.Repositories.Sql.{Statement, Tables, change_blacklist, new_repository}
use mytonstorage_gateway.Repositories.Sql.Bans.{
  change_blacklist_failed, is_banned, is_banned-update, new_repository-IsSql,
}
use mytonstorage_gateway.Text.{Bytes, Unicode}

-- A call of `HasBan`, or of `UpdateBanStatus`, with the times at which it reads the clock.
pub data Call : Type 0 where
  asks : ℕ → ℕ → Bytes → Call
  updates : (ℕ → ℕ) → List DbBanStatus → Call

pub data Reply : Type 0 where
  said : Result Bool → Reply
  wrote : Option GoError → Reply

-- The banned bags as a set, without the rows, the cache and the times.
abbrev pub BannedSet : Type 0
BannedSet = Bytes → Bool

abbrev pub after_update : List DbBanStatus → BannedSet → BannedSet
after_update l banned b = updated (lookup b (status_entries l)) (banned b)

-- What a call may reply and do to the set.
pub data Step : BannedSet → Call → Reply → BannedSet → Type 0 where
  answered :
      {banned : BannedSet} {t_get t_set : ℕ} {b : Bytes}
      → Step banned (asks t_get t_set b) (said (ok (banned b))) banned
  unanswered :
      {banned : BannedSet} {t_get t_set : ℕ} {b : Bytes} {e : GoError}
      → Step banned (asks t_get t_set b) (said (err e)) banned
  written :
      {banned : BannedSet} {now : ℕ → ℕ} {l : List DbBanStatus}
      → Step banned (updates now l) (wrote none) (after_update l banned)
  unwritten :
      {banned : BannedSet} {now : ℕ → ℕ} {l : List DbBanStatus} {e : GoError}
      → Step banned (updates now l) (wrote (some e)) banned

pub data Trace : BannedSet → List Call → List Reply → BannedSet → Type 0 where
  no_calls : {banned : BannedSet} → Trace banned [] [] banned
  one_call :
      {old between after : BannedSet} {call : Call} {reply : Reply} {calls : List Call}
      {replies : List Reply}
      → Step old call reply between
      → Trace between calls replies after
      → Trace old (call ∷ calls) (reply ∷ replies) after

module _ ⦃u : Unicode⦄ where
  -- Bag IDs in lower case, and in an update no bag twice.
  abbrev pub IsProper : Call → Type 0
  IsProper (asks t_get t_set b) = IsLower b
  IsProper (updates now l) = All (λ s. IsLower s.bag_id) l × IsMap (status_entries l)

  module _ (r : Repository) where
    abbrev pub perform : Call → Cached r → Reply × Cached r
    perform (asks t_get t_set b) s =
        let (answer, s') = has_ban r t_get t_set b s in (said answer, s')
    perform (updates now l) s = let (failed, s') = update_ban_status r now l s in (wrote failed, s')

    unfoldable pub perform_all : List Call → Cached r → List Reply × Cached r
    perform_all [] s = ([], s)
    perform_all (call ∷ calls) s =
        let (reply, s') = perform call s in
        let (replies, s'') = perform_all calls s' in (reply ∷ replies, s'')

  module _ (fault : Statement → Tables → Option GoError) where
    abbrev new_sql : IsSql (new_repository fault)
    new_sql = new_repository-IsSql fault

    -- The set that the tables stand for.
    abbrev pub banned_set : Cached (new_repository fault) → BannedSet
    banned_set s b = is_banned b s.db

    abbrev repo : Repository
    repo = new_repository fault

    pub has_ban-set :
        (t_get t_set : ℕ) (b : Bytes) (s : Cached repo) → (has_ban repo t_get t_set b s).1.db ≡ s.db
    unfolding note_ban
    has_ban-set t_get t_set b s = ground (arith, has_ban-state repo new_sql t_get t_set b s)

    asks-Step :
        (t_get t_set : ℕ) (b : Bytes) (s : Cached repo)
        → IsCoherent repo new_sql s
        → IsLower b
        → Step
            (banned_set s)
            (asks t_get t_set b)
            (said (has_ban repo t_get t_set b s).0)
            (banned_set (has_ban repo t_get t_set b s).1)
    asks-Step t_get t_set b s h low =
        subst (Step (banned_set s) (asks t_get t_set b) (said (has_ban repo t_get t_set b s).0))
          (ap (λ t k. is_banned k t) (sym (has_ban-set t_get t_set b s)))
          (go (has_ban repo t_get t_set b s).0 refl)
      where
        go :
            (reply : Result Bool)
            → (has_ban repo t_get t_set b s).0 ≡ reply
            → Step (banned_set s) (asks t_get t_set b) (said reply) (banned_set s)
        go (ok answer) e =
            subst (λ a. Step (banned_set s) (asks t_get t_set b) (said (ok a)) (banned_set s))
              (sym (has_ban_exact repo new_sql t_get t_set b s answer h low e)) answered
        go (err e) p = unanswered

    updated-set :
        (l : List DbBanStatus) (t : Tables)
        → IsMap (status_entries l)
        → (change_blacklist fault l t).0 ≡ none
        → (λ b. is_banned b (change_blacklist fault l t).1) ≡ after_update l (λ b. is_banned b t)
    updated-set l t once done = fun_ext (λ b. is_banned-update fault l t b once done)

    -- The reply and the database of an update are those of the repository.
    pub update_shown :
        (now : ℕ → ℕ) (l : List DbBanStatus) (s : Cached repo)
        → ((update_ban_status repo now l s).0 ≡ (change_blacklist fault l s.db).0)
          × ((update_ban_status repo now l s).1.db ≡ (change_blacklist fault l s.db).1)
    unfolding update_ban_status
    update_shown now l s = ground arith

    updates-Step :
        (now : ℕ → ℕ) (l : List DbBanStatus) (s : Cached repo)
        → IsMap (status_entries l)
        → Step
            (banned_set s)
            (updates now l)
            (wrote (update_ban_status repo now l s).0)
            (banned_set (update_ban_status repo now l s).1)
    updates-Step now l s once =
        subst₂ (λ failed t. Step (banned_set s) (updates now l) (wrote failed) (λ b. is_banned b t))
          (sym (update_shown now l s).0) (sym (update_shown now l s).1)
          (go (change_blacklist fault l s.db).0 refl)
      where
        go :
            (failed : Option GoError)
            → (change_blacklist fault l s.db).0 ≡ failed
            → Step
                (banned_set s)
                (updates now l)
                (wrote failed)
                (λ b. is_banned b (change_blacklist fault l s.db).1)
        go none e =
            subst (Step (banned_set s) (updates now l) (wrote none))
              (sym (updated-set l s.db once e)) written
        go (some x) e =
            subst (λ t. Step (banned_set s) (updates now l) (wrote (some x)) (λ b. is_banned b t))
              (sym (change_blacklist_failed fault l s.db x e)) unwritten

    -- One call keeps the cache coherent and is a step of the set.
    perform-Step :
        (call : Call) (s : Cached repo)
        → IsCoherent repo new_sql s
        → IsProper call
        → Step (banned_set s) call (perform repo call s).0 (banned_set (perform repo call s).1)
          × IsCoherent repo new_sql (perform repo call s).1
    perform-Step (asks t_get t_set b) s h low =
        (asks-Step t_get t_set b s h low, has_ban-IsCoherent repo new_sql t_get t_set b s h low)
    perform-Step (updates now l) s h (lows, once) =
        (updates-Step now l s once, update_ban_status-IsCoherent repo new_sql now l s h lows once)

    perform_all-Trace :
        (calls : List Call) (s : Cached repo)
        → IsCoherent repo new_sql s
        → All IsProper calls
        → Trace
            (banned_set s)
            calls
            (perform_all repo calls s).0
            (banned_set (perform_all repo calls s).1)
    unfolding perform_all
    perform_all-Trace [] s h k = no_calls
    perform_all-Trace (call ∷ calls) s h (proper, propers) =
        let (step, coherent) = perform-Step call s h proper in
        one_call step (perform_all-Trace calls (perform repo call s).1 coherent propers)

    -- For bag IDs in lower case, and in each update no bag twice: whatever the order of the calls
    -- and the times at which they read the clock, and whichever statements the database refuses,
    -- the calls of `HasBan` and `UpdateBanStatus` through a new cache are those of a set of banned
    -- bags. Each answer about a bag is whether it is in the set at that moment, each update that is
    -- not refused adds its banned bags and takes out its others, and each other call leaves the set
    -- as it is.
    pub cached-Trace :
        (calls : List Call) (t : Tables)
        → All IsProper calls
        → Trace
            (λ b. is_banned b t)
            calls
            (perform_all repo calls (new_cache repo t)).0
            (banned_set (perform_all repo calls (new_cache repo t)).1)
    unfolding new_cache
    cached-Trace calls t h =
        perform_all-Trace calls (new_cache repo t) (new_cache-IsCoherent repo new_sql t) h
