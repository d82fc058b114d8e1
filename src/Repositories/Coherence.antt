-- ===== src/Repositories/Coherence.antt =====
-- The cache of pkg/repositories/files/cache.go and the database behind it.
use mathlib.Core.Path.{subst}
use mytonstorage_gateway.Common.{
  All, Bool, Bool-cases, List, Option, Option-cases, [], arith, false, if◌then◌else◌, inl, inr, leb,
  none, refl, some, sym, true, ℕ, ◌&&◌, ◌+◌, ◌∙◌, ◌∷◌, ◌≡◌, ◌⊎◌,
}
use mytonstorage_gateway.Cache.{SimpleCache, get, new_simple_cache}
use mytonstorage_gateway.Cache.Reads.{reads, reads-get-some, reads-release, reads-set}
use mytonstorage_gateway.Dict.{IsMap, lookup}
use mytonstorage_gateway.Models.{GoError, Result, err, ok}
use mytonstorage_gateway.Repositories.{
  Cached, DbBanStatus, Repository, ban_key, has_ban, new_cache, note_ban, note_status,
  note_statuses, update_ban_status,
}
use mytonstorage_gateway.Text.{Bytes, Unicode, bytes_eq, to_lower}
use mytonstorage_gateway.Text.Laws.{bytes_eq_iff}

-- The documented meaning of the SQL of repository.go, for lists of statuses with distinct bag IDs:
-- a row of the blacklist is there or not, and the update inserts the rows of the banned bags and
-- deletes those of the others.
abbrev pub status_entries : List DbBanStatus → List (Bytes × Bool)
status_entries [] = []
status_entries (s ∷ statuses) = (s.bag_id, s.status) ∷ status_entries statuses

abbrev pub updated : Option Bool → Bool → Bool
updated none old = old
updated (some b) old = b

pub record IsSql (r : Repository) : Type 0 where
  pub banned : Bytes → r.Db → Bool
  pub has_ban-banned :
      (b : Bytes) (db : r.Db) (answer : Bool) → r.has_ban b db ≡ ok answer → answer ≡ banned b db
  pub banned-update :
      (l : List DbBanStatus) (db : r.Db) (b : Bytes)
      → IsMap (status_entries l)
      → (r.update_ban_status l db).0 ≡ none
      → banned b (r.update_ban_status l db).1 ≡ updated (lookup b (status_entries l)) (banned b db)
  pub banned-failed :
      (l : List DbBanStatus) (db : r.Db) (b : Bytes) (e : GoError)
      → (r.update_ban_status l db).0 ≡ some e
      → banned b (r.update_ban_status l db).1 ≡ banned b db

module _ ⦃u : Unicode⦄ where
  -- A bag ID in lower case, as the handlers make it.
  abbrev pub IsLower : Bytes → Type 0
  IsLower b = to_lower b ≡ b

  -- Two bags in lower case share a key only if they are one.
  ban_key-eq :
      (a b : Bytes) → IsLower a → IsLower b → bytes_eq (ban_key a) (ban_key b) ≡ bytes_eq a b
  ban_key-eq a b h k = rw (h, k) refl

  -- What one round leaves to be read at a bag.
  note_status-reads :
      (status : Bool) (now : ℕ) (a b : Bytes) (c : SimpleCache Bool) (t : ℕ)
      → IsLower a
      → IsLower b
      → reads (note_status status now (ban_key a) c) t (ban_key b) ≡ (
          if bytes_eq a b
          then (if status && leb t (now + c.ttl) then some true else none)
          else reads c t (ban_key b))
  unfolding note_status
  note_status-reads true now a b c t low_a low_b =
      rw (reads-set c now t (ban_key a) (ban_key b) true, low_a, low_b) refl
  note_status-reads false now a b c t low_a low_b =
      rw ((reads-release c now t (ban_key a) (ban_key b)).1, low_a, low_b) refl

  -- The status of the first entry, or what the rest leaves.
  status_first :
      (a b : Bytes) (status live : Bool) (rest : List (Bytes × Bool)) (x y : Option Bool) (v : Bool)
      → lookup a rest ≡ none
      → (lookup b rest ≡ some true) ⊎ ((lookup b rest ≡ none) × (x ≡ some v))
      → x ≡ (if bytes_eq a b then (if status && live then some true else none) else y)
      → (lookup b ((a, status) ∷ rest) ≡ some true)
        ⊎ ((lookup b ((a, status) ∷ rest) ≡ none) × (y ≡ some v))
  unfolding lookup
  status_first a b status live rest x y v new ih step = ground (arith, bytes_eq_iff a b)

  -- What the loop over the statuses leaves to be read at a bag was noted from its status, or was
  -- there before and the bag has none.
  note_statuses-reads :
      (now : ℕ → ℕ) (n : ℕ) (l : List DbBanStatus) (c : SimpleCache Bool) (b : Bytes) (t : ℕ)
      (v : Bool)
      → IsLower b
      → All (λ s. IsLower s.bag_id) l
      → IsMap (status_entries l)
      → reads (note_statuses now n l c) t (ban_key b) ≡ some v
      → (lookup b (status_entries l) ≡ some true)
        ⊎ ((lookup b (status_entries l) ≡ none) × (reads c t (ban_key b) ≡ some v))
  unfolding note_statuses
  note_statuses-reads now n [] c b t v low lows once e = inr (unfold lookup in refl, e)
  note_statuses-reads now n (s ∷ l) c b t v low (low', lows) (new, once) e =
      status_first s.bag_id b s.status (leb t (now n + c.ttl)) (status_entries l) _ _ v new
        (note_statuses-reads now (n + 1) l (note_status s.status (now n) (ban_key s.bag_id) c) b t v
          low lows once e)
        (note_status-reads s.status (now n) s.bag_id b c t low' low)

  module _ (r : Repository) (q : IsSql r) where
    open q use {banned, has_ban-banned, banned-update, banned-failed}

    -- Whatever the cache says of a bag in lower case, at any time, the bag is banned.
    abbrev pub IsCoherent : Cached r → Type 0
    IsCoherent s =
        (t : ℕ) (b : Bytes) (v : Bool)
        → IsLower b
        → reads s.cache t (ban_key b) ≡ some v
        → banned b s.db ≡ true

    pub update_done :
        (now : ℕ → ℕ) (l : List DbBanStatus) (s : Cached r)
        → (r.update_ban_status l s.db).0 ≡ none
        → (update_ban_status r now l s).1
          ≡ record { cache = note_statuses now 0 l s.cache; db = (r.update_ban_status l s.db).1 }
    unfolding update_ban_status
    update_done now l s done = ground arith

    pub update_failed :
        (now : ℕ → ℕ) (l : List DbBanStatus) (s : Cached r) (e : GoError)
        → (r.update_ban_status l s.db).0 ≡ some e
        → (update_ban_status r now l s).1 ≡ record s { db = (r.update_ban_status l s.db).1 }
    unfolding update_ban_status
    update_failed now l s e failed = ground arith

    pub new_cache-IsCoherent : (db : r.Db) → IsCoherent (new_cache r db)
    unfolding new_cache new_simple_cache get lookup
    new_cache-IsCoherent db t b v low e = cc

    -- For distinct bag IDs in lower case, and a database that does what its SQL is documented to
    -- do: after an update of the bans a cache that said only what the database says still does, so
    -- that a bag that was just unbanned is not reported as banned, whether or not it was cached.
    pub update_ban_status-IsCoherent :
        (now : ℕ → ℕ) (l : List DbBanStatus) (s : Cached r)
        → IsCoherent s
        → All (λ x. IsLower x.bag_id) l
        → IsMap (status_entries l)
        → IsCoherent (update_ban_status r now l s).1
    update_ban_status-IsCoherent now l s h lows once t b v low e =
        elim (Option-cases (r.update_ban_status l s.db).0) [
          | inl done ↦ rw (update_done now l s done) (
              banned-update l s.db b once done
              ∙ elim (note_statuses-reads now 0 l s.cache b t v low lows once
                  (rw (update_done now l s done) at e)) [
                    | inl noted ↦ rw noted refl
                    | inr (unnoted, old) ↦ rw unnoted (h t b v low old)
                  ])
          | inr (x, failed) ↦ rw (update_failed now l s x failed) (
              banned-failed l s.db b x failed
              ∙ h t b v low (rw (update_failed now l s x failed) at e))
        ]

    -- With a coherent cache `HasBan` answers, for a bag ID in lower case and if it answers without
    -- an error, what the database would: no ban is invented and none is missed.
    pub has_ban_exact :
        (t_get t_set : ℕ) (b : Bytes) (s : Cached r) (answer : Bool)
        → IsCoherent s
        → IsLower b
        → (has_ban r t_get t_set b s).0 ≡ ok answer
        → answer ≡ banned b s.db
    unfolding has_ban
    has_ban_exact t_get t_set b s answer h low e =
        ground (arith, h t_get b true low, has_ban-banned b s.db answer)

    note_ban-IsCoherent :
        (t_set : ℕ) (b : Bytes) (result : Result Bool) (s : Cached r)
        → IsLower b
        → r.has_ban b s.db ≡ result
        → IsCoherent s
        → IsCoherent (note_ban r t_set (ban_key b) result s)
    unfolding note_ban
    note_ban-IsCoherent t_set b (ok true) s low e h t b' v low' p =
        elim (Bool-cases (bytes_eq b b')) [
          | inl same ↦ rw (← (bytes_eq_iff b b').0 same) (sym (has_ban-banned b s.db true e))
          | inr new ↦ h t b' v low' (
              rw (ban_key-eq b b' low low', new) at
                (sym (reads-set s.cache t_set t (ban_key b) (ban_key b') true) ∙ p))
        ]
    note_ban-IsCoherent t_set b (ok false) s low e h t b' v low' p = h t b' v low' p
    note_ban-IsCoherent t_set b (err x) s low e h t b' v low' p = h t b' v low' p

    -- The state after the lookup in the cache.
    abbrev asked : ℕ → Bytes → Cached r → Cached r
    asked t_get b s = record s { cache = (get t_get (ban_key b) s.cache).1 }

    pub has_ban-state :
        (t_get t_set : ℕ) (b : Bytes) (s : Cached r)
        → ((has_ban r t_get t_set b s).1 ≡ asked t_get b s)
          ⊎ ((has_ban r t_get t_set b s).1
              ≡ note_ban r t_set (ban_key b) (r.has_ban b s.db) (asked t_get b s))
    unfolding has_ban
    has_ban-state t_get t_set b s = ground arith

    -- `HasBan` for a bag ID in lower case keeps the cache coherent.
    pub has_ban-IsCoherent :
        (t_get t_set : ℕ) (b : Bytes) (s : Cached r)
        → IsCoherent s
        → IsLower b
        → IsCoherent (has_ban r t_get t_set b s).1
    has_ban-IsCoherent t_get t_set b s h low = elim (has_ban-state t_get t_set b s) [
      | inl e ↦ subst IsCoherent (sym e) seen
      | inr e ↦
          subst IsCoherent (sym e)
            (note_ban-IsCoherent t_set b (r.has_ban b s.db) (asked t_get b s) low refl seen)
    ]
      where
        seen : IsCoherent (asked t_get b s)
        seen t b' v low' p =
            h t b' v low' (reads-get-some s.cache t_get t (ban_key b) (ban_key b') v p)
