-- ===== src/Services/Files/Wired/Banned.antt =====
-- From a ban in the database to the reply of `GetPathInfo`.
use mytonstorage_gateway.Common.{
  All, Bool, List, Option, [], ap, arith, false, none, refl, some, sym, true, ℕ, ◌∙◌, ◌≡◌, ◌≢◌,
}
use mytonstorage_gateway.Clients.Storage.{StorageClient, Transport}
use mytonstorage_gateway.Dict.{IsMap, lookup}
use mytonstorage_gateway.Models.{
  GoError, Result, err, internal_server_error_code, not_acceptable_error_code, ok,
}
use mytonstorage_gateway.Repositories.{Cached, DbBanStatus, has_ban, update_ban_status}
use mytonstorage_gateway.Repositories.Coherence.{
  IsCoherent, IsLower, has_ban_exact, status_entries, update_ban_status-IsCoherent,
}
use mytonstorage_gateway.Repositories.Sql.{Statement, Tables, new_repository}
use mytonstorage_gateway.Repositories.Sql.Bans.{is_banned, is_banned-update, new_repository-IsSql}
use mytonstorage_gateway.Repositories.Sql.History.{update_shown}
use mytonstorage_gateway.Services.Files.{FolderInfo, empty_info}
use mytonstorage_gateway.Services.Files.Ensure.{Outside}
use mytonstorage_gateway.Services.Files.Local.{app_err}
use mytonstorage_gateway.Services.Files.Monad.{State}
use mytonstorage_gateway.Services.Files.Service.{get_path_info}
use mytonstorage_gateway.Services.Files.Service.Gate.{gate_error, get_path_info-refused}
use mytonstorage_gateway.Services.Files.Wired.{WiredWorld, wire, wired_has_ban}
use mytonstorage_gateway.Text.{Bytes, Unicode, text}

-- A reply without content, with status 406 or, where the database fails, 500.
pub data Refused {S : Type 0} : Option ((FolderInfo × Option GoError) × S) → Type 0 where
  banned_reply :
      {s : S}
      → Refused (some ((empty_info, app_err not_acceptable_error_code (text "bag is banned")), s))
  failed_reply : {s : S} → Refused (some ((empty_info, app_err internal_server_error_code []), s))

module _ ⦃u : Unicode⦄ (o : Outside) (fault : Statement → Tables → Option GoError) (h : Transport)
    (c : StorageClient) where
  gate-Refused :
      {S : Type 0} (answer : Result Bool) (s : S)
      → answer ≢ ok false
      → Refused (some ((empty_info, gate_error answer), s))
  gate-Refused (ok true) s h = banned_reply
  gate-Refused (ok false) s h = absurd (h refl)
  gate-Refused (err e) s h = failed_reply

  banned_not_false :
      (t_get t_set : ℕ) (bag_id : Bytes) (s : Cached (new_repository fault))
      → IsCoherent (new_repository fault) (new_repository-IsSql fault) s
      → IsLower bag_id
      → is_banned bag_id s.db ≡ true
      → (has_ban (new_repository fault) t_get t_set bag_id s).0 ≢ ok false
  banned_not_false t_get t_set bag_id s coherent low banned e =
      let said =
        has_ban_exact (new_repository fault) (new_repository-IsSql fault) t_get t_set bag_id s false
          coherent low e in
      ground (arith, said, banned)

  -- A bag that the tables ban is refused, if the cache says what the tables say.
  pub banned-Refused :
      (bag_id path : Bytes) (s : State (WiredWorld o fault h c))
      → IsCoherent (new_repository fault) (new_repository-IsSql fault) s.world.files
      → IsLower bag_id
      → is_banned bag_id s.world.files.db ≡ true
      → Refused (get_path_info (wire o fault h c) bag_id path s)
  unfolding wired_has_ban
  banned-Refused bag_id path s coherent low banned =
      let (t_get, rest) = o.now s.world.rest in
      let (t_set, rest') = o.now rest in
      let not_false = banned_not_false t_get t_set bag_id s.world.files coherent low banned in
      rw (get_path_info-refused (wire o fault h c) bag_id path s not_false) (
        gate-Refused (has_ban (new_repository fault) t_get t_set bag_id s.world.files).0 _
          not_false)

  -- The state after an update of the bans.
  abbrev pub after_bans :
      (ℕ → ℕ) → List DbBanStatus → State (WiredWorld o fault h c) → State (WiredWorld o fault h c)
  after_bans now l s = record s {
    world = record s.world {
      files = (update_ban_status (new_repository fault) now l s.world.files).1;
    };
  }

  -- After an update that bans a bag the tables ban it, and the cache still says what they say.
  pub after_bans-banned :
      (now : ℕ → ℕ) (l : List DbBanStatus) (bag_id : Bytes) (s : State (WiredWorld o fault h c))
      → IsCoherent (new_repository fault) (new_repository-IsSql fault) s.world.files
      → All (λ x. IsLower x.bag_id) l
      → IsMap (status_entries l)
      → lookup bag_id (status_entries l) ≡ some true
      → (update_ban_status (new_repository fault) now l s.world.files).0 ≡ none
      → IsCoherent
          (new_repository fault)
          (new_repository-IsSql fault)
          (after_bans now l s).world.files
        × (is_banned bag_id (after_bans now l s).world.files.db ≡ true)
  after_bans-banned now l bag_id s coherent lows once in_list done = (
    update_ban_status-IsCoherent (new_repository fault) (new_repository-IsSql fault) now l
        s.world.files coherent lows once,
    ap (is_banned bag_id) (update_shown fault now l s.world.files).1
        ∙ is_banned-update fault l s.world.files.db bag_id once
            (sym (update_shown fault now l s.world.files).0 ∙ done)
        ∙ rw in_list refl,
  )

  -- For bag IDs in lower case, and in the update no bag twice: once `UpdateBanStatus` has stored a
  -- list that bans a bag, `GetPathInfo` of the service over the same repository refuses every path
  -- of that bag, with status 406 or, where the database fails, 500. This holds whatever the cache
  -- of the repository held before of that bag, as long as it said only what the tables say, and
  -- whatever the clock, the daemon and the remote client do.
  pub ban-Refused :
      (now : ℕ → ℕ) (l : List DbBanStatus) (bag_id path : Bytes)
      (s : State (WiredWorld o fault h c))
      → IsCoherent (new_repository fault) (new_repository-IsSql fault) s.world.files
      → IsLower bag_id
      → All (λ x. IsLower x.bag_id) l
      → IsMap (status_entries l)
      → lookup bag_id (status_entries l) ≡ some true
      → (update_ban_status (new_repository fault) now l s.world.files).0 ≡ none
      → Refused (get_path_info (wire o fault h c) bag_id path (after_bans now l s))
  ban-Refused now l bag_id path s coherent low lows once in_list done =
      let (coherent', banned) = after_bans-banned now l bag_id s coherent lows once in_list done in
      banned-Refused bag_id path (after_bans now l s) coherent' low banned
