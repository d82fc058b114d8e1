-- ===== src/Services/Files/Wired/Ending.antt =====
-- What requests to the cached service of cmd/main.go leave of the listings of a banned bag.
use mathlib.Core.Path.{subst}
use mytonstorage_gateway.Common.{
  All, Bool-cases, List, Option, Option-cases, [], ap, arith, false, inl, inr, refl, some, sym,
  true, ℕ, ◌+◌, ◌∙◌, ◌∷◌, ◌≡◌, ◌≤◌,
}
use mytonstorage_gateway.Cache.{SimpleCache, get}
use mytonstorage_gateway.Cache.Reads.{get-ttl, reads, reads-get-some, reads-set, set-ttl}
use mytonstorage_gateway.Clients.Storage.{StorageClient, Transport}
use mytonstorage_gateway.Models.{GoError}
use mytonstorage_gateway.Repositories.{Cached}
use mytonstorage_gateway.Repositories.Coherence.{IsCoherent, IsLower, has_ban-IsCoherent}
use mytonstorage_gateway.Repositories.Sql.{Statement, Tables, new_repository}
use mytonstorage_gateway.Repositories.Sql.Bans.{is_banned, new_repository-IsSql}
use mytonstorage_gateway.Repositories.Sql.History.{has_ban-set}
use mytonstorage_gateway.Services.Files.{FolderInfo}
use mytonstorage_gateway.Services.Files.Cached.{
  CachedRequest, CachedState, cache_key, get_path_info_cached, is_kept, keep, serve_all,
}
use mytonstorage_gateway.Services.Files.Cached.Hits.{get_path_info_cached-cases}
use mytonstorage_gateway.Services.Files.Ensure.{Outside}
use mytonstorage_gateway.Services.Files.Local.{Reply}
use mytonstorage_gateway.Services.Files.Monad.{State}
use mytonstorage_gateway.Services.Files.Service.{get_path_info}
use mytonstorage_gateway.Services.Files.Service.Frame.{IsApart, get_path_info-apart}
use mytonstorage_gateway.Services.Files.Wired.{WiredWorld, wire, wired_has_ban}
use mytonstorage_gateway.Services.Files.Wired.Banned.{
  Refused, banned-Refused, banned_reply, failed_reply,
}
use mytonstorage_gateway.Text.{Bytes, Unicode, bytes_eq, split}
use mytonstorage_gateway.Text.Laws.{bytes_eq_iff}
use mytonstorage_gateway.Text.Split.{Lacks, split-append, split_of_Lacks}

-- Keys of different bags are different.
cache_key-bag :
    (a b p q : Bytes) → Lacks b':' a → Lacks b':' b → cache_key a p ≡ cache_key b q → a ≡ b
cache_key-bag a b p q ha hb e = ground (
  arith,
  ap (split b':') e,
  split-append b':' a p,
  split-append b':' b q,
  split_of_Lacks b':' a ha,
  split_of_Lacks b':' b hb,
)

-- A refused reply is not kept.
Refused-is_kept :
    {S : Type 0}
    → (r : Option (Reply × S)) → Refused r
    → (reply : Reply) (s : S) → r ≡ some (reply, s)
    → is_kept reply ≡ false
unfolding is_kept
Refused-is_kept _ banned_reply reply s e = ground (arith, e)
Refused-is_kept _ failed_reply reply s e = ground (arith, e)

module _ ⦃u : Unicode⦄ (o : Outside) (fault : Statement → Tables → Option GoError) (h : Transport)
    (c : StorageClient) where
  -- A bag ID as the handlers let it through, in this: it is in lower case, without a colon.
  abbrev pub IsPlainId : Bytes → Type 0
  IsPlainId b = IsLower b × Lacks b':' b

  abbrev files_of : WiredWorld o fault h c → Cached (new_repository fault)
  files_of w = w.files

  wire-IsApart : IsApart (wire o fault h c) files_of
  wire-IsApart = record {
    get_bag-apart = λ b w. refl;
    add_bag-apart = λ b every w. refl;
    list_files-apart = λ b w. refl;
    stream-apart = λ b p w. refl;
    now-apart = λ w. refl;
    wait-apart = λ n w. refl;
    lock-apart = λ m w. refl;
    unlock-apart = λ m w. refl;
  }

  abbrev pub SqlCoherent : Cached (new_repository fault) → Type 0
  SqlCoherent = IsCoherent (new_repository fault) (new_repository-IsSql fault)

  -- The bag is banned, and its listings were stored by that time: none is read a time to live later.
  pub record IsEnding (t0 ttl : ℕ) (bag_id : Bytes) (s : CachedState (WiredWorld o fault h c))
      : Type 0 where
    pub coherent : SqlCoherent s.inner.world.files
    pub banned : is_banned bag_id s.inner.world.files.db ≡ true
    pub lasting : s.cache.ttl ≡ ttl
    pub stored :
        (t : ℕ) (path : Bytes) (info : FolderInfo)
        → reads s.cache t (cache_key bag_id path) ≡ some info
        → t ≤ t0 + ttl

  -- The files that a request leaves are those that the ban check leaves.
  after_request :
      (bag_id path : Bytes) (s s' : State (WiredWorld o fault h c)) (reply : Reply)
      → get_path_info (wire o fault h c) bag_id path s ≡ some (reply, s')
      → (SqlCoherent s.world.files → IsLower bag_id → SqlCoherent s'.world.files)
        × (s'.world.files.db ≡ s.world.files.db)
  unfolding wired_has_ban
  after_request bag_id path s s' reply e =
      let (t_get, rest) = o.now s.world.rest in
      let (t_set, rest') = o.now rest in
      let same =
        get_path_info-apart (wire o fault h c) files_of wire-IsApart bag_id path s s' reply e in
      (
        (λ coherent low. rw same (
            has_ban-IsCoherent (new_repository fault) (new_repository-IsSql fault) t_get t_set
              bag_id s.world.files coherent low)),
        ap (λ (files : Cached (new_repository fault)). files.db) same
            ∙ has_ban-set fault t_get t_set bag_id s.world.files,
      )

  -- A request for any bag leaves the listings of the banned bag as they are, or less of them.
  asked-stored :
      (t0 ttl : ℕ) (bag_id : Bytes) (q : CachedRequest) (reply : Reply)
      (s s' : CachedState (WiredWorld o fault h c))
      → IsPlainId bag_id
      → IsPlainId q.bag_id
      → IsEnding t0 ttl bag_id s
      → get_path_info (wire o fault h c) q.bag_id q.path s.inner ≡ some (reply, s'.inner)
      → s'.cache
        ≡ keep q.t_set
            (cache_key q.bag_id q.path)
            reply
            (get q.t_get (cache_key q.bag_id q.path) s.cache).1
      → (t : ℕ) (path : Bytes) (info : FolderInfo)
      → reads s'.cache t (cache_key bag_id path) ≡ some info
      → t ≤ t0 + ttl
  unfolding keep
  asked-stored t0 ttl bag_id q reply s s' (low, plain) (low_q, plain_q) ending asked same t path
        info e =
      elim (Bool-cases (is_kept reply)) [
        | inr not_kept ↦ looked (rw (same, keep, not_kept) at e)
        | inl is_in ↦
            let key = cache_key q.bag_id q.path in
            let before = (get q.t_get key s.cache).1 in
            elim (Bool-cases (bytes_eq key (cache_key bag_id path))) [
              | inl equal ↦ absurd (ground (arith, is_in, refused equal))
              | inr other ↦ looked (
                  rw other at (
                    sym (reads-set before q.t_set t key (cache_key bag_id path) reply.0)
                    ∙ (rw (same, keep, is_in) at e)))
            ]
      ]
    where
      looked :
          reads (get q.t_get (cache_key q.bag_id q.path) s.cache).1 t (cache_key bag_id path)
            ≡ some info
          → t ≤ t0 + ttl
      looked p = ending.stored t path info (
          reads-get-some s.cache q.t_get t (cache_key q.bag_id q.path) (cache_key bag_id path) info
            p)

      refused :
          bytes_eq (cache_key q.bag_id q.path) (cache_key bag_id path) ≡ true
          → is_kept reply ≡ false
      refused equal =
          let one_bag : q.bag_id ≡ bag_id =
            cache_key-bag q.bag_id bag_id q.path path plain_q plain
              ((bytes_eq_iff (cache_key q.bag_id q.path) (cache_key bag_id path)).0 equal) in
          Refused-is_kept _
            (banned-Refused o fault h c q.bag_id q.path s.inner ending.coherent low_q
              (ap (λ (b : Bytes). is_banned b s.inner.world.files.db) one_bag ∙ ending.banned))
            reply s'.inner asked

  asked-ttl :
      (q : CachedRequest) (reply : Reply) (cache : SimpleCache FolderInfo)
      → (keep q.t_set
          (cache_key q.bag_id q.path)
          reply
          (get q.t_get (cache_key q.bag_id q.path) cache).1).ttl
        ≡ cache.ttl
  unfolding keep
  asked-ttl q reply cache =
      let key = cache_key q.bag_id q.path in
      ground
        (arith, get-ttl cache q.t_get key, set-ttl (get q.t_get key cache).1 q.t_set key reply.0)

  cached-IsEnding :
      (t0 ttl : ℕ) (bag_id : Bytes) (q : CachedRequest) (reply : Reply)
      (s s' : CachedState (WiredWorld o fault h c))
      → IsPlainId bag_id
      → IsPlainId q.bag_id
      → IsEnding t0 ttl bag_id s
      → get_path_info_cached (wire o fault h c) q.t_get q.t_set q.bag_id q.path s ≡ some (reply, s')
      → IsEnding t0 ttl bag_id s'
  cached-IsEnding t0 ttl bag_id q reply s s' id id_q ending e =
      let key = cache_key q.bag_id q.path in
      elim (get_path_info_cached-cases (wire o fault h c) q.t_get q.t_set q.bag_id q.path s s' reply
        e) [
          | inl (hit, fine, inner, same) ↦ record {
            coherent = rw inner ending.coherent;
            banned = rw inner ending.banned;
            lasting =
                ap (λ (x : SimpleCache FolderInfo). x.ttl) same
                ∙ get-ttl s.cache q.t_get key
                ∙ ending.lasting;
            stored = λ t path info p.
                ending.stored t path info (
                  reads-get-some s.cache q.t_get t key (cache_key bag_id path) info (rw same at p));
          }
          | inr (miss, asked, same) ↦
              let (files, db) = after_request q.bag_id q.path s.inner s'.inner reply asked in
              record {
                coherent = files ending.coherent id_q.0;
                banned = ap (is_banned bag_id) db ∙ ending.banned;
                lasting =
                    ap (λ (x : SimpleCache FolderInfo). x.ttl) same
                    ∙ asked-ttl q reply s.cache
                    ∙ ending.lasting;
                stored = asked-stored t0 ttl bag_id q reply s s' id id_q ending asked same;
              }
        ]

  pub serve_all-IsEnding :
      (t0 ttl : ℕ) (bag_id : Bytes) (requests : List CachedRequest)
      (s s' : CachedState (WiredWorld o fault h c))
      → IsPlainId bag_id
      → All (λ q. IsPlainId q.bag_id) requests
      → IsEnding t0 ttl bag_id s
      → serve_all (wire o fault h c) requests s ≡ some s'
      → IsEnding t0 ttl bag_id s'
  unfolding serve_all
  serve_all-IsEnding t0 ttl bag_id [] s s' id ids ending e =
      let same : s ≡ s' = ground (arith, e) in subst (IsEnding t0 ttl bag_id) same ending
  serve_all-IsEnding t0 ttl bag_id (q ∷ requests) s s' id (id_q, ids) ending e =
      elim (Option-cases
        (get_path_info_cached (wire o fault h c) q.t_get q.t_set q.bag_id q.path s)) [
          | inl missing ↦ absurd (ground (arith, missing, e))
          | inr ((reply, t), came) ↦
              serve_all-IsEnding t0 ttl bag_id requests t s' id ids
                (cached-IsEnding t0 ttl bag_id q reply s t id id_q ending came)
                (rw (serve_all, came) at e)
        ]
