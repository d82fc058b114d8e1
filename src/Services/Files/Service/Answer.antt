-- ===== src/Services/Files/Service/Answer.antt =====
-- What an answer of `GetPathInfo` without an error holds, and where it comes from.
use mathlib.Core.Path.{subst}
use mytonstorage_gateway.Common.{
  Bool, List, Option, Option-cases, [], any, arith, false, if_elim, inl, inr, length, none, not,
  refl, some, true, ◌&&◌, ◌∷◌, ◌≡◌, ◌≢◌, ◌≤◌, ◌⊎◌,
}
use mytonstorage_gateway.FilePath.{join_path, split_file}
use mytonstorage_gateway.Models.{GoError, Result, err, ok}
use mytonstorage_gateway.Services.Files.{BagDetailed, BagFile, BagInfo, File, FolderInfo}
use mytonstorage_gateway.Services.Files.Ensure.{
  Outside, ensure_bag_in_storage, get_from_local_storage,
}
use mytonstorage_gateway.Services.Files.Listing.{ls}
use mytonstorage_gateway.Services.Files.Local.{
  Reply, first_size, local_info, local_reply, max_file_serve_size,
}
use mytonstorage_gateway.Services.Files.Monad.{M, State, ◌>>=◌}
use mytonstorage_gateway.Services.Files.Service.{
  after_ensure, find_path_info, get_from_remote_storage, get_path_info, or_else, remote_info,
  remote_reply, stream_remote_file,
}
use mytonstorage_gateway.Text.{Bytes, bytes_eq, has_suffix}

-- Every result of the action satisfies the predicate.
abbrev pub Ensures : {W A : Type 0} → (A → Type 0) → M W A → State W → Type 0
Ensures {A} P m s = (a : A) (s' : State _) → m s ≡ some (a, s') → P a

Ensures-bind :
    {W A B : Type 0} (P : B → Type 0) (m : M W A) (k : A → M W B) (s : State W)
    → ((a : A) (s' : State W) → m s ≡ some (a, s') → Ensures P (k a) s')
    → Ensures P (m >>= k) s
Ensures-bind P m k s h b s'' e = elim (Option-cases (m s)) [
  | inl p ↦ absurd (ground arith)
  | inr ((a, s'), p) ↦ h a s' p b s'' (rw (p, ◌>>=◌) at e)
]

-- The predicate holds of the information, if there is no error beside it.
abbrev pub Success : (FolderInfo → Type 0) → Reply → Type 0
Success P (info, none) = P info
Success P (info, some e) = Unit

-- The result of an action that returned one.
reply_of :
    {W A : Type 0} {a b : A} {s t : State W}
    → ◌≡◌ {A = Option (A × State W)} (some (a, s)) (some (b, t))
    → a ≡ b
reply_of e = cc

any-length : (p : File → Bool) (l : List File) → any p l ≡ true → length l ≢ 0
any-length p [] h = cc
any-length p (x ∷ l) h = omega arith

module _ (o : Outside) (bag_id path : Bytes) where
  -- The files are those of a bag that the storage returned; a path of a file on disk lies below the
  -- directory of that bag.
  abbrev pub IsFromStorage : List BagFile → FolderInfo → Type 0
  IsFromStorage files info =
      (w : o.World) × (bag : BagDetailed) × ((o.get_bag bag_id w).0 ≡ ok bag)
      × (bag.files ≡ files)
      × (info.stream_file ≡ none)
      × ((info.single_file_path ≡ [])
          ⊎ (info.single_file_path ≡ join_path (bag.path ∷ bag.dir_name ∷ path ∷ [])))

  -- The files are those that the remote client listed; a file that is streamed is not too large.
  abbrev pub IsFromRemote : List BagFile → FolderInfo → Type 0
  IsFromRemote files info =
      (w : o.World) × (found : BagInfo) × ((o.list_files bag_id w).0 ≡ (found, none))
      × (found.files ≡ files)
      × (info.single_file_path ≡ [])
      × ((info.stream_file ≡ none) ⊎ (first_size info.files ≤ max_file_serve_size))

  -- The information is a listing of the path, with at least one entry, in the bag that was asked
  -- for.
  pub record IsAnswer (info : FolderInfo) : Type 0 where
    pub files : List BagFile
    pub listing : info.files ≡ ls files path
    pub count : info.files_count ≡ length files
    pub some_entry : length info.files ≢ 0
    pub bag : info.bag_id ≡ bag_id
    pub origin : IsFromStorage files info ⊎ IsFromRemote files info

  -- What `local_info` says without an error.
  local_info-cases :
      (bag : BagDetailed) (info : FolderInfo)
      → local_info bag_id path bag ≡ (info, none)
      → (info.files ≡ ls bag.files path)
        × (info.files_count ≡ length bag.files)
        × (length info.files ≢ 0)
        × (info.bag_id ≡ bag_id)
        × (info.stream_file ≡ none)
        × ((info.single_file_path ≡ [])
            ⊎ (info.single_file_path ≡ join_path (bag.path ∷ bag.dir_name ∷ path ∷ [])))
  unfolding local_info
  local_info-cases bag info e = ground (
    arith,
    any-length (λ f. not f.is_folder && bytes_eq f.name (split_file path)) (ls bag.files path),
  )

  local_info-IsAnswer :
      (w : o.World) (bag : BagDetailed)
      → (o.get_bag bag_id w).0 ≡ ok bag
      → (info : FolderInfo) → local_info bag_id path bag ≡ (info, none)
      → IsAnswer info
  local_info-IsAnswer w bag got info e =
      let (listing, count, some_entry, same, stream, file) = local_info-cases bag info e in
      record {
        files = bag.files;
        listing = listing;
        count = count;
        some_entry = some_entry;
        bag = same;
        origin = inl (w, bag, got, refl, stream, file);
      }

  Success-of :
      (P : FolderInfo → Type 0) (r : Reply)
      → ((info : FolderInfo) → r ≡ (info, none) → P info)
      → Success P r
  Success-of P (info, none) h = h info refl
  Success-of P (info, some e) h = tt

  local_reply-Success :
      (w : o.World) (b : Result BagDetailed)
      → (o.get_bag bag_id w).0 ≡ b
      → Success IsAnswer (local_reply bag_id path b)
  local_reply-Success w (err e) got = tt
  local_reply-Success w (ok bag) got = Success-of IsAnswer _ (local_info-IsAnswer w bag got)

  get_from_local_storage-Ensures :
      (s : State o.World) → Ensures (Success IsAnswer) (get_from_local_storage o bag_id path) s
  unfolding get_from_local_storage
  get_from_local_storage-Ensures s r s' e =
      subst (Success IsAnswer) (reply_of e) (local_reply-Success s.world _ refl)

  -- What the remote part says without an error.
  remote_info-cases :
      (found : BagInfo) (info : FolderInfo) (s s' : State o.World)
      → remote_info o bag_id path found s ≡ some ((info, none), s')
      → (info.files ≡ ls found.files path)
        × (info.files_count ≡ length found.files)
        × (length info.files ≢ 0)
        × (info.bag_id ≡ bag_id)
        × (info.single_file_path ≡ [])
        × ((info.stream_file ≡ none) ⊎ (first_size info.files ≤ max_file_serve_size))
  unfolding remote_info stream_remote_file
  remote_info-cases found info s s' e =
      ground
        (arith, any-length (λ f. not f.is_folder && has_suffix path f.name) (ls found.files path))

  remote_info-IsAnswer :
      (w : o.World) (found : BagInfo)
      → (o.list_files bag_id w).0 ≡ (found, none)
      → (s : State o.World) → Ensures (Success IsAnswer) (remote_info o bag_id path found) s
  remote_info-IsAnswer w found got s (info, some e) s' p = tt
  remote_info-IsAnswer w found got s (info, none) s' p =
      let (listing, count, some_entry, same, file, size) = remote_info-cases found info s s' p in
      record {
        files = found.files;
        listing = listing;
        count = count;
        some_entry = some_entry;
        bag = same;
        origin = inr (w, found, got, refl, file, size);
      }

  -- After the remote client has answered.
  listed-Ensures :
      (w : o.World) (found : BagInfo) (failed : Option GoError)
      → (o.list_files bag_id w).0 ≡ (found, failed)
      → (s : State o.World) → Ensures (Success IsAnswer) (remote_reply o bag_id path found failed) s
  listed-Ensures w found none got s r s' p = remote_info-IsAnswer w found got s r s' p
  listed-Ensures w found (some e) got s (info, none) s' p = absurd (ground arith)
  listed-Ensures w found (some e) got s (info, some x) s' p = tt

  get_from_remote_storage-Ensures :
      (s : State o.World) → Ensures (Success IsAnswer) (get_from_remote_storage o bag_id path) s
  unfolding get_from_remote_storage
  get_from_remote_storage-Ensures s =
      if_elim (λ (m : M o.World Reply). Ensures (Success IsAnswer) m s) o.remote_is_nil
        (λ r s' p. subst (Success IsAnswer) (reply_of p) tt)
        (listed-Ensures s.world (o.list_files bag_id s.world).0.0 (o.list_files bag_id s.world).0.1
          refl _)

  or_else-Ensures :
      (r : Reply) (k : M o.World Reply) (s : State o.World)
      → Success IsAnswer r
      → Ensures (Success IsAnswer) k s
      → Ensures (Success IsAnswer) (or_else o r k) s
  or_else-Ensures (info, none) k s h g r s' p = subst (Success IsAnswer) (reply_of p) h
  or_else-Ensures (info, some e) k s h g r s' p = g r s' p

  ensured-Ensures :
      (failed : Option GoError) (s : State o.World)
      → Ensures (Success IsAnswer) (after_ensure o bag_id path failed) s
  ensured-Ensures (some e) s = get_from_remote_storage-Ensures s
  ensured-Ensures none s = Ensures-bind _ (get_from_local_storage o bag_id path) _ s (λ again s' p.
      or_else-Ensures again _ s' (get_from_local_storage-Ensures s again s' p)
        (get_from_remote_storage-Ensures s'))

  find_path_info-Ensures :
      (s : State o.World) → Ensures (Success IsAnswer) (find_path_info o bag_id path) s
  unfolding find_path_info
  find_path_info-Ensures s =
      Ensures-bind _ (get_from_local_storage o bag_id path) _ s (λ local s' p.
        or_else-Ensures local _ s' (get_from_local_storage-Ensures s local s' p) (
          Ensures-bind _ (ensure_bag_in_storage o bag_id) _ s'
            (λ failed s'' q. ensured-Ensures failed s'')))

  get_path_info-passed :
      (s s' : State o.World) (info : FolderInfo)
      → get_path_info o bag_id path s ≡ some ((info, none), s')
      → ((o.has_ban bag_id s.world).0 ≡ ok false)
        × (find_path_info o bag_id path (record s { world = (o.has_ban bag_id s.world).1 })
            ≡ some ((info, none), s'))
  unfolding get_path_info
  get_path_info-passed s s' info e = ground arith

  -- Whatever is answered without an error is a listing, not empty, of the path in the files of that
  -- bag, as the storage or the remote client returned them, and the database has not said that the
  -- bag is banned.
  pub get_path_info-IsAnswer :
      (s s' : State o.World) (info : FolderInfo)
      → get_path_info o bag_id path s ≡ some ((info, none), s')
      → ((o.has_ban bag_id s.world).0 ≡ ok false) × IsAnswer info
  get_path_info-IsAnswer s s' info e =
      let (free, found) = get_path_info-passed s s' info e in
      (free, find_path_info-Ensures _ (info, none) s' found)
