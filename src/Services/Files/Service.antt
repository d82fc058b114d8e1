-- ===== src/Services/Files/Service.antt =====
-- `GetPathInfo` and `getFromRemoteStorage` of pkg/services/files/service.go.
pub mod Clock
pub mod Answer
pub mod Gate
pub mod Frame
use mytonstorage_gateway.Common.{
  Option, [], any, if◌then◌else◌, length, ltb, none, not, some, ◌&&◌, ◌==◌,
}
use mytonstorage_gateway.Models.{
  GoError, err, internal_server_error_code, is_timeout, not_acceptable_error_code,
  not_found_error_code, ok, timeout_code, too_large_code,
}
use mytonstorage_gateway.Services.Files.{BagInfo, FolderInfo, StreamFile, empty_info}
use mytonstorage_gateway.Services.Files.Ensure.{
  Outside, ensure_bag_in_storage, get_from_local_storage,
}
use mytonstorage_gateway.Services.Files.Listing.{ls}
use mytonstorage_gateway.Services.Files.Local.{
  Reply, app_err, first_size, is_single_file, max_file_serve_size,
}
use mytonstorage_gateway.Services.Files.Monad.{M, pure, run, ◌>>=◌, ◌>>◌}
use mytonstorage_gateway.Text.{Bytes, has_suffix, text}

module _ (o : Outside) where
  unfoldable pub stream_remote_file : Bytes → Bytes → M o.World (Option StreamFile × Option GoError)
  stream_remote_file bag_id path = do
    (fs, failed) ← run (o.remote_stream_file bag_id path)
    elim failed [
      | none ↦ pure (
        some
            (record { file_stream = fs.file_stream; size = fs.size; peers_count = fs.peers_count }),
        none,
      )
      | some e ↦
          if is_timeout e
          then pure (
            some (record { file_stream = none; size = 0; peers_count = fs.peers_count }),
            app_err timeout_code [],
          )
          else pure (none, app_err internal_server_error_code [])
    ]

  -- `getFromRemoteStorage` after the files are there.
  unfoldable pub remote_info : Bytes → Bytes → BagInfo → M o.World Reply
  remote_info bag_id path files =
      let listing = ls files.files path in
      let info : FolderInfo = record empty_info {
        bag_id = bag_id;
        description = files.description;
        total_size = files.total_size;
        peers_count = files.peers_count;
        files = listing;
        files_count = length files.files;
      } in
      if length files.files == 0
      then pure (empty_info, app_err not_found_error_code (text "bag doesn't contain any files"))
      else if any (λ f. not f.is_folder && has_suffix path f.name) listing
      then (if is_single_file listing
          then (if ltb max_file_serve_size (first_size listing)
              then pure (
                empty_info,
                app_err too_large_code
                    (text "file too large, use https://github.com/xssnick/TON-Torrent"),
              )
              else (do
                (stream, failed) ← stream_remote_file bag_id path
                pure (record info { stream_file = stream }, failed)))
          else pure (info, none))
      else if length listing == 0
      then pure (info, app_err not_found_error_code (text "path not found"))
      else pure (info, none)

  -- `getFromRemoteStorage`, from what the remote client returns on.
  abbrev pub remote_reply : Bytes → Bytes → BagInfo → Option GoError → M o.World Reply
  remote_reply bag_id path found none = remote_info bag_id path found
  remote_reply bag_id path found (some e) =
      if is_timeout e
      then pure (
        record empty_info { bag_id = bag_id; peers_count = found.peers_count },
        app_err timeout_code [],
      )
      else pure (empty_info, app_err not_found_error_code (text "bag not found"))

  unfoldable pub get_from_remote_storage : Bytes → Bytes → M o.World Reply
  get_from_remote_storage bag_id path =
      if o.remote_is_nil
      then pure (empty_info, app_err not_found_error_code (text "bag not found"))
      else (do (found, failed) ← run (o.list_files bag_id); remote_reply bag_id path found failed)

  -- A reply without an error is the reply; else what follows is tried.
  abbrev pub or_else : Reply → M o.World Reply → M o.World Reply
  or_else (info, none) k = pure (info, none)
  or_else (info, some e) k = k

  -- `GetPathInfo` after `ensureBagInStorage`.
  abbrev pub after_ensure : Bytes → Bytes → Option GoError → M o.World Reply
  after_ensure bag_id path (some _) = get_from_remote_storage bag_id path
  after_ensure bag_id path none = do
    again ← get_from_local_storage o bag_id path
    or_else again (get_from_remote_storage bag_id path)

  -- `GetPathInfo` after the ban check.
  unfoldable pub find_path_info : Bytes → Bytes → M o.World Reply
  find_path_info bag_id path = do
    local ← get_from_local_storage o bag_id path
    or_else local (do failed ← ensure_bag_in_storage o bag_id; after_ensure bag_id path failed)

  unfoldable pub get_path_info : Bytes → Bytes → M o.World Reply
  get_path_info bag_id path = do
    banned ← run (o.has_ban bag_id)
    elim banned [
      | err _ ↦ pure (empty_info, app_err internal_server_error_code [])
      | ok b ↦
          if b
          then pure (empty_info, app_err not_acceptable_error_code (text "bag is banned"))
          else find_path_info bag_id path
    ]
