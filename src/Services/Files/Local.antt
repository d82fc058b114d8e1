-- ===== src/Services/Files/Local.antt =====
-- `getFromLocalStorage` of pkg/services/files/service.go, for a bag of the storage daemon.
use mytonstorage_gateway.Common.{
  Bool, List, Option, [], any, false, if◌then◌else◌, length, none, not, some, ℕ, ◌&&◌, ◌==◌, ◌∷◌,
}
use mytonstorage_gateway.FilePath.{join_path, split_file}
use mytonstorage_gateway.Models.{GoError, Result, app, err, new_app_error, not_found_error_code, ok}
use mytonstorage_gateway.Services.Files.{BagDetailed, File, FolderInfo, empty_info}
use mytonstorage_gateway.Services.Files.Listing.{ls}
use mytonstorage_gateway.Text.{Bytes, bytes_eq, text}

-- `constants.MaxFileServeSize`
abbrev pub max_file_serve_size : ℕ
max_file_serve_size = 52_428_800

abbrev pub Reply : Type 0
Reply = FolderInfo × Option GoError

abbrev pub app_err : ℕ → Bytes → Option GoError
app_err c m = some (app (new_app_error c m))

unfoldable pub is_single_file : List File → Bool
is_single_file [] = false
is_single_file (f ∷ []) = not f.is_folder
is_single_file (f ∷ g ∷ fs) = false

-- `getFromLocalStorage` after the bag is there.
unfoldable pub local_info : Bytes → Bytes → BagDetailed → Reply
local_info bag_id path bag =
    let listing = ls bag.files path in
    let info : FolderInfo = record empty_info {
      bag_id = bag_id;
      peers_count = bag.peers;
      total_size = bag.size;
      description = bag.description;
      files = listing;
      files_count = length bag.files;
    } in
    if length bag.files == 0
    then (empty_info, app_err not_found_error_code (text "bag doesn't contain any files"))
    else if any (λ f. not f.is_folder && bytes_eq f.name (split_file path)) listing
    then (if is_single_file listing
        then (
          record info { single_file_path = join_path (bag.path ∷ bag.dir_name ∷ path ∷ []) },
          none,
        )
        else (info, none))
    else if length listing == 0
    then (info, app_err not_found_error_code (text "path not found"))
    else (info, none)

-- `getFromLocalStorage`, from what the storage daemon returns on.
abbrev pub local_reply : Bytes → Bytes → Result BagDetailed → Reply
local_reply bag_id path (err e) = (empty_info, some e)
local_reply bag_id path (ok bag) = local_info bag_id path bag

-- `files[0].Size`
abbrev pub first_size : List File → ℕ
first_size [] = 0
first_size (f ∷ fs) = f.size
