-- ===== src/Services/Files.antt =====
-- pkg/services/files/service.go, with the types that it shares with its neighbours:
-- pkg/models/private/types.go, pkg/models/api/v1/types.go, pkg/clients/ton-storage/types.go and
-- pkg/clients/remote-ton-storage/client.go.
pub mod Listing
pub mod Local
pub mod Monad
pub mod Ensure
pub mod Locks
pub mod Service
pub mod Cached
pub mod Wired
use mytonstorage_gateway.Common.{Bool, List, Option, [], none, ℕ}
use mytonstorage_gateway.Text.{Bytes}

-- `File` of pkg/clients/ton-storage
pub record BagFile : Type 0 where
  pub index : ℕ
  pub name : Bytes
  pub size : ℕ

-- `BagDetailed`, with the fields of the embedded `Bag` that the gateway reads. Of the peers only
-- their number is read.
pub record BagDetailed : Type 0 where
  pub description : Bytes
  pub size : ℕ
  pub dir_name : Bytes
  pub header_loaded : Bool
  pub info_loaded : Bool
  pub files : List BagFile
  pub peers : ℕ
  pub merkle_hash : Bytes
  pub path : Bytes

-- `File` of pkg/models/api/v1: one line of a listing.
pub record File : Type 0 where
  pub name : Bytes
  pub size : ℕ
  pub is_folder : Bool

-- A stream of a remote file: `file_stream` is the bytes that its reader delivers, or nil.
pub record StreamFile : Type 0 where
  pub file_stream : Option Bytes
  pub size : ℕ
  pub peers_count : ℕ

pub record FolderInfo : Type 0 where
  pub stream_file : Option StreamFile
  pub files : List File
  pub total_size : ℕ
  pub files_count : ℕ
  pub peers_count : ℕ
  pub description : Bytes
  pub bag_id : Bytes
  pub single_file_path : Bytes

-- `private.FolderInfo{}`
abbrev pub empty_info : FolderInfo
empty_info = record {
  stream_file = none;
  files = [];
  total_size = 0;
  files_count = 0;
  peers_count = 0;
  description = [];
  bag_id = [];
  single_file_path = [];
}

-- `BagInfo` of the remote client
pub record BagInfo : Type 0 where
  pub description : Bytes
  pub total_size : ℕ
  pub peers_count : ℕ
  pub files : List BagFile

-- `FileStream` of the remote client
pub record FileStream : Type 0 where
  pub file_stream : Option Bytes
  pub size : ℕ
  pub peers_count : ℕ
