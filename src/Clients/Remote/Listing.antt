-- ===== src/Clients/Remote/Listing.antt =====
-- The files that `ListFiles` returns.
use mytonstorage_gateway.Common.{List, [], length, ℕ, ◌+◌, ◌∷◌, ◌≡◌}
use mytonstorage_gateway.Clients.Remote.{FileInfo, Network}
use mytonstorage_gateway.Clients.Remote.Listed.{to_bag_file}
use mytonstorage_gateway.Models.{Result, err, ok}
use mytonstorage_gateway.Services.Files.{BagFile, BagInfo}

-- A file without its place.
abbrev pub bag_file_of : Result FileInfo → Result BagFile
bag_file_of (ok info) = ok (to_bag_file info)
bag_file_of (err e) = err e

module _ (n : Network) (w : n.World) (t : n.Torrent) where
  -- They are the files of the torrent from the `i`-th on, in its order.
  abbrev pub AreFiles : ℕ → List BagFile → Type 0
  AreFiles i [] = Unit
  AreFiles i (f ∷ fs) = (bag_file_of (n.get_file_offsets_by_id t i w) ≡ ok f) × AreFiles (i + 1) fs

  -- All the files of the torrent, with what the torrent says of itself.
  abbrev pub IsListing : BagInfo → Type 0
  IsListing info =
      AreFiles 0 info.files
      × (length info.files ≡ n.files_count t w)
      × (info.description ≡ n.description t w)
      × (info.total_size ≡ n.file_size t w)
      × (info.peers_count ≡ n.get_peers t w)
