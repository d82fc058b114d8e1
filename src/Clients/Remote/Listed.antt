-- ===== src/Clients/Remote/Listed.antt =====
-- `ListFiles` of pkg/clients/remote-ton-storage/client.go.
use mytonstorage_gateway.Common.{
  List, Option, [], if◌then◌else◌, none, some, suc, zero, ℕ, ◌++◌, ◌+◌, ◌∷◌,
}
use mytonstorage_gateway.Clients.Remote.{
  Client, FileInfo, Got, Network, count_one, got, list_files_req, look, not_got,
}
use mytonstorage_gateway.Clients.Remote.Torrents.{get_torrent_of}
use mytonstorage_gateway.Models.{GoError, Result, err, err_timeout, is_timeout, ok, wrap}
use mytonstorage_gateway.Services.Files.{BagFile, BagInfo}
use mytonstorage_gateway.Services.Files.Monad.{M, pure, ◌>>=◌, ◌>>◌}
use mytonstorage_gateway.Text.{Bytes, Unicode, text}
use mytonstorage_gateway.Text.Decimal.{decimal}

abbrev pub to_bag_file : FileInfo → BagFile
to_bag_file info = record { index = info.index; name = info.name; size = info.size }

-- The label of a request.
abbrev pub result_label : Option GoError → Bytes
result_label none = text "success"
result_label (some e) = if is_timeout e then text "timeout" else text "error"

abbrev pub no_bag_info : BagInfo
no_bag_info = record { description = []; total_size = 0; peers_count = 0; files = [] }

-- One round of the loop of `ListFiles`, and what the rounds after it return.
unfoldable pub read_then : ℕ → Result FileInfo → Result (List BagFile) → Result (List BagFile)
read_then i (err e) rest = err (wrap (text "failed to read file " ++ decimal i ++ text ": ") e)
read_then i (ok info) (err e) = err e
read_then i (ok info) (ok files) = ok (to_bag_file info ∷ files)

module _ (n : Network) where
  -- The loop over the files: the `i`-th and the `left` - 1 after it.
  unfoldable pub read_files : n.World → n.Torrent → ℕ → ℕ → Result (List BagFile)
  read_files w t i zero = ok []
  read_files w t i (suc left) =
      read_then i (n.get_file_offsets_by_id t i w) (read_files w t (i + 1) left)

  -- `ListFiles` once there is a torrent.
  unfoldable pub list_torrent : n.Torrent → n.World → BagInfo × Option GoError
  list_torrent t w = elim (read_files w t 0 (n.files_count t w)) [
    | err e ↦ (no_bag_info, some e)
    | ok files ↦ (
      record {
        description = n.description t w;
        total_size = n.file_size t w;
        peers_count = n.get_peers t w;
        files = files;
      },
      none,
    )
  ]

  -- What `ListFiles` and `StreamFile` say without a torrent: the peers after a timeout.
  unfoldable pub list_nothing : Option n.Torrent → GoError → n.World → BagInfo × Option GoError
  list_nothing (some t) e w =
      if is_timeout e
      then (record no_bag_info { peers_count = n.get_peers t w }, some err_timeout)
      else (no_bag_info, some (wrap (text "failed to get torrent: ") e))
  list_nothing none e w = (no_bag_info, some (wrap (text "failed to get torrent: ") e))

  abbrev pub list_got : Got n → n.World → BagInfo × Option GoError
  list_got (got t d) w = list_torrent t w
  list_got (not_got t e) w = list_nothing t e w

  unfoldable pub list_files : ⦃u : Unicode⦄ → Bytes → M (Client n) (BagInfo × Option GoError)
  list_files bag_id = do
    result ← get_torrent_of n bag_id
    reply ← look n (list_got result)
    count_one n (list_files_req (result_label reply.1))
    pure reply
