-- ===== src/Clients/Remote/Virtual.antt =====
-- The rest of pkg/clients/remote-ton-storage/virtualStorage.go, which keeps torrents and no pieces.
-- `GetFS` and the methods of active files panic and are left out.
use mytonstorage_gateway.Common.{
  Bool, List, Option, [], arith, false, if◌then◌else◌, length, none, refl, some, suc, zero, ℕ, ◌%◌,
  ◌*◌, ◌+◌, ◌/◌, ◌<◌, ◌==◌, ◌∷◌, ◌≡◌, ◌≤◌,
}
use mytonstorage_gateway.Clients.Remote.{Network, get_torrent_by_overlay, store_torrent}
use mytonstorage_gateway.Dict.{lookup-insert}
use mytonstorage_gateway.Models.{GoError, Result, err, ok, plain_error}
use mytonstorage_gateway.Text.{Bytes, bytes_eq, text}

abbrev pub verify_on_startup : Bool
verify_on_startup = false

abbrev pub get_forced_piece_size : ℕ
get_forced_piece_size = 0

-- `PiecesMask`
abbrev pub zeros : ℕ → Bytes
zeros zero = []
zeros (suc k) = 0 ∷ zeros k

unfoldable pub pieces_mask : ℕ → Bytes
pieces_mask num = zeros (num / 8 + (if num % 8 == 0 then 0 else 1))

-- `GetPiece`, `RemovePiece`, `SetPiece` and `UpdateUploadStats`
abbrev pub get_piece_info : {A : Type 0} → Bytes → ℕ → Result A
get_piece_info bag_id id = err (plain_error (text "virtual storage"))

abbrev pub remove_piece : Bytes → ℕ → Option GoError
remove_piece bag_id id = none

abbrev pub set_piece : {P : Type 0} → Bytes → ℕ → P → Option GoError
set_piece bag_id id p = none

abbrev pub update_upload_stats : Bytes → ℕ → Option GoError
update_upload_stats bag_id val = none

-- `GetAll`, in the order of the list
unfoldable pub get_all_torrents : {T : Type 0} → List (Bytes × T) → List T
get_all_torrents [] = []
get_all_torrents ((id, t) ∷ store) = t ∷ get_all_torrents store

zeros-length : (k : ℕ) → length (zeros k) ≡ k
zeros-length zero = refl
zeros-length (suc k) = omega (arith, zeros-length k)

-- The mask has a bit for each piece, and less than a byte more.
pub pieces_mask-length :
    (num : ℕ) → (num ≤ 8 * length (pieces_mask num)) × (8 * length (pieces_mask num) < num + 8)
unfolding pieces_mask
pieces_mask-length num = ground (arith, zeros-length (num / 8 + (if num % 8 == 0 then 0 else 1)))

-- A torrent whose overlay can be computed is found at that overlay after it was set, and a torrent
-- of another overlay is found as before.
pub store_torrent-found :
    (n : Network) (t : n.Torrent) (store : List (Bytes × n.Torrent)) (id overlay : Bytes)
    → n.overlay_hash (n.bag_id t) ≡ ok id
    → get_torrent_by_overlay n overlay (store_torrent n t store)
      ≡ (if bytes_eq id overlay then some t else get_torrent_by_overlay n overlay store)
unfolding store_torrent
store_torrent-found n t store id overlay hashed =
    rw (store_torrent, hashed) (lookup-insert id overlay t store)
