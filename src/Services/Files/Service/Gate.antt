-- ===== src/Services/Files/Service/Gate.antt =====
-- The ban check at the start of `GetPathInfo`.
use mytonstorage_gateway.Common.{Bool, Option, [], arith, false, none, some, true, ◌≡◌, ◌≢◌}
use mytonstorage_gateway.Models.{
  GoError, Result, err, internal_server_error_code, new_app_error, not_acceptable_error_code, ok,
}
use mytonstorage_gateway.Services.Files.{empty_info}
use mytonstorage_gateway.Services.Files.Ensure.{Outside}
use mytonstorage_gateway.Services.Files.Local.{app_err}
use mytonstorage_gateway.Services.Files.Monad.{State}
use mytonstorage_gateway.Services.Files.Service.{get_path_info}
use mytonstorage_gateway.Text.{Bytes, text}

-- The error with which the ban check ends a request.
abbrev pub gate_error : Result Bool → Option GoError
gate_error (err e) = app_err internal_server_error_code []
gate_error (ok true) = app_err not_acceptable_error_code (text "bag is banned")
gate_error (ok false) = none

-- Unless the database says that the bag is not banned, the reply is empty, with status 406 for a
-- banned bag and 500 where the database failed. Nothing but the database has been asked: neither
-- the storage nor the remote network, and no mutex was taken.
pub get_path_info-refused :
    (o : Outside) (bag_id path : Bytes) (s : State o.World)
    → (o.has_ban bag_id s.world).0 ≢ ok false
    → get_path_info o bag_id path s
      ≡ some (
        (empty_info, gate_error (o.has_ban bag_id s.world).0),
        record s { world = (o.has_ban bag_id s.world).1 },
      )
unfolding get_path_info new_app_error
get_path_info-refused o bag_id path s h = ground arith
