-- ===== src/HttpServer/Gateway.antt =====
-- `getBag`, `getPath` and `getBagInfoResponse` of pkg/httpServer/methods.go, with
-- `shouldServeLoadingShell` of pkg/httpServer/helpers.go. The service of files, the disk and the
-- engine of the templates are parameters.
pub mod Checked
pub mod Withheld
use mytonstorage_gateway.Common.{Bool, Option, [], false, if◌then◌else◌, none, not, some, true}
use mytonstorage_gateway.FilePath.{split_file}
use mytonstorage_gateway.HttpServer.Response.{
  Sent, answer_body, error_handler, fresh, map_path_info_error,
}
use mytonstorage_gateway.HttpServer.Serve.{Answer, Host, page, serve_file}
use mytonstorage_gateway.HttpServer.Validate.{sanitize_path, validate_bag_id}
use mytonstorage_gateway.Models.{GoError, Result, err, fiber, ok}
use mytonstorage_gateway.Services.Files.{FolderInfo}
use mytonstorage_gateway.Services.Files.Local.{Reply}
use mytonstorage_gateway.Templates.{TemplateData, content_type, html_files_list, html_loading_page}
use mytonstorage_gateway.Text.{Bytes, Unicode, bytes_eq, contains, text, to_lower}
use mytonstorage_gateway.Text.Unescape.{query_unescape}

-- What the handlers read of a request: the query parameter `direct` and two headers.
pub record Request : Type 0 where
  pub direct : Bytes
  pub sec_fetch_dest : Bytes
  pub accept : Bytes

unfoldable pub should_serve_loading_shell : Request → Bool
should_serve_loading_shell req =
    if bytes_eq req.direct (text "1")
    then false
    else if bytes_eq req.sec_fetch_dest (text "document")
    then true
    else if not (bytes_eq req.sec_fetch_dest [])
    then false
    else contains req.accept (text "text/html")

-- What the handlers are built over. `files` is `GetPathInfo`, which acts on a world.
pub record Site : Type 1 where
  pub World : Type 0
  pub files : Bytes → Bytes → World → Option (Reply × World)
  pub host : Host
  pub to_upper : Bytes → Bytes
  pub execute : Bytes → Option TemplateData → Result Bytes

-- A page with the status 200.
abbrev pub send_page : Bytes → Sent Answer
send_page html = record fresh { content_type = text "text/html"; body = answer_body (page html) }

abbrev pub refuse : GoError → Sent Answer
refuse e = error_handler e fresh

-- The response to what a template was rendered to.
abbrev pub send_rendered : Result Bytes → Sent Answer
send_rendered (ok html) = send_page html
send_rendered (err e) = refuse (fiber 500 [])

-- The response beside the world, or nothing for a panic.
abbrev pub beside : {W : Type 0} → W → Option (Sent Answer) → Option (Sent Answer × W)
beside w none = none
beside w (some r) = some (r, w)

module _ ⦃u : Unicode⦄ (site : Site) where
  -- `getBagInfoResponse` for a file on disk: the path is cleaned again.
  unfoldable pub respond_file : FolderInfo → Option (Sent Answer)
  respond_file info = elim (sanitize_path info.single_file_path) [
    | err e ↦ some (refuse e)
    | ok path ↦
        serve_file site.host (record info { single_file_path = path })
          (content_type (split_file path)) fresh
  ]

  -- `getBagInfoResponse` after the service has answered without an error.
  unfoldable pub respond : Bytes → FolderInfo → Option (Sent Answer)
  respond path info =
      if not (bytes_eq info.single_file_path []) then respond_file info else elim info.stream_file [
        | some s ↦ serve_file site.host info (content_type path) fresh
        | none ↦ some (send_rendered (html_files_list site.to_upper site.execute info path))
      ]

  -- The answer of the service.
  abbrev pub respond_reply : Bytes → Option (Reply × site.World) → Option (Sent Answer × site.World)
  respond_reply path none = none
  respond_reply path (some ((info, none), w)) = beside w (respond path info)
  respond_reply path (some ((info, some e), w)) = some (refuse (map_path_info_error e info), w)

  -- `getBagInfoResponse` after the checks.
  unfoldable pub look_up : Request → Bytes → Bytes → site.World → Option (Sent Answer × site.World)
  look_up req bag_id path w =
      if should_serve_loading_shell req
      then some (send_rendered (html_loading_page site.to_upper site.execute), w)
      else respond_reply path (site.files bag_id path w)

  unfoldable pub get_bag_info_response :
      Request → Bytes → Bytes → site.World → Option (Sent Answer × site.World)
  get_bag_info_response req bag_id raw w = elim (validate_bag_id bag_id) [
    | none ↦ none
    | some valid ↦
        if valid
        then elim (sanitize_path raw) [
          | err e ↦ some (refuse e, w)
          | ok path ↦ look_up req bag_id path w
        ]
        else some (refuse (fiber 400 (text "invalid bagid")), w)
  ]

  unfoldable pub get_bag : Request → Bytes → site.World → Option (Sent Answer × site.World)
  get_bag req bag_id w = get_bag_info_response req (to_lower bag_id) [] w

  unfoldable pub get_path : Request → Bytes → Bytes → site.World → Option (Sent Answer × site.World)
  get_path req bag_id raw w = elim (query_unescape raw) [
    | none ↦ some (refuse (fiber 400 (text "invalid path encoding")), w)
    | some path ↦ get_bag_info_response req (to_lower bag_id) path w
  ]
