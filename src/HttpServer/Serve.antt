-- ===== src/HttpServer/Serve.antt =====
-- `serveFile` of pkg/httpServer/methods.go, `serveHTMLFile` and `streamWithDeadline` of
-- pkg/httpServer/helpers.go. The disk, the readers and `iframewrap.WrapHTML` are parameters.
pub mod Limits
use mytonstorage_gateway.Common.{
  Option, [], if◌then◌else◌, leb, ltb, none, not, some, ℕ, ◌%◌, ◌&&◌, ◌^◌, ◌∷◌,
}
use mytonstorage_gateway.HttpServer.Response.{Sent, answer_body, error_handler}
use mytonstorage_gateway.Models.{
  Result, app, err, fiber, internal_server_error_code, new_app_error, ok,
}
use mytonstorage_gateway.Services.Files.{FolderInfo}
use mytonstorage_gateway.Services.Files.Local.{max_file_serve_size}
use mytonstorage_gateway.Templates.{ContentType, content_type, saved_as}
use mytonstorage_gateway.Text.{Bytes, bytes_eq, text}
use mytonstorage_gateway.Text.Decimal.{decimal}

-- `constants.MaxHTMLFileSize`
abbrev pub max_html_file_size : ℕ
max_html_file_size = 5_242_880

-- What `os.Stat` returns: the size of the file, or an error.
pub data Stat : Type 0 where
  found : ℕ → Stat
  not_exist : Stat
  stat_failed : Stat

-- What the handlers call; each call may see another state of the disk.
pub record Host : Type 0 where
  -- the size that `os.Lstat` finds, or nothing for an error
  pub lstat : Bytes → Option ℕ
  pub stat : Bytes → Stat
  -- what the reader of `os.Open` delivers, or nothing for an error
  pub open_file : Bytes → Option Bytes
  pub read_file : Bytes → Result Bytes
  -- the buffer of that size after one `Read` of a reader that delivers these bytes
  pub read_stream : Bytes → ℕ → Result Bytes
  pub wrap_html : Bytes → Result Bytes

-- A page, or a reader and the length that it is announced with.
pub data Answer : Type 0 where
  page : Bytes → Answer
  stream : Bytes → ℕ → Answer

module _ (h : Host) where
  -- `serveHTMLFile` after the content is read.
  unfoldable pub send_wrapped : Bytes → Sent Answer → Sent Answer
  send_wrapped content r = elim (h.wrap_html content) [
    | ok html ↦ record r { body = answer_body (page html) }
    | err e ↦ error_handler (app (new_app_error internal_server_error_code [])) r
  ]

  abbrev pub send_read : Result Bytes → Sent Answer → Sent Answer
  send_read (ok content) r = send_wrapped content r
  send_read (err e) r = error_handler e r

  -- `none`: the handler panics, on a reader that is nil.
  unfoldable pub serve_html_file : FolderInfo → Sent Answer → Option (Sent Answer)
  serve_html_file info r = elim info.stream_file [
    | some s ↦ elim s.file_stream [
      | none ↦ none
      | some content ↦ some (send_read (h.read_stream content s.size) r)
    ]
    | none ↦
        if bytes_eq info.single_file_path []
        then some (error_handler (fiber 404 (text "file not found")) r)
        else some (send_read (h.read_file info.single_file_path) r)
  ]

  -- `streamWithDeadline`: a size that is negative as an `int` is not announced. The loop that copies
  -- runs after the handler has returned.
  unfoldable pub stream_with_deadline : Bytes → ℕ → Sent Answer → Sent Answer
  stream_with_deadline content size r = record r {
    headers =
        if ltb (size % 2 ^ 64) (2 ^ 63)
        then (text "Content-Length", decimal size) ∷ r.headers
        else r.headers;
    body = answer_body (stream content size);
  }

  -- The start of `serveFile`: a large page of HTML becomes a download.
  unfoldable pub sized_type : FolderInfo → ContentType → Result ContentType
  sized_type info ct =
      if ct.is_html && not (bytes_eq info.single_file_path [])
      then elim (h.lstat info.single_file_path) [
        | none ↦ err (fiber 404 (text "file not found"))
        | some n ↦ if leb max_html_file_size n then ok (saved_as info.single_file_path) else ok ct
      ]
      else ok ct

  abbrev pub with_type : ContentType → Sent Answer → Sent Answer
  with_type ct r =
      if ct.is_download
      then record r { headers = (ct.header, ct.value) ∷ r.headers }
      else record r { content_type = ct.value }

  -- The end of `serveFile`, for a file on disk.
  unfoldable pub send_from_disk : Bytes → Sent Answer → Option (Sent Answer)
  send_from_disk path r = elim (h.stat path) [
    | not_exist ↦ some (error_handler (fiber 404 (text "file not found")) r)
    | stat_failed ↦ none
    | found n ↦
        if ltb max_file_serve_size n
        then some (
            error_handler
              (fiber 413 (text "file too large, use https://github.com/xssnick/TON-Torrent")) r)
        else elim (h.open_file path) [
          | none ↦ some (error_handler (fiber 500 []) r)
          | some content ↦ some (stream_with_deadline content n r)
        ]
  ]

  -- The end of `serveFile`, for a file that is not a page. `none`: the handler panics, on a reader
  -- that is nil or on the file information that is nil beside an error.
  unfoldable pub send_file : FolderInfo → Sent Answer → Option (Sent Answer)
  send_file info r = elim info.stream_file [
    | some s ↦ elim s.file_stream [
      | none ↦ none
      | some content ↦ some (stream_with_deadline content s.size r)
    ]
    | none ↦
        if bytes_eq info.single_file_path []
        then some (error_handler (fiber 404 (text "file not found")) r)
        else send_from_disk info.single_file_path r
  ]

  unfoldable pub serve_file : FolderInfo → ContentType → Sent Answer → Option (Sent Answer)
  serve_file info ct r = elim (sized_type info ct) [
    | err e ↦ some (error_handler e r)
    | ok ct' ↦
        if ct'.is_html
        then serve_html_file info (with_type ct' r)
        else send_file info (with_type ct' r)
  ]
