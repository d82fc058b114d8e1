-- ===== src/HttpServer/Serve/Limits.antt =====
-- The limits of `serveFile` in pkg/httpServer/methods.go on what is served from disk.
use mytonstorage_gateway.Common.{
  Bool-cases, Option, [], arith, inl, inr, none, refl, some, true, ℕ, ◌<◌, ◌≡◌, ◌≢◌, ◌≤◌,
}
use mytonstorage_gateway.HttpServer.Response.{Sent, answer_body, error_body, error_handler, no_body}
use mytonstorage_gateway.HttpServer.Serve.{
  Answer, Host, found, max_html_file_size, page, send_file, send_from_disk, send_read, send_wrapped,
  serve_file, serve_html_file, sized_type, stream, stream_with_deadline, with_type,
}
use mytonstorage_gateway.Models.{Result, err, ok}
use mytonstorage_gateway.Services.Files.{FolderInfo}
use mytonstorage_gateway.Services.Files.Local.{max_file_serve_size}
use mytonstorage_gateway.Templates.{ContentType}
use mytonstorage_gateway.Text.{Bytes}
use mytonstorage_gateway.Text.Laws.{bytes_eq_iff}

-- The answer of a response.
abbrev pub answer_of : Option (Sent Answer) → Option Answer
answer_of none = none
answer_of (some r) = elim r.body [ no_body ↦ none | error_body m ↦ none | answer_body a ↦ some a ]

module _ (h : Host) where
  -- The content of the file, if it is at most 50 MiB, with its size as the announced length; or a
  -- page, if it is less than 5 MiB.
  abbrev pub IsWithinLimits : Bytes → Answer → Type 0
  IsWithinLimits path (stream content n) =
      (h.stat path ≡ found n) × (n ≤ max_file_serve_size) × (h.open_file path ≡ some content)
  IsWithinLimits path (page html) =
      (n : ℕ) × (content : Bytes) × (h.lstat path ≡ some n)
      × (n < max_html_file_size)
      × (h.read_file path ≡ ok content)
      × (h.wrap_html content ≡ ok html)

  send_from_disk-IsWithinLimits :
      (path : Bytes) (r : Sent Answer) (a : Answer)
      → answer_of (send_from_disk h path r) ≡ some a
      → IsWithinLimits path a
  unfolding send_from_disk stream_with_deadline error_handler
  send_from_disk-IsWithinLimits path r (page html) e = absurd (ground arith)
  send_from_disk-IsWithinLimits path r (stream content n) e = ground arith

  abbrev IsSmall : Bytes → Option ℕ → Type 0
  IsSmall path none = Unit
  IsSmall path (some n) = (h.lstat path ≡ some n) × (n < max_html_file_size)

  -- A page of HTML is left as one only if it is small.
  sized_type-small :
      (info : FolderInfo) (ct ct' : ContentType)
      → info.single_file_path ≢ []
      → sized_type h info ct ≡ ok ct'
      → ct'.is_html ≡ true
      → (n : ℕ) × (h.lstat info.single_file_path ≡ some n) × (n < max_html_file_size)
  unfolding sized_type
  sized_type-small info ct ct' ne e html = go (h.lstat info.single_file_path) refl
    where
      go :
          (size : Option ℕ)
          → h.lstat info.single_file_path ≡ size
          → (n : ℕ) × (h.lstat info.single_file_path ≡ some n) × (n < max_html_file_size)
      go none q = absurd (ground (arith, bytes_eq_iff info.single_file_path []))
      go (some n) q = (n, q, ground (arith, bytes_eq_iff info.single_file_path []))

  send_read-page :
      (content : Result Bytes) (r : Sent Answer) (a : Answer)
      → answer_of (some (send_read h content r)) ≡ some a
      → (bytes : Bytes) × (html : Bytes) × (content ≡ ok bytes)
        × (h.wrap_html bytes ≡ ok html)
        × (a ≡ page html)
  unfolding send_wrapped error_handler
  send_read-page (err x) r a e = absurd (ground arith)
  send_read-page (ok bytes) r a e = go (h.wrap_html bytes) refl
    where
      go :
          (wrapped : Result Bytes)
          → h.wrap_html bytes ≡ wrapped
          → (bytes' : Bytes) × (html : Bytes) × (ok bytes ≡ ok bytes')
            × (h.wrap_html bytes' ≡ ok html)
            × (a ≡ page html)
      go (err x) q = absurd (ground arith)
      go (ok html) q = (bytes, html, refl, q, ground arith)

  serve_html_file-read :
      (info : FolderInfo) (r : Sent Answer) (a : Answer)
      → info.stream_file ≡ none
      → answer_of (serve_html_file h info r) ≡ some a
      → (info.single_file_path ≢ [])
        × (answer_of (some (send_read h (h.read_file info.single_file_path) r)) ≡ some a)
  unfolding serve_html_file error_handler
  serve_html_file-read info r a disk e =
      ((λ nil. ground arith), ground (arith, bytes_eq_iff info.single_file_path []))

  send_file-disk :
      (info : FolderInfo) (r : Sent Answer) (a : Answer)
      → info.stream_file ≡ none
      → answer_of (send_file h info r) ≡ some a
      → answer_of (send_from_disk h info.single_file_path r) ≡ some a
  unfolding send_file error_handler
  send_file-disk info r a disk e = ground arith

  -- A file that is served from disk is within the limits, at the time it is looked at: it is
  -- announced with the size that was found, which is at most 50 MiB, or it is a page whose file was
  -- found to be less than 5 MiB.
  pub serve_file-IsWithinLimits :
      (info : FolderInfo) (ct : ContentType) (r : Sent Answer) (a : Answer)
      → info.stream_file ≡ none
      → answer_of (serve_file h info ct r) ≡ some a
      → IsWithinLimits info.single_file_path a
  unfolding serve_file
  serve_file-IsWithinLimits info ct r a disk e = go (sized_type h info ct) refl
    where
      paged :
          (ct' : ContentType)
          → sized_type h info ct ≡ ok ct'
          → ct'.is_html ≡ true
          → answer_of (serve_html_file h info (with_type h ct' r)) ≡ some a
          → IsWithinLimits info.single_file_path a
      paged ct' q html p =
          let (ne, p') = serve_html_file-read info (with_type h ct' r) a disk p in
          let (content, wrapped, was_read, was_wrapped, same) =
            send_read-page (h.read_file info.single_file_path) (with_type h ct' r) a p' in
          let (n, size, small) = sized_type-small info ct ct' ne q html in
          rw same (n, content, size, small, was_read, was_wrapped)

      go :
          (sized : Result ContentType)
          → sized_type h info ct ≡ sized
          → IsWithinLimits info.single_file_path a
      go (err x) q = absurd (unfold error_handler in ground arith)
      go (ok ct') q = elim (Bool-cases ct'.is_html) [
        | inl html ↦ paged ct' q html (ground arith)
        | inr plain ↦
            send_from_disk-IsWithinLimits info.single_file_path (with_type h ct' r) a
              (send_file-disk info (with_type h ct' r) a disk (ground arith))
      ]
