-- ===== src/Templates.antt =====
-- pkg/templates/templates.go and pkg/templates/template_types.go, with `FormatSize` of
-- pkg/utils/network.go. The engine of the templates is a parameter.
pub mod Media
use mytonstorage_gateway.Common.{
  Bool, List, Option, [], any, false, if◌then◌else◌, leb, ltb, map, none, some, suc, true, zero, ℕ,
  ◌++◌, ◌+◌, ◌/◌, ◌==◌, ◌||◌, ◌∷◌,
}
use mytonstorage_gateway.FilePath.{dir, dot, ext, join_path}
use mytonstorage_gateway.Models.{Result}
use mytonstorage_gateway.Services.Files.{File, FolderInfo}
use mytonstorage_gateway.Text.{Bytes, Unicode, bytes_eq, cut_prefix, has_suffix, text, to_lower}
use mytonstorage_gateway.Text.Decimal.{decimal}

abbrev pub api_base : Bytes
api_base = text "/api/v1/gateway"

abbrev pub image_formats : List Bytes
image_formats =
    text "jpg"
    ∷ text "jpeg"
    ∷ text "png"
    ∷ text "gif"
    ∷ text "webp"
    ∷ text "svg"
    ∷ text "bmp"
    ∷ text "tiff"
    ∷ text "ico"
    ∷ text "avif"
    ∷ []

abbrev pub video_formats : List Bytes
video_formats =
    text "mp4" ∷ text "mkv" ∷ text "webm" ∷ text "avi" ∷ text "mov" ∷ text "flv" ∷ text "wmv" ∷ []

abbrev pub audio_formats : List Bytes
audio_formats = text "mp3" ∷ text "wav" ∷ text "ogg" ∷ text "flac" ∷ text "aac" ∷ text "m4a" ∷ []

abbrev pub text_formats : List Bytes
text_formats =
    text "txt"
    ∷ text "md"
    ∷ text "csv"
    ∷ text "json"
    ∷ text "xml"
    ∷ text "html"
    ∷ text "htm"
    ∷ text "xhtml"
    ∷ text "css"
    ∷ text "js"
    ∷ text "ts"
    ∷ text "py"
    ∷ text "go"
    ∷ text "java"
    ∷ text "c"
    ∷ text "cpp"
    ∷ text "h"
    ∷ text "php"
    ∷ text "rb"
    ∷ text "sh"
    ∷ []

abbrev pub html_formats : List Bytes
html_formats = text "html" ∷ text "htm" ∷ text "xhtml" ∷ []

-- `slices.Contains`
abbrev pub is_listed : Bytes → List Bytes → Bool
is_listed s formats = any (λ f. bytes_eq s f) formats

pub record ContentType : Type 0 where
  pub header : Bytes
  pub value : Bytes
  pub is_download : Bool
  pub is_html : Bool

-- The first format that the extension ends with, as `slices.IndexFunc` finds it.
unfoldable pub first_format : Bytes → List Bytes → Option Bytes
first_format e [] = none
first_format e (f ∷ formats) =
    let rest = first_format e formats in if has_suffix e f then some f else rest

-- The `switch` over the text formats.
unfoldable pub text_mime : Bytes → Bytes
text_mime f =
    if is_listed f (text "txt" ∷ text "md" ∷ [])
    then text "text/plain; charset=utf-8"
    else if is_listed f (text "html" ∷ text "htm" ∷ text "xhtml" ∷ [])
    then text "text/html; charset=utf-8"
    else if bytes_eq f (text "css")
    then text "text/css; charset=utf-8"
    else if bytes_eq f (text "js")
    then text "application/javascript; charset=utf-8"
    else if bytes_eq f (text "json")
    then text "application/json; charset=utf-8"
    else if bytes_eq f (text "xml")
    then text "application/xml; charset=utf-8"
    else if bytes_eq f (text "csv")
    then text "text/csv; charset=utf-8"
    else text "text/plain; charset=utf-8"

abbrev pub shown_as : Bytes → Bool → ContentType
shown_as value is_html = record {
  header = text "Content-Type";
  value = value;
  is_download = false;
  is_html = is_html;
}

-- `attachment; filename="` + name + `"`
abbrev pub attachment : Bytes → Bytes
attachment name = text "attachment; filename=" ++ (34 ∷ name) ++ (34 ∷ [])

abbrev pub saved_as : Bytes → ContentType
saved_as name = record {
  header = text "Content-Disposition";
  value = attachment name;
  is_download = true;
  is_html = false;
}

-- `ContentType`, from the extension in lower case and without its dot.
unfoldable pub content_type_of : Bytes → Bytes → ContentType
content_type_of filename e = elim (first_format e image_formats) [
  | some f ↦ shown_as (text "image/" ++ f) false
  | none ↦ elim (first_format e video_formats) [
    | some f ↦ shown_as (text "video/" ++ f) false
    | none ↦ elim (first_format e audio_formats) [
      | some f ↦ shown_as (text "audio/" ++ f) false
      | none ↦ elim (first_format e text_formats) [
        | some f ↦ shown_as (text_mime f) (is_listed f html_formats)
        | none ↦ saved_as filename
      ]
    ]
  ]
]

-- `strings.TrimPrefix(ext, ".")`
unfoldable pub without_dot : Bytes → Bytes
without_dot e = elim (cut_prefix e (text ".")) [ some rest ↦ rest | none ↦ e ]

module _ ⦃u : Unicode⦄ where
  unfoldable pub content_type : Bytes → ContentType
  content_type filename = content_type_of filename (without_dot (to_lower (ext filename)))

-- The loop of `FormatSize`, with the index of the unit; it has four rounds at most.
unfoldable pub scale : ℕ → ℕ → ℕ × ℕ
scale zero size = (size, 0)
scale (suc rounds) size =
    let (v, i) = scale rounds (size / 1024) in if leb 1024 size then (v, i + 1) else (size, 0)

abbrev pub units : ℕ → Bytes
units zero = text "B"
units (suc zero) = text "KB"
units (suc (suc zero)) = text "MB"
units (suc (suc (suc zero))) = text "GB"
units (suc (suc (suc (suc n)))) = text "TB"

unfoldable pub format_size : ℕ → Bytes
format_size size =
    let (v, i) = scale 4 size in
    if ltb size 1024 then decimal size ++ text " B" else decimal v ++ text " " ++ units i

pub record FileData : Type 0 where
  pub name : Bytes
  pub href : Bytes
  pub icon : Bytes
  pub formatted_size : Bytes

pub record TemplateData : Type 0 where
  pub title : Bytes
  pub full_path : Bytes
  pub total_size : Bytes
  pub description : Bytes
  pub peers_count : ℕ
  pub file_count : ℕ
  pub parent_dir : Option Bytes
  pub files : List FileData

-- The icons, in UTF-8.
abbrev pub document_icon : Bytes
document_icon = 240 ∷ 159 ∷ 147 ∷ 132 ∷ []

abbrev pub folder_icon : Bytes
folder_icon = 240 ∷ 159 ∷ 147 ∷ 129 ∷ []

unfoldable pub file_icon : File → Bytes
file_icon f =
    if f.is_folder
    then folder_icon
    else if is_listed (ext f.name) image_formats
    then 240 ∷ 159 ∷ 150 ∷ 188 ∷ 239 ∷ 184 ∷ 143 ∷ []
    else if is_listed (ext f.name) video_formats
    then 240 ∷ 159 ∷ 142 ∷ 165 ∷ []
    else if is_listed (ext f.name) audio_formats
    then 240 ∷ 159 ∷ 142 ∷ 181 ∷ []
    else if is_listed (ext f.name) text_formats
    then 240 ∷ 159 ∷ 147 ∷ 157 ∷ []
    else document_icon

-- One round of the loop over the files; `bag_id` is in upper case.
unfoldable pub file_data : Bytes → Bytes → File → FileData
file_data bag_id path f = record {
  name = f.name;
  href =
      if bytes_eq path []
      then join_path (api_base ∷ bag_id ∷ f.name ∷ [])
      else join_path (api_base ∷ bag_id ∷ path ∷ f.name ∷ []);
  icon = file_icon f;
  formatted_size = if f.size == 0 then text "folder" else format_size f.size;
}

unfoldable pub parent_href : Bytes → Bytes → Option Bytes
parent_href bag_id path =
    if bytes_eq path []
    then none
    else if bytes_eq (dir path) dot || bytes_eq (dir path) []
    then some (join_path (api_base ∷ bag_id ∷ []))
    else some (join_path (api_base ∷ bag_id ∷ dir path ∷ []))

-- `to_upper` is `strings.ToUpper`.
module _ (to_upper : Bytes → Bytes) where
  unfoldable pub template_data : FolderInfo → Bytes → TemplateData
  template_data f path =
      let bag_id = to_upper f.bag_id in
      record {
        title = join_path (bag_id ∷ path ∷ []);
        full_path = join_path (bag_id ∷ path ∷ []);
        total_size = format_size f.total_size;
        description = f.description;
        peers_count = f.peers_count;
        file_count = f.files_count;
        parent_dir = parent_href bag_id path;
        files = map (file_data bag_id path) f.files;
      }

  -- `execute` is `ExecuteTemplate`, with the data or nil.
  module _ (execute : Bytes → Option TemplateData → Result Bytes) where
    unfoldable pub html_files_list : FolderInfo → Bytes → Result Bytes
    html_files_list f path = execute (text "file_list.html") (some (template_data f path))

    unfoldable pub html_loading_page : Result Bytes
    html_loading_page = execute (text "loading.html") none
