-- ===== src/IframeWrap.antt =====
-- pkg/iframewrap: the page that embeds the HTML of a user in a sandboxed frame.
pub mod Confined
use mytonstorage_gateway.Common.{Bool, List, [], if◌then◌else◌, ◌&&◌, ◌++◌, ◌==◌, ◌∷◌}
use mytonstorage_gateway.Services.Files.Listing.{ls}
use mytonstorage_gateway.Text.{Bytes, text}

-- The lines of `parentTemplate`.
abbrev pub template_lines : List Bytes
template_lines =
    text "<!doctype html>"
    ∷ text "<html lang=\"en\">"
    ∷ text "<head>"
    ∷ text "<meta charset=\"utf-8\">"
    ∷ text "<meta name=\"viewport\" content=\"width=device-width,initial-scale=1\">"
    ∷ text "<title>Gateway | My TON Storage</title>"
    ∷ text "<style>"
    ∷ text "  html,body{height:100%%;margin:0}"
    ∷ text "  .wrapped-iframe{width:100%%;height:calc(100%% - 50px);border:0px}"
    ∷ text "  .notice-header {"
    ∷ text "    background: linear-gradient(75deg, #dadadaff, #b3b3b3ff);"
    ∷ text "    padding: 8px 16px;"
    ∷ text "    font-family: -apple-system, BlinkMacSystemFont, 'Segoe UI', Roboto, sans-serif;"
    ∷ text "    font-size: 13px;"
    ∷ text "    text-align: center;"
    ∷ text "    border-bottom: 1px solid #004080;"
    ∷ text "    position: relative;"
    ∷ text "    z-index: 1000;"
    ∷ text "    height: 34px;"
    ∷ text "    box-sizing: border-box;"
    ∷ text "    display: flex;"
    ∷ text "    align-items: center;"
    ∷ text "    justify-content: center;"
    ∷ text "  }"
    ∷ text "  .notice-text {"
    ∷ text "    opacity: 0.95;"
    ∷ text "  }"
    ∷ text "  .report-link {"
    ∷ text "\tposition:absolute;"
    ∷ text "\tright:10px;"
    ∷ text "\ttop:8px;"
    ∷ text "\tfont-size:12px;"
    ∷ text "\ttext-decoration:none;"
    ∷ text "  }"
    ∷ text "  .warning-icon {"
    ∷ text "    margin-right: 8px;"
    ∷ text "    font-size: 14px;"
    ∷ text "  }"
    ∷ text "</style>"
    ∷ text "</head>"
    ∷ text "<body>"
    ∷ text "<div class=\"notice-header\">"
    ∷ (text "  <span class=\"warning-icon\">"
        ++ (226 ∷ 154 ∷ 160 ∷ 239 ∷ 184 ∷ 143 ∷ [])
        ++ text "</span>")
    ∷ text
        "  <span class=\"notice-text\">This content is not part of <a href=\"https://mytonstorage.org\">mytonstorage.org</a> website. Please be careful.</span>"
    ∷ text
        "  <a class=\"report-link\" href=\"https://t.me/bagidreport_bot\" target=\"_blank\">Report</a>"
    ∷ text "</div>"
    ∷ text ""
    ∷ text "<iframe class=\"wrapped-iframe\" sandbox=\"%s\" %s></iframe>"
    ∷ text "</body>"
    ∷ text "</html>"
    ∷ []

abbrev pub join_lines : List Bytes → Bytes
join_lines [] = []
join_lines (l ∷ []) = l
join_lines (l ∷ (m ∷ ls)) = l ++ 10 ∷ join_lines (m ∷ ls)

abbrev pub parent_template : Bytes
parent_template = join_lines template_lines

-- `fmt.Sprintf` for the verbs `%s` and `%%`; a `%s` without an argument does not occur.
unfoldable pub format : Bytes → List Bytes → Bytes
format [] args = []
format (c ∷ []) args = c ∷ []
format (c ∷ (d ∷ s)) [] =
    let escaped = format s [] in
    let plain = format (d ∷ s) [] in if (c == b'%') && (d == b'%') then c ∷ escaped else c ∷ plain
format (c ∷ (d ∷ s)) (a ∷ args) =
    let escaped = format s (a ∷ args) in
    let filled = format s args in
    let plain = format (d ∷ s) (a ∷ args) in
    if (c == b'%') && (d == b'%')
    then c ∷ escaped
    else if (c == b'%') && (d == b's')
    then a ++ filled
    else c ∷ plain

-- `Options`
pub record Options : Type 0 where
  pub allow_scripts : Bool
  pub allow_forms : Bool

-- The attribute `sandbox`.
unfoldable pub sandbox : Options → Bytes
sandbox o =
    if o.allow_scripts
    then (if o.allow_forms then text "allow-scripts allow-forms" else text "allow-scripts")
    else (if o.allow_forms then text "allow-forms" else [])

-- `WrapHTML`, which has no error; `escape_string` is `html.EscapeString`.
unfoldable pub wrap_html : (Bytes → Bytes) → Bytes → Options → Bytes
wrap_html escape_string user_html o =
    let src_attr = format (text "srcdoc=\"%s\"") (escape_string user_html ∷ []) in
    format parent_template (sandbox o ∷ src_attr ∷ [])
