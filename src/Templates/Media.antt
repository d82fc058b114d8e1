-- ===== src/Templates/Media.antt =====
-- What `ContentType` and the listing page of pkg/templates/templates.go make of a file.
use mathlib.Core.List.{reverse}
use mathlib.Core.Path.{subst}
use mytonstorage_gateway.Common.{
  All, Bool, Bool-cases, List, Option-cases, [], ap, arith, false, if_elim, inl, inr, refl, some,
  true, ℕ, ◌*◌, ◌++◌, ◌+◌, ◌<◌, ◌^◌, ◌↔◌, ◌∷◌, ◌≡◌, ◌≢◌, ◌≤◌, ◌⊎◌,
}
use mytonstorage_gateway.FilePath.{before, ext, slash}
use mytonstorage_gateway.Services.Files.{File}
use mytonstorage_gateway.Templates.{
  ContentType, audio_formats, content_type, content_type_of, document_icon, file_icon, first_format,
  html_formats, image_formats, is_listed, text_formats, text_mime, video_formats,
}
use mytonstorage_gateway.Text.{Bytes, Unicode, bytes_eq, contains_byte, has_suffix, text}
use mytonstorage_gateway.Text.Laws.{bytes_eq_iff}

-- The media types that a file is shown under.
abbrev pub media_types : List Bytes
media_types =
    text "image/jpg"
    ∷ text "image/jpeg"
    ∷ text "image/png"
    ∷ text "image/gif"
    ∷ text "image/webp"
    ∷ text "image/svg"
    ∷ text "image/bmp"
    ∷ text "image/tiff"
    ∷ text "image/ico"
    ∷ text "image/avif"
    ∷ text "video/mp4"
    ∷ text "video/mkv"
    ∷ text "video/webm"
    ∷ text "video/avi"
    ∷ text "video/mov"
    ∷ text "video/flv"
    ∷ text "video/wmv"
    ∷ text "audio/mp3"
    ∷ text "audio/wav"
    ∷ text "audio/ogg"
    ∷ text "audio/flac"
    ∷ text "audio/aac"
    ∷ text "audio/m4a"
    ∷ text "text/plain; charset=utf-8"
    ∷ text "text/html; charset=utf-8"
    ∷ text "text/css; charset=utf-8"
    ∷ text "text/csv; charset=utf-8"
    ∷ text "application/javascript; charset=utf-8"
    ∷ text "application/json; charset=utf-8"
    ∷ text "application/xml; charset=utf-8"
    ∷ []

-- A file is answered as a download whose header holds its name in quotes, or it is shown under one of
-- the media types.
abbrev pub IsServedAs : Bytes → ContentType → Type 0
IsServedAs filename c =
    ((c.is_download ≡ true)
      × (c.is_html ≡ false)
      × (c.header ≡ text "Content-Disposition")
      × (c.value ≡ text "attachment; filename=" ++ (34 ∷ filename) ++ (34 ∷ [])))
    ⊎ ((c.is_download ≡ false)
        × (c.header ≡ text "Content-Type")
        × (is_listed c.value media_types ≡ true)
        × ((c.is_html ≡ true) ↔ (c.value ≡ text "text/html; charset=utf-8")))

-- What holds of every format holds of the one that is found.
first_format-All :
    (P : Bytes → Type 0) (e f : Bytes) (formats : List Bytes)
    → All P formats
    → first_format e formats ≡ some f
    → P f
unfolding first_format
first_format-All P e f [] h q = absurd (ground (arith, q))
first_format-All P e f (g ∷ formats) (p, h) q = elim (Bool-cases (has_suffix e g)) [
  | inl hit ↦ let same : g ≡ f = ground (arith, hit, q) in subst P same p
  | inr miss ↦ first_format-All P e f formats h (ground (arith, miss, q))
]

-- A media type that is on the list.
abbrev IsMedia : Bytes → Type 0
IsMedia value = is_listed value media_types ≡ true

images-IsMedia : All (λ f. IsMedia (text "image/" ++ f)) image_formats
images-IsMedia = (refl, (refl, (refl, (refl, (refl, (refl, (refl, (refl, (refl, (refl, tt))))))))))

videos-IsMedia : All (λ f. IsMedia (text "video/" ++ f)) video_formats
videos-IsMedia = (refl, (refl, (refl, (refl, (refl, (refl, (refl, tt)))))))

audios-IsMedia : All (λ f. IsMedia (text "audio/" ++ f)) audio_formats
audios-IsMedia = (refl, (refl, (refl, (refl, (refl, (refl, tt))))))

texts-IsMedia : (f : Bytes) → IsMedia (text_mime f)
unfolding text_mime
texts-IsMedia f = elim (Bool-cases (is_listed f (text "txt" ∷ text "md" ∷ []))) [
  | inl e0 ↦ rw (text_mime, e0) refl
  | inr e0 ↦ elim (Bool-cases (is_listed f (text "html" ∷ text "htm" ∷ text "xhtml" ∷ []))) [
    | inl e1 ↦ rw (text_mime, e0, e1) refl
    | inr e1 ↦ elim (Bool-cases (bytes_eq f (text "css"))) [
      | inl e2 ↦ rw (text_mime, e0, e1, e2) refl
      | inr e2 ↦ elim (Bool-cases (bytes_eq f (text "js"))) [
        | inl e3 ↦ rw (text_mime, e0, e1, e2, e3) refl
        | inr e3 ↦ elim (Bool-cases (bytes_eq f (text "json"))) [
          | inl e4 ↦ rw (text_mime, e0, e1, e2, e3, e4) refl
          | inr e4 ↦ elim (Bool-cases (bytes_eq f (text "xml"))) [
            | inl e5 ↦ rw (text_mime, e0, e1, e2, e3, e4, e5) refl
            | inr e5 ↦ elim (Bool-cases (bytes_eq f (text "csv"))) [
              | inl e6 ↦ rw (text_mime, e0, e1, e2, e3, e4, e5, e6) refl
              | inr e6 ↦ rw (text_mime, e0, e1, e2, e3, e4, e5, e6) refl
            ]
          ]
        ]
      ]
    ]
  ]
]

text_mime-html :
    (f : Bytes)
    → (is_listed f html_formats ≡ true) ↔ (text_mime f ≡ text "text/html; charset=utf-8")
unfolding text_mime
text_mime-html f = (to, λ e. ground arith)
  where
    to : is_listed f html_formats ≡ true → text_mime f ≡ text "text/html; charset=utf-8"
    to h = elim (Bool-cases (bytes_eq f (text "html"))) [
      | inl e ↦ rw ((bytes_eq_iff f (text "html")).0 e) refl
      | inr e ↦ elim (Bool-cases (bytes_eq f (text "htm"))) [
        | inl e' ↦ rw ((bytes_eq_iff f (text "htm")).0 e') refl
        | inr e' ↦ rw ((bytes_eq_iff f (text "xhtml")).0 (ground arith)) refl
      ]
    ]

abbrev first_byte : Bytes → ℕ
first_byte [] = 0
first_byte (c ∷ s) = c

-- A type that does not begin with a "t" is not HTML.
not_html :
    {is_html : Bool} {value : Bytes}
    → is_html ≡ false
    → first_byte value ≢ 116
    → (is_html ≡ true) ↔ (value ≡ text "text/html; charset=utf-8")
not_html plain h = ((λ e. absurd (ground arith)), (λ e. absurd (h (ap first_byte e))))

content_type_of-IsServedAs : (filename e : Bytes) → IsServedAs filename (content_type_of filename e)
unfolding content_type_of
content_type_of-IsServedAs filename e = elim (Option-cases (first_format e image_formats)) [
  | inr (f, q) ↦
      rw (content_type_of, q)
        (inr (
          refl,
          refl,
          first_format-All (λ g. IsMedia (text "image/" ++ g)) e f image_formats images-IsMedia q,
          not_html refl (λ e. omega (arith, e)),
        ))
  | inl no_image ↦ elim (Option-cases (first_format e video_formats)) [
    | inr (f, q) ↦
        rw (content_type_of, no_image, q)
          (inr (
            refl,
            refl,
            first_format-All (λ g. IsMedia (text "video/" ++ g)) e f video_formats videos-IsMedia q,
            not_html refl (λ e. omega (arith, e)),
          ))
    | inl no_video ↦ elim (Option-cases (first_format e audio_formats)) [
      | inr (f, q) ↦
          rw (content_type_of, no_image, no_video, q)
            (inr (
              refl,
              refl,
              first_format-All (λ g. IsMedia (text "audio/" ++ g)) e f audio_formats audios-IsMedia
                  q,
              not_html refl (λ e. omega (arith, e)),
            ))
      | inl no_audio ↦ elim (Option-cases (first_format e text_formats)) [
        | inr (f, q) ↦
            rw (content_type_of, no_image, no_video, no_audio, q)
              (inr (refl, refl, texts-IsMedia f, text_mime-html f))
        | inl no_text ↦
            rw (content_type_of, no_image, no_video, no_audio, no_text)
              (inl (refl, refl, refl, refl))
      ]
    ]
  ]
]

module _ ⦃u : Unicode⦄ where
  -- Whatever the name of a file is: it is answered as a download whose header holds the name in
  -- quotes, or it is shown under one of thirty fixed media types; it is wrapped as a page exactly if
  -- that type is HTML.
  pub content_type-IsServedAs : (filename : Bytes) → IsServedAs filename (content_type filename)
  unfolding content_type
  content_type-IsServedAs filename = content_type_of-IsServedAs filename _

-- The number `v` at the unit `i`: the size divided by that power of 1024, less than 1024 unless the
-- unit is the last one, and at least 1 unless it is the first one.
abbrev pub IsScaled : ℕ → ℕ → ℕ × ℕ → Type 0
IsScaled rounds size (v, i) =
    (v * 1024 ^ i ≤ size)
    × (size < (v + 1) * 1024 ^ i)
    × (i ≤ rounds)
    × ((v < 1024) ⊎ (i ≡ rounds))
    × ((1 ≤ v) ⊎ (i ≡ 0))

ext-cases : (p : Bytes) → (ext p ≡ []) ⊎ ((s : Bytes) × (ext p ≡ b'.' ∷ s))
unfolding ext
ext-cases p =
    if_elim (λ e. (e ≡ []) ⊎ ((s : Bytes) × (e ≡ b'.' ∷ s)))
      (contains_byte b'.' (before slash (reverse p))) (inr (_, refl)) (inl refl)

-- A file that is not a folder gets the plain icon, whatever its extension is: the lists of
-- extensions have no dots, and `filepath.Ext` keeps the dot.
pub file_icon-plain : (f : File) → f.is_folder ≡ false → file_icon f ≡ document_icon
unfolding file_icon
file_icon-plain f h = elim (ext-cases f.name) [
  | inl e ↦ rw (file_icon, h, e) refl
  | inr (s, e) ↦ rw (file_icon, h, e) refl
]
