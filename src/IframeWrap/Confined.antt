-- ===== src/IframeWrap/Confined.antt =====
-- The HTML of a user stays within one attribute of the page.
use mathlib.Core.List.{append_assoc}
use mytonstorage_gateway.Common.{
  Bool, Option, [], ap, arith, false, if◌then◌else◌, none, refl, some, true, ℕ, ◌++◌, ◌==◌, ◌∙◌,
  ◌∷◌, ◌≡◌,
}
use mytonstorage_gateway.IframeWrap.{Options, format, sandbox, wrap_html}
use mytonstorage_gateway.Text.{Bytes, contains, contains_byte, cut_prefix, text}

abbrev quote : ℕ
quote = 34

-- The end of the page, after the attribute.
abbrev page_end : Bytes
page_end = text "></iframe>" ++ (10 ∷ text "</body>") ++ (10 ∷ text "</html>")

-- The text before the next quote.
unfoldable pub until_quote : Bytes → Bytes
until_quote [] = []
until_quote (c ∷ s) = let rest = until_quote s in if c == quote then [] else c ∷ rest

-- The value of an attribute, as a reader of HTML finds it: what stands after its name, an equals
-- sign and a quote, up to the next quote.
unfoldable pub value_of : Bytes → Bytes → Option Bytes
value_of name [] = none
value_of name (c ∷ s) =
    let rest = value_of name s in
    elim (cut_prefix (c ∷ s) name) [ some v ↦ some (until_quote v) | none ↦ rest ]

until_quote-append :
    (v rest : Bytes) → contains_byte quote v ≡ false → until_quote (v ++ quote ∷ rest) ≡ v
unfolding until_quote
until_quote-append [] rest h = refl
until_quote-append (c ∷ v) rest h = ground (arith, h, until_quote-append v rest)

wrap_html-value :
    (escape_string : Bytes → Bytes) (user_html : Bytes) (scripts forms : Bool)
    → value_of (text " srcdoc=\"") (
        wrap_html escape_string user_html (record { allow_scripts = scripts; allow_forms = forms }))
      ≡ some (until_quote ((escape_string user_html ++ quote ∷ []) ++ page_end))
unfolding value_of wrap_html format cut_prefix sandbox
wrap_html-value escape_string user_html true true = refl
wrap_html-value escape_string user_html true false = refl
wrap_html-value escape_string user_html false true = refl
wrap_html-value escape_string user_html false false = refl

sandbox_value :
    (escape_string : Bytes → Bytes) (user_html : Bytes) (scripts forms : Bool)
    → value_of (text " sandbox=\"") (
        wrap_html escape_string user_html (record { allow_scripts = scripts; allow_forms = forms }))
      ≡ some (sandbox (record { allow_scripts = scripts; allow_forms = forms }))
unfolding value_of wrap_html format cut_prefix sandbox until_quote
sandbox_value escape_string user_html true true = refl
sandbox_value escape_string user_html true false = refl
sandbox_value escape_string user_html false true = refl
sandbox_value escape_string user_html false false = refl

no_same_origin :
    (scripts forms : Bool)
    → contains
        (sandbox (record { allow_scripts = scripts; allow_forms = forms }))
        (text "allow-same-origin")
      ≡ false
unfolding sandbox contains
no_same_origin true true = refl
no_same_origin true false = refl
no_same_origin false true = refl
no_same_origin false false = refl

-- If the escaped HTML of a user holds no quote, then the attribute `srcdoc` of the frame is that
-- text as a whole, whatever it is: the user's HTML does not leave the attribute. The frame has the
-- sandbox that the options say, which never allows the origin of the gateway.
pub wrap_html-IsConfined :
    (escape_string : Bytes → Bytes) (user_html : Bytes) (o : Options)
    → contains_byte quote (escape_string user_html) ≡ false
    → (value_of (text " srcdoc=\"") (wrap_html escape_string user_html o)
        ≡ some (escape_string user_html))
      × (value_of (text " sandbox=\"") (wrap_html escape_string user_html o) ≡ some (sandbox o))
      × (contains (sandbox o) (text "allow-same-origin") ≡ false)
wrap_html-IsConfined escape_string user_html o h = (
  wrap_html-value escape_string user_html o.allow_scripts o.allow_forms
      ∙ ap (λ v. some (until_quote v))
          (append_assoc (escape_string user_html) (quote ∷ []) page_end)
      ∙ ap some (until_quote-append (escape_string user_html) page_end h),
  sandbox_value escape_string user_html o.allow_scripts o.allow_forms,
  no_same_origin o.allow_scripts o.allow_forms,
)
