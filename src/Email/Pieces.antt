-- ===== src/Email/Pieces.antt =====
-- src/modules/email/email.templates.ts: the pieces of an email. A template literal is the list of its
-- quoted parts and values.
use crm_media.Base.{ℕ, List, [], ◌∷◌, ◌++◌, String, Text, codes, ◌==◌, if◌then◌else◌}

pub data Part : Type 0 where
  quoted : String → Part
  value : Text → Part

unfoldable pub template : List Part → Text
template [] = []
template (quoted s ∷ parts) = codes s ++ template parts
template (value t ∷ parts) = t ++ template parts

pub record Brand : Type 0 where
  pub app_name : Text
  pub brand_name : Text
  pub font_family : Text
  pub primary : Text
  pub primary_dark : Text
  pub ink : Text
  pub muted_ink : Text
  pub subtle_ink : Text
  pub border : Text
  pub bg : Text
  pub card : Text
  pub soft_red_bg : Text
  pub soft_red_border : Text

unfoldable pub brand : Brand
brand = record {
  app_name = codes "CIMA CRM";
  brand_name = codes "CIMAXIS";
  font_family =
      codes
        "'Montserrat', -apple-system, BlinkMacSystemFont, 'Segoe UI', Roboto, Helvetica, Arial, sans-serif";
  primary = codes "#86070c";
  primary_dark = codes "#680609";
  ink = codes "#282829";
  muted_ink = codes "#626267";
  subtle_ink = codes "#98989c";
  border = codes "#dededf";
  bg = codes "#f7f7f7";
  card = codes "#ffffff";
  soft_red_bg = codes "#fdf2f2";
  soft_red_border = codes "#f3d9da";
}

-- `val.replace(/c/g, by)` for one character.
unfoldable pub replace_all : ℕ → Text → Text → Text
replace_all c by [] = []
replace_all c by (d ∷ s) = let rest = replace_all c by s in if d == c then by ++ rest else d ∷ rest

unfoldable pub escape_html : Text → Text
escape_html val = replace_all b'"' (codes "&quot;") (
    replace_all b'>' (codes "&gt;")
      (replace_all b'<' (codes "&lt;") (replace_all b'&' (codes "&amp;") val)))

unfoldable pub paragraph : Text → Text
paragraph txt = template (
    quoted "<p style=\"margin:0 0 16px 0; color:"
    ∷ value brand.ink
    ∷ quoted "; font-family:"
    ∷ value brand.font_family
    ∷ quoted "; font-size:15px; line-height:1.6;\">"
    ∷ value txt
    ∷ quoted "</p>"
    ∷ [])

unfoldable pub data_badge : Text → Text → Text
data_badge label val = template (
    quoted "<table role=\"presentation\" cellspacing=\"0\" cellpadding=\"0\" "
    ∷ quoted "style=\"margin:0 0 16px 0; "
    ∷ quoted "width:100%;\"><tr><td style=\"padding:10px 14px; background-color:"
    ∷ value brand.bg
    ∷ quoted "; border:1px solid "
    ∷ value brand.border
    ∷ quoted "; border-radius:8px;\"><span style=\"font-family:"
    ∷ value brand.font_family
    ∷ quoted "; font-size:11px; font-weight:700; text-transform:uppercase; "
    ∷ quoted "letter-spacing:0.05em; color:"
    ∷ value brand.subtle_ink
    ∷ quoted ";\">"
    ∷ value (escape_html label)
    ∷ quoted ":</span> <span style=\"font-family:"
    ∷ value brand.font_family
    ∷ quoted "; font-size:13px; font-weight:700; color:"
    ∷ value brand.ink
    ∷ quoted "; margin-left:6px;\">"
    ∷ value (escape_html val)
    ∷ quoted "</span></td></tr></table>"
    ∷ [])

unfoldable pub action_button : Text → Text → Text
action_button href label = template (
    quoted "<table role=\"presentation\" cellspacing=\"0\" cellpadding=\"0\" "
    ∷ quoted "style=\"margin:22px 0 14px 0;\"><tr><td align=\"center\" "
    ∷ quoted "style=\"border-radius:8px; background-color:"
    ∷ value brand.primary
    ∷ quoted ";\"><a href=\""
    ∷ value href
    ∷ quoted "\" target=\"_blank\" style=\"display:inline-block; padding:13px 26px; "
    ∷ quoted "font-family:"
    ∷ value brand.font_family
    ∷ quoted "; font-size:14px; font-weight:700; color:#ffffff; "
    ∷ quoted "text-decoration:none; letter-spacing:0.02em; border-radius:8px;\">"
    ∷ value (escape_html label)
    ∷ quoted " &rarr;</a></td></tr></table>"
    ∷ [])

unfoldable pub safe_link : Text → Text
safe_link href = template (
    quoted "<div style=\"margin-top:14px; padding:12px 14px; border-radius:8px; "
    ∷ quoted "border:1px solid "
    ∷ value brand.border
    ∷ quoted "; background-color:"
    ∷ value brand.bg
    ∷ quoted "; color:"
    ∷ value brand.muted_ink
    ∷ quoted "; font-family:"
    ∷ value brand.font_family
    ∷ quoted "; font-size:12px; "
    ∷ quoted
        "line-height:1.5;\">Si el botón no funciona, copia este enlace en tu navegador:<br /><a href=\""
    ∷ value href
    ∷ quoted "\" style=\"color:"
    ∷ value brand.primary
    ∷ quoted "; text-decoration:underline; word-break:break-all; "
    ∷ quoted "font-family:ui-monospace,SFMono-Regular,Menlo,monospace; "
    ∷ quoted "font-size:11px;\">"
    ∷ value href
    ∷ quoted "</a></div>"
    ∷ [])

pub data Tone : Type 0 where
  warning neutral : Tone

abbrev pub toned : Tone → Text → Text → Text
toned warning a b = a
toned neutral a b = b

unfoldable pub info_card : Text → Text → Tone → Text
info_card title body tone =
    let bg = toned tone brand.soft_red_bg brand.bg in
    let border = toned tone brand.soft_red_border brand.border in
    let accent_bar = toned tone brand.primary brand.subtle_ink in
    template (
      quoted "<div style=\"margin:18px 0 0 0; padding:14px 16px; border-radius:8px; "
      ∷ quoted "border:1px solid "
      ∷ value border
      ∷ quoted "; background-color:"
      ∷ value bg
      ∷ quoted "; border-left:4px solid "
      ∷ value accent_bar
      ∷ quoted ";\"><p style=\"margin:0 0 5px 0; color:"
      ∷ value brand.ink
      ∷ quoted "; font-family:"
      ∷ value brand.font_family
      ∷ quoted "; font-size:13px; font-weight:700;\">"
      ∷ value (escape_html title)
      ∷ quoted "</p><p style=\"margin:0; color:"
      ∷ value brand.muted_ink
      ∷ quoted "; font-family:"
      ∷ value brand.font_family
      ∷ quoted "; font-size:13px; line-height:1.5;\">"
      ∷ value (escape_html body)
      ∷ quoted "</p></div>"
      ∷ [])
