-- ===== src/Email/Shell.antt =====
-- src/modules/email/email.templates.ts: the shell around the body of an email.
use crm_media.Base.{[], ◌∷◌, Option, none, some, Text, codes}
use crm_media.Dlq.{truthy}
use crm_media.Email.Pieces.{quoted, value, template, brand, escape_html}

unfoldable pub render_brand_header : Text
render_brand_header = template (
    quoted "<table role=\"presentation\" cellspacing=\"0\" cellpadding=\"0\" "
    ∷ quoted "style=\"margin-bottom:22px;\"><tr><td style=\"vertical-align:middle; "
    ∷ quoted "padding-right:12px;\"><table role=\"presentation\" cellspacing=\"0\" "
    ∷ quoted "cellpadding=\"0\"><tr><td style=\"width:34px; height:34px; "
    ∷ quoted "background-color:"
    ∷ value brand.primary
    ∷ quoted "; border-radius:8px; text-align:center; "
    ∷ quoted "vertical-align:middle;\"><span style=\"font-family:"
    ∷ value brand.font_family
    ∷ quoted "; font-size:19px; font-weight:900; color:#ffffff; "
    ∷ quoted
        "line-height:34px;\">C</span></td></tr></table></td><td style=\"vertical-align:middle;\"><div style=\"font-family:"
    ∷ value brand.font_family
    ∷ quoted "; font-size:18px; font-weight:900; letter-spacing:0.04em; color:"
    ∷ value brand.ink
    ∷ quoted "; text-transform:uppercase; line-height:1.1;\">CIMA<span style=\"color:"
    ∷ value brand.primary
    ∷ quoted "; font-weight:900;\">XIS</span></div><div style=\"font-family:"
    ∷ value brand.font_family
    ∷ quoted "; font-size:9px; font-weight:700; letter-spacing:0.12em; color:"
    ∷ value brand.subtle_ink
    ∷ quoted "; text-transform:uppercase; "
    ∷ quoted "margin-top:2px;\">Centro de Innovación</div></td></tr></table>"
    ∷ [])

pub record ShellParams : Type 0 where
  pub preview : Text
  pub eyebrow_html : Text
  pub title_html : Text
  pub intro : Text
  pub body_html : Text
  pub outro : Option Text

unfoldable pub footer_of : Option Text → Text
footer_of none =
    codes
      "Este correo fue generado automáticamente por CIMA CRM. Si no reconoces esta acción, ignora este mensaje."
footer_of (some outro) = escape_html outro

unfoldable pub render_email_shell : ShellParams → Text
render_email_shell params =
    let footer_note = footer_of (truthy params.outro) in
    template (
      quoted "<!doctype html>\n<html lang=\"es\">\n  <head>\n    <meta charset=\"UTF-8\" "
      ∷ quoted "/>\n    <meta name=\"viewport\" "
      ∷ quoted "content=\"width=device-width, initial-scale=1.0\" />\n"
      ∷ quoted "    <link rel=\"preconnect\" href=\"https://fonts.googleapis.com\">\n"
      ∷ quoted "    <link rel=\"preconnect\" href=\"https://fonts.gstatic.com\" "
      ∷ quoted "crossorigin>\n"
      ∷ quoted
          "    <link href=\"https://fonts.googleapis.com/css2?family=Montserrat:wght@400;500;600;700;800;900&display=swap\" "
      ∷ quoted "rel=\"stylesheet\">\n    <title>CIMA CRM</title>\n  </head>\n"
      ∷ quoted "  <body style=\"margin:0; padding:24px 12px; background-color:"
      ∷ value brand.bg
      ∷ quoted "; font-family:"
      ∷ value brand.font_family
      ∷ quoted ";\">\n    <div style=\"display:none; max-height:0; overflow:hidden; "
      ∷ quoted "opacity:0; mso-hide:all;\">"
      ∷ value (escape_html params.preview)
      ∷ quoted "</div>\n    <table role=\"presentation\" cellspacing=\"0\" cellpadding=\"0\" "
      ∷ quoted "width=\"100%\" style=\"max-width:600px; margin:0 auto;\">\n      <tr>\n"
      ∷ quoted "        <td style=\"background-color:"
      ∷ value brand.card
      ∷ quoted "; border:1px solid "
      ∷ value brand.border
      ∷ quoted "; border-top:4px solid "
      ∷ value brand.primary
      ∷ quoted "; border-radius:14px; padding:28px 26px; "
      ∷ quoted "box-shadow:0 4px 14px rgba(40,40,41,0.05);\">\n          "
      ∷ value render_brand_header
      ∷ quoted "\n          <div style=\"border-bottom:1px solid "
      ∷ value brand.border
      ∷ quoted "; padding-bottom:18px; margin-bottom:20px;\">\n"
      ∷ quoted "            <p style=\"margin:0 0 6px 0; font-family:"
      ∷ value brand.font_family
      ∷ quoted "; font-size:12px; font-weight:600; letter-spacing:0.06em; "
      ∷ quoted "text-transform:uppercase; color:"
      ∷ value brand.muted_ink
      ∷ quoted ";\">\n              "
      ∷ value params.eyebrow_html
      ∷ quoted "\n            </p>\n            <h1 style=\"margin:0 0 8px 0; "
      ∷ quoted "font-family:"
      ∷ value brand.font_family
      ∷ quoted "; font-size:24px; line-height:1.25; font-weight:500; color:"
      ∷ value brand.muted_ink
      ∷ quoted "; letter-spacing:-0.01em;\">\n              "
      ∷ value params.title_html
      ∷ quoted "\n            </h1>\n            <p style=\"margin:0; font-family:"
      ∷ value brand.font_family
      ∷ quoted "; font-size:14px; line-height:1.6; color:"
      ∷ value brand.muted_ink
      ∷ quoted ";\">\n              "
      ∷ value (escape_html params.intro)
      ∷ quoted "\n            </p>\n          </div>\n          "
      ∷ value params.body_html
      ∷ quoted "\n          <hr style=\"margin:26px 0 18px 0; border:none; "
      ∷ quoted "border-top:1px solid "
      ∷ value brand.border
      ∷ quoted ";\" />\n          <p style=\"margin:0 0 8px 0; color:"
      ∷ value brand.muted_ink
      ∷ quoted "; font-family:"
      ∷ value brand.font_family
      ∷ quoted "; font-size:12px; line-height:1.5;\">"
      ∷ value footer_note
      ∷ quoted "</p>\n          <p style=\"margin:0; color:"
      ∷ value brand.subtle_ink
      ∷ quoted "; font-family:"
      ∷ value brand.font_family
      ∷ quoted "; font-size:11px; font-weight:700; text-transform:uppercase; "
      ∷ quoted "letter-spacing:0.04em;\">"
      ∷ value brand.brand_name
      ∷ quoted " • "
      ∷ value brand.app_name
      ∷ quoted "</p>\n        </td>\n      </tr>\n    </table>\n  </body>\n</html>"
      ∷ [])
