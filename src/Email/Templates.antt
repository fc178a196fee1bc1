-- ===== src/Email/Templates.antt =====
-- src/modules/email/email.templates.ts: the emails of the system. `encodeURIComponent` and
-- `toUpperCase` are parameters.
use crm_media.Base.{[], ◌∷◌, ◌++◌, ◌==◌, none, Text, codes, if◌then◌else◌}
use crm_media.Email.Pieces.{
  quoted, value, template, brand, data_badge, action_button, safe_link, warning, neutral, info_card,
}
use crm_media.Email.Shell.{render_email_shell}

pub record RenderedEmail : Type 0 where
  pub subject : Text
  pub text : Text
  pub html : Text

pub data SystemTemplateName : Type 0 where
  password_reset client_invite worker_invite admin_invite email_verify : SystemTemplateName

unfoldable pub render_password_reset : Text → Text → RenderedEmail
render_password_reset to link = record {
  subject = codes "Recuperación de contraseña - CIMA CRM";
  text = template (
      quoted "Solicitud de recuperación de contraseña\n\nCorreo asociado: "
      ∷ value to
      ∷ quoted "\nUsa este enlace para restablecer tu contraseña:\n"
      ∷ value link
      ∷ quoted "\n\nSi no solicitaste este cambio, ignora este mensaje."
      ∷ []);
  html = render_email_shell (record {
    preview = codes "Recupera el acceso a tu cuenta en CIMA CRM.";
    eyebrow_html = template (
        quoted "Seguridad y <span style=\"font-weight:900; color:"
        ∷ value brand.primary
        ∷ quoted ";\">Acceso</span>"
        ∷ []);
    title_html = template (
        quoted "Restablece tu <span style=\"font-weight:900; color:"
        ∷ value brand.ink
        ∷ quoted ";\">Contraseña</span>"
        ∷ []);
    intro =
        codes
          "Recibimos una solicitud para restablecer tu contraseña. Este enlace expira en 1 hora.";
    body_html =
        data_badge (codes "Cuenta") to
        ++ (action_button link (codes "Restablecer contraseña")
            ++ (safe_link link
                ++ info_card (codes "¿No reconoces esta solicitud?")
                    (codes
                      "Puedes ignorar este correo. Tu contraseña actual seguirá activa mientras no uses este enlace.")
                    warning));
    outro = none;
  });
}

unfoldable pub render_invite : (Text → Text) → Text → Text → Text → RenderedEmail
render_invite to_upper_case to link role_name = record {
  subject = template (quoted "Invitación a CIMA CRM (" ∷ value role_name ∷ quoted ")" ∷ []);
  text = template (
      quoted "Invitación a CIMA CRM\n\nCorreo invitado: "
      ∷ value to
      ∷ quoted "\nCompleta tu registro desde este enlace:\n"
      ∷ value link
      ∷ quoted "\n\nEl enlace solo debe usarse por el titular de este correo."
      ∷ []);
  html = render_email_shell (record {
    preview = codes "Activa tu cuenta y comienza en CIMA CRM.";
    eyebrow_html = template (
        quoted "Invitación de <span style=\"font-weight:900; color:"
        ∷ value brand.primary
        ∷ quoted ";\">Equipo</span>"
        ∷ []);
    title_html = template (
        quoted "Bienvenido a <span style=\"font-weight:900; color:"
        ∷ value brand.ink
        ∷ quoted ";\">CIMA<span style=\"color:"
        ∷ value brand.primary
        ∷ quoted ";\">XIS</span></span>"
        ∷ []);
    intro = template (
        quoted "Has sido invitado a formar parte de CIMA CRM con perfil de "
        ∷ value role_name
        ∷ quoted ". Completa tu activación para ingresar."
        ∷ []);
    body_html =
        data_badge (codes "Rol asignado") (to_upper_case role_name)
        ++ (data_badge (codes "Correo invitado") to
            ++ (action_button link (codes "Completar registro")
                ++ (safe_link link
                    ++ info_card (codes "Acceso institucional")
                        (codes
                          "Este enlace crea una credencial personal asociada exclusivamente a esta dirección de correo.")
                        neutral)));
    outro = none;
  });
}

unfoldable pub render_verify_email : Text → RenderedEmail
render_verify_email link = record {
  subject = codes "Verifica tu correo - CIMA CRM";
  text = template (
      quoted "Verificación de correo\n\n"
      ∷ quoted "Confirma tu dirección de correo con este enlace (válido por 48 horas):\n"
      ∷ value link
      ∷ quoted "\n\nSi no realizaste esta solicitud, ignora este mensaje."
      ∷ []);
  html = render_email_shell (record {
    preview = codes "Confirma tu correo y completa tu activación.";
    eyebrow_html = template (
        quoted "Verificación de <span style=\"font-weight:900; color:"
        ∷ value brand.primary
        ∷ quoted ";\">Identidad</span>"
        ∷ []);
    title_html = template (
        quoted "Confirma tu <span style=\"font-weight:900; color:"
        ∷ value brand.ink
        ∷ quoted ";\">Correo</span>"
        ∷ []);
    intro =
        codes
          "Para completar la activación de tu cuenta, valida que esta dirección de correo electrónico te pertenece.";
    body_html =
        action_button link (codes "Verificar correo")
        ++ (safe_link link
            ++ info_card (codes "Vigencia del enlace")
                (codes
                  "Este enlace expira en 48 horas. Si vence, podrás solicitar uno nuevo desde el portal de inicio.")
                warning);
    outro = none;
  });
}

-- `replace(/\/$/, "")`
unfoldable pub drop_slash : Text → Text
drop_slash [] = []
drop_slash (c ∷ []) = if c == b'/' then [] else c ∷ []
drop_slash (c ∷ d ∷ s) = c ∷ drop_slash (d ∷ s)

module _ (encode_uri_component to_upper_case : Text → Text) where
  unfoldable pub render_system_template : SystemTemplateName → Text → Text → Text → RenderedEmail
  render_system_template password_reset token target_email default_public_url =
      render_password_reset target_email (
        drop_slash default_public_url
        ++ (codes "/reset-password?token=" ++ encode_uri_component token))
  render_system_template client_invite token target_email default_public_url =
      render_invite to_upper_case target_email
        (drop_slash default_public_url ++ (codes "/accept-invite/" ++ encode_uri_component token))
        (codes "cliente")
  render_system_template worker_invite token target_email default_public_url =
      render_invite to_upper_case target_email
        (drop_slash default_public_url ++ (codes "/accept-invite/" ++ encode_uri_component token))
        (codes "colaborador")
  render_system_template admin_invite token target_email default_public_url =
      render_invite to_upper_case target_email
        (drop_slash default_public_url ++ (codes "/accept-invite/" ++ encode_uri_component token))
        (codes "administrador")
  render_system_template email_verify token target_email default_public_url = render_verify_email (
      drop_slash default_public_url ++ (codes "/verify-email?token=" ++ encode_uri_component token))
