-- ===== src/Email/Markup.antt =====
-- The markup of an email does not depend on the data that is put into it.
use crm_media.Base.{◌≡◌, [], ◌++◌, none, Option, Text, codes}
use crm_media.Email.Shell.{render_email_shell}
use crm_media.Email.Templates.{
  render_password_reset, render_invite, render_verify_email, SystemTemplateName, password_reset,
  client_invite, worker_invite, admin_invite, email_verify, drop_slash, render_system_template,
}
use crm_media.Email.Pieces.{data_badge, action_button, safe_link}
use crm_media.Email.Escape.{
  markup, template_markup, markup-append, markup-template, markup-escape_html,
}

data_badge-markup :
    (label val val' : Text) → markup (data_badge label val) ≡ markup (data_badge label val')
unfolding data_badge template_markup
data_badge-markup label val val' = simp (markup-template, markup-escape_html)

action_button-markup :
    (href href' label : Text)
    → markup href ≡ markup href'
    → markup (action_button href label) ≡ markup (action_button href' label)
unfolding action_button template_markup
action_button-markup href href' label e = simp (markup-template, markup-escape_html, e)

safe_link-markup :
    (href href' : Text)
    → markup href ≡ markup href'
    → markup (safe_link href) ≡ markup (safe_link href')
unfolding safe_link template_markup
safe_link-markup href href' e = simp (markup-template, e)

render_email_shell-markup :
    (preview eyebrow title intro body body' : Text) (outro : Option Text)
    → markup body ≡ markup body'
    → markup (
        render_email_shell (record {
          preview = preview;
          eyebrow_html = eyebrow;
          title_html = title;
          intro = intro;
          body_html = body;
          outro = outro;
        }))
      ≡ markup (
          render_email_shell (record {
            preview = preview;
            eyebrow_html = eyebrow;
            title_html = title;
            intro = intro;
            body_html = body';
            outro = outro;
          }))
unfolding render_email_shell template_markup
render_email_shell-markup preview eyebrow title intro body body' outro e = simp (markup-template, e)

module _ (to to' link link' : Text) (links : markup link ≡ markup link') where
  render_password_reset-markup :
      markup (render_password_reset to link).html ≡ markup (render_password_reset to' link').html
  unfolding render_password_reset
  render_password_reset-markup = render_email_shell-markup _ _ _ _ _ _ none (
      simp (
        markup-append,
        data_badge-markup _ to to',
        action_button-markup link link' _ links,
        safe_link-markup link link' links,
      ))

  render_invite-markup :
      (to_upper_case : Text → Text) (role_name : Text)
      → markup (render_invite to_upper_case to link role_name).html
        ≡ markup (render_invite to_upper_case to' link' role_name).html
  unfolding render_invite
  render_invite-markup to_upper_case role_name = render_email_shell-markup _ _ _ _ _ _ none (
      simp (
        markup-append,
        data_badge-markup _ to to',
        action_button-markup link link' _ links,
        safe_link-markup link link' links,
      ))

  render_verify_email-markup :
      markup (render_verify_email link).html ≡ markup (render_verify_email link').html
  unfolding render_verify_email
  render_verify_email-markup = render_email_shell-markup _ _ _ _ _ _ none (
      simp
        (markup-append, action_button-markup link link' _ links, safe_link-markup link link' links))

-- If `encodeURIComponent` gives no angle bracket and no double quote, the angle brackets and double
-- quotes of the HTML of an email are the same, in the same order, whatever the token and the address
-- are: neither opens a tag or leaves an attribute.
pub render_system_template-markup :
    (encode_uri_component to_upper_case : Text → Text)
    → ((s : Text) → markup (encode_uri_component s) ≡ [])
    → (name : SystemTemplateName) (token token' to to' url : Text)
    → markup (render_system_template encode_uri_component to_upper_case name token to url).html
      ≡ markup (render_system_template encode_uri_component to_upper_case name token' to' url).html
unfolding render_system_template
render_system_template-markup encode upper clean name token token' to to' url = go name
  where
    links :
        (path : Text)
        → markup (drop_slash url ++ (path ++ encode token))
          ≡ markup (drop_slash url ++ (path ++ encode token'))
    links path = simp (markup-append, clean)

    go :
        (name : SystemTemplateName)
        → markup (render_system_template encode upper name token to url).html
          ≡ markup (render_system_template encode upper name token' to' url).html
    go password_reset =
        render_password_reset-markup to to' _ _ (links (codes "/reset-password?token="))
    go client_invite =
        render_invite-markup to to' _ _ (links (codes "/accept-invite/")) upper (codes "cliente")
    go worker_invite =
        render_invite-markup to to' _ _ (links (codes "/accept-invite/")) upper
          (codes "colaborador")
    go admin_invite =
        render_invite-markup to to' _ _ (links (codes "/accept-invite/")) upper
          (codes "administrador")
    go email_verify = render_verify_email-markup to to' _ _ (links (codes "/verify-email?token="))
