-- ===== src/Examples/Flows.antt =====
-- The theorems on scans, uploads and documents at concrete inputs.
use crm_media.Base.{
  ◌≤◌, ◌≡◌, refl, true, false, List, [], ◌∷◌, Option, none, some, Text, codes, text_eq, arith,
}
use crm_media.Effects.Defs.{
  Event, slept, Trace, ok, ◌>>=◌, return, throw, reject_if, emit, done_or_throw, value_or_throw,
}
use crm_media.Effects.Triple.{Post, Anything}
use crm_media.Storage.{
  get_namespace, read_namespace, has_namespace, create_par, access_uri, create_private_document_url,
}
use crm_media.Antivirus.{scan_buffer_for_virus}
use crm_media.Antivirus.Scans.{active_scans, scan_buffer-active_scans}
use crm_media.Antivirus.Vetted.{AllVetted}
use crm_media.Media.Upload.Ends.{Clock, NeverExhausted}
use crm_media.Media.Documents.{
  confirm_document_upload, get_document_access_url, find_document, may_access, is_owner,
  anonymize_user_pii,
}
use crm_media.Media.Documents.Confirm.{
  IsRegistered, RowsIfAnswered, confirm_document_upload-inserted,
}
use crm_media.Media.Documents.Safe.{
  confirm_document_upload-AllVetted, confirm_document_upload-NeverExhausted,
}
use crm_media.Media.Documents.Access.{
  Issued, DeleteSpec, get_document_access_url-Entitled, delete_document-DeleteSpec,
}
use crm_media.Media.Documents.Erase.{IsErased, anonymize_user_pii-IsErased}
use crm_media.Media.Collab.{
  is_collab_key, resolve_metadata_for_collab_command, delete_document_for_collab_command,
}
use crm_media.Media.Collab.Resolve.{IsResolved, resolve_metadata_for_collab_command-IsResolved}
use crm_media.Media.Collab.Delete.{IsCleared, delete_document_for_collab_command-IsCleared}
use crm_media.Commands.{metadata_requested, MediaCommand}
use crm_media.Commands.Execute.{execute_command}
use crm_media.Commands.Execute.Safe.{execute_command-AllVetted, execute_command-NeverExhausted}
use crm_media.QuarantineScan.{Item, run_quarantine_scan}
use crm_media.QuarantineScan.Safe.{AddsUp, run_quarantine_scan-AddsUp}
use crm_media.Examples.{clinic, pdf, slept_time, own_key, own_asset, own_payload, ana, eve}

clinic-Clock : Clock clinic
clinic-Clock = record { monotone = later; sleeps = λ d t. omega arith }
  where
    later : (e : Event) (t : Trace) → slept_time t ≤ slept_time (e ∷ t)
    later (slept n) t = omega arith
    later _ t = omega arith

scan_buffer-active_scans_example :
    active_scans (scan_buffer_for_virus clinic pdf none (some (codes "a.pdf")) []).1 ≡ 0
scan_buffer-active_scans_example =
    scan_buffer-active_scans clinic pdf none (some (codes "a.pdf")) []

confirm_document_upload-inserted_example :
    Post
      (λ key t'. (key ≡ own_key) × IsRegistered clinic ana own_payload [] t')
      (RowsIfAnswered clinic ana own_payload [])
      (confirm_document_upload clinic ana own_payload [])
confirm_document_upload-inserted_example =
    confirm_document_upload-inserted clinic ana own_payload []

confirm_document_upload-AllVetted_example :
    AllVetted clinic (confirm_document_upload clinic ana own_payload []).1
confirm_document_upload-AllVetted_example =
    confirm_document_upload-AllVetted clinic ana own_payload [] tt

confirm_document_upload-NeverExhausted_example :
    NeverExhausted (confirm_document_upload clinic ana own_payload []).1
confirm_document_upload-NeverExhausted_example =
    confirm_document_upload-NeverExhausted clinic ana own_payload clinic-Clock [] tt

abbrev own_url : Text
own_url = codes "https://host/p/1"

own_access : (get_document_access_url clinic ana own_key false []).0 ≡ ok (own_url, 300)
unfolding get_document_access_url find_document may_access is_owner text_eq
    create_private_document_url get_namespace read_namespace has_namespace create_par access_uri
    ◌>>=◌ return throw reject_if emit value_or_throw done_or_throw
own_access = refl

get_document_access_url-Entitled_example :
    Post
      (Issued clinic ana own_key false [])
      (λ _. Anything)
      (get_document_access_url clinic ana own_key false [])
get_document_access_url-Entitled_example =
    get_document_access_url-Entitled clinic ana own_key false []

own_row : clinic.find_document [] own_key ≡ some (some (codes "1", own_asset))
unfolding text_eq
own_row = refl

eve-denied : may_access eve own_key (some (codes "1", own_asset)) ≡ false
unfolding may_access is_owner text_eq
eve-denied = refl

delete_document-DeleteSpec_example : DeleteSpec clinic ana own_key [] (some (codes "1", own_asset))
delete_document-DeleteSpec_example =
    delete_document-DeleteSpec clinic ana own_key [] (some (codes "1", own_asset)) own_row

anonymize_user_pii-IsErased_example :
    Post
      (λ _. IsErased clinic (codes "ana") ((codes "1", own_asset) ∷ []))
      (λ _. Anything)
      (anonymize_user_pii clinic (codes "ana") [])
anonymize_user_pii-IsErased_example =
    anonymize_user_pii-IsErased clinic (codes "ana") [] ((codes "1", own_asset) ∷ []) refl

abbrev project_key : Text
project_key = codes "projects/1/a.pdf"

resolve_metadata_for_collab_command-IsResolved_example :
    Post
      (IsResolved clinic project_key (codes "a.pdf") (codes "application/pdf") 6)
      (λ _. Anything)
      (resolve_metadata_for_collab_command clinic project_key
        (codes "a.pdf")
        (codes "application/pdf")
        6
        [])
resolve_metadata_for_collab_command-IsResolved_example =
    resolve_metadata_for_collab_command-IsResolved clinic project_key (codes "a.pdf")
      (codes "application/pdf") 6 []

no_row : clinic.find_document [] project_key ≡ some none
unfolding text_eq
no_row = refl

delete_document_for_collab_command-IsCleared_example :
    Post
      (λ _ t'. (is_collab_key project_key ≡ true) × IsCleared clinic project_key none t')
      (λ _. Anything)
      (delete_document_for_collab_command clinic project_key (some ana) [])
delete_document_for_collab_command-IsCleared_example =
    delete_document_for_collab_command-IsCleared clinic project_key (some ana) [] none no_row

abbrev resolve_command : MediaCommand
resolve_command = record {
  correlation_id = codes "c1";
  signature = codes "h.p.s";
  object_key = project_key;
  request = metadata_requested (codes "a.pdf") (codes "application/pdf") 6;
}

execute_command-AllVetted_example : AllVetted clinic (execute_command clinic resolve_command []).1
execute_command-AllVetted_example = execute_command-AllVetted clinic resolve_command [] tt

execute_command-NeverExhausted_example :
    NeverExhausted (execute_command clinic resolve_command []).1
execute_command-NeverExhausted_example =
    execute_command-NeverExhausted clinic resolve_command clinic-Clock [] tt

abbrev listed : List (Option (List Item))
listed =
    some (record { name = some (codes "quarantine/projects/1/a.pdf"); time_modified = none } ∷ [])
    ∷ []

run_quarantine_scan-AddsUp_example :
    Post
      (λ n t'. AddsUp n × AllVetted clinic t')
      (λ _. AllVetted clinic)
      (run_quarantine_scan clinic listed [])
run_quarantine_scan-AddsUp_example = run_quarantine_scan-AddsUp clinic listed [] tt
