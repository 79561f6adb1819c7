-- ===== src/Api/Organizations.antt =====
-- The endpoint that renames an organisation (`update_org` of backend/geolytics/api/routes/orgs.py).
pub mod Addresses
pub mod History
use geolytics.Prelude.{
  ℕ, Bool, true, false, not, ◌&&◌, Option, none, some, if◌then◌else◌, ◌==◌, eq_ℕ, update_first,
  List, ◌∷◌, [],
}
use geolytics.Prelude.Text.{Text, text_eq, strip}
use geolytics.Models.{Organization}
use geolytics.Tenancy.Principal.{Principal}
use geolytics.Api.Result.{Result, ok, http, ◌>>=◌, ◌>>◌, refuse_if, Db}
use geolytics.Api.Deps.{load_org, require_role}
use geolytics.Api.Members.{log_action}
use geolytics.Api.Slugs.{is_taken}

pub record OrganizationUpdate : Type 0 where
  pub name : Option Text
  pub slug : Option Text

abbrev pub renamed : Option Text → Organization → Organization
renamed none o = o
renamed (some name) o = record o { name = strip name }

abbrev pub moved : Option Text → Organization → Organization
moved none o = o
moved (some slug) o = if text_eq slug o.slug then o else record o { slug = slug }

-- Whether another slug is asked for, which some organisation has.
abbrev pub clashes : Option Text → Organization → List Organization → Bool
clashes none o orgs = false
clashes (some slug) o orgs = not (text_eq slug o.slug) && is_taken orgs slug

-- `update_org`.
unfoldable pub update_org : OrganizationUpdate → Principal → Db → Result Db
unfolding log_action
update_org r principal db = do
  org ← load_org db principal.org_id
  caller ← require_role ("owner" ∷ "admin" ∷ []) principal
  refuse_if (clashes r.slug org db.orgs) 409
  ok (
      log_action "org.updated" org.id caller (record db {
        orgs = update_first (λ o. o.id == org.id) (λ o. moved r.slug (renamed r.name o)) db.orgs;
      }))
