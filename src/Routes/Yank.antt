-- ===== src/Routes/Yank.antt =====
-- src/routes/yank.rs: the yank state of a published version.
pub mod Flip
use registry_api_contract.Prelude.{
  ℕ, String, ◌<>◌, Bool, true, false, Option, none, some, List, [], ◌∷◌, nat_eq, map, find,
  if◌then◌else◌,
}
use registry_api_contract.Error.{ApiErr, ApiResult, ok, err, ok_or, not_found, internal}
use registry_api_contract.Db.{Uuid, Org, Token, Package, Version}
use registry_api_contract.Rbac.{parse, authorize_publish}
use registry_api_contract.Audit.Record.{AuditAction, Event, record_event}
use registry_api_contract.State.{
  Database, World, AppState, Dependencies, Outside, Handler, answer, ◌>>=◌, lift, query,
  find_version, update_version,
}
use registry_api_contract.Auth.{Authorization, require_token}
use registry_api_contract.Routes.{audit, org_of, package_of, is_version}

-- The path and the body of a request.
pub record YankRequest : Type 0 where
  pub org : String
  pub name : String
  pub version : String
  pub authorization : Authorization
  pub yanked : Bool

pub record YankResponse : Type 0 where
  pub org : String
  pub name : String
  pub version : String
  pub yanked : Bool

-- `UPDATE … SET yanked WHERE id`
abbrev pub set_yanked : Uuid → Bool → Version → Version
set_yanked id yanked v = if nat_eq v.id id then record v { yanked = yanked } else v

module _ (d : Dependencies) (s : AppState) (o : Outside) where
  unfoldable pub version_of : Package → String → Handler Version
  version_of pkg ver =
      query (o.fails find_version) (λ db. find (is_version pkg.id ver) db.versions) >>= λ row.
      lift (ok_or row not_found)

  abbrev pub updated : Bool → Version → Bool → Handler (Unit {0})
  updated true row yanked w = (err internal, w)
  updated false row yanked w = (
    ok tt,
    record w {
      database = record w.database {
        versions = map (set_yanked row.id yanked) w.database.versions;
      };
    },
  )

  -- What follows the update.
  unfoldable pub acknowledge_yank : Org → Token → YankRequest → Handler YankResponse
  acknowledge_yank org token r = do
    audited ← audit d o (record {
      org_id = org.id;
      token = token;
      action = if r.yanked then AuditAction.yank else AuditAction.unyank;
      subject = r.org <> "/" <> r.name <> "@" <> r.version;
      detail = none;
    })
    answer (record { org = r.org; name = r.name; version = r.version; yanked = r.yanked })

  unfoldable pub yank : YankRequest → Handler YankResponse
  unfolding require_token org_of package_of authorize_publish version_of acknowledge_yank
  yank r = do
    token ← require_token d s o r.authorization
    org ← org_of o r.org
    authorized ← lift (authorize_publish token.org_id (parse token.role) org.id)
    pkg ← package_of o org r.name
    row ← version_of pkg r.version
    flipped ← updated (o.fails update_version) row r.yanked
    acknowledge_yank org token r
