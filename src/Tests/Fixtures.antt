-- ===== src/Tests/Fixtures.antt =====
-- A small registry for the tests: src/state.rs with an organisation, its owner's token and a package.
use registry_api_contract.Prelude.{
  String, ◌<>◌, Bool, true, false, none, some, [], ◌∷◌, ◌==◌, nat_eq, length, not, if◌then◌else◌,
}
use registry_api_contract.Db.{Org, Token, Package, Version, array}
use registry_api_contract.Text.{codes, same_text}
use registry_api_contract.Audit.{Hasher}
use registry_api_contract.Audit.Record.{AuditAction, Attempt}
use registry_api_contract.Storage.{External, memory}
use registry_api_contract.Verify.{off, RefResponse}
use registry_api_contract.State.{
  World, AppState, Dependencies, Outside, upsert, insert_version, insert_org,
}
use registry_api_contract.Auth.{Authorization}
use registry_api_contract.Routes.Payload.{
  Manifest, PublishMeta, PublishRequest, PublishResponse, meta_field, artifact_field,
}

abbrev pub hasher : Hasher
hasher = record {
  preimage = λ i. i.org_id <> i.subject <> i.prev_hash;
  sha256_hex = λ s. if s == "" then "0" else s;
  uuid_text = λ id. "u";
  rfc3339 = λ t. "t";
}

abbrev pub action_text : AuditAction → String
action_text AuditAction.publish = "publish"
action_text AuditAction.yank = "yank"
action_text AuditAction.unyank = "unyank"
action_text AuditAction.org_claim = "org_claim"

abbrev pub external : External
external = record {
  write = λ k v m. some m;
  size = λ k m. some 3;
  read = λ k m. some (1 ∷ 2 ∷ 3 ∷ []);
  presign = λ k. some k;
}

abbrev pub dependencies : Dependencies
dependencies = record {
  sha256_text =
      λ t. if same_text t (codes "secret") then "digest-of-secret" else "digest-of-another";
  sha256_bytes = λ b. if nat_eq (length b) 3 then "abc" else "def";
  is_slug = λ t. not (t == "");
  uses_git_tags = λ v. v == "git";
  get_ref = λ owner repo tag. RefResponse.not_found;
  hasher = hasher;
  action_text = action_text;
  external = external;
}

abbrev pub settings : AppState
settings = record {
  policy = off;
  max_orgs_per_token = 2;
  is_postgres = true;
  auth_disabled_var = none;
}

abbrev pub attempt : Attempt
attempt = record {
  is_postgres = true;
  begin_fails = false;
  lock_fails = false;
  tip_fails = false;
  insert_fails = false;
  commit_fails = false;
  race = λ rows. rows;
  now = 1_234_567_891;
  id = 50;
}

abbrev pub calm : Outside
calm = record {
  fails = λ c. false;
  uuid = λ c. elim c [ upsert ↦ 20 | insert_version ↦ 30 | insert_org ↦ 40 | _ ↦ 0 ];
  now = 1000;
  race = λ db. db;
  attempts = λ i. attempt;
}

abbrev pub acme : Org
acme = record { id = 10; slug = "acme"; created_at = 1; created_by_token = some 1 }

abbrev pub owner_token : Token
owner_token = record {
  id = 1;
  name = "ci";
  token_hash = "digest-of-secret";
  org_id = some 10;
  role = "owner";
  created_at = 1;
  expires_at = some 2000;
  revoked_at = none;
}

abbrev pub kit : Package
kit = record {
  id = 15;
  org_id = 10;
  name = "kit";
  description = none;
  vcs = "git";
  repo_url = "https://github.com/acme/kit";
  version_scheme = "semver";
  tags = array [];
  created_at = 5;
}

abbrev pub kit_one : Version
kit_one = record {
  id = 25;
  package_id = 15;
  version = "1.0.0";
  sha256 = "abc";
  size = 3;
  format = "zip";
  vcs_tag = "v1.0.0";
  vcs_commit = none;
  artifact_key = "artifacts/abc.zip";
  yanked = false;
  published_at = 6;
}

abbrev pub world : World
world = record {
  database = record {
    orgs = acme ∷ [];
    tokens = owner_token ∷ [];
    packages = kit ∷ [];
    versions = kit_one ∷ [];
    audit_log = [];
    embeddings = [];
  };
  store = memory [] 1000;
}

abbrev pub credential : Authorization
credential = some (some (codes "Bearer secret"))

abbrev pub manifest : Manifest
manifest = record {
  org = "acme";
  name = "kit";
  version = "1.1.0";
  description = some "a kit";
  vcs = "git";
  repo_url = "https://github.com/acme/kit";
  version_scheme = "semver";
  keywords = "http" ∷ [];
}

abbrev pub meta : PublishMeta
meta = record {
  manifest = manifest;
  sha256 = "abc";
  vcs_tag = "v1.1.0";
  vcs_commit = none;
  extension = "tar.gz";
}

abbrev pub valid_manifest : Manifest → Bool
valid_manifest m = not (m.name == "")

abbrev pub release : PublishRequest
release = record {
  org = "acme";
  name = "kit";
  version = "1.1.0";
  authorization = credential;
  body = meta_field (some meta) ∷ artifact_field (some (7 ∷ 8 ∷ 9 ∷ [])) ∷ [];
}

abbrev pub released : PublishResponse
released = record { org = "acme"; name = "kit"; version = "1.1.0"; sha256 = "abc" }

-- The same request for a version that is there.
abbrev pub again : PublishRequest
again = record release {
  version = "1.0.0";
  body =
      meta_field (some (record meta { manifest = record manifest { version = "1.0.0" } }))
      ∷ artifact_field (some (7 ∷ 8 ∷ 9 ∷ []))
      ∷ [];
}
