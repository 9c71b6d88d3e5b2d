-- ===== src/Migration/Tables.antt =====
-- The tables that the migrations of migration/src create, with their columns at that time.
use registry_api_contract.Prelude.{String, Bool, true, false, Option, none, some, [], ◌∷◌}
use registry_api_contract.Migration.Schema.{
  Kind, uuid, string, timestamp, big_integer, integer, boolean, vector, Column, Table,
}

abbrev pub column : String → Kind → Bool → Option String → Column
column name kind not_null default_value = record {
  name = name;
  kind = kind;
  not_null = not_null;
  default_value = default_value;
}

abbrev pub org_table : Table
org_table = record {
  name = "org";
  columns =
      column "id" uuid true none
      ∷ column "slug" string true none
      ∷ column "created_at" timestamp true none
      ∷ [];
  keys = ("id" ∷ []) ∷ ("slug" ∷ []) ∷ [];
}

abbrev pub token_table : Table
token_table = record {
  name = "token";
  columns =
      column "id" uuid true none
      ∷ column "name" string true none
      ∷ column "token_hash" string true none
      ∷ column "org_id" uuid false none
      ∷ column "created_at" timestamp true none
      ∷ [];
  keys = ("id" ∷ []) ∷ ("token_hash" ∷ []) ∷ [];
}

abbrev pub package_table : Table
package_table = record {
  name = "package";
  columns =
      column "id" uuid true none
      ∷ column "org_id" uuid true none
      ∷ column "name" string true none
      ∷ column "description" string false none
      ∷ column "vcs" string true none
      ∷ column "repo_url" string true none
      ∷ column "created_at" timestamp true none
      ∷ [];
  keys = ("id" ∷ []) ∷ [];
}

abbrev pub version_table : Table
version_table = record {
  name = "version";
  columns =
      column "id" uuid true none
      ∷ column "package_id" uuid true none
      ∷ column "version" string true none
      ∷ column "sha256" string true none
      ∷ column "size" big_integer true none
      ∷ column "format" string true none
      ∷ column "vcs_tag" string true none
      ∷ column "vcs_commit" string false none
      ∷ column "artifact_key" string true none
      ∷ column "yanked" boolean true (some "false")
      ∷ column "published_at" timestamp true none
      ∷ [];
  keys = ("id" ∷ []) ∷ [];
}

abbrev pub audit_log_table : Table
audit_log_table = record {
  name = "audit_log";
  columns =
      column "id" uuid true none
      ∷ column "org_id" uuid true none
      ∷ column "at" timestamp true none
      ∷ column "action" string true none
      ∷ column "subject" string true none
      ∷ column "actor_token_id" uuid false none
      ∷ column "actor_token_name" string true none
      ∷ column "actor_role" string true none
      ∷ column "detail" string false none
      ∷ [];
  keys = ("id" ∷ []) ∷ [];
}

abbrev pub package_embedding_table : Table
package_embedding_table = record {
  name = "package_embedding";
  columns =
      column "id" uuid true (some "gen_random_uuid()")
      ∷ column "package_id" uuid true none
      ∷ column "embedding_model" string true none
      ∷ column "native_dimensions" integer true none
      ∷ column "embedding" vector true none
      ∷ column "content" string true none
      ∷ column "content_sha256" string true none
      ∷ column "created_at" timestamp true (some "now()")
      ∷ [];
  keys = ("id" ∷ []) ∷ [];
}
