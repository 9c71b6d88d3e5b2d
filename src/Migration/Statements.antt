-- ===== src/Migration/Statements.antt =====
-- The migrations of migration/src on Postgres, oldest first, as lists of statements. Extensions and the
-- methods of indexes are no part of a schema; the statement that numbers old audit rows is `backfill_legacy_seq`.
use registry_api_contract.Prelude.{true, false, none, some, List, [], ◌∷◌, ◌++◌}
use registry_api_contract.Migration.Schema.{
  uuid, string, timestamp, big_integer, jsonb, no_action, set_null, cascade, Ddl, create_table,
  drop_table, add_column, drop_column, create_index, drop_index, create_foreign_key,
  drop_foreign_key,
}
use registry_api_contract.Migration.Tables.{
  column, org_table, token_table, package_table, version_table, audit_log_table,
  package_embedding_table,
}

-- m20260723_000001_init
abbrev pub init_up : List Ddl
init_up =
    create_table org_table ([])
    ∷ create_table token_table (
        record {
          name = "fk_token_org";
          table = "token";
          column = "org_id";
          target = "org";
          on_delete = no_action;
        }
        ∷ [])
    ∷ create_table package_table (
        record {
          name = "fk_package_org";
          table = "package";
          column = "org_id";
          target = "org";
          on_delete = no_action;
        }
        ∷ [])
    ∷ create_index
        (record {
          name = "idx_package_org_name";
          table = "package";
          columns = "org_id" ∷ "name" ∷ [];
          unique = true;
        })
        false
    ∷ create_table version_table (
        record {
          name = "fk_version_package";
          table = "version";
          column = "package_id";
          target = "package";
          on_delete = no_action;
        }
        ∷ [])
    ∷ create_index
        (record {
          name = "idx_version_package_version";
          table = "version";
          columns = "package_id" ∷ "version" ∷ [];
          unique = true;
        })
        false
    ∷ create_index
        (record {
          name = "idx_version_sha256";
          table = "version";
          columns = "sha256" ∷ [];
          unique = false;
        })
        false
    ∷ []

abbrev pub init_down : List Ddl
init_down =
    drop_table "version" false
    ∷ drop_table "package" false
    ∷ drop_table "token" false
    ∷ drop_table "org" false
    ∷ []

-- m20260724_000002_version_scheme
abbrev pub version_scheme_up : List Ddl
version_scheme_up =
    add_column "package" (column "version_scheme" string true (some "semver")) false ∷ []

abbrev pub version_scheme_down : List Ddl
version_scheme_down = drop_column "package" "version_scheme" false ∷ []

-- m20260724_000003_org_created_by
abbrev pub org_created_by_up : List Ddl
org_created_by_up =
    add_column "org" (column "created_by_token" uuid false none) false
    ∷ create_foreign_key (record {
      name = "fk_org_created_by_token";
      table = "org";
      column = "created_by_token";
      target = "token";
      on_delete = set_null;
    })
    ∷ []

abbrev pub org_created_by_down : List Ddl
org_created_by_down =
    drop_foreign_key "fk_org_created_by_token" ∷ drop_column "org" "created_by_token" false ∷ []

-- m20260724_000004_token_role
abbrev pub token_role_up : List Ddl
token_role_up = add_column "token" (column "role" string true (some "owner")) false ∷ []

abbrev pub token_role_down : List Ddl
token_role_down = drop_column "token" "role" false ∷ []

-- m20260724_000005_token_lifecycle
abbrev pub token_lifecycle_up : List Ddl
token_lifecycle_up =
    add_column "token" (column "expires_at" timestamp false none) false
    ∷ add_column "token" (column "revoked_at" timestamp false none) false
    ∷ []

abbrev pub token_lifecycle_down : List Ddl
token_lifecycle_down =
    drop_column "token" "expires_at" false ∷ drop_column "token" "revoked_at" false ∷ []

-- m20260725_000006_audit_log
abbrev pub audit_log_up : List Ddl
audit_log_up =
    create_table audit_log_table (
      record {
        name = "fk_audit_log_org";
        table = "audit_log";
        column = "org_id";
        target = "org";
        on_delete = no_action;
      }
      ∷ [])
    ∷ create_index
        (record {
          name = "idx_audit_log_org_at";
          table = "audit_log";
          columns = "org_id" ∷ "at" ∷ [];
          unique = false;
        })
        false
    ∷ []

abbrev pub audit_log_down : List Ddl
audit_log_down = drop_table "audit_log" false ∷ []

-- m20260726_000007_embeddings_and_tags: `up_statements` and `down_statements`
abbrev pub embeddings_and_tags_up : List Ddl
embeddings_and_tags_up =
    add_column "package" (column "tags" jsonb true (some "[]")) true
    ∷ create_index
        (record {
          name = "package_tags_gin_idx";
          table = "package";
          columns = "tags" ∷ [];
          unique = false;
        })
        true
    ∷ create_index
        (record {
          name = "package_name_trgm_idx";
          table = "package";
          columns = "name" ∷ [];
          unique = false;
        })
        true
    ∷ create_index
        (record {
          name = "package_created_at_idx";
          table = "package";
          columns = "created_at" ∷ [];
          unique = false;
        })
        true
    ∷ create_table package_embedding_table (
        record {
          name = "package_embedding_package_id_fkey";
          table = "package_embedding";
          column = "package_id";
          target = "package";
          on_delete = cascade;
        }
        ∷ [])
    ∷ create_index
        (record {
          name = "package_embedding_pkg_model_uq";
          table = "package_embedding";
          columns = "package_id" ∷ "embedding_model" ∷ [];
          unique = true;
        })
        true
    ∷ create_index
        (record {
          name = "package_embedding_model_idx";
          table = "package_embedding";
          columns = "embedding_model" ∷ [];
          unique = false;
        })
        true
    ∷ create_index
        (record {
          name = "package_embedding_hnsw_idx";
          table = "package_embedding";
          columns = "embedding" ∷ [];
          unique = false;
        })
        true
    ∷ []

abbrev pub embeddings_and_tags_down : List Ddl
embeddings_and_tags_down =
    drop_table "package_embedding" true
    ∷ drop_index "package_tags_gin_idx" true
    ∷ drop_index "package_name_trgm_idx" true
    ∷ drop_index "package_created_at_idx" true
    ∷ drop_column "package" "tags" true
    ∷ []

-- m20260726_000008_audit_chain, whose `down` goes on when the index is not there
abbrev pub audit_chain_up : List Ddl
audit_chain_up =
    add_column "audit_log" (column "seq" big_integer true (some "0")) false
    ∷ add_column "audit_log" (column "entry_hash" string true (some "")) false
    ∷ add_column "audit_log" (column "prev_hash" string false none) false
    ∷ create_index
        (record {
          name = "idx_audit_log_org_seq";
          table = "audit_log";
          columns = "org_id" ∷ "seq" ∷ [];
          unique = true;
        })
        false
    ∷ []

abbrev pub audit_chain_down : List Ddl
audit_chain_down =
    drop_index "idx_audit_log_org_seq" true
    ∷ drop_column "audit_log" "prev_hash" false
    ∷ drop_column "audit_log" "entry_hash" false
    ∷ drop_column "audit_log" "seq" false
    ∷ []

-- One migration of `Migrator::migrations`.
pub record MigrationSteps : Type 0 where
  pub up : List Ddl
  pub down : List Ddl

abbrev pub migrations : List MigrationSteps
migrations =
    record { up = init_up; down = init_down }
    ∷ record { up = version_scheme_up; down = version_scheme_down }
    ∷ record { up = org_created_by_up; down = org_created_by_down }
    ∷ record { up = token_role_up; down = token_role_down }
    ∷ record { up = token_lifecycle_up; down = token_lifecycle_down }
    ∷ record { up = audit_log_up; down = audit_log_down }
    ∷ record { up = embeddings_and_tags_up; down = embeddings_and_tags_down }
    ∷ record { up = audit_chain_up; down = audit_chain_down }
    ∷ []

-- `Migrator::up` and `Migrator::down`, of all of them.
abbrev pub all_up : List MigrationSteps → List Ddl
all_up [] = []
all_up (m ∷ ms) = m.up ++ all_up ms

abbrev pub all_down : List MigrationSteps → List Ddl
all_down [] = []
all_down (m ∷ ms) = all_down ms ++ m.down
