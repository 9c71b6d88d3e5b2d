-- ===== src/Embeddings.antt =====
-- src/embeddings.rs: the vectors of packages. A number of the source's type `f32` is a value of `F`, with its
-- zero, the test for finite numbers, and its text.

pub mod Padding
pub mod Table
use registry_api_contract.Prelude.{
  ℕ, ◌-◌, min, max, String, Bool, true, false, not, Option, none, some, List, [], ◌∷◌, ◌++◌, ◌&&◌,
  ◌||◌, nat_eq, ltb, leb, all, any, map, length, replicate, if◌then◌else◌,
}
use registry_api_contract.Error.{ApiResult, ok, err, bad_request}
use registry_api_contract.Db.{Uuid, Embedding}
use registry_api_contract.Text.{Text, is_empty, is_ascii_alphanumeric, same_text}
use registry_api_contract.State.{
  Database, World, Dependencies, Outside, Handler, answer, refuse, ◌>>=◌, lift, require,
  upsert_embedding_row, nearest,
}

abbrev pub vector_dim : ℕ
vector_dim = 2050

pub record Floats (F : Type 0) : Type 0 where
  pub nil : F
  pub is_finite : F → Bool
  pub show : F → Text

unfoldable pub valid_model : Text → Bool
unfolding is_ascii_alphanumeric
valid_model model =
    not (is_empty model)
    && leb (length model) 120
    && all
        (λ b.
          is_ascii_alphanumeric b
          || nat_eq b b'.'
          || nat_eq b b'_'
          || nat_eq b b':'
          || nat_eq b b'/'
          || nat_eq b b'-')
        model

-- The route answers every error of this module with this one.
abbrev pub invalid_embedding : {A : Type 0} → ApiResult A
invalid_embedding = err (bad_request "invalid_embedding")

module _ {F : Type 0} (fl : Floats F) where
  abbrev pub is_empty_vector : List F → Bool
  is_empty_vector [] = true
  is_empty_vector (x ∷ xs) = false

  unfoldable pub pad_to_dim : List F → ApiResult (List F)
  pad_to_dim embedding =
      if is_empty_vector embedding
      then invalid_embedding
      else if ltb vector_dim (length embedding)
      then invalid_embedding
      else if any (λ v. not (fl.is_finite v)) embedding
      then invalid_embedding
      else ok (embedding ++ replicate (vector_dim - length embedding) fl.nil)

  abbrev pub literal_tail : List F → Text
  literal_tail [] = b']' ∷ []
  literal_tail (v ∷ vs) = b',' ∷ fl.show v ++ literal_tail vs

  unfoldable pub to_pgvector_literal : List F → Text
  to_pgvector_literal [] = b'[' ∷ b']' ∷ []
  to_pgvector_literal (v ∷ vs) = b'[' ∷ (fl.show v ++ literal_tail vs)

  module _ (d : Dependencies) (o : Outside) where
    unfoldable pub embedding_row : Uuid → Text → List F → List F → Text → Embedding
    unfolding to_pgvector_literal
    embedding_row package_id model embedding padded content = record {
      id = o.uuid upsert_embedding_row;
      package_id = package_id;
      embedding_model = model;
      native_dimensions = length embedding;
      embedding = to_pgvector_literal padded;
      content = content;
      content_sha256 = d.sha256_text content;
      created_at = o.now;
    }

    abbrev pub same_space : Uuid → Text → Embedding → Bool
    same_space package_id model row =
        nat_eq row.package_id package_id && same_text row.embedding_model model

    -- `on conflict (package_id, embedding_model) do update`
    abbrev pub re_embedded : Embedding → Embedding → Embedding
    re_embedded new old = record new { id = old.id }

    abbrev pub upserted : Embedding → List Embedding → List Embedding
    upserted new rows =
        if any (same_space new.package_id new.embedding_model) rows
        then map
            (λ old.
              if same_space new.package_id new.embedding_model old
              then re_embedded new old
              else old)
            rows
        else rows ++ new ∷ []

    abbrev pub write_embedding : Embedding → Handler (Unit {0})
    write_embedding new w = if o.fails upsert_embedding_row then (invalid_embedding, w) else (
      ok tt,
      record w { database = record w.database { embeddings = upserted new w.database.embeddings } },
    )

    unfoldable pub upsert : Uuid → Text → List F → Text → Handler (Unit {0})
    unfolding valid_model pad_to_dim embedding_row ◌>>=◌ require
    upsert package_id model embedding content = do
      valid ← require (valid_model model) (bad_request "invalid_embedding")
      padded ← lift (pad_to_dim embedding)
      write_embedding (embedding_row package_id model embedding padded content)

-- A hit of the nearest-neighbour search, with its distance.
pub record Neighbor (D : Type 0) : Type 0 where
  pub package_id : Uuid
  pub distance : D

-- `ranked` is the database's: the rows of a model nearest to a vector's literal, nearest first, so many at most.
module _ {F D : Type 0} (fl : Floats F)
    (ranked : Text → Text → ℕ → List Embedding → List (Neighbor D)) (o : Outside) where
  abbrev pub rank_rows : Text → Text → ℕ → Handler (List (Neighbor D))
  rank_rows literal model limit w = (
    if o.fails nearest
        then invalid_embedding
        else ok (ranked literal model limit w.database.embeddings),
    w,
  )

  unfoldable pub search_embeddings : Text → List F → ℕ → Handler (List (Neighbor D))
  unfolding valid_model pad_to_dim to_pgvector_literal ◌>>=◌ require
  search_embeddings model vector limit = do
    valid ← require (valid_model model) (bad_request "invalid_embedding")
    padded ← lift (pad_to_dim fl vector)
    rank_rows (to_pgvector_literal fl padded) model (min (max limit 1) 100)
