-- ===== src/Registry/Credentials.antt =====
-- `require_token` of src/auth.rs in both modes: the operator's row is the only one that it may add.
use registry_api_contract.Prelude.{inl, inr, Option, none, some, Bool-cases, find, if◌then◌else◌}
use registry_api_contract.Error.{ok, ok_or, internal}
use registry_api_contract.Db.{Token, DbResult-cases, failed, fault, insert_row, token_clashes}
use registry_api_contract.State.{
  World, AppState, Dependencies, Outside, ◌>>=◌, lift, query, answer, insert_operator,
  find_operator_again,
}
use registry_api_contract.State.Effects.{Keeps, lift-Keeps, query-Keeps, unfailed}
use registry_api_contract.Auth.{
  Authorization, auth_disabled, require_token, insecure_operator_token, insert_operator_row,
  operator_row, operator_id, has_token_id,
}
use registry_api_contract.Auth.Liveness.{require_token-Keeps}
use registry_api_contract.Registry.Growth.{insert_row_grows}
use registry_api_contract.Registry.Parts.{Frame, in_turn, unchanged}

module _ (d : Dependencies) (s : AppState) {o : Outside} {R : World → World → Type 0}
    (frame : Frame d o R) where
  read_again_kept : Keeps R (
      query (o.fails find_operator_again) (λ db. find (has_token_id operator_id) db.tokens)
      >>= λ row. lift (ok_or row internal))
  read_again_kept =
      in_turn frame (unchanged frame (query-Keeps _ _)) λ row. unchanged frame (lift-Keeps _)

  insert_operator_kept : Keeps R (insert_operator_row d s o)
  unfolding insert_operator_row query ◌>>=◌
  insert_operator_kept = record {
    kept = λ w.
        elim (DbResult-cases (
          if o.fails insert_operator
          then failed fault
          else insert_row token_clashes (operator_row d s o) w.database.tokens)) [
            | inl (rows, p) ↦
                rw (p, insert_operator_row)
                  (frame.tokens w rows (
                    insert_row_grows token_clashes (operator_row d s o) _ rows
                      (unfailed (o.fails insert_operator) _ p)))
            | inr (inl p) ↦ rw (p, insert_operator_row) (read_again_kept.kept w)
            | inr (inr p) ↦ rw (p, insert_operator_row) (read_again_kept.kept w)
          ];
  }

  operator_kept : Keeps R (insecure_operator_token d s o)
  unfolding insecure_operator_token
  operator_kept = in_turn frame (unchanged frame (query-Keeps _ _)) found
    where
      found :
          (row : Option Token)
          → Keeps R (elim row [ some t ↦ answer t | none ↦ insert_operator_row d s o ])
      found (some t) = unchanged frame (lift-Keeps (ok t))
      found none = insert_operator_kept

  pub require_token_kept : (header : Authorization) → Keeps R (require_token d s o header)
  unfolding require_token
  require_token_kept header = elim (Bool-cases (auth_disabled s)) [
    | inl e ↦ rw e operator_kept
    | inr e ↦ unchanged frame (require_token-Keeps d s o header e)
  ]
