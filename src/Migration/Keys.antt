-- ===== src/Migration/Keys.antt =====
-- The unique keys that migration/src creates, against those that the inserts of the model check.
use registry_api_contract.Prelude.{
  ℕ, String, Bool, true, false, Option, none, some, List, ◌==◌, nat_eq, any, all, if◌then◌else◌,
}
use registry_api_contract.Db.{Embedding, Org, Token, Package, Version, AuditLog}
use registry_api_contract.Text.{Text, same_text}
use registry_api_contract.Migration.Schema.{Schema}

-- The value of a column that is not null.
pub data Value : Type 0 where
  number : ℕ → Value
  text : String → Value
  code_points : Text → Value

abbrev same_value : Option Value → Option Value → Bool
same_value (some (number a)) (some (number b)) = nat_eq a b
same_value (some (text a)) (some (text b)) = a == b
same_value (some (code_points a)) (some (code_points b)) = same_text a b
same_value none none = true
same_value _ _ = false

-- Two rows that a table with these keys does not hold both of. A column that has no value below, since no
-- insert of the model looks at it, counts as equal, so that a key on it would make more rows clash.
abbrev pub clashes_by :
    {R : Type 0} → (R → String → Option Value) → List (List String) → R → R → Bool
clashes_by value keys a b = any (all (λ c. same_value (value a c) (value b c))) keys

abbrev org_value : Org → String → Option Value
org_value x c =
    if c == "id" then some (number x.id) else if c == "slug" then some (text x.slug) else none

abbrev token_value : Token → String → Option Value
token_value x c =
    if c == "id"
    then some (number x.id)
    else if c == "token_hash"
    then some (text x.token_hash)
    else none

abbrev package_value : Package → String → Option Value
package_value x c =
    if c == "id"
    then some (number x.id)
    else if c == "org_id"
    then some (number x.org_id)
    else if c == "name"
    then some (text x.name)
    else none

abbrev version_value : Version → String → Option Value
version_value x c =
    if c == "id"
    then some (number x.id)
    else if c == "package_id"
    then some (number x.package_id)
    else if c == "version"
    then some (text x.version)
    else none

abbrev audit_value : AuditLog → String → Option Value
audit_value x c =
    if c == "id"
    then some (number x.id)
    else if c == "org_id"
    then some (number x.org_id)
    else if c == "seq"
    then some (number x.seq)
    else none

abbrev embedding_value : Embedding → String → Option Value
embedding_value x c =
    if c == "id"
    then some (number x.id)
    else if c == "package_id"
    then some (number x.package_id)
    else if c == "embedding_model"
    then some (code_points x.embedding_model)
    else none
