-- ===== src/Registry/Growth.antt =====
-- What may become of the rows of the registry, whatever request of src/routes/ comes: `Grows`.
use registry_api_contract.Prelude.{
  ◌≡◌, refl, sym, ap, subst, ◌∙◌, Bool, true, false, nat_eq, List, map, In, In-map, In-append_left,
  if◌then◌else◌,
}
use registry_api_contract.Db.{
  Uuid, Org, Token, Package, Version, AuditLog, Embedding, done, insert_row,
}
use registry_api_contract.State.{Database, World}
use registry_api_contract.State.Effects.{insert_row_done}
use registry_api_contract.Routes.{is_package}
use registry_api_contract.Routes.Publish.{upsert_row, updated_package}
use registry_api_contract.Routes.Publish.Upsert.{upserted, upsert_row_lem}
use registry_api_contract.Routes.Yank.{set_yanked}

-- Every row of the first table is in the second.
abbrev pub Subset : {A : Type 0} → List A → List A → Type 0
Subset {A = A} rows rows' = (x : A) → In x rows → In x rows'

-- The same release: only the yank state may differ.
abbrev pub SameRelease : Version → Version → Type 0
SameRelease x y = y ≡ record x { yanked = y.yanked }

-- The same package: its metadata may differ, not what it is found by.
pub record SamePackage (p q : Package) : Type 0 where
  pub id : q.id ≡ p.id
  pub org_id : q.org_id ≡ p.org_id
  pub name : q.name ≡ p.name
  pub created_at : q.created_at ≡ p.created_at

-- Nothing is lost or rewritten from the first database to the second.
pub record Grows (v w : Database) : Type 0 where
  pub orgs : Subset v.orgs w.orgs
  pub tokens : Subset v.tokens w.tokens
  pub packages : (p : Package) → In p v.packages → (q : Package) × In q w.packages × SamePackage p q
  pub versions : (x : Version) → In x v.versions → (y : Version) × In y w.versions × SameRelease x y
  pub audit_log : Subset v.audit_log w.audit_log

SamePackage-refl : (p : Package) → SamePackage p p
SamePackage-refl p = record { id = refl; org_id = refl; name = refl; created_at = refl }

SamePackage-trans : (p q r : Package) → SamePackage p q → SamePackage q r → SamePackage p r
SamePackage-trans p q r a b = record {
  id = b.id ∙ a.id;
  org_id = b.org_id ∙ a.org_id;
  name = b.name ∙ a.name;
  created_at = b.created_at ∙ a.created_at;
}

SameRelease-trans : (x y z : Version) → SameRelease x y → SameRelease y z → SameRelease x z
SameRelease-trans x y z a b = b ∙ ap {A = Version} (λ t. record t { yanked = z.yanked }) a

pub Grows-refl : (v : Database) → Grows v v
Grows-refl v = record {
  orgs = λ x i. i;
  tokens = λ x i. i;
  packages = λ p i. (p, i, SamePackage-refl p);
  versions = λ x i. (x, i, refl);
  audit_log = λ x i. i;
}

pub Grows-trans : (u v w : Database) → Grows u v → Grows v w → Grows u w
Grows-trans u v w a b = record {
  orgs = λ x i. b.orgs x (a.orgs x i);
  tokens = λ x i. b.tokens x (a.tokens x i);
  packages = λ p i.
      let (q, j, same) = a.packages p i in
      let (r, k, next) = b.packages q j in (r, k, SamePackage-trans p q r same next);
  versions = λ x i.
      let (y, j, same) = a.versions x i in
      let (z, k, next) = b.versions y j in (z, k, SameRelease-trans x y z same next);
  audit_log = λ x i. b.audit_log x (a.audit_log x i);
}

-- From world to world, as the relation that the parts of a handler keep.
abbrev pub Growing : World → World → Type 0
Growing v w = Grows v.database w.database

pub Growing-trans : (u v w : World) → Growing u v → Growing v w → Growing u w
Growing-trans u v w a b = Grows-trans u.database v.database w.database a b

-- One table grows and the others stay.
pub grown_orgs :
    (v : Database) (rows : List Org) → Subset v.orgs rows → Grows v (record v { orgs = rows })
grown_orgs v rows more = record {
  orgs = more;
  tokens = λ x i. i;
  packages = λ p i. (p, i, SamePackage-refl p);
  versions = λ x i. (x, i, refl);
  audit_log = λ x i. i;
}

pub grown_tokens :
    (v : Database) (rows : List Token) → Subset v.tokens rows → Grows v (record v { tokens = rows })
grown_tokens v rows more = record {
  orgs = λ x i. i;
  tokens = more;
  packages = λ p i. (p, i, SamePackage-refl p);
  versions = λ x i. (x, i, refl);
  audit_log = λ x i. i;
}

pub grown_packages :
    (v : Database) (rows : List Package)
    → ((p : Package) → In p v.packages → (q : Package) × In q rows × SamePackage p q)
    → Grows v (record v { packages = rows })
grown_packages v rows more = record {
  orgs = λ x i. i;
  tokens = λ x i. i;
  packages = more;
  versions = λ x i. (x, i, refl);
  audit_log = λ x i. i;
}

pub grown_versions :
    (v : Database) (rows : List Version)
    → ((x : Version) → In x v.versions → (y : Version) × In y rows × SameRelease x y)
    → Grows v (record v { versions = rows })
grown_versions v rows more = record {
  orgs = λ x i. i;
  tokens = λ x i. i;
  packages = λ p i. (p, i, SamePackage-refl p);
  versions = more;
  audit_log = λ x i. i;
}

pub grown_audit_log :
    (v : Database) (rows : List AuditLog)
    → Subset v.audit_log rows
    → Grows v (record v { audit_log = rows })
grown_audit_log v rows more = record {
  orgs = λ x i. i;
  tokens = λ x i. i;
  packages = λ p i. (p, i, SamePackage-refl p);
  versions = λ x i. (x, i, refl);
  audit_log = more;
}

pub other_table : (v : Database) (rows : List Embedding) → Grows v (record v { embeddings = rows })
other_table v rows = record {
  orgs = λ x i. i;
  tokens = λ x i. i;
  packages = λ p i. (p, i, SamePackage-refl p);
  versions = λ x i. (x, i, refl);
  audit_log = λ x i. i;
}

-- What the statements do to a table.
pub insert_row_grows :
    {R : Type 0} (clashes : R → R → Bool) (r : R) (rows rows' : List R)
    → insert_row clashes r rows ≡ done rows'
    → Subset rows rows'
insert_row_grows clashes r rows rows' e x i =
    subst (In x) (sym (insert_row_done clashes r rows rows' e).1) (In-append_left x rows _ i)

updated_SamePackage :
    (new old : Package) (c : Bool) → SamePackage old (if c then updated_package new old else old)
updated_SamePackage new old true = record {
  id = refl;
  org_id = refl;
  name = refl;
  created_at = refl;
}
updated_SamePackage new old false = SamePackage-refl old

pub upsert_row_grows :
    (new : Package) (rows rows' : List Package)
    → upsert_row new rows ≡ done rows'
    → (p : Package) → In p rows
    → (q : Package) × In q rows' × SamePackage p q
upsert_row_grows new rows rows' e p i = (
  upserted new p,
  (upsert_row_lem new rows rows' e).0 p i,
  updated_SamePackage new p (is_package new.org_id new.name p),
)

pub set_yanked_grows :
    (id : Uuid) (yanked : Bool) (rows : List Version) (x : Version)
    → In x rows
    → (y : Version) × In y (map (set_yanked id yanked) rows) × SameRelease x y
set_yanked_grows id yanked rows x i =
    (set_yanked id yanked x, In-map (set_yanked id yanked) rows x i, same (nat_eq x.id id))
  where
    same : (c : Bool) → SameRelease x (if c then record x { yanked = yanked } else x)
    same true = refl
    same false = refl
