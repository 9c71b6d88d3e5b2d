-- ===== src/Tests/Handlers.antt =====
-- The handlers of src/routes/ on the small registry.
use registry_api_contract.Prelude.{
  ◌≡◌, ◌≢◌, refl, inl, inr, ◌≤◌, ◌⊎◌, true, false, none, some, [], ◌∷◌, In, arith,
}
use registry_api_contract.Error.{ok, err, conflict, forbidden, unauthorized, not_found}
use registry_api_contract.Db.{Org, Token, Package, done}
use registry_api_contract.Text.{Text, trim}
use registry_api_contract.Rbac.{parse}
use registry_api_contract.State.{World, ◌>>=◌, query, require, transaction}
use registry_api_contract.Auth.{auth_disabled, require_token}
use registry_api_contract.Auth.Liveness.{require_token_uniform}
use registry_api_contract.Routes.{is_package}
use registry_api_contract.Routes.Publish.{publish, upsert_row}
use registry_api_contract.Routes.Publish.Published.{Published, publish-Published}
use registry_api_contract.Routes.Publish.Atomic.{publish_error_leaves_nothing}
use registry_api_contract.Routes.Publish.Immutable.{
  Released, publish_stores_release, publish_never_again,
}
use registry_api_contract.Routes.Publish.Upsert.{upserted}
use registry_api_contract.Routes.Yank.{YankRequest, YankResponse, yank}
use registry_api_contract.Routes.Yank.Flip.{Flipped, yank_flips_one}
use registry_api_contract.Routes.Orgs.{ClaimOrgRequest, ClaimOrgResponse, claimed, claim_org}
use registry_api_contract.Routes.Orgs.Quota.{Behind, claim_org_outcome}
use registry_api_contract.Routes.Orgs.Invariant.{claim_keeps_quota}
use registry_api_contract.Tests.Fixtures.{
  dependencies, settings, calm, world, release, released, again, valid_manifest, acme, kit, kit_one,
  credential, owner_token,
}

abbrev kit_anew : Package
kit_anew = record kit { id = 99; description = some "new"; created_at = 77 }

kit_updates : upsert_row kit_anew (kit ∷ []) ≡ done (upserted kit_anew kit ∷ [])
unfolding upsert_row
kit_updates = refl

one_acme : (q : Org) → In q world.database.orgs → q.slug ≡ again.org → q ≡ acme
one_acme q (inl e) h = e
one_acme q (inr i) h = elim i [ ]

one_kit :
    (q : Package)
    → In q (calm.race world.database).packages
    → is_package acme.id again.name q ≡ true
    → q ≡ kit
one_kit q (inl e) h = e
one_kit q (inr i) h = elim i [ ]

abbrev withdrawal : YankRequest
withdrawal = record {
  org = "acme";
  name = "kit";
  version = "1.0.0";
  authorization = credential;
  yanked = true;
}

abbrev withdrawn : YankResponse
withdrawn = record { org = "acme"; name = "kit"; version = "1.0.0"; yanked = true }

abbrev stray : YankRequest
stray = record withdrawal { version = "9.9.9" }

abbrev new_claim : ClaimOrgRequest
new_claim = record { slug = "acme-labs"; authorization = credential }

abbrev new_claimed : ClaimOrgResponse
new_claimed = record { slug = "acme-labs"; created = true }

abbrev full_world : World
full_world = record world {
  database = record world.database {
    orgs = acme ∷ record acme { id = 11; slug = "acme-two" } ∷ [];
  };
}

release_answers : (publish dependencies valid_manifest settings calm release world).0 ≡ ok released
unfolding publish ◌>>=◌ query require transaction trim parse
release_answers = refl

again_conflicts :
    (publish dependencies valid_manifest settings calm again world).0
    ≡ err (conflict "version_exists")
unfolding publish ◌>>=◌ query require transaction trim parse
again_conflicts = refl

enabled : auth_disabled settings ≡ false
unfolding auth_disabled
enabled = refl

publish-Published_example :
    Published dependencies valid_manifest settings calm release world
      (publish dependencies valid_manifest settings calm release world)
publish-Published_example =
    publish-Published dependencies valid_manifest settings calm release world released enabled
      release_answers

publish_stores_release_example :
    Released dependencies valid_manifest settings calm release released [] 1000
      (publish dependencies valid_manifest settings calm release world).1
publish_stores_release_example =
    publish_stores_release dependencies valid_manifest settings calm release world released [] 1000
      enabled refl (omega arith) release_answers

publish_never_again_example :
    (publish dependencies valid_manifest settings calm again world).0 ≢ ok released
publish_never_again_example =
    publish_never_again dependencies valid_manifest settings calm again world released acme kit
      kit_one enabled one_acme one_kit (inl refl) refl (inl refl) refl

publish_error_leaves_nothing_example :
    ((publish dependencies valid_manifest settings calm again world).1.database ≡ world.database)
    ⊎ ((publish dependencies valid_manifest settings calm again world).1.database
        ≡ calm.race world.database)
publish_error_leaves_nothing_example =
    publish_error_leaves_nothing dependencies valid_manifest settings calm again world
      (conflict "version_exists") enabled again_conflicts

yank_answers : (yank dependencies settings calm withdrawal world).0 ≡ ok withdrawn
unfolding yank ◌>>=◌ query trim parse
yank_answers = refl

yank_flips_one_example :
    Flipped dependencies settings calm withdrawal world
      (yank dependencies settings calm withdrawal world).1
yank_flips_one_example =
    yank_flips_one dependencies settings calm withdrawal world withdrawn enabled yank_answers

stray_missing : (yank dependencies settings calm stray world).0 ≡ err not_found
unfolding yank ◌>>=◌ query trim parse
stray_missing = refl

claim_answers : (claim_org dependencies settings calm new_claim world).0 ≡ ok new_claimed
unfolding claim_org ◌>>=◌ query require transaction trim
claim_answers = refl

claim_org_outcome_example :
    Behind dependencies settings calm new_claim world
      (claim_org dependencies settings calm new_claim world)
claim_org_outcome_example =
    claim_org_outcome dependencies settings calm new_claim world new_claimed enabled claim_answers

claim_authenticated : (require_token dependencies settings calm credential world).0 ≡ ok owner_token
unfolding require_token ◌>>=◌ query trim
claim_authenticated = refl

claim_keeps_quota_example :
    claimed 1 (claim_org dependencies settings calm new_claim world).1.database ≤ 2
claim_keeps_quota_example =
    claim_keeps_quota dependencies settings calm new_claim world owner_token 1 enabled
      claim_authenticated refl (omega arith) (omega arith)

full_refuses :
    (claim_org dependencies settings calm new_claim full_world).0
    ≡ err (forbidden "org_quota_exceeded")
unfolding claim_org ◌>>=◌ query require transaction trim
full_refuses = refl

require_token_uniform_example :
    ((t : Token) × (require_token dependencies settings calm none world ≡ (ok t, world)))
    ⊎ (require_token dependencies settings calm none world ≡ (err unauthorized, world))
require_token_uniform_example =
    require_token_uniform dependencies settings calm none world enabled refl
