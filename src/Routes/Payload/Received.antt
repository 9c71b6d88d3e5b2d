-- ===== src/Routes/Payload/Received.antt =====
-- What `read_multipart` of src/routes/publish.rs answers stands in the body.
use registry_api_contract.Prelude.{
  ◌≡◌, ◌⊎◌, inl, inr, Option, none, some, List, [], ◌∷◌, In, ap, sym,
}
use registry_api_contract.Error.{ok}
use registry_api_contract.Storage.{Bytes}
use registry_api_contract.Routes.Payload.{
  PublishMeta, Field, broken, meta_field, artifact_field, other_field, read_fields, read_multipart,
}

-- The two values come from the body, or were there before.
abbrev Sources : Option PublishMeta → Option Bytes → List Field → PublishMeta → Bytes → Type 0
Sources meta artifact fs m a =
    ((meta ≡ some m) ⊎ In (meta_field (some m)) fs)
    × ((artifact ≡ some a) ⊎ In (artifact_field (some a)) fs)

later : {A : Type 0} (f g : Field) (fs : List Field) → A ⊎ In f fs → A ⊎ In f (g ∷ fs)
later f g fs (inl x) = inl x
later f g fs (inr i) = inr (inr i)

here :
    {A : Type 0} {X : Type 0} (x y : X) (c : Option X → Field) (fs : List Field)
    → (some x ≡ some y) ⊎ In (c (some y)) fs
    → A ⊎ In (c (some y)) (c (some x) ∷ fs)
here x y c fs (inl e) = inr (inl (ap c (sym e)))
here x y c fs (inr i) = inr (inr i)

read_fields-Sources :
    (meta : Option PublishMeta) (artifact : Option Bytes) (fs : List Field) (m : PublishMeta)
    (a : Bytes)
    → read_fields meta artifact fs ≡ ok (m, a)
    → Sources meta artifact fs m a
unfolding read_fields
read_fields-Sources none artifact [] m a h = cc
read_fields-Sources (some meta) none [] m a h = cc
read_fields-Sources (some meta) (some artifact) [] m a h = (inl cc, inl cc)
read_fields-Sources meta artifact (broken ∷ fs) m a h = cc
read_fields-Sources meta artifact (meta_field none ∷ fs) m a h = cc
read_fields-Sources meta artifact (meta_field (some x) ∷ fs) m a h =
    let (i, j) = read_fields-Sources (some x) artifact fs m a h in
    (here x m meta_field fs i, later _ _ fs j)
read_fields-Sources meta artifact (artifact_field none ∷ fs) m a h = cc
read_fields-Sources meta artifact (artifact_field (some x) ∷ fs) m a h =
    let (i, j) = read_fields-Sources meta (some x) fs m a h in
    (later _ _ fs i, here x a artifact_field fs j)
read_fields-Sources meta artifact (other_field ∷ fs) m a h =
    let (i, j) = read_fields-Sources meta artifact fs m a h in (later _ _ fs i, later _ _ fs j)

started : {X : Type 0} (x : X) {A : Type 0} → (none ≡ some x) ⊎ A → A
started x (inl e) = cc
started x (inr i) = i

-- The meta document and the artifact that `read_multipart` answers are fields of the body.
pub read_multipart-Received :
    (fs : List Field) (m : PublishMeta) (a : Bytes)
    → read_multipart fs ≡ ok (m, a)
    → In (meta_field (some m)) fs × In (artifact_field (some a)) fs
unfolding read_multipart
read_multipart-Received fs m a h =
    let (i, j) = read_fields-Sources none none fs m a h in (started m i, started a j)
