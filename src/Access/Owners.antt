-- ===== src/Access/Owners.antt =====
-- Listing and access agree, and access is for owners and administrators.
use serverless_db.Base.{
  ◌≡◌, refl, ◌≢◌, ◌↔◌, inl, inr, true, false, String, Option, none, some, arith, eq_iff,
}
use serverless_db.Error.{ok, Result-cases}
use serverless_db.Json.{Fields}
use serverless_db.Access.{
  Actor, is_admin, owner_id, owns, is_owner, require_storage_actor, authorize_storage_object,
  storage_object_visible,
}

-- The two tests for the owner of an object agree.
owns-is_owner : (sub : Option String) (owner : String) → owns sub owner ≡ is_owner sub owner
owns-is_owner none owner = refl
owns-is_owner (some sub) owner = refl

-- An object may be accessed exactly by those whom it is listed to and who are signed in.
pub authorize_storage_object_iff :
    (meta : Fields) (actor : Actor)
    → (authorize_storage_object meta actor ≡ ok tt)
      ↔ ((require_storage_actor actor ≡ ok tt) × (storage_object_visible meta actor ≡ true))
unfolding authorize_storage_object storage_object_visible
authorize_storage_object_iff meta actor = elim (Result-cases (require_storage_actor actor)) [
  | inl (u, e) ↦
      let same = owns-is_owner actor.sub (owner_id meta) in
      (λ h. (ground (arith, e), ground (arith, e, same, h)), λ h. ground (arith, e, same, h.1))
  | inr (x, e) ↦ (λ h. absurd (ground (arith, e, h)), λ h. absurd (ground (arith, e, h.0)))
]

-- Who may access an object and is no administrator is its owner, and the owner is named.
pub authorize_storage_object-owner :
    (meta : Fields) (actor : Actor)
    → authorize_storage_object meta actor ≡ ok tt
    → is_admin actor ≡ false
    → (actor.sub ≡ some (owner_id meta)) × (owner_id meta ≢ "")
unfolding authorize_storage_object
authorize_storage_object-owner meta actor h no_admin =
    elim (Result-cases (require_storage_actor actor)) [
      | inr (x, e) ↦ absurd (ground (arith, e, h))
      | inl (u, e) ↦ named actor.sub (ground (arith, e, h, no_admin))
    ]
  where
    named :
        (sub : Option String)
        → owns sub (owner_id meta) ≡ true
        → (sub ≡ some (owner_id meta)) × (owner_id meta ≢ "")
    named none o = cc
    named (some sub) o = (
      ground (arith, o, eq_iff sub (owner_id meta)),
      λ e. ground (arith, o, eq_iff (owner_id meta) ""),
    )
