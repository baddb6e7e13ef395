-- ===== src/CustomerShipment/Parcel/Locking.antt =====
-- The optimistic lock of `_applyAndPersistUpdate` of parcel.command.service.ts.
use multi_tenant_shipping_ma.Shared.{
  ℕ, ◌≡◌, refl, sym, ap, subst, Option-cases, ◌∙◌, Option, arith, Bool-cases, inl, inr,
}
use multi_tenant_shipping_ma.Shared.Effects.{
  Result, ok, err, ◌>>◌, >>=-step, >>=-fails, lift, Result-cases, transactional_fails,
}
use multi_tenant_shipping_ma.Shared.Table.{count_if}
use multi_tenant_shipping_ma.CustomerShipment.Shipment.{
  ParcelStatus, parcel_status_eq, ShipmentError, stale_parcel,
}
use multi_tenant_shipping_ma.CustomerShipment.Parcel.Aggregate.{
  allowed_transitions, includes_parcel_status, Parcel, ParcelCondition, transition_to,
  change_condition, move_to,
}
use multi_tenant_shipping_ma.CustomerShipment.Parcel.Store.{
  ActionType, Tables, append_movement, is_parcel_version, update_parcel_status,
}
use multi_tenant_shipping_ma.CustomerShipment.Parcel.Commands.{
  UpdateOptions, apply_options, apply_update, store_update, movement_of, recalculate_from_parcels,
}

-- A change of a parcel that leaves its identifier and the version it was loaded with.
abbrev pub Keeps : (Parcel → Result ShipmentError Parcel) → Type 0
Keeps update = (p p' : Parcel) → update p ≡ ok p' → (p'.id ≡ p.id) × (p'.version ≡ p.version)

pub transition_to-Keeps : (target : ParcelStatus) → Keeps (λ p. transition_to p target)
unfolding transition_to
transition_to-Keeps target p p' h = elim (Bool-cases (parcel_status_eq target p.current_status)) [
  | inl e ↦ absurd (ground arith)
  | inr e ↦
      elim (Bool-cases (includes_parcel_status (allowed_transitions p.current_status) target)) [
        | inr n ↦ absurd (ground arith)
        | inl y ↦ (ground arith, ground arith)
      ]
]

apply_options_keeps :
    (o : UpdateOptions) (p : Parcel)
    → ((apply_options o p).id ≡ p.id) × ((apply_options o p).version ≡ p.version)
unfolding apply_options change_condition move_to
apply_options_keeps o p = elim (Option-cases o.condition) [
  | inl a ↦ elim (Option-cases o.organization_unit_id) [
    | inl b ↦ rw (a, b) (refl, refl)
    | inr (u, b) ↦ rw (a, b) (refl, refl)
  ]
  | inr (c, a) ↦ elim (Option-cases o.organization_unit_id) [
    | inl b ↦ rw (a, b) (refl, refl)
    | inr (u, b) ↦ rw (a, b) (refl, refl)
  ]
]

update_parcel_status_stale :
    (id : ℕ) (status : ParcelStatus) (version : ℕ) (c : Option ParcelCondition) (u : Option ℕ)
    (s : Tables)
    → count_if (is_parcel_version id version) s.parcels ≡ 0
    → (update_parcel_status id status version c u s).0 ≡ err stale_parcel
unfolding update_parcel_status
update_parcel_status_stale id status version c u s h = rw h refl

store_update_stale :
    (committed : Tables) (p : Parcel) (action : ActionType) (o : UpdateOptions) (p' : Parcel)
    (s : Tables)
    → p'.id ≡ p.id
    → p'.version ≡ p.version
    → count_if (is_parcel_version p.id p.version) s.parcels ≡ 0
    → (store_update committed p action o p' s).0 ≡ err stale_parcel
unfolding store_update
store_update_stale committed p action o p' s kept_id kept_version stale =
    let after = apply_options o p' in
    let same = apply_options_keeps o p' in
    let same_id : after.id ≡ p.id = same.0 ∙ kept_id in
    let same_version : after.version ≡ p.version = same.1 ∙ kept_version in
    let none_fits : count_if (is_parcel_version after.id after.version) s.parcels ≡ 0 =
      subst (λ v. count_if (is_parcel_version after.id v) s.parcels ≡ 0) (sym same_version)
        (subst (λ k. count_if (is_parcel_version k p.version) s.parcels ≡ 0) (sym same_id) stale) in
    >>=-fails
      (update_parcel_status after.id after.current_status after.version o.condition
        after.current_org_unit_id)
      (λ _.
        append_movement (movement_of action o p after)
        >> recalculate_from_parcels committed after.customer_shipment_id)
      s
      (update_parcel_status_stale after.id after.current_status after.version o.condition
        after.current_org_unit_id s none_fits)

-- A change of a parcel that keeps its identifier and the version it was loaded with, when no
-- stored row has that identifier and version, throws and leaves the tables as they were, whatever
-- the change and the options are, and whatever other connections see.
pub apply_update_stale :
    (committed : Tables) (p : Parcel) (action : ActionType)
    (update : Parcel → Result ShipmentError Parcel) (o : UpdateOptions) (s : Tables)
    → Keeps update
    → count_if (is_parcel_version p.id p.version) s.parcels ≡ 0
    → (x : ShipmentError) × (apply_update committed p action update o s ≡ (err x, s))
unfolding apply_update
apply_update_stale committed p action update o s keeps stale = elim (Result-cases (update p)) [
  | inr (x, h) ↦ (x, transactional_fails _ s (rw h refl))
  | inl (p', h) ↦
      let kept = keeps p p' h in
      let run =
        >>=-step (lift (update p)) (store_update committed p action o) s {r = (ok p', s)}
          (rw h refl) in
      (
        stale_parcel,
        transactional_fails _ s
            (ap (λ q. q.0) run ∙ store_update_stale committed p action o p' s kept.0 kept.1 stale),
      )
]
