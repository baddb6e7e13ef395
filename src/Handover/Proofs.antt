-- ===== src/Handover/Proofs.antt =====
-- `recordDelivery` from the check of the invoice on: the first proof of the parcel, with settled books.
use multi_tenant_shipping_ma.Shared.{
  ℕ, ◌≡◌, refl, sym, ap, subst, ◌∙◌, false, String, ◌∷◌, Bool-cases, inl, inr,
}
use multi_tenant_shipping_ma.Shared.Effects.{◌>>=◌, ◌>>◌, pure, lift, Result-cases}
use multi_tenant_shipping_ma.Shared.Ensures.{Ensures, bind-Ensures, lift-step, Ensures-step}
use multi_tenant_shipping_ma.CustomerShipment.Parcel.{Parcel}
use multi_tenant_shipping_ma.Billing.Service.{assert_settled_for_delivery}
use multi_tenant_shipping_ma.Billing.Service.Soundness.{IsSound}
use multi_tenant_shipping_ma.Billing.Service.History.{assert_settled_collected}
use multi_tenant_shipping_ma.Handover.Store.{
  ProofData, World, Delivering, in_billing, from_billing, exists_for_parcel, create_proof,
}
use multi_tenant_shipping_ma.Handover.Commands.{
  RecordDelivery, Files, Desk, assert_required, collect_parcel, save_first, save_each, proof_data,
  hand_over,
}
use multi_tenant_shipping_ma.Handover.Books.{
  IsSettled, assert_settled_reads, returned, LeavesBooks, failing_with_ok,
  collect_parcel-LeavesBooks,
}

-- What is left after a delivery: the parcel has one more proof, its first, and the shipment is
-- settled in sound books.
abbrev pub Delivered : Parcel → World → ℕ → World → Type 0
Delivered parcel w proof w' =
    IsSound w'.billing
    × IsSettled parcel.customer_shipment_id w'.billing
    × (exists_for_parcel parcel.id w.proofs ≡ false)
    × ((row : ProofData) × (row.parcel_id ≡ parcel.id)
        × (w'.proofs ≡ record { id = proof; row = row } ∷ w.proofs))

abbrev IsFirstProof : ProofData → World → ℕ → World → Type 0
IsFirstProof row w proof w' =
    (w'.billing ≡ w.billing)
    × (exists_for_parcel row.parcel_id w.proofs ≡ false)
    × (w'.proofs ≡ record { id = proof; row = row } ∷ w.proofs)

create_proof-Ensures :
    (row : ProofData) (w : World) → Ensures (IsFirstProof row w) (create_proof row w)
unfolding create_proof
create_proof-Ensures row w = elim (Bool-cases (exists_for_parcel row.parcel_id w.proofs)) [
  | inl h ↦ rw h tt
  | inr h ↦ rw h (refl, h, refl)
]

module _ (desk : Desk) where
  proof_data-Ensures :
      (parcel : Parcel) (dto : RecordDelivery) (files : Files) (employee_id now : ℕ) (w : World)
      → Ensures
          (λ row w'. (w' ≡ w) × (row.parcel_id ≡ parcel.id))
          (proof_data desk parcel dto files employee_id now w)
  unfolding proof_data
  proof_data-Ensures parcel dto files employee_id now w =
      elim (Result-cases (save_first desk parcel.tenant_id files.signature)) [
        | inr (x, a) ↦ rw a tt
        | inl (k, a) ↦ elim (Result-cases (save_first desk parcel.tenant_id files.id_photo)) [
          | inr (x, b) ↦ rw (a, ◌>>=◌, b) tt
          | inl (l, b) ↦ elim (Result-cases (save_first desk parcel.tenant_id files.parcel_photo)) [
            | inr (x, c) ↦ rw (a, ◌>>=◌, b, ◌>>=◌, c) tt
            | inl (m, c) ↦
                elim (Result-cases (save_each desk parcel.tenant_id files.additional_photo)) [
                  | inr (x, d) ↦ rw (a, ◌>>=◌, b, ◌>>=◌, c, ◌>>=◌, d) tt
                  | inl (n, d) ↦ rw (a, ◌>>=◌, b, ◌>>=◌, c, ◌>>=◌, d) (refl, refl)
                ]
          ]
        ]
      ]

  pub hand_over-Ensures :
      (parcel : Parcel) (dto : RecordDelivery) (files : Files) (employee_id now : ℕ) (w : World)
      → IsSound w.billing
      → Ensures (Delivered parcel w) (hand_over desk parcel dto files employee_id now w)
  unfolding hand_over
  hand_over-Ensures parcel dto files employee_id now w sound =
      bind-Ensures Q (in_billing (assert_settled_for_delivery shipment_id)) (λ _. checked) w
        (λ _ w1 passed.
          let settled = assert_settled_collected w.billing shipment_id sound (
            returned (assert_settled_for_delivery shipment_id) w.billing
              (failing_with_ok from_billing _ (ap (λ p. p.0) passed))
              (assert_settled_reads shipment_id w.billing)) in
          let same : w1 ≡ w =
            sym (ap (λ p. p.1) passed)
            ∙ ap (λ b. record w { billing = b }) (assert_settled_reads shipment_id w.billing) in
          subst (λ t. Ensures Q (checked t)) (sym same)
            (lift-step Q (assert_required (desk.delivery_settings parcel.tenant_id) files)
              (λ _. stored) w
              (λ _ _.
                Ensures-step Q (λ row w'. (w' ≡ w) × (row.parcel_id ≡ parcel.id))
                  (proof_data desk parcel dto files employee_id now) proven w
                  (proof_data-Ensures parcel dto files employee_id now w)
                  (λ row w2 (same2, of).
                    subst (λ t. Ensures Q (proven row t)) (sym same2)
                      (Ensures-step Q (IsFirstProof row w) (create_proof row)
                        (λ proof. collect_parcel desk.committed parcel notes >> pure proof) w
                        (create_proof-Ensures row w)
                        (λ proof w3 (b, first, ps).
                          Ensures-step Q (LeavesBooks w3)
                            (collect_parcel desk.committed parcel notes) (λ _. pure proof) w3
                            (collect_parcel-LeavesBooks desk.committed parcel notes w3)
                            (λ _ w4 (b4, ps4). (
                              subst IsSound (sym (b4 ∙ b)) sound,
                              subst (IsSettled shipment_id) (sym (b4 ∙ b)) settled,
                              subst (λ k. exists_for_parcel k w.proofs ≡ false) of first,
                              (row, of, ps4 ∙ ps),
                            ))))))))
    where
      shipment_id : ℕ
      shipment_id = parcel.customer_shipment_id

      notes : String
      notes = desk.received_by_text dto.received_by_name

      Q : ℕ → World → Type 0
      Q = Delivered parcel w

      proven : ProofData → Delivering ℕ
      proven row =
          create_proof row >>= λ proof. collect_parcel desk.committed parcel notes >> pure proof

      stored : Delivering ℕ
      stored = proof_data desk parcel dto files employee_id now >>= proven

      checked : Delivering ℕ
      checked = lift (assert_required (desk.delivery_settings parcel.tenant_id) files) >> stored
