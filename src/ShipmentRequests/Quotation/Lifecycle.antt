-- ===== src/ShipmentRequests/Quotation/Lifecycle.antt =====
-- backend/src/modules/shipment-request: request/domain/entities/shipment-request.entity.ts and
-- quotation/domain/entities/quotation.entity.ts.
use multi_tenant_shipping_ma.Shared.{
  ℕ, Bool, true, false, not, ◌&&◌, ◌||◌, Option, some, String, if◌then◌else◌, get_or, is_some,
}
use multi_tenant_shipping_ma.Shared.Effects.{Result, ok, err}
use multi_tenant_shipping_ma.ShipmentRequests.Pricing.Numbers.{Numbers}
use multi_tenant_shipping_ma.ShipmentRequests.Pricing.Calculation.{Measures}
use multi_tenant_shipping_ma.ShipmentRequests.Pricing.Matrix.{ServiceLevel}

pub data RequestStatus : Type 0 where
  pending customer_approved company_accepted rejected converted cancelled expired : RequestStatus

abbrev pub request_status_eq : RequestStatus → RequestStatus → Bool
request_status_eq pending pending = true
request_status_eq customer_approved customer_approved = true
request_status_eq company_accepted company_accepted = true
request_status_eq rejected rejected = true
request_status_eq converted converted = true
request_status_eq cancelled cancelled = true
request_status_eq expired expired = true
request_status_eq _ _ = false

pub data QuotationStatus : Type 0 where
  awaiting_customer approved turned_down lapsed withdrawn : QuotationStatus
  waiting_pricing waiting_pricing_request : QuotationStatus

abbrev pub quotation_status_eq : QuotationStatus → QuotationStatus → Bool
quotation_status_eq awaiting_customer awaiting_customer = true
quotation_status_eq approved approved = true
quotation_status_eq turned_down turned_down = true
quotation_status_eq lapsed lapsed = true
quotation_status_eq withdrawn withdrawn = true
quotation_status_eq waiting_pricing waiting_pricing = true
quotation_status_eq waiting_pricing_request waiting_pricing_request = true
quotation_status_eq _ _ = false

pub data QuotationType : Type 0 where
  automatic manual : QuotationType

abbrev pub is_manual : QuotationType → Bool
is_manual manual = true
is_manual automatic = false

-- One for each `throw` of the two aggregates and of their services.
pub data RequestError : Type 0 where
  cannot_accept cannot_accept_by_company cannot_cancel cannot_reject cannot_convert : RequestError
  cannot_approve not_manual cannot_request_price cannot_submit_price : RequestError
  amount_not_positive parts_do_not_add_up : RequestError
  quotation_not_found request_not_found inactive_company unknown_locations : RequestError
  -- what the database throws for a quotation that another request has approved
  quotation_taken : RequestError

-- The row of a request, less the coordinates of its ends.
pub record ShipmentRequest (A : Type 0) : Type 0 where
  pub id : ℕ
  pub target_tenant_id : Option ℕ
  pub customer_profile_id : ℕ
  pub origin_global_location_id : ℕ
  pub destination_global_location_id : ℕ
  pub sender_name : String
  pub sender_phone : String
  pub receiver_name : String
  pub receiver_phone : String
  pub expected_pieces_count : ℕ
  pub expected : Measures A
  pub notes : Option String
  pub status : RequestStatus
  pub approved_quotation_id : Option ℕ

module _ {A : Type 0} where
  unfoldable pub accept_quotation : ℕ → ShipmentRequest A → Result RequestError (ShipmentRequest A)
  accept_quotation quotation_id r =
      if not (request_status_eq r.status pending)
      then err cannot_accept
      else ok (record r { status = customer_approved; approved_quotation_id = some quotation_id })

  unfoldable pub accept_by_company : ShipmentRequest A → Result RequestError (ShipmentRequest A)
  accept_by_company r =
      if not (request_status_eq r.status customer_approved)
      then err cannot_accept_by_company
      else ok (record r { status = company_accepted })

  unfoldable pub cancel : ShipmentRequest A → Result RequestError (ShipmentRequest A)
  cancel r =
      if request_status_eq r.status cancelled
        || request_status_eq r.status converted
        || request_status_eq r.status rejected
        || request_status_eq r.status expired
      then err cannot_cancel
      else ok (record r { status = cancelled })

  unfoldable pub reject_by_company : ShipmentRequest A → Result RequestError (ShipmentRequest A)
  reject_by_company r =
      if request_status_eq r.status cancelled
        || request_status_eq r.status converted
        || request_status_eq r.status rejected
      then err cannot_reject
      else ok (record r { status = rejected })

  unfoldable pub convert : ShipmentRequest A → Result RequestError (ShipmentRequest A)
  convert r =
      if not (request_status_eq r.status company_accepted)
      then err cannot_convert
      else ok (record r { status = converted })

pub record Quotation (A : Type 0) : Type 0 where
  pub id : ℕ
  pub tenant_id : ℕ
  pub shipment_request_id : ℕ
  pub origin_org_unit_id : ℕ
  pub destination_org_unit_id : ℕ
  pub service_level : ServiceLevel
  pub quotation_type : QuotationType
  pub base_price : Option A
  pub weight_charge : Option A
  pub extra_fees : Option A
  pub amount : Option A
  pub status : QuotationStatus
  pub submitted_by_employee_id : Option ℕ

-- What an employee submits as the price of a manual quotation.
pub record SubmittedPrice (A : Type 0) : Type 0 where
  pub amount : A
  pub base_price : Option A
  pub weight_charge : Option A
  pub extra_fees : Option A

module _ {A : Type 0} where
  unfoldable pub approve : Quotation A → Result RequestError (Quotation A)
  approve q =
      if not (quotation_status_eq q.status awaiting_customer)
      then err cannot_approve
      else ok (record q { status = approved })

  unfoldable pub request_manual_price : Quotation A → Result RequestError (Quotation A)
  request_manual_price q =
      if not (is_manual q.quotation_type)
      then err not_manual
      else if not (quotation_status_eq q.status waiting_pricing_request)
      then err cannot_request_price
      else ok (record q { status = waiting_pricing })

module _ (n : Numbers) where
  open n use {Num, zero, add, sub, leb, milli}

  -- `Math.abs`
  abbrev pub abs : Num → Num
  abs a = if leb zero a then a else sub zero a

  abbrev has_components : SubmittedPrice Num → Bool
  has_components p = is_some p.base_price || is_some p.weight_charge || is_some p.extra_fees

  abbrev pub sum_of_parts : SubmittedPrice Num → Num
  sum_of_parts p =
      add (add (get_or p.base_price zero) (get_or p.weight_charge zero)) (get_or p.extra_fees zero)

  unfoldable pub submit_price :
      SubmittedPrice Num → Quotation Num → Result RequestError (Quotation Num)
  submit_price p q =
      if not (is_manual q.quotation_type)
      then err not_manual
      else if not (quotation_status_eq q.status waiting_pricing)
      then err cannot_submit_price
      else if leb p.amount zero
      then err amount_not_positive
      else if has_components p && not (leb (abs (sub p.amount (sum_of_parts p))) milli)
      then err parts_do_not_add_up
      else ok (record q { status = awaiting_customer })
