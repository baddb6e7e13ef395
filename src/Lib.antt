-- ===== src/Lib.antt =====
-- Verification library for the backend of the multi-tenant shipping platform (backend/src).
--
-- The program is a NestJS service over one relational database. A tenant takes customer shipments,
-- each of which has parcels; the parcels travel on transport manifests, and manifests on trips with a
-- vehicle and a driver; each shipment has an invoice, against which payments are recorded. A command
-- service loads aggregates, lets them decide, and writes the result through repositories, inside a
-- transaction of the database that is rolled back when a method throws. Billing asks for the phase of
-- a shipment before it refunds, and a delivery asks billing whether the invoice is settled; the fleet
-- module moves parcels through the facade of the customer-shipment module; trips call the manifest
-- service on their own transaction.
--
-- Shared: tests, lists, integers, tables as lists of rows with the queries that the repositories
--   make, and actions that return or throw with the tables that they leave
--   (packages/transaction/decorators/transactional.decorator.ts is `transactional`).
-- Billing: backend/src/modules/billing.
--   Money: constants/billing.constants.ts, amounts as integers in ten-thousandths of a currency unit.
--   Invoice: invoice/domain/entities/invoice.entity.ts.
--   Store: the two command repositories, whose rows are Rows.
--   Service: invoice.command.service.ts in Commands; the other files are about its methods.
-- CustomerShipment: backend/src/modules/customer-shipment.
--   Shipment: shipment/domain/entities/customer-shipment.entity.ts; Derived and
--   Follows are about recalculateStatus.
--   Parcel: parcel.entity.ts in Aggregate, the guarded writes in Store, and in Commands
--   shipment-status.recalculator.ts and parcel.command.service.ts; Locking is about the version that
--   guards a write.
-- Fleet: backend/src/modules/fleet.
--   Manifest: the manifest and item aggregates, their repositories, and manifest-command.service.ts;
--   Linked is about the assignment to a trip, Stuck about a manifest in transit with nothing loaded.
--   Vehicle: the entities, their repositories, and vehicle-command.service.ts; Holders and Releases
--   are about who holds which vehicle.
--   Trip: trip.entity.ts, its repositories, and trip-command.service.ts; Departure is about startTrip.
-- Handover: backend/src/modules/customer-shipment/proof-of-delivery. Its world is the tables of
--   CustomerShipment and of Billing with the proofs; Commands is recordDelivery, which calls both;
--   Books, Proofs and Settled are about what it guarantees.
-- ShipmentRequests: backend/src/modules/shipment-request.
--   Pricing: the price matrix, the computation of a quotation over numbers with the laws of an order,
--   and the prices of many routes read at once.
--   Quotation: the aggregates of requests and quotations in Lifecycle, their repositories in Store,
--   quotation-generation.service.ts in Generation, and both command services in Commands; Agreement
--   is about approved quotations.
-- Organization: backend/src/modules/organization/organization_unit; Limits is about the number of
--   units that a subscription allows.
-- Tenants: backend/src/modules/tenant, its tenants and subscriptions; Rows and Single are about the
--   subscription that is active, Logged is about the commands without a transaction, Order, Listing
--   and Pages are about the list of tenants, read in pages.
-- Authorization: backend/src/packages/authorization, expressions over policies in Executor; Verdict
--   is about what they decide.
-- Cache: backend/src/infrastructure/cache/providers/InMemoryCacheProvider.ts in Provider; Refinement
--   compares it with a table that does not expire, Transparency is about remember.
--
-- A method that changes an aggregate returns the new record, and camelCase names become snake_case.
-- Identifiers and times are natural numbers, and so is a tracking number. `new Date()` is an argument.
-- A database gives a new row the next number as its identifier. Where the code asks another module
-- (employees, organization units, tenant settings, the scope of the caller, the parcels that a
-- manifest moves), the answer is a parameter. A currency amount has at most two decimals once rounded,
-- and the column that stores it is a parameter with the laws that the code relies on. So are the
-- tables of parcels that a second connection sees during a transaction, the order in which the
-- database lists rows of one creation time, and whether it accepts a row of history. No fuel is used:
-- every definition is by structural recursion.
--
-- Not modelled: controllers, guards, policies and roles, the Redis cache, most read queries,
-- statistics, push messages, the storage of files, labels, the creation of shipments, and
-- the interleaving of two transactions other than by the version or the state that a write finds.
pub mod Shared
pub mod CustomerShipment
pub mod Billing
pub mod Fleet
pub mod ShipmentRequests
pub mod Handover
pub mod Authorization
pub mod Cache
pub mod Tenants
pub mod Organization
