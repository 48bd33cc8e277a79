-- ===== src/Lib.antt =====
-- lab-inventory: the parts of the server that decide.
--
-- The program is a server that keeps the inventory of several laboratories in Postgres. Each
-- request names an actor, is confined to a laboratory by its context, and is checked against the
-- permissions before its handler runs. Label printers of a laboratory are reached over TCP.
--
-- AccessControl models backend/src/access_control.rs and the roles of
-- backend/src/domain/{user_type,user_role}.rs. AccessControl/Actors has the actors, the contexts
-- (`from_request`, `authorization_actor`) and the checks that need no row; AccessControl/Views the
-- checks that read rows (`can_manage_...`, `can_view_...`); AccessControl/Permissions the match of
-- `validate_permission`, one function for each resource. The database is a record of functions
-- from ids to a row, no row or an error, one for each select of the source; it does not change
-- during a check. Targets, Isolation, Roles, Guests and Editors are the proofs.
--
-- LabelPrinting models backend/src/label_printing. LabelPrinting/Media is media.rs; LabelPrinting/
-- Raster is raster.rs, with pages in Raster/Page, the drawing of a row in Raster/Blit, compression
-- in Raster/PackBits and whole jobs in Raster/Job; LabelPrinting/Status is status.rs;
-- LabelPrinting/Transport is transport.rs. Bytes are numbers below 256, and an index out of range,
-- a subtraction below 0 and a failed conversion, which panic in the source, are `none`.
--
-- Inventory models the commands and the checks of inventory items. Inventory.antt has the
-- statuses, tracking modes, texts and quantities of
-- backend/src/domain/{inventory_status,asset_tracking_mode,
-- inventory_item_serial_number,update_user}.rs; Inventory/Sources and Inventory/Commands the
-- commands of new_inventory_item.rs, inventory_item_commands.rs and update_inventory_item.rs
-- there; Inventory/Rows the checks of backend/src/routes/inventory_items/{service,merge,split}.rs
-- on stored rows, up to the first write; Inventory/Stock the whole of a split and Inventory/Folding
-- the whole of a merge, on the stored items and attachments. Quantities are of any type with the
-- operations of an `f64`, and nothing is assumed of these, but in Conservation, the proof on the
-- totals of a split, they are natural numbers. Inventory/Aggregates is the unique index of the table
-- on quantity items, of backend/migrations; the other definitions leave the constraints of the table
-- out. Serials, Items, Merging, Refusing, Patching and Splitting are the other proofs.
--
-- Borrow models backend/src/routes/borrow_requests. Borrow.antt has the rows of model.rs and the
-- statements of queries.rs as functions on a store of items, requests and audit records;
-- Borrow/Flows the checks and flows of {service,create,cancel,resolve}.rs there. A flow is one
-- transaction, and the row locks that it takes make the flows a sequence. Filing, Settling and
-- Resolving say what a flow has checked and changed, Lifecycle is the step relation of the flows,
-- Specification the machine of the statuses that they implement, Closing and Progress what succeeds
-- under which conditions.
--
-- Federation models the requests between servers of backend/src/routes/federation.
-- Federation/Signing and Federation/Inbound are security.rs, from the signature to
-- `verify_inbound_request`; Federation/Nonces is `remember_nonce` of service.rs; Federation/Targets
-- the addresses that may be called; Federation/Pairing `accept_pairing` and `revoke_trust` with their
-- statements in queries.rs. Signatures, Genuine, Authentic, Replay, Freshness, Exchange,
-- Destinations, Codes, Reissuing, Trusts and Access are the proofs. The clocks are arguments, of the
-- program and of each statement on the nonces; the cryptography, base64, the parsing and printing of
-- ids and urls are parameters. An i64 is the number of its two's complement.
--
-- Loops over an index are recursion on the numbers left. `pack_bits` and `unpack_bits` run on
-- fuel, the number of bytes of their input, of which each turn takes at least one. The reader of
-- jobs, which is the specification of the encoder, runs on fuel for the number of pages.
--
-- The lookup of host names, the sockets with their timeouts, the parsing of uuids, the trimming of
-- texts and the rows that a query gives are parameters. Not modelled are the other
-- request handlers with their SQL, among them the creation and deletion of inventory items and the
-- write of a patch, the guest links and the answers of federation, the sessions and passwords, file
-- storage, the details of audit records and the front end.
--
-- Common has what the parts share: the Boolean tests on numbers, lists indexed by numbers, sets,
-- `Result` with its `?`, and, in Common/Partial, code that may panic. Each part's Tests run the
-- definitions and apply the theorems at concrete inputs.
pub mod Common
pub mod LabelPrinting
pub mod AccessControl
pub mod Federation
pub mod Inventory
pub mod Borrow
