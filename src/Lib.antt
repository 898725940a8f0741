-- ===== src/Lib.antt =====
-- Verification of the backend of a debt-collection platform (NestJS, TypeScript): the core of its
-- payment subsystem (src/payments), of its operations at Serasa (src/providers) and of its
-- authentication (src/auth).
--
-- The program and its model
-- A charge is issued to a debtor of a contract through an adapter of a payment provider, and
-- becomes PAID on three ways: a periodic job asks the provider, a user synchronises the charge, or
-- the bank calls a webhook. Each of them writes an immutable settlement and a line of the
-- contract's history; the contract carries a projection of its settlements. Users log in with a
-- password and hold sessions that a rotating refresh token prolongs.
--
-- Base holds the shared names. Base.Rows has the queries that stand for those of the Prisma
-- client: a table is the list of its rows in the order of creation, a `where` clause a Boolean
-- test, `updateMany` a change in place. Base.Effect has the effects of a service method: a
-- function from the state to an outcome, which is a value or what was thrown, and the state; what
-- was written before a throw stays. Base.Keys is about unique keys, Base.Int about signed amounts
-- and rounding.
--
-- Payments.Model and Payments.Store model the enums of src/payments/enums.ts, the entities of
-- src/payments/entities and the tables of prisma/schema.prisma that the services share. Amounts
-- are in cents and percentages in hundredths, as the Decimal columns keep them; dates are
-- milliseconds; a text that the code only compares is a number. The unique keys of the tables are
-- checked by the insertions, and a refusal is the error P2002 of the database.
--
-- Payments.Factory models src/payments/adapters: the adapters are records of functions, parameters
-- of the model, since their answers come from a remote server.
--
-- Payments.Lifecycle models src/payments/charge-lifecycle.job.ts. `execute` runs over the batch
-- that `candidates` selects, so it needs no fuel. `reconcile_charge` is reconcileCharge,
-- `apply_update` its choice of a transition, `transition_to_paid` and its kin the transitions. The
-- argument `meanwhile` is what others write to the database between two charges of a cycle.
--
-- Payments.PixWebhook models src/payments/webhooks/bb-pix-webhook.service.ts: `process_pix_entry` is
-- processPixEntry, with arguments for what others write before the update of a charge and before
-- the insertion of a settlement, so that the branches for P2025 and P2002 are reached. It runs on the
-- state of Providers.Model and calls the automatic removal of Providers.Removal, whose errors it
-- throws; Payments.PixWebhook.Removals has what this call does to the tables of the payments.
--
-- Payments.Settlement models src/payments/settlement/settlement-processor.service.ts:
-- `process_event` and `process_reversal`, each a check, a query and a transaction.
--
-- Payments.Charges models src/payments/payment-charges.service.ts: the helpers in Charges, the
-- `try` and the `catch` around an issue in Charges.Issue, createCharge, createPixForContract and
-- createPixByDocument in Charges.Create over Charges.Inputs, listCharges and syncCharge in
-- Charges.Sync. Identifiers, transaction ids and the clock are arguments of a request.
--
-- Payments.Agreements models src/payments/agreement-lifecycle.job.ts.
--
-- Auth.Sessions, Auth.Tokens, Auth.Service and Auth.RateLimit model src/auth/services,
-- src/auth/auth.service.ts and the login handler of src/auth/auth.controller.ts. Argon2, SHA-256
-- and the random tokens are parameters; the claims of an access token stand for the signed token.
-- The counters and the reset entries of Redis are lists whose entries go when their time has come.
--
-- Documents models the check digits of CPF and CNPJ and the validator of a document in src/common,
-- on texts of ASCII characters, given by their codes.
--
-- Imports models `normalizeCurrencyValue` of src/imports/utils/import-line.util.ts, on texts like
-- those of Documents.
--
-- Contracts has the row of a contract with its wallet, which the payment services and the services
-- of src/providers share.
--
-- Providers models src/providers: the inclusion of debts at Serasa and their removal.
-- Providers.Model has the rows, the queue of jobs and the state; Providers.Selection and
-- Providers.Operations the service src/providers/operations.service.ts up to its cancellation,
-- Providers.Removal the rest of it: cancelContract, createAutomaticRemovalForPaidContract, and
-- reconcileStaleSerasaRemovals with an argument for what others write between two items.
-- Providers.Requests and Providers.Processor model src/providers/processors/operation.processor.ts
-- (`process` and what it calls), Providers.Adapter the payloads and the loop of retries of
-- src/providers/adapters, whose answers are a parameter; Providers.Payload, Providers.Webhooks and
-- Providers.Webhooks.Handler model src/providers/webhooks.service.ts. The loop of retries has the
-- three rounds of MAX_RETRIES; all other loops run over lists. Providers.Created follows an
-- operation from its creation to its end over the worker's jobs; Providers.Invariant has the calls
-- of all these parts as a step relation and what holds of every state that they reach;
-- Providers.Race and Providers.Stranded are about orders of calls. Providers.CreditorRemoval
-- models src/providers/creditor-removal.service.ts: the lines of a file as the library for
-- spreadsheets reads them are an argument, their match with contracts and the batches of 2000 rows
-- in it are Providers.CreditorRemoval, and the job that cancels the contracts is
-- Providers.CreditorRemoval.Apply. The fuel of the batches is the number of rows, of which each
-- batch takes one at least. The payload of a webhook is a record of the members that the code
-- reads, as it reads them; the texts `SERASA:...` that the code makes of an event are a data type,
-- so that two of them are equal only where their parts are.
--
-- What is not modelled
-- Database connections that fail, logging, e-mails, HTTP, the JSON payloads that are only stored,
-- the contact data that are only handed to the provider, and the other parts of the program: the
-- services of contracts and messages, the rest of the imports, reports, the listings and
-- counts of operations, and the upload and the listing of a creditor's removals.
pub mod Base
pub mod Contracts
pub mod Auth
pub mod Documents
pub mod Imports
pub mod Payments
pub mod Providers
