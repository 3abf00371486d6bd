-- ===== src/Lib.antt =====
-- Verification of the loan-servicing core of the inpockets backend.
--
-- The backend lends money: an offer is priced (app/domain/pricing.py), paid out, split into
-- installments (app/domain/repayment.py) and collected by payments whose outcome an outside provider
-- reports (app/services/repayment.py). Every movement of money is posted to a double-entry ledger
-- (app/domain/ledger.py, app/services/ledger.py, app/repositories/ledger.py). Overdue installments
-- bear charges (app/domain/late_charges.py, app/services/late_charges.py) and come to collections
-- (app/domain/collections.py, app/services/collections.py); the books are compared with the
-- provider's report (app/domain/reconciliation.py). Before an offer is made a risk engine
-- (app/services/risk_engine.py) scores the application and a policy engine
-- (app/services/policy_engine.py) routes it; an accepted offer is signed electronically
-- (app/services/esign.py) before it is paid out. The modules here are functions over explicit
-- state, translated from that code, with what is shown of them.
--
-- Parts:
--   Base: numbers, lists, results, signed integers, and Python's Decimal. An amount is an integer of
--     paise. `Base.Precision` is decimal arithmetic of 28 digits, for rates and quotients; a power is
--     taken as correctly rounded there. A lookup or a raised exception is a value: Option or Result.
--   Ledger: the rules; Ledger.Tables holds the books, that is accounts, transactions and entries;
--     Ledger.Posting is `post` and `reverse`; Ledger.Business the postings of a disbursement and of a
--     repayment; Ledger.Balances the balances and the trial balance. Lines, Inversion, Trial,
--     TrialBalance, Replay, Reversing, Keys, Succeeding and Postings prove what holds of them.
--   Repayment: the statuses; Schedule and Allocation are `build_schedule` and `allocate`;
--     Repayment.Payments is the service on one payment with its installments under the locks, Applying
--     is `_apply`, Callers are the functions that call it, and Initiating is the request to pay.
--     Splitting, Waterfall, Order, Settling, Settlement, Balancing, Lifecycle, Following and Initiation
--     prove what holds of them.
--   Payout: the service on one payout under its lock, with the ledger: the moves and what they post;
--     Applying is `_apply`, Submitting the functions that call it (app/services/disbursement.py,
--     app/repositories/disbursement.py, app/models/disbursement.py); Calls puts calls and the commits
--     of other sessions in a sequence; Soundness, Moving, Paying, Following, Calling, Running, Answering,
--     Resolving and Late prove what holds of them. Creating is the creation and the retry of payouts
--     on their table, and Numbering, Ordering and Retrying prove what holds of it.
--   Collections: the rules; Collections.Cases is the synchronisation of the cases of a schedule,
--     Collections.Working reminders, escalations and the work of agents (app/services/collections.py,
--     app/repositories/collection.py, app/models/collection.py). Buckets, Oldest, Mirroring, Keeping,
--     Syncing, Raising, Agents, Calls and Repeating prove what holds of them.
--   Pricing, LateCharges, Reconciliation, Statuses, Policy, Risk: the rules of these parts, and their
--     proofs in the modules below them.
--   Esign: the service of electronic signatures on one transaction under its lock
--     (app/services/esign.py, app/models/esign_transaction.py): callbacks, polls, starts of signing
--     and reviews; Initiating is the creation. Proving, Signing, Steps and Calls prove what holds of
--     them.
--   Examples: runs at concrete inputs.
--
-- The ledger is the one part that others call: `post_settlement` and `post_reversal` of Repayment
-- pass the parts of a payment to `post_repayment` and `reverse_repayment`, and `pay` and `take_back` of
-- Payout call `post_disbursement` and `reverse_disbursement`, in one transaction of the database, so
-- that an error gives no new state.
--
-- Parameters: `sha256` is the hash of a payload, about which nothing is assumed; `others` is what
-- other sessions commit between the look-up of a key and the insertion of a header. What the provider
-- answers is an argument.
--
-- Bounds: loops are structural recursion over lists or over the number of rounds that the code counts
-- (at most 60 installments, 80 bisections). `round28` takes as many steps as its terms are large; each
-- step moves a power of ten, so fewer are needed.
--
-- Constraints of the tables: a second live row of an offer, a second reversal of a transaction and
-- the provider reference of another row end a call in an integrity error. The CHECKs of the columns
-- are left out where the code's own guards come before them.
--
-- Left out: time stamps, descriptions and the texts of audit entries, listings, permissions, the web
-- interface, the providers' clients, and the services of bank checks, offers, assessments,
-- support and sign-in.
pub mod Base
pub mod Ledger
pub mod Repayment
pub mod Pricing
pub mod LateCharges
pub mod Collections
pub mod Reconciliation
pub mod Statuses
pub mod Policy
pub mod Payout
pub mod Risk
pub mod Esign
pub mod Examples
