-- ===== src/Lib.antt =====
-- Verification of the core of the GDL finance back end. Paths are below
-- services/typescript/user-service.
--
-- What is modelled, and where:
-- Base: shared tests, tables as lists of rows, integers, and methods with exceptions.
-- Wallet: src/user/virtual-account/virtual-wallet.service.ts and the database triggers of
-- src/migrations/1767021896000-ProtectBalance.ts. `Wallet/Entity` has the rows, `Wallet/Database`
-- the triggers, `Wallet/Service` the operations.
-- Flexi: src/flexi/flexi.service.ts, the approval of Flexi requests along the levels of an approval
-- workflow (src/admin/approval-workflow/entities). `Flexi/Entity` has the rows, `Flexi/Store` the
-- reads and writes of FlexiService, `Flexi/Tenure` the dates, `Flexi/Skip` evaluateAndSkipLevels,
-- `Flexi/Status` updateStatus, `Flexi/Extension` the extension of the tenure. The proofs are in
-- `Flexi/SkipLaws` and `Flexi/Levels` (the skipping of levels), `Flexi/Saved` and `Flexi/Checks`
-- (parts of updateStatus), `Flexi/Approval`, `Flexi/Disbursal`, `Flexi/Safety`, `Flexi/Unpaid`,
-- `Flexi/Progress`, `Flexi/Pending`, `Flexi/Reach` and `Flexi/Journey` (the way of a request, which `Flexi/Create`
-- creates, to its disbursement). `Flexi/Agent` has the accounts of Flexi agents, with
-- `Flexi/AgentLaws`.
-- Workflow: src/admin/approval-workflow/approval-workflow.service.ts, the creation, the update and
-- the removal of the workflows that Flexi requests go through, on the same tables.
-- `Workflow/Service` has the operations; the proofs are in `Workflow/Laws` (refusals),
-- `Workflow/Unique` (names and modules) and `Workflow/Migration` (requests under way).
-- Pool: src/user/investment-pull, the investment pools of a user. `Pool/Service` has the creation, the
-- deduction with its audit, the update and the daily accrual; the proofs are in `Pool/Ledger` (the
-- balances), `Pool/Account` (the pool as an abstract account), `Pool/Deduction`, `Pool/Race` (two
-- requests at once) and `Pool/Accrual`. `Pool/Portfolio` has the two views of the positions that
-- Infoware answers.
-- Invest: src/user/investment-request, src/user/investment-request-canary and
-- src/user/investment-request-income, the requests to invest in a fund and to redeem. The services
-- of the Canary and Income funds differ in little but the fund, and share with that of the MMF what the
-- three have in common; an operation with a fund as its argument is of that kind. `Invest/Store`
-- has the tables and the exceptions, `Invest/Funding` the check of the balance, the debit and its
-- reversal by the wallet service, `Invest/Approve`, `Invest/Manage`, `Invest/Create`,
-- `Invest/Redemption` and `Invest/Withdraw` the operations. `Invest/Keeps`, `Invest/Accounts`,
-- `Invest/Preserved` and `Invest/PreservedRest` have the rules for what an operation keeps,
-- `Invest/History` the sequences of calls; `Invest/Tables`, `Invest/References`, `Invest/Payment`,
-- `Invest/Settlement`, `Invest/Positions` and `Invest/Ready` carry the proofs in `Invest/Outcome`,
-- `Invest/Refused`, `Invest/Infoware`, `Invest/Covered`, `Invest/Redeemed`, `Invest/Withdrawn` and
-- `Invest/Closed`.
-- Auth: src/user/auth/auth.service.ts. `Auth/Otp` has the one-time passwords and their clean-up,
-- `Auth/Login` the login with devices and two factors, `Auth/Password` new passwords and the
-- confirmation of the address; the proofs are in `Auth/Window`, `Auth/Recovery`,
-- `Auth/Access` and `Auth/TwoFactor`.
-- Common: parts of src/common. `Common/Signature` has the signatures of internal requests
-- (utils/internal-security.service.ts), `Common/Sanitizer` the sanitising of logs
-- (utils/log-sanitizer.ts), `Common/Cors` the middleware for origins
-- (middlewares/cors.middleware.ts); the proofs are in `Common/KeyOrder`, `Common/Verified` and
-- `Common/CorsLaws`. `Common/Text`, `Common/ParseInt` and `Common/Json` are what these share.
--
-- Conventions. A table is the list of its rows in the order of their primary keys, and `findOne`
-- takes the first row that fits. Money columns are DECIMAL(20,2): an amount is its number of
-- hundredths, an unbounded integer; the rounding of JavaScript numbers is not modelled. A method is
-- a function from a database to its result and the database that it leaves; a database transaction
-- puts the old database back on an error. Logging is left out. Where a method reads single
-- characters, a text is the list of the codes of its characters, which are ASCII. Libraries such as
-- bcrypt, HMAC and the collation of the database are fields of a record that the methods take.
-- The loop over the levels runs on fuel: one round for each level from the current one to one past
-- the last, and one more. A relation to a row that is soft-deleted is not loaded. A time is a number
-- of milliseconds, and a day has 86,400,000 of them, as in a time zone without clock changes.
--
-- Not modelled: the external services (Symplus, Infoware, file storage, notifications), which are
-- parameters where an operation depends on their answer; HTTP, access rules and the signing of
-- tokens; the lists of the investment requests; the registration and the other modules of the user
-- service, and the other services.
pub mod Auth
pub mod Base
pub mod Common
pub mod Flexi
pub mod Invest
pub mod Pool
pub mod Wallet
pub mod Workflow
