-- ===== src/Lib.antt =====
-- LexiLedger's backend: accounts and sessions, the upload of bank statements and their processing
-- by a queue, the transactions that come out of it, and budgets on them.
--
-- A request is an action: a function from a world to a result and a world, where the result may be
-- an exception and what was written before it stays written (Platform/Monad.antt). The world is
-- the tables of prisma/schema.prisma (Schema.antt), the objects of the store, the jobs of the
-- queue and the emails sent, and it counts the readings of the clock, the draws of random values
-- and the ids given out, so that each is a new one.
--
-- What is outside the program is an argument, `Env` (Platform/Services.antt): the queries of the
-- Prisma client with their documented behaviour as laws (Platform/Client.antt, Platform/Groups.antt),
-- the clock, uuids, random values, SHA-256, bcrypt, the signing and the check of access tokens,
-- arithmetic on doubles, dates and emails in texts, the messages of a failed validation, PDF text and
-- Gemini. No law is asked of a hash, so two tokens may share one: where a theorem needs a row with a
-- hash of its own, it says so. Platform/Memory.antt is a value of `Env`, a database in memory, at
-- which the theorems are applied in Tests.
--
-- The modules and the code:
--   RefreshTokens             src/module/refresh-tokens: issue, rotation, reuse, revocation
--   PasswordResetTokens       src/module/password-reset-tokens: codes for one change of a password
--   EmailVerificationTokens   src/module/email-verification-token: codes that confirm an address
--   OneTimeTokens             what the two tables of codes have in common
--   Users                     src/module/users
--   MailService               src/module/mail: the two emails
--   AuthService               src/module/auth/auth.service.ts, over the modules above
--   AuthController            src/module/auth/auth.controller.ts: cookie or body
--   Transactions              src/module/transactions and src/module/dashboard
--   Calendar, Budgets         src/module/budget, with the months of `Date.UTC`
--   Statements                src/module/statements and src/storage: upload, queries, the queue
--   Statements/Processor      statements.processor.ts, its dto, src/common/utils/money.util.ts
--   Statements/Processor/Runs the attempts at a job together, with bullmq's worker as a parameter
--   Api                       src/common, the strategy, the dto classes and the controllers: a
--                             request passes the guard, then the validation, then its handler, and
--                             the interceptor or the exception filter makes the reply
-- A definition has the name of the method that it models; the steps of a method after a lookup or a
-- test are definitions of their own, as `validate_found` and `rotate` for `validateAndRotate`.
-- Definitions stand in the parent module, and the children hold what is proved.
--
-- Numbers: an id is a uuid that is only compared, and stands as a number; a time is its milliseconds
-- from the start of the calendar; an amount is an integer of kobo; a double is opaque, and only `Env`
-- computes with it. The loop that issues a code makes at most five attempts, and recursion is on the
-- attempts left. `getUTCFullYear` searches from a year that is not late, with as many steps as there
-- are days, and `getUTCMonth` with eleven.
--
-- The database client refuses a query with an Invalid Date, or with an integer that does not fit the
-- 32 bits of its column, before anything is written (`refusal` of Platform/Client.antt); a date in a
-- text is `none` where `new Date` is invalid. A month is a text: the empty one takes the current
-- month, and a part that is no number throws; of the texts that `Number` reads only those of digits
-- are told from NaN, since FindBudgetsDto lets no other through. A path is a constructor of
-- `PublicRoute` or `UserRoute` (Api/Routes.antt) with the arguments of the request, already of their
-- types.
--
-- Not modelled: the columns that no code reads, foreign keys, lost connections, two requests at the
-- same time, the reading of a request's text, limits on the number of requests, documentation, the
-- wiring of the modules, the variables of the environment that the files of src/config read,
-- logging, and the insides of the services of `Env`.
pub mod Base
pub mod Schema
pub mod Platform
pub mod RefreshTokens
pub mod OneTimeTokens
pub mod PasswordResetTokens
pub mod EmailVerificationTokens
pub mod Users
pub mod MailService
pub mod AuthService
pub mod AuthController
pub mod Transactions
pub mod Calendar
pub mod Budgets
pub mod Statements
pub mod Api
pub mod Tests
