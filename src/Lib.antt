-- ===== src/Lib.antt =====
-- A verification library for the TypeScript client of the dynamic AMM, ts-client/src/amm.
--
-- The client fetches the accounts of a pool and of its two vaults, and computes from them what a swap, a deposit
-- or a withdrawal will give. A pool has one of two curves, a constant product or a stable curve; its tokens lie in
-- vaults, of which the pool holds shares.
--
-- The parts, and the files that model them:
--
--   Prelude           lists, results with errors, and the integers of the client
--   Types, Constants  types/index.ts, the pool account of idl.ts, and constants.ts
--   Curve             curve/index.ts: directions, results and the price impact
--   ConstantProduct   curve/constant-product.ts: ceilDiv and the class ConstantProductSwap
--   Calculator        curve/stable-swap-math/calculator.ts: computeD, computeY, normalizedTradeFee
--   StableSwap        curve/stable-swap.ts: the class StableSwap
--   SwapCurve         the interface SwapCurve, which calls one of the two classes
--   Utils             utils.ts: slippage, fees, actual deposits, the largest amount that can be swapped out
--   Keys              utils.ts: seeds, derived addresses, token multipliers and initial curves
--   Chunks            utils.ts: requests for accounts, chunk by chunk
--   DepegAccounts     utils.ts: getStakePubkey and getDepegAccounts
--   Vault             the package @mercurial-finance/vault-sdk, a parameter
--   Quote             utils.ts: calculatePoolInfo and calculateSwapQuote
--   Memecoin          utils.ts: calculateSwapQuoteForGoingToCreateMemecoinPool
--   Pool              index.ts: the quotes and computed properties of the class AmmImpl; below it, Pool/Accounts
--                     fetches and decodes the accounts, Pool/State has create and updateState, and Pool/State/Run the
--                     orders in which quotes and updates can follow one another
--   Idl               idl.ts: what the program's interface description asks of the calls that the client makes
--   Transactions      index.ts and utils.ts: the transactions of swaps, deposits, withdrawals, locks, new pools and
--                     new configurations, as data; Transactions/Accepts holds them against Idl, and
--                     Transactions/Runs runs them against the token accounts that exist
--   Multiple          index.ts: createMultiple
--   Errors            error.ts and the errors of idl.ts: the class DynamicAmmError
--   Queries           index.ts and utils.ts: searches of pools, escrows and balances
--   Examples          concrete packages and pools, to which the theorems are applied
--
-- A function of the client has its name in snake case (calculateSwapQuote is calculate_swap_quote). Where a
-- function is long, its steps have names of their own, and the function is their composition. Each component has
-- child modules that are named for what they prove.
--
-- Numbers: a BN and a bigint are both an integer ℤ over the native ℕ. Division truncates towards zero and throws at
-- a zero divisor; toNumber throws outside the integers that a JavaScript number holds exactly. Times and slots,
-- which the client holds as JavaScript numbers, are integers. A public key is the number that its bytes spell.
--
-- State: a class is a record. A method that changes its object returns the new object beside its result: a
-- StableSwap whose cached price is refreshed, an AmmImpl whose curve is. Errors are values of Result, one
-- constructor of Error for each throw, failed invariant or run-time exception.
--
-- Loops: computeD and computeY run at most MAX_ITERS rounds in the source, which is 20; the model's loops recurse
-- on the rounds that are left, so that they stop exactly when the source does and no bound is added.
--
-- Code from other packages is a parameter: decimal.js (DecimalJs), the fractions of token-math (TokenMath), the
-- account decoders (AccountData), bn-sqrt and divRound (Packages), the arithmetic of JavaScript numbers in slippage
-- rates (Numbers), findProgramAddress, the vault SDK (VaultSdk) and the remote procedure calls. A theorem that needs
-- their documented behaviour has it as a hypothesis.
--
-- Objects as they change: AmmImpl keeps the price that a stable curve has cached, and the curve object and the pool
-- state share it; Pool.with_curve and shares_depeg say when a refresh is seen in both. An update that fails keeps
-- the changes that it has made up to then. Left out are a refreshed price that a quote leaves behind when it throws,
-- and that two objects which createMultiple makes of one pool share one price.
--
-- The loop of createConfig runs on fuel, one round more than there are configurations, which is shown to be enough.
--
-- Transactions: an instruction is its program's method, the named accounts and the arguments. Recent block hashes
-- and signatures are left out. Transactions/Runs looks at an instruction only as far as token accounts are made,
-- used and closed; balances and the program's own checks are left out.
--
-- A request for several accounts always answers: that it may be rejected, and that the decoders of Marinade's, Lido's and
-- a stake pool's account may throw, is left out. Of the three requests of updateState, which run together, the first in the
-- order of the source is the one whose error is reported.
--
-- Not modelled: the two look-ups of configurations that only pass a request on, getUserBalance, the making of
-- providers and programs, the scripts in ts-client/src/examples, and the Rust crates of the repository. The decimal
-- that a virtual price is rounded to by toNumber is left out.
pub mod Prelude
pub mod Curve
pub mod ConstantProduct
pub mod Types
pub mod Calculator
pub mod Constants
pub mod StableSwap
pub mod SwapCurve
pub mod Utils
pub mod Keys
pub mod Chunks
pub mod DepegAccounts
pub mod Vault
pub mod Quote
pub mod Memecoin
pub mod Pool
pub mod Idl
pub mod Transactions
pub mod Queries
pub mod Errors
pub mod Multiple
pub mod Examples
