-- ===== src/Idl/Errors.antt =====
-- ts-client/src/amm/idl.ts: the errors of the program.
use Prim.Native.String.{String}
use mercurial_dynamic_amm_sd.Prelude.{ℕ, List, [], ◌∷◌}

pub record IdlError : Type 0 where
  pub code : ℕ
  pub name : String
  pub msg : String

abbrev idl_error : ℕ → String → String → IdlError
idl_error code name msg = record { code = code; name = name; msg = msg }

abbrev pub idl_errors : List IdlError
idl_errors =
    idl_error 6000 "MathOverflow" "Math operation overflow"
    ∷ idl_error 6001 "InvalidFee" "Invalid fee setup"
    ∷ idl_error 6002 "InvalidInvariant" "Invalid invariant d"
    ∷ idl_error 6003 "FeeCalculationFailure" "Fee calculation failure"
    ∷ idl_error 6004 "ExceededSlippage" "Exceeded slippage tolerance"
    ∷ idl_error 6005 "InvalidCalculation" "Invalid curve calculation"
    ∷ idl_error 6006 "ZeroTradingTokens" "Given pool token amount results in zero trading tokens"
    ∷ idl_error 6007 "ConversionError" "Math conversion overflow"
    ∷ idl_error 6008 "FaultyLpMint"
        "LP mint authority must be 'A' vault lp, without freeze authority, and 0 supply"
    ∷ idl_error 6009 "MismatchedTokenMint" "Token mint mismatched"
    ∷ idl_error 6010 "MismatchedLpMint" "LP mint mismatched"
    ∷ idl_error 6011 "MismatchedOwner" "Invalid lp token owner"
    ∷ idl_error 6012 "InvalidVaultAccount" "Invalid vault account"
    ∷ idl_error 6013 "InvalidVaultLpAccount" "Invalid vault lp account"
    ∷ idl_error 6014 "InvalidPoolLpMintAccount" "Invalid pool lp mint account"
    ∷ idl_error 6015 "PoolDisabled" "Pool disabled"
    ∷ idl_error 6016 "InvalidAdminAccount" "Invalid admin account"
    ∷ idl_error 6017 "InvalidProtocolFeeAccount" "Invalid protocol fee account"
    ∷ idl_error 6018 "SameAdminAccount" "Same admin account"
    ∷ idl_error 6019 "IdenticalSourceDestination"
        "Identical user source and destination token account"
    ∷ idl_error 6020 "ApyCalculationError" "Apy calculation error"
    ∷ idl_error 6021 "InsufficientSnapshot" "Insufficient virtual price snapshot"
    ∷ idl_error 6022 "NonUpdatableCurve" "Current curve is non-updatable"
    ∷ idl_error 6023 "MisMatchedCurve" "New curve is mismatched with old curve"
    ∷ idl_error 6024 "InvalidAmplification" "Amplification is invalid"
    ∷ idl_error 6025 "UnsupportedOperation" "Operation is not supported"
    ∷ idl_error 6026 "ExceedMaxAChanges" "Exceed max amplification changes"
    ∷ idl_error 6027 "InvalidRemainingAccountsLen" "Invalid remaining accounts length"
    ∷ idl_error 6028 "InvalidRemainingAccounts" "Invalid remaining account"
    ∷ idl_error 6029 "MismatchedDepegMint" "Token mint B doesn't matches depeg type token mint"
    ∷ idl_error 6030 "InvalidApyAccount" "Invalid APY account"
    ∷ idl_error 6031 "InvalidTokenMultiplier" "Invalid token multiplier"
    ∷ idl_error 6032 "InvalidDepegInformation" "Invalid depeg information"
    ∷ idl_error 6033 "UpdateTimeConstraint" "Update time constraint violated"
    ∷ idl_error 6034 "ExceedMaxFeeBps" "Exceeded max fee bps"
    ∷ idl_error 6035 "InvalidAdmin" "Invalid admin"
    ∷ idl_error 6036 "PoolIsNotPermissioned" "Pool is not permissioned"
    ∷ idl_error 6037 "InvalidDepositAmount" "Invalid deposit amount"
    ∷ idl_error 6038 "InvalidFeeOwner" "Invalid fee owner"
    ∷ idl_error 6039 "NonDepletedPool" "Pool is not depleted"
    ∷ idl_error 6040 "AmountNotPeg" "Token amount is not 1:1"
    ∷ idl_error 6041 "AmountIsZero" "Amount is zero"
    ∷ idl_error 6042 "TypeCastFailed" "Type cast error"
    ∷ idl_error 6043 "AmountIsNotEnough" "Amount is not enough"
    ∷ idl_error 6044 "InvalidActivationDuration" "Invalid activation duration"
    ∷ idl_error 6045 "PoolIsNotLaunchPool" "Pool is not launch pool"
    ∷ idl_error 6046 "UnableToModifyActivationPoint" "Unable to modify activation point"
    ∷ idl_error 6047 "InvalidAuthorityToCreateThePool" "Invalid authority to create the pool"
    ∷ idl_error 6048 "InvalidActivationType" "Invalid activation type"
    ∷ idl_error 6049 "InvalidActivationPoint" "Invalid activation point"
    ∷ []
