-- ===== src/Cosmos/Retry.antt =====
-- RetryOnPreconditionFailed of pkg/database/cosmosdb/zz_generated_cosmosdb.go.
use aro_rp.Base.{ℕ, zero, suc, if◌then◌else◌}
use aro_rp.Api.Error.{Result, err, other, is_error_status_code}
use aro_rp.Action.{M, failed_with}

-- What would be returned without an attempt; there are five.
abbrev pub no_attempt : {A : Type 0} → Result A
no_attempt = err (other "no attempt was made")

module _ {S A : Type 0} where
  -- the loop, over the attempts left; `last` is the outcome of the attempt before
  unfoldable pub attempts : ℕ → Result A → M S A → M S A
  unfolding is_error_status_code
  attempts zero last f w = (last, w)
  attempts (suc n) last f w =
      let (r, w') = f w in
      let again = attempts n r f w' in if failed_with r 412 then again else (r, w')

  unfoldable pub retry_on_precondition_failed : M S A → M S A
  unfolding attempts
  retry_on_precondition_failed f = attempts 5 no_attempt f
