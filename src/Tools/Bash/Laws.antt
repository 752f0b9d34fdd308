-- ===== src/Tools/Bash/Laws.antt =====
-- When `bash` reports an error.
use agentanvil.Prelude.{◌≡◌, ◌↔◌, false, arith}
use agentanvil.Prelude.Int.{ℤ, pos, negsuc}
use agentanvil.Platform.{Shell, completed, timed_out, not_found}
use agentanvil.Tools.Bash.{outcome}

-- However a command ends, its result is an error if and only if the exit code is not 0: a timeout
-- and a missing file are errors, and so is a death by a signal, whose exit code is negative.
pub outcome-is_error :
    (timeout : ℤ) (ended : Shell)
    → ((outcome timeout ended).is_error ≡ false) ↔ ((outcome timeout ended).exit_code ≡ pos 0)
unfolding outcome
outcome-is_error timeout (completed out err (pos n)) = (λ h. ground arith, λ h. ground arith)
outcome-is_error timeout (completed out err (negsuc n)) = (λ h. ground arith, λ h. ground arith)
outcome-is_error timeout timed_out = (λ h. ground arith, λ h. ground arith)
outcome-is_error timeout (not_found message) = (λ h. ground arith, λ h. ground arith)
