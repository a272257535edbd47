-- ===== src/Outbox/Wakeup/Schedule.antt =====
-- The fallback schedule stays within its cap.
use pactix.Prelude.{◌≡◌, Bool, true, false, List, [], ◌∷◌}
use pactix.Config.{Float, IsFloat, WakeupPolicy}
use pactix.Retry.Backoff.{float_min-right}
use pactix.Outbox.Wakeup.{new_backoff, record_work_found, record_idle}

module _ {F : Type 0} (float : Float F) (policy : WakeupPolicy F) where
  -- The schedule after cycles of `run`, the latest first; each says whether its drain found work.
  abbrev pub backoff_after : List Bool → F
  backoff_after [] = new_backoff float policy
  backoff_after (true ∷ before) = record_work_found float policy (backoff_after before)
  backoff_after (false ∷ before) = record_idle float policy (backoff_after before)

  -- Where `fallback_initial_interval` is not above `fallback_max_interval`, the fallback timeout is never
  -- above `fallback_max_interval`, after any cycles.
  pub backoff_bounded :
      (law : IsFloat float) (cycles : List Bool)
      → float.lt (float.total_seconds policy.fallback_max_interval) (new_backoff float policy)
        ≡ false
      → float.lt (float.total_seconds policy.fallback_max_interval) (backoff_after cycles) ≡ false
  unfolding record_work_found record_idle
  backoff_bounded law [] h = h
  backoff_bounded law (true ∷ before) h = h
  backoff_bounded law (false ∷ before) h = float_min-right float law _ _
