-- ===== src/Examples/InboxReturns.antt =====
-- A pass of the inbox worker that returns.
use pactix.Prelude.{◌≡◌, refl, ok}
use pactix.Inbox.Table.{InboxTable}
use pactix.Inbox.Hooks.{processed}
use pactix.Inbox.Runner.{RunSummary, run_once, decide, handled}
use pactix.Inbox.Runner.Returns.{NeverRaises, run_once_finishes}
use pactix.Samples.Inboxes.{inbox, inbox-UniqueIds, ordered_runner}
use pactix.Samples.Sorting.{sorting, sorting-IsPlanner}
use pactix.Samples.{whole, config, pg, pg-IsBackend, clock}

ordered_runner-NeverRaises : NeverRaises ordered_runner
unfolding decide
ordered_runner-NeverRaises row = (handled processed "", refl)

run_once_finishes_example :
    (table' : InboxTable) × (summary : RunSummary) × (run_once whole config pg clock sorting
        ordered_runner inbox
      ≡ (table', ok summary))
run_once_finishes_example =
    run_once_finishes whole config pg clock ordered_runner ordered_runner-NeverRaises (λ n. refl)
      sorting 1_000_000 inbox sorting-IsPlanner pg-IsBackend refl inbox-UniqueIds
