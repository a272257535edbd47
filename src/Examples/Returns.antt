-- ===== src/Examples/Returns.antt =====
-- Passes that return.
use pactix.Prelude.{◌≡◌, refl, some, [], ok}
use pactix.Prelude.Dict.{get}
use pactix.Outbox.Table.{OutboxTable}
use pactix.Outbox.Publisher.{PublisherRegistry, publish, resolve, published_outcome}
use pactix.Outbox.Runner.{RunSummary, run_once}
use pactix.Outbox.Runner.Returns.{NeverRaises, run_once_returns}
use pactix.Samples.Sorting.{sorting, sorting-IsPlanner}
use pactix.Samples.{whole, config, pg, pg-IsBackend, clock, outbox, outbox-UniqueIds, accepting}

abbrev accepts_all : PublisherRegistry
accepts_all = record { publishers = []; catch_all = some accepting }

accepts_all-NeverRaises : NeverRaises accepts_all
unfolding publish resolve get
accepts_all-NeverRaises row = (published_outcome, refl)

run_once_returns_example :
    (table' : OutboxTable) × (summary : RunSummary) × (run_once whole config pg clock sorting
        accepts_all outbox
      ≡ (table', ok summary))
run_once_returns_example =
    run_once_returns whole config pg clock accepts_all accepts_all-NeverRaises (λ n. refl) sorting
      1_000_000 outbox sorting-IsPlanner pg-IsBackend refl outbox-UniqueIds
