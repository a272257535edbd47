-- ===== src/Outbox/Publisher.antt =====
-- src/pactix/outbox/publisher.py: publish outcomes and the registry of publishers.
-- A publisher is a callable of the application: a function of the record that may raise. The lock of
-- the registry only keeps its methods from interleaving, so each method is one function of the state.
pub mod Routing
use pactix.Prelude.{
  ◌≡◌, Bool, true, false, Option, none, some, String, List, [], ◌∷◌, Error, routing_error, Result,
  ok, err, ◌>>=◌,
}
use Prim.Native.String.{◌++◌}
use pactix.Prelude.Dict.{Dict, get, put}
use pactix.Outbox.Model.{OutboxMessageRecord}

pub data Kind : Type 0 where
  published retryable terminal : Kind

pub record PublishOutcome : Type 0 where
  pub kind : Kind
  pub message : Option String

abbrev pub published_outcome : PublishOutcome
published_outcome = record { kind = published; message = none }

abbrev pub retryable_outcome : String → PublishOutcome
retryable_outcome message = record { kind = retryable; message = some message }

abbrev pub terminal_outcome : String → PublishOutcome
terminal_outcome message = record { kind = terminal; message = some message }

-- `outcome.message or ''`
abbrev pub message_or_empty : Option String → String
message_or_empty none = ""
message_or_empty (some message) = message

abbrev pub Publisher : Type 0
Publisher = OutboxMessageRecord → Result PublishOutcome

pub record PublisherRegistry : Type 0 where
  pub publishers : Dict Publisher
  pub catch_all : Option Publisher

abbrev pub empty_registry : PublisherRegistry
empty_registry = record { publishers = []; catch_all = none }

unfoldable pub register : PublisherRegistry → String → Publisher → PublisherRegistry
register registry event_type publisher = record registry {
  publishers = put registry.publishers event_type publisher;
}

unfoldable pub register_many : PublisherRegistry → List String → Publisher → PublisherRegistry
unfolding register
register_many registry [] publisher = registry
register_many registry (event_type ∷ rest) publisher =
    register_many (register registry event_type publisher) rest publisher

unfoldable pub register_all : PublisherRegistry → Publisher → PublisherRegistry
register_all registry publisher = record registry { catch_all = some publisher }

-- `a or b`: a publisher counts as true.
abbrev pub or_else : {A : Type 0} → Option A → Option A → Option A
or_else none other = other
or_else (some a) other = some a

abbrev pub or_raise : {A : Type 0} → Error → Option A → Result A
or_raise error none = err error
or_raise error (some a) = ok a

abbrev pub no_publisher : String → Error
no_publisher event_type = routing_error ("no publisher registered for '" ++ event_type ++ "'")

unfoldable pub resolve : PublisherRegistry → String → Result Publisher
resolve registry event_type =
    or_raise (no_publisher event_type)
      (or_else (get registry.publishers event_type) registry.catch_all)

unfoldable pub publish : PublisherRegistry → OutboxMessageRecord → Result PublishOutcome
unfolding resolve
publish registry r = resolve registry r.event_type >>= λ publisher. publisher r
