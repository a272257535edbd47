-- ===== src/Examples/Traces.antt =====
-- An interleaving of transactions on the inbox.
use mathlib.Core.List.Memᴰ
use pactix.Prelude.{◌≡◌, ◌≤◌, refl, true, false, [], ◌∷◌, Memᴰ, ok, exists, ◌==◌}
use pactix.Dialect.{column, is_mysql}
use pactix.Prelude.Text.{is_blank}
use pactix.Inbox.Model.{new_pending}
use pactix.Queue.{update_rows}
use pactix.Inbox.Table.{InboxRow, InboxTable, insert_ignore}
use pactix.Inbox.Store.{
  save_received, save_received_mysql, outcome, mark_processed, ReceiveOutcome, record_values,
}
use pactix.Inbox.Store.Dedup.{Fits, received, received_row}
use pactix.Inbox.Lifecycle.{Step, Reach, InboxSound, Reach-InboxSound}
use pactix.Inbox.Lifecycle.Answers.{InCollation, received_is_answered}
use pactix.Samples.{config, my, my-IsBackend, noon, noon-IsAware, envelope, metadata-IsValid}

abbrev new_row : InboxRow
new_row = received_row config my 7 noon "kafka" envelope

receipt_of_first :
    save_received config my 7 noon "kafka" envelope []
    ≡ ok (new_row ∷ [], outcome (received config my 7 noon "kafka" envelope) true)
unfolding save_received new_pending is_blank save_received_mysql insert_ignore is_mysql
    record_values
receipt_of_first = refl

nothing_newer : (r : InboxRow) → Memᴰ r [] → r.received_at ≤ column my noon
nothing_newer r m = absurd (Memᴰ.not-nil m)

reached : Reach config [] (mark_processed my 7 noon (new_row ∷ []))
reached =
    Reach.next
      (Reach.next Reach.here
        (Step.receives my 7 noon "kafka" envelope (new_row ∷ [], _) receipt_of_first nothing_newer))
      (Step.processes my 7 noon)

empty-InboxSound : InboxSound []
empty-InboxSound = record { unique = tt; in_order = λ r s m. absurd (Memᴰ.not-nil m) }

Reach-InboxSound_example : InboxSound (mark_processed my 7 noon (new_row ∷ []))
Reach-InboxSound_example =
    Reach-InboxSound config [] (mark_processed my 7 noon (new_row ∷ [])) reached empty-InboxSound

named : is_blank "kafka" ≡ false
unfolding is_blank
named = refl

nine_is_fresh :
    exists (λ (old : InboxRow). old.id == 9) (mark_processed my 7 noon (new_row ∷ [])) ≡ false
unfolding mark_processed update_rows record_values
nine_is_fresh = refl

envelope-Fits : Fits my "kafka" envelope.metadata
envelope-Fits = record {
  source_fits = refl;
  message_id_fits = refl;
  event_type_fits = refl;
  message_key_fits = refl;
  ordering_key_fits = refl;
  correlation_id_fits = refl;
}

one_collation : InCollation my.weight reached
unfolding reached
one_collation = ((tt, refl), tt)

received_is_answered_example :
    (out : InboxTable × ReceiveOutcome) × (save_received config my 9 noon "kafka" envelope
        (mark_processed my 7 noon (new_row ∷ []))
      ≡ ok out)
received_is_answered_example =
    received_is_answered config [] (mark_processed my 7 noon (new_row ∷ [])) my 9 noon "kafka"
      envelope reached one_collation empty-InboxSound tt tt my-IsBackend noon-IsAware named
      metadata-IsValid envelope-Fits nine_is_fresh
