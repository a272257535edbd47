-- ===== src/Transport/Http/Headers.antt =====
-- src/pactix/transport/http/headers.py: the names of the headers that carry metadata.
use pactix.Prelude.{String}

abbrev pub event_type_header : String
event_type_header = "x-pactix-event-type"

abbrev pub message_id_header : String
message_id_header = "x-pactix-message-id"

abbrev pub message_key_header : String
message_key_header = "x-pactix-message-key"

abbrev pub ordering_key_header : String
ordering_key_header = "x-pactix-ordering-key"

abbrev pub correlation_id_header : String
correlation_id_header = "x-pactix-correlation-id"
