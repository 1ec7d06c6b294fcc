-- ===== src/Client/Reconnect/Examples.antt =====
-- Attempts to reconnect a concrete client.
use jcode_go.Common.{ℕ, ◌≡◌, refl, true, false, [], none, some, ◌==◌, if◌then◌else◌}
use jcode_go.Errors.{sentinel, eof}
use jcode_go.Json.Value.{pos}
use jcode_go.Protocol.Event.{hello_ok}
use jcode_go.Client.Options.{Options}
use jcode_go.Client.State.{Client, new_client}
use jcode_go.Client.Operations.{begin_request, enter_request}
use jcode_go.Client.Calls.{replied, reply_closed}
use jcode_go.Client.Reconnect.{Attempt, reconnect, reconnect_loop, try_attempt, ask}

abbrev options : Options
options = record {
  client_name = "jcode-sdk-go";
  max_frame_size = 0;
  event_buffer = 2;
  request_buffer = 1;
  request_timeout = 30;
  session_id = "";
  reconnect = record { max_attempts = 4; backoff = 100; max_backoff = 150; resume = false };
}

abbrev client : Client
client = new_client options

-- The factory fails twice, and the third transport answers hello.
abbrev attempts : ℕ → Attempt
attempts n = record {
  interrupted = none;
  made = if n == 3 then none else some (sentinel eof);
  hello_write = none;
  hello = replied (record { v = pos 1; reply_to = some 1; event = hello_ok (pos 1) "jcode" [] });
  attach_write = none;
  attach = reply_closed;
}

-- The hello of the first transport is not written: Reconnect waits for itself.
abbrev unwritten : ℕ → Attempt
unwritten n = record {
  interrupted = none;
  made = none;
  hello_write = some (sentinel eof);
  hello = reply_closed;
  attach_write = none;
  attach = reply_closed;
}

hangs : reconnect client true unwritten ≡ none
unfolding reconnect reconnect_loop try_attempt ask begin_request new_client enter_request
hangs = refl
