-- ===== src/Tests/Claiming.antt =====
-- A stream that is read with claims, started twice.
use faststream.Prelude.{◌≡◌, refl, Bool, true, false, none, some, List, [], ◌∷◌}
use faststream.Exceptions.{Exc, ok, err}
use faststream.Streams.{response_error}
use faststream.Streams.Starting.{
  undelivered, StreamOptions, sub_of, stream_sub, xreadgroup, consumer_of, read_request,
}
use faststream.Streams.Claiming.{Event, starts, notes, happen_all, read_request-claims}

abbrev options : StreamOptions
options = record {
  polling_interval = none;
  group = some 1;
  consumer = some 2;
  no_ack = false;
  last_id = none;
  max_records = some 10;
  min_idle_time = none;
  declare = true;
  claim_min_idle_time = some 60;
}

abbrev says_exists : Exc → Bool
says_exists e = true

abbrev exists : Exc
exists = record { cls = response_error; extra_options = []; ident = 3 }

abbrev started_twice : List Event
started_twice = starts (ok tt) ∷ notes 5 ∷ starts (err exists) ∷ []

read_request-claims_example :
    read_request
      (sub_of options)
      (happen_all says_exists (sub_of options) started_twice (consumer_of (sub_of options)))
    ≡ xreadgroup undelivered (some 10) 100 false (some 60)
unfolding stream_sub
read_request-claims_example =
    read_request-claims says_exists true options (sub_of options) 60 started_twice refl refl
