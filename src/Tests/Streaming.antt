-- ===== src/Tests/Streaming.antt =====
-- A reply of two streams, and a loop whose group is lost.
use faststream.Prelude.{ℕ, ◌≡◌, refl, ◌+◌, Bool, true, false, some, [], ◌∷◌, ◌++◌, ◌==◌}
use faststream.Exceptions.{Exc, ok, err, raised, value_error}
use faststream.Exec.{Exec}
use faststream.Streams.{
  Entry, ReadResponse, RawMessage, Reader, get_msgs, get_msgs_batch, response_error, returned,
  consume_loop,
}
use faststream.Streams.Items.{items_of}
use faststream.Streams.Entries.{HandsOn, after, get_msgs-same}
use faststream.Streams.Reading.{IsPassing, IsTerminal, Ended, consume_loop-ends}

abbrev handing : RawMessage → Exec Reader (Unit {0})
handing m s = (ok tt, record s { handled = s.handled ++ items_of m })

handing-HandsOn : HandsOn handing
handing-HandsOn = record { at = λ m s. refl }

abbrev reader : Reader
reader = record {
  last_id = 0;
  running = true;
  start_signal = false;
  exit_requested = false;
  handled = [];
  reads = 0;
  critical = [];
  errors = [];
}

abbrev entry : ℕ → Entry
entry i = record { message_id = i; raw = 100 + i; claim_meta = 5 ∷ 1 ∷ [] }

abbrev reply : ReadResponse
reply = (7, entry 1 ∷ entry 2 ∷ []) ∷ (8, entry 3 ∷ []) ∷ []

get_msgs-same_example :
    (get_msgs (some 60) handing reply reader
      ≡ (ok tt, after (some 60) handing handing-HandsOn reply reader))
    × (get_msgs_batch (some 60) handing reply reader
        ≡ (ok tt, after (some 60) handing handing-HandsOn reply reader))
get_msgs-same_example =
    get_msgs-same (some 60) handing handing-HandsOn reply reader
      (((5, 1, refl), ((5, 1, refl), tt)), (((5, 1, refl), tt), tt))

abbrev never : Exc → Bool
never e = false

abbrev says_nogroup : Exc → Bool
says_nogroup e = e.ident == 1

abbrev lost_group : Exc
lost_group = record { cls = response_error; extra_options = []; ident = 1 }

abbrev failing : Exec Reader (Unit {0})
failing s = (err (raised value_error), s)

abbrev losing : Exec Reader (Unit {0})
losing s = (err lost_group, s)

failing-IsPassing : IsPassing says_nogroup never failing
unfolding faststream.Exceptions.mro faststream.Exceptions.same_class
failing-IsPassing = record { outcome = λ s. refl; running = λ s. refl; reads = λ s. refl }

losing-IsTerminal : IsTerminal says_nogroup never losing
unfolding faststream.Exceptions.mro faststream.Exceptions.same_class
losing-IsTerminal = record {
  error = λ s. lost_group;
  outcome = λ s. refl;
  terminal = λ s. refl;
  reads = λ s. refl;
}

consume_loop-ends_example :
    ((consume_loop says_nogroup never true (failing ∷ losing ∷ failing ∷ []) reader).0 ≡ returned)
    × Ended says_nogroup never true 2
        (consume_loop says_nogroup never true (failing ∷ losing ∷ failing ∷ []) reader).1
consume_loop-ends_example =
    consume_loop-ends says_nogroup never true (failing ∷ []) losing (failing ∷ []) reader
      (failing-IsPassing, tt) losing-IsTerminal refl
