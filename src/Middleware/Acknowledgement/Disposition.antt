-- ===== src/Middleware/Acknowledgement/Disposition.antt =====
-- What becomes of a message, by its policy and by how its processing ended.
use faststream.Prelude.{
  ℕ, ◌≡◌, ◌≢◌, refl, Bool, false, Option, none, some, [], arith, get_elem?, set, if◌then◌else◌,
}
use faststream.Exceptions.{
  Exc, ok, isinstance, handler_exception, ack_message, nack_message, reject_message,
  cancelled_error, issubclass-handler_exception,
}
use faststream.Message.{StreamMessage, AckStatus, acked, nacked, rejected}
use faststream.Message.Commit.{settle}
use faststream.Runtime.{World}
use faststream.Middleware.Acknowledgement.{
  Driver, Options, AckPolicy, ack_first, ack_always, reject_on_error, nack_on_error, manual,
  base_driver, settle_message, aexit,
}

-- The status that the policies promise; `none` leaves the message alone.
abbrev pub on_failure : AckPolicy → Option AckStatus
on_failure ack_first = none
on_failure ack_always = some acked
on_failure reject_on_error = some rejected
on_failure nack_on_error = some nacked
on_failure manual = none

abbrev pub disposition : AckPolicy → Option Exc → Option AckStatus
disposition policy none = some acked
disposition policy (some e) =
    if isinstance e ack_message
    then some acked
    else if isinstance e nack_message
    then some nacked
    else if isinstance e reject_message
    then some rejected
    else if isinstance e handler_exception
    then none
    else if isinstance e cancelled_error
    then none
    else on_failure policy

-- An acknowledgement exception, and only that, ends here.
abbrev pub is_suppressed : Option Exc → Bool
is_suppressed none = false
is_suppressed (some e) = isinstance e handler_exception

abbrev pub HasNoOptions : Option Exc → Type 0
HasNoOptions none = Unit
HasNoOptions (some e) = e.extra_options ≡ []

-- The middleware `self` watches message `i`, which is `m`.
pub record Watches {U : Type 0} (self i : ℕ) (m : StreamMessage) (w : World U) : Type 0 where
  pub watched_at : get_elem? w.watched self ≡ some (some i)
  pub stored : get_elem? w.messages i ≡ some m

module _ {U : Type 0} where
  abbrev pub settled : AckStatus → ℕ → StreamMessage → World U → World U
  settled status i m w = record w { messages = set w.messages i (settle status m) }

  pub settle_message-Watches :
      (status : AckStatus) (self i : ℕ) (m : StreamMessage) (w : World U)
      → Watches self i m w
      → settle_message base_driver [] status [] self w ≡ (ok tt, settled status i m w)
  unfolding settle_message base_driver
  settle_message-Watches status self i m w h = ground arith

  -- With the base class's own methods and no options, what `__aexit__` does to the state.
  abbrev pub after : Option AckStatus → ℕ → StreamMessage → World U → World U
  after none i m w = w
  after (some status) i m w = settled status i m w

  pub aexit-Watches :
      (policy : AckPolicy) (self i : ℕ) (m : StreamMessage) (outcome : Option Exc) (w : World U)
      → policy ≢ ack_first
      → Watches self i m w
      → HasNoOptions outcome
      → aexit base_driver [] policy self outcome w
        ≡ (ok (is_suppressed outcome), after (disposition policy outcome) i m w)
  unfolding aexit
  aexit-Watches ack_first self i m outcome w late h none_given = absurd (late refl)
  aexit-Watches policy self i m none w late h none_given =
      ground (arith, settle_message-Watches acked self i m w h)
  aexit-Watches policy self i m (some e) w late h none_given = ground (
    arith,
    settle_message-Watches acked self i m w h,
    settle_message-Watches nacked self i m w h,
    settle_message-Watches rejected self i m w h,
    issubclass-handler_exception e.cls,
  )

abbrev pub suppresses : AckPolicy → Option Exc → Bool
suppresses ack_first outcome = false
suppresses _ outcome = is_suppressed outcome

module _ {U : Type 0} (driver : Driver U) (extra_options : Options) where
  settle_message-unwatched :
      (status : AckStatus) (exc_options : Options) (self : ℕ) (w : World U)
      → get_elem? w.watched self ≡ some none
      → settle_message driver extra_options status exc_options self w ≡ (ok tt, w)
  unfolding settle_message
  settle_message-unwatched status exc_options self w h = ground arith

  -- If the processing ended before a message reached the middleware, as it does when parsing fails,
  -- no method of the broker's message is called and nothing changes, whatever the policy and the
  -- outcome.
  pub aexit-unwatched :
      (policy : AckPolicy) (self : ℕ) (outcome : Option Exc) (w : World U)
      → get_elem? w.watched self ≡ some none
      → aexit driver extra_options policy self outcome w ≡ (ok (suppresses policy outcome), w)
  unfolding aexit
  aexit-unwatched ack_first self outcome w h = refl
  aexit-unwatched policy self none w h = ground (arith, settle_message-unwatched acked [] self w h)
  aexit-unwatched policy self (some e) w h = ground (
    arith,
    settle_message-unwatched acked [] self w h,
    settle_message-unwatched nacked [] self w h,
    settle_message-unwatched rejected [] self w h,
    settle_message-unwatched acked e.extra_options self w h,
    settle_message-unwatched nacked e.extra_options self w h,
    settle_message-unwatched rejected e.extra_options self w h,
  )
