-- ===== src/Streams/Claiming.antt =====
-- Where a subscriber of a stream reads after it was started, also again and again.
use faststream.Prelude.{
  ℕ, ◌≡◌, refl, ap, subst, ◌∙◌, Bool, true, false, ◌&&◌, none, some, List, [], ◌∷◌, any, arith,
  Bool-cases, inl, inr, if◌then◌else◌,
}
use faststream.Exceptions.{Exc, Result, ok, err}
use faststream.Streams.Starting.{
  Position, undelivered, tail, behind, half_given, bad_claim, StreamOptions, StreamSub, sub_of,
  in_group, is_undelivered, given, stream_sub, xreadgroup, Consumer, consumer_of, start,
  read_request,
}

-- What happens to a subscriber: a start, with what the server answers to the creation of the group,
-- or that a message with this identifier was handed on.
pub data Event : Type 0 where
  starts : Result (Unit {0}) → Event
  notes : ℕ → Event

abbrev pub is_creation : Event → Bool
is_creation (starts (ok _)) = true
is_creation (starts (err _)) = false
is_creation (notes i) = false

read_request-plain :
    (sub : StreamSub) (c : Consumer) (p : Position)
    → in_group sub.group sub.consumer ≡ true
    → sub.min_idle_time ≡ none
    → c.read_id ≡ p
    → read_request sub c
      ≡ xreadgroup p sub.max_records sub.polling_interval sub.no_ack sub.claim_min_idle_time
unfolding read_request
read_request-plain sub c p grouped plain e = rw (grouped, plain, e)

module _ (says_exists : Exc → Bool) (sub : StreamSub) where
  abbrev pub happen : Event → Consumer → Consumer
  happen (starts answer) c = (start says_exists sub answer c).1
  happen (notes i) c = record c { last_id = behind i }

  abbrev pub happen_all : List Event → Consumer → Consumer
  happen_all [] c = c
  happen_all (e ∷ events) c = happen_all events (happen e c)

  -- Where the subscriber reads, after these events and before them.
  abbrev pub moved : List Event → Position → Position
  moved events before =
      if in_group sub.group sub.consumer && any is_creation events then undelivered else before

  start-read_id :
      (answer : Result (Unit {0})) (c : Consumer)
      → (start says_exists sub answer c).1.read_id ≡ moved (starts answer ∷ []) c.read_id
  unfolding start
  start-read_id (ok _) c = ground arith
  start-read_id (err e) c = ground arith

  happen-read_id : (e : Event) (c : Consumer) → (happen e c).read_id ≡ moved (e ∷ []) c.read_id
  happen-read_id (starts answer) c = start-read_id answer c
  happen-read_id (notes i) c = ground arith

  moved-cons :
      (e : Event) (events : List Event) (p : Position)
      → moved events (moved (e ∷ []) p) ≡ moved (e ∷ events) p
  moved-cons e events p = ground arith

  happen_all-read_id :
      (events : List Event) (c : Consumer) → (happen_all events c).read_id ≡ moved events c.read_id
  happen_all-read_id [] c = ground arith
  happen_all-read_id (e ∷ events) c =
      happen_all-read_id events (happen e c)
      ∙ ap (λ (p : Position). moved events p) (happen-read_id e c)
      ∙ moved-cons e events c.read_id

  -- A subscriber of a group reads what was delivered to nobody yet from the start on that created
  -- the group, also after later starts that find it there. Before that, and if the group was there
  -- from the beginning, it reads from the position that was declared.
  pub read_request-moved :
      (events : List Event)
      → in_group sub.group sub.consumer ≡ true
      → sub.min_idle_time ≡ none
      → read_request sub (happen_all events (consumer_of sub))
        ≡ xreadgroup
            (if any is_creation events then undelivered else sub.last_id)
            sub.max_records
            sub.polling_interval
            sub.no_ack
            sub.claim_min_idle_time
  unfolding read_request
  read_request-moved events grouped plain =
      let there = happen_all-read_id events (consumer_of sub) in
      read_request-plain sub (happen_all events (consumer_of sub)) _ grouped plain
        (there ∙ (rw grouped))

-- What the checks leave of a subscriber that claims messages.
record Claims (sub : StreamSub) : Type 0 where
  grouped : in_group sub.group sub.consumer ≡ true
  plain : sub.min_idle_time ≡ none
  no_ack : sub.no_ack ≡ false
  last_id : sub.last_id ≡ undelivered

ok_injective : (a b : StreamSub) → ok a ≡ ok b → a ≡ b
ok_injective a b h = cc

undelivered_only : (p : Position) → is_undelivered p ≡ true → p ≡ undelivered
undelivered_only undelivered h = refl
undelivered_only tail h = ground (arith, h)
undelivered_only (behind i) h = ground (arith, h)

accepted :
    (redis_v710 : Bool) (o : StreamOptions) (sub : StreamSub)
    → stream_sub redis_v710 o ≡ ok sub
    → (half_given o ≡ false)
      × ((given o.claim_min_idle_time && bad_claim redis_v710 o (sub_of o).last_id) ≡ false)
      × (sub_of o ≡ sub)
unfolding stream_sub
accepted redis_v710 o sub h = elim (Bool-cases (half_given o)) [
  | inl half ↦ absurd (ground (arith, h, half))
  | inr whole ↦
      elim (Bool-cases (given o.claim_min_idle_time && bad_claim redis_v710 o (sub_of o).last_id)) [
        | inl bad ↦ absurd (ground (arith, h, whole, bad))
        | inr good ↦ (whole, good, ok_injective (sub_of o) sub (rw (whole, good) at h))
      ]
]

Claims-of :
    (redis_v710 : Bool) (o : StreamOptions) (t : ℕ)
    → half_given o ≡ false
    → (given o.claim_min_idle_time && bad_claim redis_v710 o (sub_of o).last_id) ≡ false
    → o.claim_min_idle_time ≡ some t
    → Claims (sub_of o)
Claims-of redis_v710 o t whole good claim = record {
  grouped = ground (arith, whole, good, claim);
  plain = ground (arith, good, claim);
  no_ack = ground (arith, good, claim);
  last_id = undelivered_only (sub_of o).last_id (ground (arith, good, claim));
}

stream_sub-Claims :
    (redis_v710 : Bool) (o : StreamOptions) (sub : StreamSub) (t : ℕ)
    → stream_sub redis_v710 o ≡ ok sub
    → sub.claim_min_idle_time ≡ some t
    → Claims sub
unfolding stream_sub
stream_sub-Claims redis_v710 o sub t h claim =
    let (whole, good, e) = accepted redis_v710 o sub h in
    let asked : o.claim_min_idle_time ≡ some t =
      ap (λ (x : StreamSub). x.claim_min_idle_time) e ∙ claim in
    subst Claims e (Claims-of redis_v710 o t whole good asked)

-- A subscriber that was declared to claim messages does so: whatever the server answers to the
-- creation of its group, and however often it is started again, each read asks for what was
-- delivered to nobody yet, the one position at which the server heeds the claim, and wants the
-- messages acknowledged.
pub read_request-claims :
    (says_exists : Exc → Bool) (redis_v710 : Bool) (o : StreamOptions) (sub : StreamSub) (t : ℕ)
    (events : List Event)
    → stream_sub redis_v710 o ≡ ok sub
    → sub.claim_min_idle_time ≡ some t
    → read_request sub (happen_all says_exists sub events (consumer_of sub))
      ≡ xreadgroup undelivered sub.max_records sub.polling_interval false (some t)
read_request-claims says_exists redis_v710 o sub t events h claim =
    let c = stream_sub-Claims redis_v710 o sub t h claim in
    read_request-moved says_exists sub events c.grouped c.plain
    ∙ (ground (arith, c.last_id, c.no_ack, claim))
