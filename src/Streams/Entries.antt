-- ===== src/Streams/Entries.antt =====
-- What the subscribers of single messages and of batches make of a reply.
use faststream.Prelude.{
  ℕ, ◌≡◌, sym, ap, ◌∙◌, Option, List, [], ◌∷◌, ◌++◌, map, append_assoc, append-nil, arith,
}
use faststream.Exceptions.{Result, ok, err, raised, value_error}
use faststream.Exec.{Exec}
use faststream.Streams.{
  Entry, Item, ReadResponse, RawMessage, Reader, parse_stream_entry, attach_claim_metadata, last_of,
  each_entry, get_msgs, parse_all, get_msgs_batch, plain_message,
}
use faststream.Streams.Items.{
  items_of, AllWhole, item_for, items_for, single, Single, Single-IsWhole, Batch, Batch-IsWhole,
}

-- Handing a message on returns, and leaves the reader as it is but for what was handed on.
pub record HandsOn (consume_one : RawMessage → Exec Reader (Unit {0})) : Type 0 where
  pub at :
      (m : RawMessage) (s : Reader)
      → consume_one m s ≡ (ok tt, record s { handled = s.handled ++ items_of m })

abbrev pub EachWhole : Option ℕ → ReadResponse → Type 0
EachWhole claim [] = Unit
EachWhole claim ((channel, es) ∷ streams) = AllWhole claim es × EachWhole claim streams

abbrev pub all_items : Option ℕ → ReadResponse → List Item
all_items claim [] = []
all_items claim ((channel, es) ∷ streams) = items_for claim channel es ++ all_items claim streams

-- The identifier of the last entry.
abbrev pub last_in : ℕ → ReadResponse → ℕ
last_in last [] = last
last_in last ((channel, []) ∷ streams) = last_in last streams
last_in last ((channel, e ∷ es) ∷ streams) = last_in (last_of e es) streams

abbrev pub handed : List Item → Reader → Reader
handed more s = record s { handled = s.handled ++ more }

module _ (claim : Option ℕ) (consume_one : RawMessage → Exec Reader (Unit {0}))
    (hands : HandsOn consume_one) where
  handed-handed : (xs ys : List Item) (s : Reader) → handed ys (handed xs s) ≡ handed (xs ++ ys) s
  handed-handed xs ys s =
      ap (λ (l : List Item). record s { handled = l }) (append_assoc s.handled xs ys)

  handed-nil : (s : Reader) → handed [] s ≡ s
  handed-nil s = ap (λ (l : List Item). record s { handled = l }) (append-nil s.handled)

  hands_on_one :
      (channel : ℕ) (e : Entry) (s : Reader) (one : Single claim channel e)
      → consume_one
          (attach_claim_metadata
            (plain_message channel (e.message_id ∷ []) (e.raw ∷ []))
            (one.meta ∷ []))
          s
        ≡ (ok tt, handed (item_for claim channel e ∷ []) s)
  unfolding single
  hands_on_one channel e s one =
      hands.at _ s ∙ ap (λ (l : List Item). (ok tt, handed l s)) one.items

  hands_on_all :
      (channel : ℕ) (es : List Entry) (s : Reader) (all : Batch claim channel es)
      → consume_one
          (attach_claim_metadata
            (plain_message channel (map (λ x. x.message_id) es) (map (λ x. x.raw) es))
            all.metas)
          s
        ≡ (ok tt, handed (items_for claim channel es) s)
  hands_on_all channel es s all =
      hands.at _ s ∙ ap (λ (l : List Item). (ok tt, handed l s)) all.items

  each_entry-whole :
      (channel : ℕ) (es : List Entry) (s : Reader)
      → AllWhole claim es
      → each_entry claim consume_one channel es s ≡ (ok tt, handed (items_for claim channel es) s)
  unfolding each_entry
  each_entry-whole channel [] s w = ap (λ (t : Reader). (ok tt, t)) (sym (handed-nil s))
  each_entry-whole channel (e ∷ es) s (w, ws) =
      let one = Single-IsWhole claim channel e w in
      let item = item_for claim channel e ∷ [] in
      let first = hands_on_one channel e s one in
      let rest = each_entry-whole channel es (handed item s) ws in
      rw (one.parsed, first)
        (rest ∙ ap (λ (t : Reader). (ok tt, t)) (handed-handed item (items_for claim channel es) s))

  abbrev pub after : ReadResponse → Reader → Reader
  after reply s = record s {
    last_id = last_in s.last_id reply;
    handled = s.handled ++ all_items claim reply;
  }

  after-cons :
      (channel : ℕ) (e : Entry) (es : List Entry) (streams : ReadResponse) (s : Reader)
      → ◌≡◌ {A = Result (Unit {0}) × Reader}
          (
            ok tt,
            after streams
                (handed (items_for claim channel (e ∷ es)) (record s { last_id = last_of e es })),
          )
          (ok tt, after ((channel, e ∷ es) ∷ streams) s)
  after-cons channel e es streams s =
      ap
        (λ (l : List Item).
          (ok tt, record s { last_id = last_in (last_of e es) streams; handled = l }))
        (append_assoc s.handled (items_for claim channel (e ∷ es)) (all_items claim streams))

  -- Single messages: each entry of the reply is handed on, in order, and the last one is noted.
  get_msgs-whole :
      (reply : ReadResponse) (s : Reader)
      → EachWhole claim reply
      → get_msgs claim consume_one reply s ≡ (ok tt, after reply s)
  unfolding get_msgs
  get_msgs-whole [] s w = ap (λ (t : Reader). (ok tt, t)) (sym (handed-nil s))
  get_msgs-whole ((channel, []) ∷ streams) s (w, ws) = get_msgs-whole streams s ws
  get_msgs-whole ((channel, e ∷ es) ∷ streams) s (w, ws) =
      let noted : Reader = record s { last_id = last_of e es } in
      let first = each_entry-whole channel (e ∷ es) noted w in
      let rest = get_msgs-whole streams (handed (items_for claim channel (e ∷ es)) noted) ws in
      rw first (rest ∙ after-cons channel e es streams s)

  get_msgs_batch-whole :
      (reply : ReadResponse) (s : Reader)
      → EachWhole claim reply
      → get_msgs_batch claim consume_one reply s ≡ (ok tt, after reply s)
  unfolding get_msgs_batch
  get_msgs_batch-whole [] s w = ap (λ (t : Reader). (ok tt, t)) (sym (handed-nil s))
  get_msgs_batch-whole ((channel, []) ∷ streams) s (w, ws) = get_msgs_batch-whole streams s ws
  get_msgs_batch-whole ((channel, e ∷ es) ∷ streams) s (w, ws) =
      let noted : Reader = record s { last_id = last_of e es } in
      let all = Batch-IsWhole claim channel e es w in
      let first = hands_on_all channel (e ∷ es) noted all in
      let rest =
        get_msgs_batch-whole streams (handed (items_for claim channel (e ∷ es)) noted) ws in
      rw (all.parsed, first) (rest ∙ after-cons channel e es streams s)

  -- Where each entry of a reply is whole, the subscriber of single messages and the one of batches
  -- hand on the same entries in the same order, each once, with the name of its stream, its
  -- identifier, its data and, where messages are claimed, its idle time and its delivery count, and
  -- take the last one for the place to read on from.
  pub get_msgs-same :
      (reply : ReadResponse) (s : Reader)
      → EachWhole claim reply
      → (get_msgs claim consume_one reply s ≡ (ok tt, after reply s))
        × (get_msgs_batch claim consume_one reply s ≡ (ok tt, after reply s))
  get_msgs-same reply s w = (get_msgs-whole reply s w, get_msgs_batch-whole reply s w)

  each_entry-missing :
      (channel : ℕ) (before : List Entry) (e : Entry) (behind : List Entry) (s : Reader)
      → AllWhole claim before
      → parse_stream_entry claim e ≡ err (raised value_error)
      → each_entry claim consume_one channel (before ++ e ∷ behind) s
        ≡ (err (raised value_error), handed (items_for claim channel before) s)
  unfolding each_entry
  each_entry-missing channel [] e behind s w bad = rw (bad, append-nil s.handled)
  each_entry-missing channel (x ∷ before) e behind s (w, ws) bad =
      let one = Single-IsWhole claim channel x w in
      let item = item_for claim channel x ∷ [] in
      let first = hands_on_one channel x s one in
      let rest = each_entry-missing channel before e behind (handed item s) ws bad in
      rw (one.parsed, first)
        (rest
          ∙ ap (λ (t : Reader). (err (raised value_error), t))
              (handed-handed item (items_for claim channel before) s))

  parse_all-missing :
      (before : List Entry) (e : Entry) (behind : List Entry)
      → AllWhole claim before
      → parse_stream_entry claim e ≡ err (raised value_error)
      → parse_all claim (before ++ e ∷ behind) ≡ err (raised value_error)
  unfolding parse_all
  parse_all-missing [] e behind w bad = rw (bad, parse_all)
  parse_all-missing (x ∷ before) e behind (w, ws) bad =
      let one = Single-IsWhole claim 0 x w in
      let rest = parse_all-missing before e behind ws bad in ground (arith, one.parsed, rest)

  -- What a failed reply leaves: the place to read on from is behind the whole stream.
  abbrev pub noted_and : List Item → ℕ → Reader → Result (Unit {0}) × Reader
  noted_and done last s =
      (err (raised value_error), record s { last_id = last; handled = s.handled ++ done })

  -- An entry that is not whole is a `ValueError`. Of its stream the entries before it were handed on
  -- by then as single messages, and none as a batch; those behind it are not handed on, though the
  -- place to read on from is noted behind all of them.
  pub get_msgs-missing :
      (channel : ℕ) (before : List Entry) (e : Entry) (behind : List Entry) (streams : ReadResponse)
      (s : Reader)
      → AllWhole claim before
      → parse_stream_entry claim e ≡ err (raised value_error)
      → let reply = (channel, before ++ e ∷ behind) ∷ streams in
        let last = last_in s.last_id ((channel, before ++ e ∷ behind) ∷ []) in
        (get_msgs claim consume_one reply s ≡ noted_and (items_for claim channel before) last s)
        × (get_msgs_batch claim consume_one reply s ≡ noted_and [] last s)
  unfolding get_msgs get_msgs_batch
  get_msgs-missing channel [] e behind streams s w bad = (
    rw (each_entry-missing channel [] e behind (record s { last_id = last_of e behind }) w bad),
    rw (parse_all-missing [] e behind w bad, append-nil s.handled),
  )
  get_msgs-missing channel (x ∷ before) e behind streams s w bad = (
    rw (
        each_entry-missing channel (x ∷ before) e behind
          (record s { last_id = last_of x (before ++ e ∷ behind) }) w bad),
    rw (parse_all-missing (x ∷ before) e behind w bad, append-nil s.handled),
  )
