-- ===== src/Message/Commit.antt =====
-- The acknowledgement status is written once, and a body is decoded once by each decoder.
use faststream.Prelude.{
  ℕ, ◌≡◌, refl, none, some, List, [], ◌∷◌, arith, ==-refl, Option-cases, inl, inr, ap, sym, ◌∙◌,
}
use faststream.Exceptions.{Result, ok}
use faststream.Value.{Value}
use faststream.Message.{
  AckStatus, acked, nacked, rejected, StreamMessage, ack, nack, reject, decode, decode_by,
}

-- The three methods that a handler, a middleware or a test may call, by what they record.
unfoldable pub settle : AckStatus → StreamMessage → StreamMessage
unfolding ack nack reject
settle acked m = ack m
settle nacked m = nack m
settle rejected m = reject m

unfoldable pub settle_all : List AckStatus → StreamMessage → StreamMessage
settle_all [] m = m
settle_all (s ∷ ss) m = settle_all ss (settle s m)

settle-committed :
    (s : AckStatus) (m : StreamMessage) {t : AckStatus} → m.committed ≡ some t → settle s m ≡ m
unfolding settle
settle-committed acked m h = ground arith
settle-committed nacked m h = ground arith
settle-committed rejected m h = ground arith

settle_all-committed :
    (ss : List AckStatus) (m : StreamMessage) {t : AckStatus}
    → m.committed ≡ some t
    → settle_all ss m ≡ m
unfolding settle_all
settle_all-committed [] m h = refl
settle_all-committed (s ∷ ss) m h = rw (settle-committed s m h) (settle_all-committed ss m h)

settle-fresh :
    (s : AckStatus) (m : StreamMessage) → m.committed ≡ none → (settle s m).committed ≡ some s
unfolding settle
settle-fresh acked m h = ground arith
settle-fresh nacked m h = ground arith
settle-fresh rejected m h = ground arith

-- Of any sequence of `ack`, `nack` and `reject` calls on a message that is not yet settled, the
-- first decides: the rest of the sequence changes nothing of the message.
pub settle_all-first :
    (s : AckStatus) (ss : List AckStatus) (m : StreamMessage)
    → m.committed ≡ none
    → (settle_all (s ∷ ss) m ≡ settle s m) × ((settle_all (s ∷ ss) m).committed ≡ some s)
unfolding settle_all
settle_all-first s ss m h =
    let same = settle_all-committed ss (settle s m) (settle-fresh s m h) in
    (same, rw same (settle-fresh s m h))

decode_by-decode_by :
    (run again : ℕ → StreamMessage → Result Value) (d : ℕ) (m m' : StreamMessage) (v : Value)
    → decode_by run d m ≡ (ok v, m')
    → decode_by again d m' ≡ (ok v, m')
unfolding decode_by
decode_by-decode_by run again d m m' v h = ground (arith, ==-refl d)

decoder-decode_by :
    (run : ℕ → StreamMessage → Result Value) (d : ℕ) (m : StreamMessage)
    → (decode_by run d m).1.decoder ≡ m.decoder
unfolding decode_by
decoder-decode_by run d m = ground arith

decode-decode_by :
    (run : ℕ → StreamMessage → Result Value) (d : ℕ) (m : StreamMessage)
    → m.decoder ≡ some d
    → decode run m ≡ decode_by run d m
unfolding decode
decode-decode_by run d m h = ground arith

-- A successful `decode` is remembered: the next one gives the same value and changes nothing,
-- whatever the decoder would answer then.
pub decode-decode :
    (run again : ℕ → StreamMessage → Result Value) (m m' : StreamMessage) (v : Value)
    → decode run m ≡ (ok v, m')
    → decode again m' ≡ (ok v, m')
unfolding decode
decode-decode run again m m' v h = elim (Option-cases m.decoder) [
  | inl unset ↦ absurd (cc (rw (unset, decode) at h))
  | inr (d, set) ↦
      let h' = sym (decode-decode_by run d m set) ∙ h in
      let same = ap (λ (r : Result Value × StreamMessage). r.1.decoder) h' in
      let e : m'.decoder ≡ some d = sym same ∙ decoder-decode_by run d m ∙ set in
      decode-decode_by again d m' e ∙ decode_by-decode_by run again d m m' v h'
]
