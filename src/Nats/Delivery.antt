-- ===== src/Nats/Delivery.antt =====
-- One subscriber of each queue group gets a message, and every matching one without a group does.
use faststream.Prelude.{
  ℕ, ◌+◌, ◌≡◌, refl, ap, Bool, true, false, ◌&&◌, List, [], ◌∷◌, any, arith, if◌then◌else◌, All,
}
use faststream.Text.{Text, same_text, same_text_iff}
use faststream.Nats.{
  LogicSubscriber, is_handler_matches, is_empty, is_fresh, published_with, find_handler,
}

abbrev pub count_queue : Text → List LogicSubscriber → ℕ
count_queue q [] = 0
count_queue q (h ∷ hs) = (if same_text h.queue q then 1 else 0) + count_queue q hs

abbrev pub ungrouped : List LogicSubscriber → List LogicSubscriber
ungrouped [] = []
ungrouped (h ∷ hs) = let rest = ungrouped hs in if is_empty h.queue then h ∷ rest else rest

module _ (subject stream : Text) where
  abbrev pub matching : List LogicSubscriber → List LogicSubscriber
  matching [] = []
  matching (h ∷ hs) =
      let rest = matching hs in if is_handler_matches h subject stream then h ∷ rest else rest

  abbrev pub has_group : Text → List LogicSubscriber → Bool
  has_group q hs = any (λ h. is_handler_matches h subject stream && same_text h.queue q) hs

  ungrouped-find_handler :
      (hs : List LogicSubscriber) (published : List Text)
      → ungrouped (find_handler hs subject stream published) ≡ ungrouped (matching hs)
  unfolding find_handler
  ungrouped-find_handler [] published = refl
  ungrouped-find_handler (h ∷ hs) published =
      let added = ungrouped-find_handler hs (h.queue ∷ published) in
      let same = ungrouped-find_handler hs published in ground arith

  not_empty : (q r : Text) → is_empty q ≡ false → same_text r q ≡ true → is_empty r ≡ false
  not_empty q r h same = rw ((same_text_iff r q).0 same) h

  abbrev seen : Text → List Text → Bool
  seen q published = any (λ r. same_text q r) published

  seen_same :
      (q r : Text) (published : List Text)
      → same_text r q ≡ true
      → seen r published ≡ seen q published
  seen_same q r published same = ap (λ (t : Text). seen t published) ((same_text_iff r q).0 same)

  count_queue-find_handler :
      (q : Text) (hs : List LogicSubscriber) (published : List Text)
      → is_empty q ≡ false
      → count_queue q (find_handler hs subject stream published)
        ≡ (if seen q published then 0 else if has_group q hs then 1 else 0)
  unfolding find_handler
  count_queue-find_handler q [] published h = ground arith
  count_queue-find_handler q (x ∷ hs) published h =
      let added = count_queue-find_handler q hs (x.queue ∷ published) h in
      let same = count_queue-find_handler q hs published h in
      let filled = not_empty q x.queue h in
      let together = seen_same q x.queue published in
      ground (arith, same_text_iff q x.queue, same_text_iff x.queue q)

  kept :
      (h : LogicSubscriber) (b : Bool)
      → (b ≡ true → is_handler_matches h subject stream ≡ true)
      → (rest : List LogicSubscriber) → All (λ h. is_handler_matches h subject stream ≡ true) rest
      → All (λ h. is_handler_matches h subject stream ≡ true) (if b then h ∷ rest else rest)
  kept h true m rest r = (m refl, r)
  kept h false m rest r = r

  find_handler-matching :
      (hs : List LogicSubscriber) (published : List Text)
      → All
          (λ h. is_handler_matches h subject stream ≡ true)
          (find_handler hs subject stream published)
  unfolding find_handler
  find_handler-matching [] published = tt
  find_handler-matching (h ∷ hs) published =
      let yielded = is_handler_matches h subject stream && is_fresh h published in
      let next = if yielded then published_with h published else published in
      kept h yielded (λ t. ground arith) (find_handler hs subject stream next)
        (find_handler-matching hs next)

-- A message goes to subscribers that match it only: to each matching one without a queue group,
-- in their order, and for each group with a matching subscriber to exactly one of it.
pub find_handler-delivered :
    (subject stream : Text) (hs : List LogicSubscriber)
    → All (λ h. is_handler_matches h subject stream ≡ true) (find_handler hs subject stream [])
      × (ungrouped (find_handler hs subject stream []) ≡ ungrouped (matching subject stream hs))
      × ((q : Text)
          → is_empty q ≡ false
          → count_queue q (find_handler hs subject stream [])
            ≡ (if has_group subject stream q hs then 1 else 0))
find_handler-delivered subject stream hs = (
  find_handler-matching subject stream hs [],
  ungrouped-find_handler subject stream hs [],
  λ q h. count_queue-find_handler subject stream q hs [] h,
)
