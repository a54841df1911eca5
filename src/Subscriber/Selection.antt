-- ===== src/Subscriber/Selection.antt =====
-- Which handler a message goes to.
use faststream.Prelude.{ℕ, ◌≡◌, refl, ◌∙◌, ==-refl, Option, none, some, List, [], ◌∷◌, arith}
use faststream.Exceptions.{Exc, Result, ok, err, raised, subscriber_not_found}
use faststream.Exec.{Exec, continue-ok}
use faststream.Message.{set_decoder}
use faststream.Runtime.{World, on_message}
use faststream.Response.{Response, Returned}
use faststream.Middleware.{Middleware}
use faststream.Subscriber.{
  Subscriber, HandlerItem, is_suitable, handle, cached_message, set_up, parse_cached, filtered,
  try_calls,
}

-- How a search through the handlers ends.
pub data Ending (U : Type 0) : Type 0 where
  chosen : HandlerItem U → ℕ → Ending U
  not_found : Ending U
  failed : Exc → Ending U

module _ {U : Type 0} (s : Subscriber U) (raw : ℕ) where
  -- The handlers are asked in order, each in the state that the one before it left. The first that
  -- is suitable is chosen; an exception ends the search; the last may be unsuitable too.
  pub data Search
      : List (HandlerItem U) → List (ℕ × ℕ) → World U → Ending U → World U → Type 0 where
    suitable :
        (h : HandlerItem U) (hs : List (HandlerItem U)) (cache cache' : List (ℕ × ℕ))
        (w w' : World U) (m : ℕ)
        → is_suitable s.parse h raw cache w ≡ (ok (some m, cache'), w')
        → Search (h ∷ hs) cache w (chosen h m) w'
    unsuitable :
        (h : HandlerItem U) (hs : List (HandlerItem U)) (cache cache' : List (ℕ × ℕ))
        (w w' : World U) (e : Ending U) (w'' : World U)
        → is_suitable s.parse h raw cache w ≡ (ok (none, cache'), w')
        → Search hs cache' w' e w''
        → Search (h ∷ hs) cache w e w''
    broken :
        (h : HandlerItem U) (hs : List (HandlerItem U)) (cache : List (ℕ × ℕ)) (w w' : World U)
        (e : Exc)
        → is_suitable s.parse h raw cache w ≡ (err e, w')
        → Search (h ∷ hs) cache w (failed e) w'
    nothing : (cache : List (ℕ × ℕ)) (w : World U) → Search [] cache w not_found w

  -- What follows an ending: one handler is run, or an exception is raised.
  abbrev pub carry_out :
      List (Middleware U Returned) → Ending U → World U → Result (Option Response) × World U
  carry_out ms (chosen h m) w = handle s h m ms w
  carry_out ms not_found w = (err (raised subscriber_not_found), w)
  carry_out ms (failed e) w = (err e, w)

  try_calls-Search :
      (ms : List (Middleware U Returned)) {hs : List (HandlerItem U)} {cache : List (ℕ × ℕ)}
      {w : World U} {e : Ending U} {w' : World U}
      → Search hs cache w e w'
      → try_calls s hs raw cache ms w ≡ carry_out ms e w'
  unfolding try_calls
  try_calls-Search ms (suitable h hs cache cache' w w' m p) = rw (p, try_calls)
  try_calls-Search ms (unsuitable h hs cache cache' w w' e w'' p r) =
      rw (p, try_calls) (try_calls-Search ms r)
  try_calls-Search ms (broken h hs cache w w' e p) = rw (p, try_calls)
  try_calls-Search ms (nothing cache w) = refl

  search_from :
      (h : HandlerItem U) (hs : List (HandlerItem U)) (cache : List (ℕ × ℕ)) (w : World U)
      (r : Result (Option ℕ × List (ℕ × ℕ))) (w' : World U)
      → is_suitable s.parse h raw cache w ≡ (r, w')
      → ((c : List (ℕ × ℕ)) (v : World U) → (e : Ending U) × (v' : World U) × Search hs c v e v')
      → (e : Ending U) × (v' : World U) × Search (h ∷ hs) cache w e v'
  search_from h hs cache w (err e) w' p rest = (failed e, w', broken h hs cache w w' e p)
  search_from h hs cache w (ok (some m, c)) w' p rest =
      (chosen h m, w', suitable h hs cache c w w' m p)
  search_from h hs cache w (ok (none, c)) w' p rest =
      let (e, v, r) = rest c w' in (e, v, unsuitable h hs cache c w w' e v p r)

  search_total :
      (hs : List (HandlerItem U)) (cache : List (ℕ × ℕ)) (w : World U)
      → (e : Ending U) × (w' : World U) × Search hs cache w e w'
  search_total [] cache w = (not_found, w, nothing cache w)
  search_total (h ∷ hs) cache w =
      let found = is_suitable s.parse h raw cache w in
      search_from h hs cache w found.0 found.1 refl (search_total hs)

  -- Every message comes to one end: the handlers are asked in order until one is suitable or an
  -- exception is raised, and then the loop does just what that end asks for. The first suitable
  -- handler is run, and no other; an exception of a parser or a filter is passed on with no handler
  -- run; `SubscriberNotFound` is raised if none is suitable.
  pub try_calls-Ending :
      (ms : List (Middleware U Returned)) (hs : List (HandlerItem U)) (cache : List (ℕ × ℕ))
      (w : World U)
      → (e : Ending U) × (w' : World U) × Search hs cache w e w'
        × (try_calls s hs raw cache ms w ≡ carry_out ms e w')
  try_calls-Ending ms hs cache w =
      let (e, w', r) = search_total hs cache w in (e, w', r, try_calls-Search ms r)

module _ {U : Type 0} (parse : ℕ → ℕ → Exec (World U) ℕ) (h : HandlerItem U) (raw : ℕ) where
  set_up-cached :
      (cache cache' : List (ℕ × ℕ)) (w w' : World U) (found : Option ℕ) (p d : Option ℕ)
      → set_up parse h raw cache p d w ≡ (ok (found, cache'), w')
      → (q : ℕ) × (m : ℕ) × (p ≡ some q) × (cached_message q cache' ≡ some m)
  unfolding set_up cached_message
  set_up-cached cache cache' w w' found (some q) (some d) ran =
      let first = parse_cached parse q raw (cached_message q cache) w in
      let (m, parsed, after_parse) = continue-ok first.0 _ first.1 ran in
      let w1 = on_message m (set_decoder d) first.1 in
      let (passes, asked, returned) =
        continue-ok (h.filter m w1).0 _ (h.filter m w1).1 after_parse in
      (q, m, refl, ground (arith, ==-refl q))
  set_up-cached cache cache' w w' found (some q) none ran = cc
  set_up-cached cache cache' w w' found none d ran = cc

module _ {U : Type 0} where
  set_up-same :
      (parse again : ℕ → ℕ → Exec (World U) ℕ) (g : HandlerItem U) (raw : ℕ) (cache : List (ℕ × ℕ))
      (v : World U) (q m : ℕ)
      → cached_message q cache ≡ some m
      → (p d : Option ℕ) → p ≡ some q
      → set_up parse g raw cache p d v ≡ set_up again g raw cache p d v
  unfolding set_up
  set_up-same parse again g raw cache v q m cached (some p) (some d) e =
      let hit : cached_message p cache ≡ some m = cc in rw (hit, filtered)
  set_up-same parse again g raw cache v q m cached (some p) none e = refl
  set_up-same parse again g raw cache v q m cached none d e = refl

  -- A message is parsed once by each parser: after one handler was asked, the next handler with the
  -- same parser gets the same message object, and `parse` is not called again.
  pub is_suitable-parsed_once :
      (parse again : ℕ → ℕ → Exec (World U) ℕ) (h g : HandlerItem U) (raw : ℕ)
      (cache cache' : List (ℕ × ℕ)) (w w' v : World U) (found : Option ℕ)
      → is_suitable parse h raw cache w ≡ (ok (found, cache'), w')
      → g.parser ≡ h.parser
      → is_suitable parse g raw cache' v ≡ is_suitable again g raw cache' v
  unfolding is_suitable cached_message
  is_suitable-parsed_once parse again h g raw cache cache' w w' v found ran same =
      let (p, m, known, cached) =
        set_up-cached parse h raw cache cache' w w' found h.parser h.decoder ran in
      set_up-same parse again g raw cache' v p m cached g.parser g.decoder (same ∙ known)
