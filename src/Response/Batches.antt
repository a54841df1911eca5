-- ===== src/Response/Batches.antt =====
-- The bodies of a batch, and the headers of a command.
use faststream.Prelude.{
  String, ◌≡◌, refl, Bool, true, false, List, [], ◌∷◌, lookup, lookup-update, or_else, IsDict,
  if◌then◌else◌,
}
use faststream.Value.{Value, is_none}
use faststream.Response.{PublishCommand, batch_bodies, set_batch_bodies, add_headers}

-- The bodies that a rewritten batch carries: those that were written, but for a leading `None`,
-- which is dropped.
abbrev pub kept_bodies : List Value → List Value
kept_bodies [] = []
kept_bodies (v ∷ vs) = if is_none v then vs else v ∷ vs

-- Writing the bodies of a batch and reading them back gives what was written, without its first
-- body if that is `None`; and of the command nothing else changes.
pub batch_bodies-set_batch_bodies :
    (vs : List Value) (c : PublishCommand)
    → (batch_bodies (set_batch_bodies vs c) ≡ kept_bodies vs)
      × ((set_batch_bodies vs c).headers ≡ c.headers)
      × ((set_batch_bodies vs c).correlation_id ≡ c.correlation_id)
      × ((set_batch_bodies vs c).destination ≡ c.destination)
unfolding batch_bodies set_batch_bodies
batch_bodies-set_batch_bodies [] c = (refl, refl, refl, refl)
batch_bodies-set_batch_bodies (v ∷ vs) c = (refl, refl, refl, refl)

-- Adding headers to a command: where both name a key, the added ones win with `override`, and the
-- command's own without.
pub lookup-add_headers :
    (k : String) (added : List (String × Value)) (override : Bool) (c : PublishCommand)
    → IsDict added
    → IsDict c.headers
    → lookup k (add_headers added override c).headers ≡ (
        if override
        then or_else (lookup k added) (lookup k c.headers)
        else or_else (lookup k c.headers) (lookup k added))
unfolding add_headers
lookup-add_headers k added true c h own = lookup-update k c.headers added h
lookup-add_headers k added false c h own = lookup-update k added c.headers own
